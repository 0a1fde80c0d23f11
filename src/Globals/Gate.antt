-- ===== src/Globals/Gate.antt =====
-- What `net_globals_apply` may write.
use battlezone_netcode_patch.Prelude.{
  ℕ, ◌≤◌, ◌≡◌, ◌≢◌, ◌∙◌, subst, sym, refl, ◌⊎◌, inl, inr, ◌||◌, List, [], ◌∷◌, arith, Bool-cases,
  ltb, ◌==◌, ◌!=◌,
}
use battlezone_netcode_patch.Globals.{
  NetGlobalState, pending, applied, vetoed, NetGlobal, write, apply_state, apply_one,
  net_globals_apply,
}

-- The entry has passed the gate, and asserts `v` at `a`.
abbrev pub Asserts : NetGlobal → ℕ → ℕ → Type 0
Asserts g a v = (g.va ≡ a) × (g.state ≡ applied) × (g.want ≡ v) × (g.want ≢ 0)

abbrev pub SomeAsserts : List NetGlobal → ℕ → ℕ → Type 0
SomeAsserts [] a v = ⊥
SomeAsserts (g ∷ gs) a v = Asserts g a v ⊎ SomeAsserts gs a v

write_effect :
    (mem : ℕ → ℕ) (g : NetGlobal) (a : ℕ)
    → (write mem g a ≡ mem a) ⊎ ((g.va ≡ a) × (g.want ≡ write mem g a))
unfolding write
write_effect mem g a = elim (Bool-cases (mem g.va != g.want)) [
  | inr e ↦ inl (simp e)
  | inl e ↦ elim (Bool-cases (a == g.va)) [
    | inl f ↦ inr (ground arith, simp (e, f))
    | inr f ↦ inl (simp (e, f))
  ]
]

-- The live value is one that the setting may have.
abbrev pub Plausible : NetGlobal → ℕ → Type 0
Plausible g live = (g.lo ≤ live) × (live ≤ g.hi)

-- What is known of an entry in the state `s`: where it is applied, the value that it was examined on
-- was plausible.
abbrev pub Examined : NetGlobal → NetGlobalState → Type 0
Examined g pending = Unit
Examined g vetoed = Unit
Examined g applied = Plausible g g.seen

abbrev pub AllExamined : List NetGlobal → Type 0
AllExamined [] = Unit
AllExamined (g ∷ gs) = Examined g g.state × AllExamined gs

-- An entry in the state `s` may be written over `live`: it was applied before, or `live` is plausible.
abbrev pub Allowed : NetGlobal → ℕ → NetGlobalState → Type 0
Allowed g live pending = Plausible g live
Allowed g live applied = Unit
Allowed g live vetoed = ⊥

abbrev pub Passes : NetGlobal → ℕ → ℕ → Type 0
Passes g a live = (g.va ≡ a) × (g.want ≢ 0) × Allowed g live g.state

abbrev pub SomePasses : List NetGlobal → ℕ → ℕ → Type 0
SomePasses [] a live = ⊥
SomePasses (g ∷ gs) a live = Passes g a live ⊎ SomePasses gs a live

-- What a round does to the word at `a`.
abbrev Gated : (ℕ → ℕ) → NetGlobal → ℕ → ℕ × (ℕ → ℕ) × NetGlobal → Type 0
Gated mem g a (k, mem', g') = (mem' a ≡ mem a) ⊎ (Asserts g' a (mem' a) × Passes g a (mem a))

here-Allowed :
    (mem : ℕ → ℕ) (g : NetGlobal) (a : ℕ) (s : NetGlobalState)
    → g.state ≡ s
    → g.va ≡ a
    → Allowed g (mem g.va) s
    → Allowed g (mem a) g.state
here-Allowed mem g a s e v k =
    subst (Allowed g (mem a)) (sym e) (subst (λ x. Allowed g (mem x) s) v k)

apply_state-Gated :
    (mem : ℕ → ℕ) (g : NetGlobal) (a : ℕ) (s : NetGlobalState)
    → g.state ≡ s
    → g.want ≢ 0
    → Gated mem g a (apply_state mem g s)
unfolding apply_state
apply_state-Gated mem g a vetoed e w = inl refl
apply_state-Gated mem g a applied e w = elim (write_effect mem g a) [
  | inl p ↦ inl p
  | inr (v, t) ↦ inr ((v, e, t, w), (v, w, here-Allowed mem g a applied e v tt))
]
apply_state-Gated mem g a pending e w =
    elim (Bool-cases (ltb (mem g.va) g.lo || ltb g.hi (mem g.va))) [
      | inl f ↦ simp (f, apply_state) (inl refl)
      | inr f ↦ elim (write_effect mem g a) [
        | inl p ↦ simp (f, apply_state) (inl p)
        | inr (v, t) ↦
            let ok : Plausible g (mem g.va) = (ground (arith, f), ground (arith, f)) in
            simp (f, apply_state)
              (inr ((v, refl, t, w), (v, w, here-Allowed mem g a pending e v ok)))
      ]
    ]

apply_one-Gated : (mem : ℕ → ℕ) (g : NetGlobal) (a : ℕ) → Gated mem g a (apply_one mem g)
unfolding apply_one
apply_one-Gated mem g a = elim (Bool-cases (g.want == 0)) [
  | inl e ↦ rw (e, apply_one) (inl refl)
  | inr e ↦ rw (e, apply_one) (apply_state-Gated mem g a g.state refl (ground (arith, e)))
]

-- What a pass does: the word at `a` stays, or an entry of the table asserts it, and the gate let one
-- write over what was there.
abbrev pub Guarded : (ℕ → ℕ) → List NetGlobal → ℕ → ℕ × (ℕ → ℕ) × List NetGlobal → Type 0
Guarded mem t a (n, mem', t') =
    (mem' a ≡ mem a) ⊎ (SomeAsserts t' a (mem' a) × SomePasses t a (mem a))

pub pass-Guarded :
    (mem : ℕ → ℕ) (t : List NetGlobal) (a : ℕ) → Guarded mem t a (net_globals_apply mem t)
unfolding net_globals_apply
pass-Guarded mem [] a = inl refl
pass-Guarded mem (g ∷ gs) a =
    let r = apply_one mem g in
    let one = apply_one-Gated mem g a in
    elim (pass-Guarded r.1 gs a) [
      | inr (s, q) ↦ elim one [
        | inl e ↦ inr (inr s, inr (subst (SomePasses gs a) e q))
        | inr (v, p) ↦ inr (inr s, inl p)
      ]
      | inl e ↦ elim one [
        | inl f ↦ inl (e ∙ f)
        | inr ((v, s, w, z), p) ↦ inr (inl (v, s, w ∙ sym e, z), inl p)
      ]
    ]

state-Examined :
    (mem : ℕ → ℕ) (g : NetGlobal) (s : NetGlobalState)
    → g.state ≡ s
    → Examined g s
    → let g' = (apply_state mem g s).2 in Examined g' g'.state
unfolding apply_state
state-Examined mem g vetoed e x = subst (Examined g) (sym e) tt
state-Examined mem g applied e x = subst (Examined g) (sym e) x
state-Examined mem g pending e x = elim (Bool-cases (ltb (mem g.va) g.lo || ltb g.hi (mem g.va))) [
  | inl f ↦ simp (f, apply_state) tt
  | inr f ↦ simp (f, apply_state) (ground (arith, f), ground (arith, f))
]

one-Examined :
    (mem : ℕ → ℕ) (g : NetGlobal)
    → Examined g g.state
    → let g' = (apply_one mem g).2 in Examined g' g'.state
unfolding apply_one
one-Examined mem g x = elim (Bool-cases (g.want == 0)) [
  | inl e ↦ rw (e, apply_one) x
  | inr e ↦ rw (e, apply_one) (state-Examined mem g g.state refl x)
]

pass-AllExamined :
    (mem : ℕ → ℕ) (t : List NetGlobal) → AllExamined t → AllExamined (net_globals_apply mem t).2
unfolding net_globals_apply
pass-AllExamined mem [] x = tt
pass-AllExamined mem (g ∷ gs) x =
    (one-Examined mem g x.0, pass-AllExamined (apply_one mem g).1 gs x.1)

-- The writes pass the sanity gate. Take a table in which every applied entry was examined on a value
-- between its bounds, such as one with no applied entry. After a pass over it, a word of the game's
-- memory is what it was; or it is the target of an applied entry for that address, and some entry for
-- that address with a target was applied before the pass, or the word that the pass found there lay
-- between the bounds of that entry. And the table is again one in which every applied entry was
-- examined on a value between its bounds.
pub writes_are_gated :
    (mem : ℕ → ℕ) (t : List NetGlobal) (a : ℕ)
    → AllExamined t
    → Guarded mem t a (net_globals_apply mem t) × AllExamined (net_globals_apply mem t).2
writes_are_gated mem t a x = (pass-Guarded mem t a, pass-AllExamined mem t x)
