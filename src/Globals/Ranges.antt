-- ===== src/Globals/Ranges.antt =====
-- The targets of the settings, and what is written when they are applied.
use battlezone_netcode_patch.Prelude.{
  ℕ, ◌+◌, ◌≤◌, ◌≡◌, refl, ◌⊎◌, inl, inr, Bool, true, false, ◌&&◌, ◌||◌, Option, List, [], ◌∷◌,
  arith, Bool-cases, ltb, ◌==◌, ◌!=◌, if◌then◌else◌,
}
use battlezone_netcode_patch.Globals.{
  NetGlobalState, pending, applied, vetoed, NetGlobal, apply_state, apply_one, net_globals_apply,
}
use battlezone_netcode_patch.Globals.Configure.{
  net_globals_defaults, bz_net_tune, bz_autokick_relax, ng_parse_env_u32, ng_default_on, preset_of,
  wanted, configure_loop, net_globals_configure,
}
use battlezone_netcode_patch.Globals.Gate.{SomeAsserts, pass-Guarded}

-- No target, or one that the sanity gate of the entry lets through.
abbrev pub Fits : NetGlobal → ℕ → Type 0
Fits g v = (v ≡ 0) ⊎ ((g.lo ≤ v) × (v ≤ g.hi))

abbrev pub AllFit : List NetGlobal → Type 0
AllFit [] = 0 ≤ 0
AllFit (g ∷ gs) = Fits g g.want × AllFit gs

-- The same for the presets, from entry `i` on.
abbrev PresetsFit : Bool → Bool → ℕ → List NetGlobal → Type 0
PresetsFit tune relax i [] = 0 ≤ 0
PresetsFit tune relax i (g ∷ gs) =
    Fits g g.want × Fits g (preset_of tune relax i) × PresetsFit tune relax (i + 1) gs

-- An entry of the table whose bounds hold `v`.
abbrev pub SomeBounds : List NetGlobal → ℕ → ℕ → Type 0
SomeBounds [] a v = ⊥
SomeBounds (g ∷ gs) a v = ((g.va ≡ a) × (g.lo ≤ v) × (v ≤ g.hi)) ⊎ SomeBounds gs a v

-- A target changes no bounds.
same_bounds :
    (g : NetGlobal) (w a v : ℕ) (b : Bool)
    → let g' = if b then record g { want = w } else g in
      (g'.va ≡ a) × (g'.lo ≤ v) × (v ≤ g'.hi) → (g.va ≡ a) × (g.lo ≤ v) × (v ≤ g.hi)
same_bounds g w a v true h = h
same_bounds g w a v false h = h

module _ (getenv : List ℕ → Option (List ℕ)) (strtoul : List ℕ → ℕ × List ℕ) where
  wanted-Fits : (g : NetGlobal) (p : ℕ) → Fits g p → Fits g (wanted getenv strtoul g p)
  unfolding wanted
  wanted-Fits g p h =
      let want = ng_parse_env_u32 getenv strtoul g.env p in
      elim (Bool-cases (want != 0 && (ltb want g.lo || ltb g.hi want))) [
        | inl e ↦ simp e h
        | inr e ↦ simp e (ground arith)
      ]

  loop-AllFit :
      (tune relax : Bool) (i : ℕ) (gs : List NetGlobal)
      → PresetsFit tune relax i gs
      → AllFit (configure_loop getenv strtoul tune relax i gs)
  unfolding configure_loop
  loop-AllFit tune relax i [] h = h
  loop-AllFit tune relax i (g ∷ gs) (w, p, hs) = elim (Bool-cases (ltb i 10)) [
    | inl e ↦
        simp e (wanted-Fits g (preset_of tune relax i) p, loop-AllFit tune relax (i + 1) gs hs)
    | inr e ↦ simp e (w, loop-AllFit tune relax (i + 1) gs hs)
  ]

  loop-SomeBounds :
      (tune relax : Bool) (i : ℕ) (gs : List NetGlobal) (a v : ℕ)
      → SomeBounds (configure_loop getenv strtoul tune relax i gs) a v
      → SomeBounds gs a v
  unfolding configure_loop
  loop-SomeBounds tune relax i [] a v h = h
  loop-SomeBounds tune relax i (g ∷ gs) a v (inl h) =
      inl (same_bounds g (wanted getenv strtoul g (preset_of tune relax i)) a v (ltb i 10) h)
  loop-SomeBounds tune relax i (g ∷ gs) a v (inr h) =
      inr (loop-SomeBounds tune relax (i + 1) gs a v h)

presets-Fit : (tune relax : Bool) → PresetsFit tune relax 0 net_globals_defaults
unfolding preset_of
presets-Fit true true = omega arith
presets-Fit true false = omega arith
presets-Fit false true = omega arith
presets-Fit false false = omega arith

-- A round of `net_globals_apply` leaves the address and the target of its entry.
state_same :
    (mem : ℕ → ℕ) (g : NetGlobal) (s : NetGlobalState)
    → ((apply_state mem g s).2.va ≡ g.va) × ((apply_state mem g s).2.want ≡ g.want)
unfolding apply_state
state_same mem g vetoed = (refl, refl)
state_same mem g applied = (refl, refl)
state_same mem g pending = elim (Bool-cases (ltb (mem g.va) g.lo || ltb g.hi (mem g.va))) [
  | inl e ↦ simp e (refl, refl)
  | inr e ↦ simp e (refl, refl)
]

one_same :
    (mem : ℕ → ℕ) (g : NetGlobal)
    → ((apply_one mem g).2.va ≡ g.va) × ((apply_one mem g).2.want ≡ g.want)
unfolding apply_one
one_same mem g = elim (Bool-cases (g.want == 0)) [
  | inl e ↦ simp e (refl, refl)
  | inr e ↦ simp e (state_same mem g g.state)
]

-- What an entry asserts is within its bounds, if its target is.
asserted-SomeBounds :
    (mem : ℕ → ℕ) (t : List NetGlobal) (a v : ℕ)
    → AllFit t
    → SomeAsserts (net_globals_apply mem t).2 a v
    → SomeBounds t a v
unfolding net_globals_apply
asserted-SomeBounds mem [] a v f h = h
asserted-SomeBounds mem (g ∷ gs) a v (fit, f) (inl (at, s, w, z)) =
    let (same_va, same_want) = one_same mem g in inl (ground arith)
asserted-SomeBounds mem (g ∷ gs) a v (fit, f) (inr h) =
    inr (asserted-SomeBounds (apply_one mem g).1 gs a v f h)

-- Whatever the environment says and whatever `strtoul` makes of it, a pass over the configured table
-- changes a word of the game's memory only at the address of a setting, and to a value within the
-- sanity bounds of that setting.
pub configured_writes_in_range :
    (getenv : List ℕ → Option (List ℕ)) (strtoul : List ℕ → ℕ × List ℕ) (mem : ℕ → ℕ) (a : ℕ)
    → let (n, mem', t') =
        net_globals_apply mem (net_globals_configure getenv strtoul net_globals_defaults) in
      (mem' a ≡ mem a) ⊎ SomeBounds net_globals_defaults a (mem' a)
unfolding net_globals_configure
configured_writes_in_range getenv strtoul mem a =
    let tune = ng_default_on getenv bz_net_tune in
    let relax = ng_default_on getenv bz_autokick_relax in
    let t = configure_loop getenv strtoul tune relax 0 net_globals_defaults in
    let fit =
      loop-AllFit getenv strtoul tune relax 0 net_globals_defaults (presets-Fit tune relax) in
    let v = (net_globals_apply mem t).1 a in
    elim (pass-Guarded mem t a) [
      | inl e ↦ inl e
      | inr (h, p) ↦ inr (
          loop-SomeBounds getenv strtoul tune relax 0 net_globals_defaults a v
            (asserted-SomeBounds mem t a v fit h))
    ]
