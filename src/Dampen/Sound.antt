-- ===== src/Dampen/Sound.antt =====
-- What the ring of one peer knows: every entry that it retains is a copy that was sent.
use battlezone_netcode_patch.Prelude.{
  ℕ, suc, ◌+◌, ◌%◌, ◌≤◌, ◌<◌, ◌≡◌, ◌∙◌, sym, ap, subst, refl, ◌⊎◌, inl, inr, List, [], ◌∷◌, ◌++◌,
  All, All-set, All-map_weaken, get_or, set, length, length-set, arith, Bool-cases, ltb,
}
use battlezone_netcode_patch.Prelude.Ring.{
  window, window-push, window-pop, window-set, window_overwrite,
}
use battlezone_netcode_patch.Dampen.{
  DampenEntry, DampenPeer, dampen_slots, dampen_floor_ms, dampen_max_ms, dampen_window_for,
  zero_entry,
}
use battlezone_netcode_patch.Dampen.Peer.{recent, dampen_add_slot}

-- A copy that went out: to whom, its sequence, and when.
pub record Copy : Type 0 where
  pub addr : ℕ
  pub seq : ℕ
  pub at : ℕ

-- The copy is in the history, whose newest copy comes first.
abbrev pub WasSent : List Copy → Copy → Type 0
WasSent [] x = ⊥
WasSent (y ∷ ys) x = (x ≡ y) ⊎ WasSent ys x

abbrev pub IsKnown : List Copy → ℕ → DampenEntry → Type 0
IsKnown h addr e =
    WasSent h (record { addr = addr; seq = e.seq; at = e.last_sent_ms })
    × (e.window_ms ≤ dampen_max_ms)

abbrev pub IsSound : List Copy → DampenPeer → Type 0
IsSound h p =
    (p.head < dampen_slots)
    × (p.used ≤ dampen_slots)
    × (dampen_slots ≤ length p.slots)
    × All (IsKnown h p.addr) (recent p)

-- The window stays between the floor and the ceiling, whatever the estimate.
pub window_for_bounds :
    (p : DampenPeer)
    → (dampen_floor_ms ≤ dampen_window_for p) × (dampen_window_for p ≤ dampen_max_ms)
unfolding dampen_window_for
window_for_bounds p = ground arith

All-append {ℓ κ} :
    {A : Type ℓ} (P : A → Type κ) (xs ys : List A) → All P xs → All P ys → All P (xs ++ ys)
All-append P [] ys h k = k
All-append P (x ∷ xs) ys h k = (h.0, All-append P xs ys h.1 k)

pub later-IsSound : (h : List Copy) (x : Copy) (p : DampenPeer) → IsSound h p → IsSound (x ∷ h) p
later-IsSound h x p (a, b, c, k) = (
  a,
  b,
  c,
  All-map_weaken (IsKnown h p.addr) (IsKnown (x ∷ h) p.addr) (recent p) (λ e (s, w). (inr s, w)) k,
)

pub add_slot-IsSound :
    (h : List Copy) (p : DampenPeer) (e : DampenEntry)
    → IsSound h p
    → IsKnown h p.addr e
    → IsSound h (dampen_add_slot p e)
unfolding dampen_add_slot
add_slot-IsSound h p e (a, b, c, k) ke = elim (Bool-cases (ltb p.used dampen_slots)) [
  | inl f ↦
      let room : p.used < dampen_slots = ground arith in
      let one : p.used + 1 ≡ suc p.used = omega arith in
      simp f (
        a,
        omega arith,
        simp length-set c,
        subst
            (λ n. All (IsKnown h p.addr) (
              window zero_entry dampen_slots (set p.slots ((p.head + p.used) % dampen_slots) e)
                p.head n))
            (sym one)
            (subst (All (IsKnown h p.addr))
              (sym (window-push zero_entry dampen_slots p.slots p.head p.used e a c room))
              (All-append (IsKnown h p.addr) (recent p) (e ∷ []) k (ke, tt))),
      )
  | inr f ↦
      let full : p.used ≡ suc 511 = ground arith in
      let old : All (IsKnown h p.addr) (
          get_or p.slots p.head zero_entry
          ∷ window zero_entry dampen_slots p.slots ((p.head + 1) % dampen_slots) 511) =
        subst (All (IsKnown h p.addr))
          (ap (window zero_entry dampen_slots p.slots p.head) full
            ∙ window-pop zero_entry dampen_slots p.slots p.head 511 a)
          k in
      simp f (
        omega arith,
        b,
        simp length-set c,
        subst
            (λ n. All (IsKnown h p.addr) (
              window zero_entry dampen_slots (set p.slots p.head e) ((p.head + 1) % dampen_slots)
                n))
            (sym full)
            (subst (All (IsKnown h p.addr))
              (sym (window_overwrite zero_entry dampen_slots p.slots p.head 511 e a c refl))
              (All-append (IsKnown h p.addr)
                (window zero_entry dampen_slots p.slots ((p.head + 1) % dampen_slots) 511) (e ∷ [])
                old.1 (ke, tt))),
      )
]

-- An entry written in place of the one at offset `k`.
pub set_entry-IsSound :
    (h : List Copy) (p : DampenPeer) (k : ℕ) (e : DampenEntry)
    → IsSound h p
    → k < p.used
    → IsKnown h p.addr e
    → IsSound h (record p { slots = set p.slots ((p.head + k) % dampen_slots) e })
set_entry-IsSound h p k e (a, b, c, s) l ke = (
  a,
  b,
  simp length-set c,
  subst (All (IsKnown h p.addr))
      (sym (window-set zero_entry dampen_slots p.slots p.head p.used k e a c b l))
      (All-set (IsKnown h p.addr) (recent p) k e s ke),
)
