-- ===== src/Prelude/Compact.antt =====
-- A purge of a ring of slots in place, as a loop: the entries that are kept move towards the head.
use mathlib.Core.List.{append_assoc, append-nil}
use mathlib.Core.Path.{◌≡◌, refl, ap, ap₂, ◌∙◌, sym, subst}
use mathlib.Core.Bool.{not, ◌&&◌}
use mathlib.Core.Logic.{inl, inr}
use mathlib.Core.List.{List, [], ◌∷◌, ◌++◌}
use Prim.Native.Nat.{ℕ, zero, suc, ◌+◌, ◌%◌, ◌≤◌, ◌<◌}
use native.Mathlib.Omega.{arith}
use battlezone_netcode_patch.Prelude.Tests.{◌==◌, ◌!=◌, if◌then◌else◌, Bool-cases}
use battlezone_netcode_patch.Prelude.Lists.{length, get_or, set, length-set}
use battlezone_netcode_patch.Prelude.Ring.{visit, window, visit-snoc, visit-set_ne, window-push}

module _ {ℓ} {A : Type ℓ} (d : A) (cap : ℕ) (key : A → ℕ) where
  -- for (i = 0; i < count; ++i) { e = q[(h + i) % cap]; if (e.key == k) continue; if (kept != i)
  -- q[(h + kept) % cap] = e; kept++; }, with `n` entries still to visit.
  unfoldable pub compact : ℕ → ℕ → ℕ → ℕ → ℕ → List A → ℕ × List A
  compact k h zero i kept q = (kept, q)
  compact k h (suc n) i kept q =
      let e = get_or q ((h + i) % cap) d in
      let kept' = if key e == k then kept else kept + 1 in
      let q' = if not (key e == k) && kept != i then set q ((h + kept) % cap) e else q in
      compact k h n (i + 1) kept' q'

module _ {ℓ} {A : Type ℓ} (key : A → ℕ) (k : ℕ) where
  -- The entries with another key, in order.
  abbrev pub without : List A → List A
  without [] = []
  without (e ∷ es) = if key e == k then without es else e ∷ without es

module _ {ℓ} {A : Type ℓ} (d : A) (cap : ℕ) (key : A → ℕ) (k h : ℕ) where
  abbrev ring : List A → ℕ → List A
  ring q n = window d cap q h n

  abbrev rest : List A → ℕ → ℕ → List A
  rest q i n = visit d cap q h i n

  -- What the loop leaves, when `out` is to be queued.
  abbrev pub Leaves : List A → ℕ → ℕ × List A → Type ℓ
  Leaves out bound (kept, q) = (ring q kept ≡ out) × (cap ≤ length q) × (kept ≤ bound)

  -- The ring with the entry `i` moved to the place `kept`.
  abbrev moved : List A → ℕ → ℕ → List A
  moved q kept i = if kept != i then set q ((h + kept) % cap) (get_or q ((h + i) % cap) d) else q

  moved_lem :
      (q : List A) (kept i n : ℕ)
      → h < cap
      → cap ≤ length q
      → kept ≤ i
      → i + suc n ≤ cap
      → (ring (moved q kept i) (kept + 1) ≡ ring q kept ++ get_or q ((h + i) % cap) d ∷ [])
        × (rest (moved q kept i) (i + 1) n ≡ rest q (i + 1) n)
        × (cap ≤ length (moved q kept i))
  moved_lem q kept i n hh hc le l =
      let e = get_or q ((h + i) % cap) d in
      let one : kept + 1 ≡ suc kept = omega arith in
      elim (Bool-cases (kept != i)) [
        | inl f ↦ simp f (
          ap (ring (set q ((h + kept) % cap) e)) one
              ∙ window-push d cap q h kept e hh hc (omega arith),
          visit-set_ne d cap q h (i + 1) n kept e hh (omega arith) (omega arith)
              (inl (omega arith)),
          omega (arith, length-set q ((h + kept) % cap) e),
        )
        | inr f ↦
            let same : kept ≡ i = ground arith in
            simp f (
              ap (ring q) one
                  ∙ visit-snoc d cap q h 0 kept
                  ∙ (let z : 0 + kept ≡ i = omega arith in
                      ap (λ m. ring q kept ++ get_or q ((h + m) % cap) d ∷ []) z),
              refl,
              hc,
            )
      ]

  pub compact-Leaves :
      (n i kept : ℕ) (q : List A)
      → h < cap
      → cap ≤ length q
      → kept ≤ i
      → i + n ≤ cap
      → Leaves
          (ring q kept ++ without key k (rest q i n))
          (i + n)
          (compact d cap key k h n i kept q)
  unfolding compact
  compact-Leaves zero i kept q hh hc le l = (sym (append-nil (ring q kept)), hc, omega arith)
  compact-Leaves (suc n) i kept q hh hc le l =
      let e = get_or q ((h + i) % cap) d in
      let bound : i + 1 + n ≡ i + suc n = omega arith in
      elim (Bool-cases (key e == k)) [
        | inl f ↦ simp f (
            subst
              (λ b.
                Leaves (ring q kept ++ without key k (rest q (i + 1) n)) b
                  (compact d cap key k h n (i + 1) kept q))
              bound (compact-Leaves n (i + 1) kept q hh hc (omega arith) (omega arith)))
        | inr f ↦
            let m = moved_lem q kept i n hh hc le l in
            let out : ring (moved q kept i) (kept + 1)
                  ++ without key k (rest (moved q kept i) (i + 1) n)
                ≡ ring q kept ++ e ∷ without key k (rest q (i + 1) n) =
              simp (m.0, m.1)
                (append_assoc (ring q kept) (e ∷ []) (without key k (rest q (i + 1) n))) in
            simp f (
              subst
                (λ (r : List A × ℕ).
                  Leaves r.0 r.1 (compact d cap key k h n (i + 1) (kept + 1) (moved q kept i)))
                (ap₂ (λ o b. (o, b)) out bound)
                (compact-Leaves n (i + 1) (kept + 1) (moved q kept i) hh m.2 (omega arith)
                  (omega arith)))
      ]
