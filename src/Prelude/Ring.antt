-- ===== src/Prelude/Ring.antt =====
-- A ring of slots in an array: the entries that the loops `slots[(head + i) % cap]` visit, as a list,
-- and what a write, an append and a removal of the oldest do to that list.
use native.Mathlib.Nat.{mod-eq_of_lt, mod-eq-sub-mod, mod-add-mod, add-zero, zero-add}
use Prim.Native.Nat.{ℕ, zero, suc, ◌+◌, ◌-◌, ◌%◌, ◌≤◌, ◌<◌}
use mathlib.Core.Path.{◌≡◌, refl, ap, ap₂, ◌∙◌, sym}
use mathlib.Core.Logic.{◌≢◌, ◌⊎◌, inl, inr}
use mathlib.Core.List.{List, [], ◌∷◌, ◌++◌}
use native.Mathlib.Omega.{arith}
use battlezone_netcode_patch.Prelude.Tests.{ltb, if◌then◌else◌, Bool-cases}
use battlezone_netcode_patch.Prelude.Lists.{length, get_or, set, get_or-set_self, get_or-set_ne}

pub mod_once : (x p : ℕ) → x < p + p → x % p ≡ (if ltb x p then x else x - p)
mod_once x p h = elim (Bool-cases (ltb x p)) [
  | inl e ↦ rw e (mod-eq_of_lt (ground arith))
  | inr e ↦ rw e (
      mod-eq-sub-mod {n = x} {m = p} (ground arith)
      ∙ mod-eq_of_lt {n = x - p} {m = p} (ground arith))
]

-- Different offsets below the capacity are different slots.
pub slot-ne : (cap h i j : ℕ) → h < cap → i < cap → j < cap → i ≢ j → (h + i) % cap ≢ (h + j) % cap
slot-ne cap h i j hh hi hj ne =
    ground (arith, mod_once (h + i) cap (omega arith), mod_once (h + j) cap (omega arith))

pub slot-lt : (cap h i : ℕ) → h < cap → (h + i) % cap < cap
slot-lt cap h i hh = omega arith

module _ {ℓ} {A : Type ℓ} (d : A) (cap : ℕ) where
  -- The `n` entries from offset `i` on.
  abbrev pub visit : List A → ℕ → ℕ → ℕ → List A
  visit slots h i zero = []
  visit slots h i (suc n) = get_or slots ((h + i) % cap) d ∷ visit slots h (i + 1) n

  -- The `used` entries of the ring, oldest first.
  abbrev pub window : List A → ℕ → ℕ → List A
  window slots h used = visit slots h 0 used

  length-visit : (slots : List A) (h i n : ℕ) → length (visit slots h i n) ≡ n
  length-visit slots h i zero = refl
  length-visit slots h i (suc n) = ap suc (length-visit slots h (i + 1) n)

  visit-get :
      (slots : List A) (h i n k : ℕ)
      → k < n
      → get_or (visit slots h i n) k d ≡ get_or slots ((h + (i + k)) % cap) d
  visit-get slots h i zero k l = elim l [ ]
  visit-get slots h i (suc n) zero l = let e : i ≡ i + 0 = omega arith in rw (← e)
  visit-get slots h i (suc n) (suc k) l =
      let e : i + 1 + k ≡ i + suc k = omega arith in
      visit-get slots h (i + 1) n k (omega arith) ∙ ap (λ m. get_or slots ((h + m) % cap) d) e

  visit-shift :
      (slots : List A) (h i n : ℕ) → visit slots ((h + 1) % cap) i n ≡ visit slots h (i + 1) n
  visit-shift slots h i zero = refl
  visit-shift slots h i (suc n) =
      let e : ((h + 1) % cap + i) % cap ≡ (h + (i + 1)) % cap =
        rw mod-add-mod (ap (λ k. k % cap) (omega arith)) in
      ap₂ ◌∷◌ (ap (λ k. get_or slots k d) e) (visit-shift slots h (i + 1) n)

  pub visit-snoc :
      (slots : List A) (h i n : ℕ)
      → visit slots h i (suc n) ≡ visit slots h i n ++ get_or slots ((h + (i + n)) % cap) d ∷ []
  visit-snoc slots h i zero = let e : i ≡ i + 0 = omega arith in rw (← e)
  visit-snoc slots h i (suc n) =
      let e : i + 1 + n ≡ i + suc n = omega arith in
      ap (◌∷◌ (get_or slots ((h + i) % cap) d)) (
        visit-snoc slots h (i + 1) n
        ∙ ap (λ k. visit slots h (i + 1) n ++ get_or slots ((h + k) % cap) d ∷ []) e)

  pub visit-set_ne :
      (slots : List A) (h i n k : ℕ) (v : A)
      → h < cap
      → i + n ≤ cap
      → k < cap
      → (k < i) ⊎ (i + n ≤ k)
      → visit (set slots ((h + k) % cap) v) h i n ≡ visit slots h i n
  visit-set_ne slots h i zero k v hh l hk o = refl
  visit-set_ne slots h i (suc n) k v hh l hk o =
      ap₂ ◌∷◌
        (get_or-set_ne slots ((h + k) % cap) ((h + i) % cap) v d
          (slot-ne cap h k i hh hk (omega arith) (omega arith)))
        (visit-set_ne slots h (i + 1) n k v hh (omega arith) hk (omega arith))

  visit-set :
      (slots : List A) (h i n k t : ℕ) (v : A)
      → h < cap
      → cap ≤ length slots
      → i + n ≤ cap
      → k < n
      → t ≡ (h + (i + k)) % cap
      → visit (set slots t v) h i n ≡ set (visit slots h i n) k v
  visit-set slots h i zero k t v hh hc l hk e = elim hk [ ]
  visit-set slots h i (suc n) zero t v hh hc l hk e =
      let here : t ≡ (h + i) % cap = e ∙ ap (λ m. (h + m) % cap) (add-zero i) in
      ap₂ ◌∷◌ (rw here (get_or-set_self slots ((h + i) % cap) v d (omega arith))) (
        ap (λ m. visit (set slots m v) h (i + 1) n) here
        ∙ visit-set_ne slots h (i + 1) n i v hh (omega arith) (omega arith) (inl (omega arith)))
  visit-set slots h i (suc n) (suc k) t v hh hc l hk e =
      let shift : i + suc k ≡ i + 1 + k = omega arith in
      let here : t ≡ (h + (i + 1 + k)) % cap = e ∙ ap (λ m. (h + m) % cap) shift in
      ap₂ ◌∷◌
        (rw here (
          get_or-set_ne slots ((h + (i + 1 + k)) % cap) ((h + i) % cap) v d
            (slot-ne cap h (i + 1 + k) i hh (omega arith) (omega arith) (omega arith))))
        (visit-set slots h (i + 1) n k t v hh hc (omega arith) (omega arith) here)

  pub length-window : (slots : List A) (h n : ℕ) → length (window slots h n) ≡ n
  length-window slots h n = length-visit slots h 0 n

  pub window-get :
      (slots : List A) (h n k : ℕ)
      → k < n
      → get_or (window slots h n) k d ≡ get_or slots ((h + k) % cap) d
  window-get slots h n k l =
      visit-get slots h 0 n k l ∙ ap (λ m. get_or slots ((h + m) % cap) d) (zero-add k)

  -- An entry written behind the newest extends the ring.
  pub window-push :
      (slots : List A) (h n : ℕ) (v : A)
      → h < cap
      → cap ≤ length slots
      → n < cap
      → window (set slots ((h + n) % cap) v) h (suc n) ≡ window slots h n ++ v ∷ []
  window-push slots h n v hh hc hn =
      visit-snoc (set slots ((h + n) % cap) v) h 0 n
      ∙ simp (
        zero-add,
        visit-set_ne slots h 0 n n v hh (omega arith) hn (inr (omega arith)),
        get_or-set_self slots ((h + n) % cap) v d (omega arith),
      )

  -- The oldest entry is at the head, and moving the head drops it.
  pub window-pop :
      (slots : List A) (h n : ℕ)
      → h < cap
      → window slots h (suc n) ≡ get_or slots h d ∷ window slots ((h + 1) % cap) n
  window-pop slots h n hh =
      ap₂ ◌∷◌ (simp (add-zero, mod-eq_of_lt hh)) (simp zero-add (sym (visit-shift slots h 0 n)))

  -- A write in place.
  pub window-set :
      (slots : List A) (h n k : ℕ) (v : A)
      → h < cap
      → cap ≤ length slots
      → n ≤ cap
      → k < n
      → window (set slots ((h + k) % cap) v) h n ≡ set (window slots h n) k v
  window-set slots h n k v hh hc hn hk =
      visit-set slots h 0 n k ((h + k) % cap) v hh hc (omega arith) hk
        (ap (λ m. (h + m) % cap) (sym (zero-add k)))

  -- In a full ring the new entry takes the slot of the oldest.
  pub window_overwrite :
      (slots : List A) (h n : ℕ) (v : A)
      → h < cap
      → cap ≤ length slots
      → suc n ≡ cap
      → window (set slots h v) ((h + 1) % cap) cap ≡ window slots ((h + 1) % cap) n ++ v ∷ []
  window_overwrite slots h n v hh hc e =
      let back : ((h + 1) % cap + n) % cap ≡ h =
        mod-add-mod (h + 1) cap n
        ∙ (let s : h + 1 + n ≡ h + cap = omega arith in
            rw s (mod_once (h + cap) cap (omega arith) ∙ ground arith)) in
      let next : (h + 1) % cap < cap = omega arith in
      ap (λ k. window (set slots h v) ((h + 1) % cap) k) (sym e)
      ∙ ap (λ k. window (set slots k v) ((h + 1) % cap) (suc n)) (sym back)
      ∙ window-push slots ((h + 1) % cap) n v next hc (omega arith)
