-- ===== src/Prelude/Scan.antt =====
-- The source's loops over a whole table: the first entry that passes a test, and the entry with
-- the least key.
use Prim.Native.Nat.{ℕ, zero, suc, ◌+◌, ◌-◌, ◌≤◌, ◌<◌}
use mathlib.Core.Path.{◌≡◌, ◌∙◌, ap, refl, subst}
use mathlib.Core.Logic.{inl, inr}
use mathlib.Core.Bool.{Bool, true, false}
use mathlib.Core.List.{List, [], ◌∷◌}
use mathlib.Core.Option.{Option, none, some}
use native.Mathlib.Omega.{arith}
use battlezone_netcode_patch.Prelude.Tests.{ltb, if◌then◌else◌, Bool-cases}
use battlezone_netcode_patch.Prelude.Lists.{length, get_or, set}

module _ {ℓ} {A : Type ℓ} where
  -- for (i = 0; i < n; ++i) if (p(t[i])) return i, counted from `i`.
  unfoldable pub find_from : (A → Bool) → ℕ → List A → Option ℕ
  find_from p i [] = none
  find_from p i (x ∷ xs) = if p x then some i else find_from p (i + 1) xs

  unfoldable pub find_index? : (A → Bool) → List A → Option ℕ
  unfolding find_from
  find_index? p xs = find_from p 0 xs

  -- What a hit and a miss of the loop say.
  abbrev pub Found : (A → Bool) → A → ℕ → List A → Option ℕ → Type 0
  Found p d i xs none = (k : ℕ) → k < length xs → p (get_or xs k d) ≡ false
  Found p d i xs (some j) =
      (i ≤ j)
      × (j < i + length xs)
      × (p (get_or xs (j - i) d) ≡ true)
      × ((k : ℕ) → k < j - i → p (get_or xs k d) ≡ false)

  first_miss :
      (p : A → Bool) (d x : A) (xs : List A) (n : ℕ)
      → p x ≡ false
      → ((k : ℕ) → k < n → p (get_or xs k d) ≡ false)
      → (k : ℕ) → k < suc n
      → p (get_or (x ∷ xs) k d) ≡ false
  first_miss p d x xs n e h zero l = e
  first_miss p d x xs n e h (suc k) l = h k (omega arith)

  later_hit :
      (p : A → Bool) (d x : A) (i : ℕ) (xs : List A) (r : Option ℕ)
      → p x ≡ false
      → Found p d (i + 1) xs r
      → Found p d i (x ∷ xs) r
  later_hit p d x i xs none e f = first_miss p d x xs (length xs) e f
  later_hit p d x i xs (some j) e f =
      let shift : suc (j - (i + 1)) ≡ j - i = omega (arith, f.0) in
      (
        omega (arith, f.0),
        omega (arith, f.1),
        rw (← shift) f.2,
        rw (← shift) (first_miss p d x xs (j - (i + 1)) e f.3),
      )

  pub find_from-Found :
      (p : A → Bool) (d : A) (i : ℕ) (xs : List A) → Found p d i xs (find_from p i xs)
  unfolding find_from
  find_from-Found p d i [] = λ k l. elim l [ ]
  find_from-Found p d i (x ∷ xs) = elim (Bool-cases (p x)) [
    | inl e ↦
        let z : zero ≡ i - i = omega arith in
        rw e (omega arith, omega arith, rw (← z) e, rw (← z) (λ k l. elim l [ ]))
    | inr e ↦ rw e (later_hit p d x i xs _ e (find_from-Found p d (i + 1) xs))
  ]

  pub find_index?-Found : (p : A → Bool) (d : A) (xs : List A) → Found p d 0 xs (find_index? p xs)
  unfolding find_index?
  find_index?-Found p d xs = find_from-Found p d 0 xs

  -- best = 0; for (i = 1; i < n; ++i) if (key(t[i]) < key(t[best])) best = i.
  unfoldable pub min_from : (A → ℕ) → ℕ → ℕ → ℕ → List A → ℕ
  min_from key best least i [] = best
  min_from key best least i (x ∷ xs) =
      let less = ltb (key x) least in
      min_from key (if less then i else best) (if less then key x else least) (i + 1) xs

  unfoldable pub min_index : (A → ℕ) → List A → ℕ
  unfolding min_from
  min_index key [] = 0
  min_index key (x ∷ xs) = min_from key 0 (key x) 1 xs

-- for (i = 0; i < n; ++i) s = f(i, t[i], s), and the two rules for it: what every round keeps holds
-- at the end, and so does what the round of one entry sets and no later round undoes.
module _ {ℓ κ} {A : Type ℓ} {S : Type κ} where
  unfoldable pub fold_from : (ℕ → A → S → S) → ℕ → S → List A → S
  fold_from f i s [] = s
  fold_from f i s (x ∷ xs) = fold_from f (i + 1) (f i x s) xs

module _ {ℓ κ ι} {A : Type ℓ} {S : Type κ} (f : ℕ → A → S → S) (d : A) (all : List A)
    (P : S → Type ι) where
  abbrev Suffix : ℕ → List A → Type ℓ
  Suffix i xs = (k : ℕ) → k < length xs → get_or all (i + k) d ≡ get_or xs k d

  suffix-tail : (i : ℕ) (x : A) (xs : List A) → Suffix i (x ∷ xs) → Suffix (i + 1) xs
  suffix-tail i x xs h k l =
      let e : i + 1 + k ≡ i + suc k = omega arith in rw e (h (suc k) (omega arith))

  suffix-head : (i : ℕ) (x : A) (xs : List A) → Suffix i (x ∷ xs) → get_or all i d ≡ x
  suffix-head i x xs h = let e : i ≡ i + 0 = omega arith in rw e (h 0 (omega arith))

  fold_from_keeps :
      ((i : ℕ) (s : S) → i < length all → P s → P (f i (get_or all i d) s))
      → (i : ℕ) (s : S) (xs : List A) → i + length xs ≡ length all
      → Suffix i xs
      → P s
      → P (fold_from f i s xs)
  unfolding fold_from
  fold_from_keeps keep i s [] l h p = p
  fold_from_keeps keep i s (x ∷ xs) l h p =
      fold_from_keeps keep (i + 1) (f i x s) xs (omega (arith, l)) (suffix-tail i x xs h)
        (subst (λ y. P (f i y s)) (suffix-head i x xs h) (keep i s (omega (arith, l)) p))

  pub fold_keeps :
      ((i : ℕ) (s : S) → i < length all → P s → P (f i (get_or all i d) s))
      → (s : S) → P s
      → P (fold_from f 0 s all)
  fold_keeps keep s p =
      fold_from_keeps keep 0 s all (omega arith) (λ k l. let e : 0 + k ≡ k = omega arith in rw e) p

module _ {ℓ κ ι} {A : Type ℓ} {S : Type κ} (f : ℕ → A → S → S) (d : A) (P : S → Type ι)
    (stays : (i : ℕ) (x : A) (s : S) → P s → P (f i x s)) where
  fold_from_stays : (i : ℕ) (s : S) (xs : List A) → P s → P (fold_from f i s xs)
  unfolding fold_from
  fold_from_stays i s [] p = p
  fold_from_stays i s (x ∷ xs) p = fold_from_stays (i + 1) (f i x s) xs (stays i x s p)

  pub fold_hits :
      (i : ℕ) (s : S) (xs : List A) (j : ℕ)
      → j < length xs
      → ((k : ℕ) (s : S) → P (f k (get_or xs j d) s))
      → P (fold_from f i s xs)
  unfolding fold_from
  fold_hits i s [] j l h = elim l [ ]
  fold_hits i s (x ∷ xs) zero l h = fold_from_stays (i + 1) (f i x s) xs (h i s)
  fold_hits i s (x ∷ xs) (suc j) l h = fold_hits (i + 1) (f i x s) xs j (omega arith) h

-- The entry that `min_index` finds is in the table and has the least key.
module _ {ℓ} {A : Type ℓ} (key : A → ℕ) where
  min_from-bounds :
      (best least i : ℕ) (xs : List A) → best < i → min_from key best least i xs < i + length xs
  unfolding min_from
  min_from-bounds best least i [] h = omega arith
  min_from-bounds best least i (x ∷ xs) h = ground (
    arith,
    min_from-bounds i (key x) (i + 1) xs (omega arith),
    min_from-bounds best least (i + 1) xs (omega arith),
  )

  pub min_index-lt : (xs : List A) → 0 < length xs → min_index key xs < length xs
  unfolding min_index
  min_index-lt [] h = elim h [ ]
  min_index-lt (x ∷ xs) h = omega (arith, min_from-bounds 0 (key x) 1 xs (omega arith))

-- The search after a write: at an entry that passes neither before nor after it, and at the first entry
-- that passes.
module _ {ℓ} {A : Type ℓ} (p : A → Bool) (d : A) where
  find_from-set_miss :
      (i : ℕ) (xs : List A) (j : ℕ) (x : A)
      → j < length xs
      → p x ≡ false
      → p (get_or xs j d) ≡ false
      → find_from p i (set xs j x) ≡ find_from p i xs
  unfolding find_from
  find_from-set_miss i [] j x l e g = elim l [ ]
  find_from-set_miss i (y ∷ ys) zero x l e g = simp (e, g) refl
  find_from-set_miss i (y ∷ ys) (suc j) x l e g = elim (Bool-cases (p y)) [
    | inl h ↦ simp h refl
    | inr h ↦ simp h (find_from-set_miss (i + 1) ys j x (omega arith) e g)
  ]

  find_from-set_hit :
      (i : ℕ) (xs : List A) (j : ℕ) (x : A)
      → j < length xs
      → p x ≡ true
      → ((k : ℕ) → k < j → p (get_or xs k d) ≡ false)
      → find_from p i (set xs j x) ≡ some (i + j)
  unfolding find_from
  find_from-set_hit i [] j x l e h = elim l [ ]
  find_from-set_hit i (y ∷ ys) zero x l e h = let z : i + 0 ≡ i = omega arith in simp (e, z) refl
  find_from-set_hit i (y ∷ ys) (suc j) x l e h =
      let z : i + 1 + j ≡ i + suc j = omega arith in
      simp (h 0 (omega arith)) (
        find_from-set_hit (i + 1) ys j x (omega arith) e (λ k m. h (suc k) (omega arith))
        ∙ ap some z)

  pub find-set_miss :
      (xs : List A) (j : ℕ) (x : A)
      → j < length xs
      → p x ≡ false
      → p (get_or xs j d) ≡ false
      → find_index? p (set xs j x) ≡ find_index? p xs
  unfolding find_index?
  find-set_miss xs j x l e g = find_from-set_miss 0 xs j x l e g

  pub find-set_hit :
      (xs : List A) (j : ℕ) (x : A)
      → j < length xs
      → p x ≡ true
      → ((k : ℕ) → k < j → p (get_or xs k d) ≡ false)
      → find_index? p (set xs j x) ≡ some j
  unfolding find_index?
  find-set_hit xs j x l e h =
      let z : 0 + j ≡ j = omega arith in find_from-set_hit 0 xs j x l e h ∙ ap some z
