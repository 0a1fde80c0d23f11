-- ===== src/Prelude/Bits.antt =====
-- Facts about `bit_or` and `bit_and` at variables: joining bytes, and testing the top bit.
use Prim.Native.Nat.{
  ℕ, zero, suc, ◌+◌, ◌*◌, ◌/◌, ◌%◌, ◌^◌, ◌≤◌, ◌<◌, max, bit_or, digits, bit_or-bitwise,
}
use mathlib.Core.Path.{◌≡◌, refl}
use mathlib.Core.Bool.{Bool, true, false, not, ◌&&◌}
use native.Mathlib.Nat.{pow-suc}
use native.Mathlib.Omega.{arith}

abbrev or_digits : ℕ → ℕ → ℕ → ℕ
or_digits n a b = digits (λ b. b) max n a b

or_digits_fuel : (n m a b : ℕ) → a ≤ n → a ≤ m → or_digits n a b ≡ or_digits m a b
or_digits_fuel zero zero a b p q = refl
or_digits_fuel zero (suc m) zero b p q = refl
or_digits_fuel zero (suc m) (suc a) b p q = absurd (omega arith)
or_digits_fuel (suc n) zero zero b p q = refl
or_digits_fuel (suc n) zero (suc a) b p q = absurd (omega arith)
or_digits_fuel (suc n) (suc m) zero b p q = refl
or_digits_fuel (suc n) (suc m) (suc a) b p q =
    omega (arith, or_digits_fuel n m (suc a / 2) (b / 2) (omega arith) (omega arith))

zero-bit_or : (b : ℕ) → bit_or 0 b ≡ b
zero-bit_or b = bit_or-bitwise 0 b

pub bit_or_step : (a b : ℕ) → bit_or a b ≡ bit_or (a / 2) (b / 2) * 2 + max (a % 2) (b % 2)
bit_or_step zero b = omega (arith, zero-bit_or b, zero-bit_or (b / 2))
bit_or_step (suc a) b = omega (
  arith,
  bit_or-bitwise (suc a) b,
  bit_or-bitwise (suc a / 2) (b / 2),
  or_digits_fuel a (suc a / 2) (suc a / 2) (b / 2) (omega arith) (omega arith),
)

bit_or-zero_fuel : (n a : ℕ) → a ≤ n → bit_or a 0 ≡ a
bit_or-zero_fuel n zero h = refl
bit_or-zero_fuel zero (suc a) h = absurd (omega arith)
bit_or-zero_fuel (suc n) (suc a) h =
    omega (arith, bit_or_step (suc a) 0, bit_or-zero_fuel n (suc a / 2) (omega arith))

pub bit_or-zero : (a : ℕ) → bit_or a 0 ≡ a
bit_or-zero a = bit_or-zero_fuel a a (omega arith)

or_disjoint_next :
    (m a b : ℕ)
    → ((b : ℕ) → b < m → bit_or (a * m) b ≡ a * m + b)
    → b < m * 2
    → bit_or (a * (m * 2)) b ≡ a * (m * 2) + b
or_disjoint_next m a b ih h =
    let half : a * (m * 2) / 2 ≡ a * m = omega arith in
    let step = bit_or_step (a * (m * 2)) b in
    omega (arith, rw half at step, ih (b / 2) (omega arith))

-- Or-ing into the low bits that a shift left clear is addition.
pub bit_or_disjoint : (k a b : ℕ) → b < 2 ^ k → bit_or (a * 2 ^ k) b ≡ a * 2 ^ k + b
bit_or_disjoint zero a b h =
    let z : zero ≡ b = omega arith in rw (← z) (omega (arith, bit_or-zero (a * 2 ^ 0)))
bit_or_disjoint (suc k) a b h =
    let e : 2 ^ suc k ≡ 2 ^ k * 2 = pow-suc 2 k in
    let h' : b < 2 ^ k * 2 = rw e at h in
    rw e (or_disjoint_next (2 ^ k) a b (bit_or_disjoint k a) h')

-- A statement about every byte, checked value by value.
unfoldable pub check_below : ℕ → (ℕ → Bool) → Bool
check_below zero p = true
check_below (suc n) p = p n && check_below n p

pub check_below_sound : (n : ℕ) (p : ℕ → Bool) (x : ℕ) → check_below n p ≡ true → x < n → p x ≡ true
unfolding check_below
check_below_sound zero p x h l = elim l [ ]
check_below_sound (suc n) p x h l = ground (arith, check_below_sound n p x)

infix 20 ◌is◌
abbrev pub ◌is◌ : Bool → Bool → Bool
true is b = b
false is b = not b

pub is→eq : (a b : Bool) → a is b ≡ true → a ≡ b
is→eq true true h = refl
is→eq true false h = cc
is→eq false true h = cc
is→eq false false h = refl
