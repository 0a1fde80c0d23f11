-- ===== src/Rtt/Ring.antt =====
-- The ring of outstanding sequences as a list: what retiring the oldest and writing a slot do to it.
use mathlib.Core.Path.{ap₂}
use native.Mathlib.Nat.{mod-add-mod}
use battlezone_netcode_patch.Prelude.{
  ℕ, zero, suc, ◌+◌, ◌-◌, ◌%◌, ◌≤◌, ◌<◌, ◌≡◌, ◌∙◌, sym, ap, refl, inl, false, List, ◌∷◌, drop,
  get_or, set, length, length-set, arith, sub32,
}
use battlezone_netcode_patch.Prelude.Ring.{visit, visit-set_ne}
use battlezone_netcode_patch.Rtt.{RttSlot, RttPeer, rtt_slots, zero_slot}
use battlezone_netcode_patch.Rtt.Peer.{outstanding}
use battlezone_netcode_patch.Rtt.Sample.{clear_loop, retire}

abbrev slots_from : List RttSlot → ℕ → ℕ → ℕ → List RttSlot
slots_from slots h i n = visit zero_slot rtt_slots slots h i n

shift_start :
    (slots : List RttSlot) (h k i n : ℕ)
    → slots_from slots ((h + k) % rtt_slots) i n ≡ slots_from slots h (k + i) n
shift_start slots h k i zero = refl
shift_start slots h k i (suc n) =
    let e : ((h + k) % rtt_slots + i) % rtt_slots ≡ (h + (k + i)) % rtt_slots =
      mod-add-mod (h + k) rtt_slots i
      ∙ (let s : h + k + i ≡ h + (k + i) = omega arith in ap (λ m. m % rtt_slots) s) in
    let s : k + (i + 1) ≡ k + i + 1 = omega arith in
    ap₂ ◌∷◌ (ap (λ m. get_or slots m zero_slot) e)
      (shift_start slots h k (i + 1) n ∙ ap (λ m. slots_from slots h m n) s)

drop-slots_from :
    (slots : List RttSlot) (h i k n : ℕ)
    → drop k (slots_from slots h i (k + n)) ≡ slots_from slots h (i + k) n
drop-slots_from slots h i zero n =
    let a : zero + n ≡ n = omega arith in
    let b : i ≡ i + zero = omega arith in
    ap (slots_from slots h i) a ∙ ap (λ m. slots_from slots h m n) b
drop-slots_from slots h i (suc k) n =
    let a : suc k + n ≡ suc (k + n) = omega arith in
    let b : i + 1 + k ≡ i + suc k = omega arith in
    ap (λ m. drop (suc k) (slots_from slots h i m)) a
    ∙ drop-slots_from slots h (i + 1) k n
    ∙ ap (λ m. slots_from slots h m n) b

-- Clearing the first slots leaves the later ones.
clear_loop-later :
    (h i n m : ℕ) (slots : List RttSlot)
    → h < rtt_slots
    → i + n + m ≤ rtt_slots
    → slots_from (clear_loop h i n slots) h (i + n) m ≡ slots_from slots h (i + n) m
unfolding clear_loop
clear_loop-later h i zero m slots hh l = refl
clear_loop-later h i (suc n) m slots hh l =
    let e : i + 1 + n ≡ i + suc n = omega arith in
    let j = (h + i) % rtt_slots in
    let v : RttSlot = record (get_or slots j zero_slot) { used = false } in
    ap (λ k. slots_from (clear_loop h (i + 1) n (set slots j v)) h k m) (sym e)
    ∙ clear_loop-later h (i + 1) n m (set slots j v) hh (omega arith)
    ∙ ap (λ k. slots_from (set slots j v) h k m) e
    ∙ visit-set_ne zero_slot rtt_slots slots h (i + suc n) m i v hh (omega arith) (omega arith)
        (inl (omega arith))

pub length-clear_loop :
    (h i n : ℕ) (slots : List RttSlot) → length (clear_loop h i n slots) ≡ length slots
unfolding clear_loop
length-clear_loop h i zero slots = refl
length-clear_loop h i (suc n) slots =
    let j = (h + i) % rtt_slots in
    let v : RttSlot = record (get_or slots j zero_slot) { used = false } in
    length-clear_loop h (i + 1) n (set slots j v) ∙ length-set slots j v

-- Retiring the `n` oldest slots drops them from the list.
pub retire-outstanding :
    (p : RttPeer) (n : ℕ)
    → p.head < rtt_slots
    → p.used ≤ rtt_slots
    → n ≤ p.used
    → outstanding (retire p n) ≡ drop n (outstanding p)
unfolding retire
retire-outstanding p n hh hu hn =
    let m = p.used - n in
    let a : sub32 p.used n ≡ m = ground arith in
    let b : n + m ≡ p.used = omega arith in
    let z : n + 0 ≡ n = omega arith in
    let z' : 0 + n ≡ n = omega arith in
    ap (slots_from (clear_loop p.head 0 n p.slots) ((p.head + n) % rtt_slots) 0) a
    ∙ shift_start (clear_loop p.head 0 n p.slots) p.head n 0 m
    ∙ ap (λ k. slots_from (clear_loop p.head 0 n p.slots) p.head k m) (z ∙ sym z')
    ∙ clear_loop-later p.head 0 n m p.slots hh (omega arith)
    ∙ sym (drop-slots_from p.slots p.head 0 n m)
    ∙ ap (λ k. drop n (slots_from p.slots p.head 0 k)) b
