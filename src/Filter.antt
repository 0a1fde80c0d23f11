-- ===== src/Filter.antt =====
-- shared/buffer_filter.h: the list of peers whose events the buffer log records. A `const char *` is
-- its bytes up to the terminating zero, and `none` is the null pointer.
pub mod Tokens
pub mod Tests
use Prim.Native.Nat.{bit_or}
use battlezone_netcode_patch.Prelude.{
  ℕ, ◌+◌, ◌-◌, ◌*◌, ◌^◌, Bool, true, false, not, ◌&&◌, ◌||◌, Option, none, some, List, [], ◌∷◌,
  ◌++◌, set, take, get_or, replicate, ltb, leb, ◌==◌, ◌!=◌, if◌then◌else◌, add32, mul32,
}
use battlezone_netcode_patch.Prelude.Scan.{find_index?}

abbrev pub peer_filter_cap : ℕ
peer_filter_cap = 8

pub record PeerFilter : Type 0 where
  pub count : ℕ
  pub ipv4 : List ℕ
  pub rejected : ℕ

abbrev pub peer_filter_init : PeerFilter
peer_filter_init = record { count = 0; ipv4 = replicate peer_filter_cap 0; rejected = 0 }

abbrev pub is_digit : ℕ → Bool
is_digit ch = leb 48 ch && leb ch 57

-- The separators of the list: a comma, a space and a tab.
abbrev pub is_separator : ℕ → Bool
is_separator ch = ch == 44 || ch == 32 || ch == 9

-- The first octet is the low byte.
unfoldable pub word_of : List ℕ → ℕ
word_of parts =
    bit_or
      (bit_or (bit_or (get_or parts 0 0) (get_or parts 1 0 * 2 ^ 8)) (get_or parts 2 0 * 2 ^ 16))
      (get_or parts 3 0 * 2 ^ 24)

pub record QuadState : Type 0 where
  pub parts : List ℕ
  pub index : ℕ
  pub digits : ℕ
  pub acc : ℕ

abbrev pub quad_start : QuadState
quad_start = record { parts = replicate 4 0; index = 0; digits = 0; acc = 0 }

-- The octet ends, at a dot or at the end.
unfoldable pub close_octet : QuadState → Option QuadState
close_octet s =
    if s.digits == 0 || ltb 255 s.acc || ltb 3 s.index
    then none
    else some
        (record { parts = set s.parts s.index s.acc; index = s.index + 1; digits = 0; acc = 0 })

-- One round of the loop of `peer_filter_parse_ipv4`, before the end; `none` is `return false`.
unfoldable pub quad_round : QuadState → ℕ → Option QuadState
quad_round s ch =
    if is_digit ch
    then (if ltb 3 (s.digits + 1)
        then none
        else some (record s { digits = s.digits + 1; acc = add32 (mul32 s.acc 10) (ch - 48) }))
    else if ch == 46
    then close_octet s
    else none

unfoldable pub quad_loop : Option QuadState → List ℕ → Option QuadState
quad_loop none chs = none
quad_loop (some s) [] = close_octet s
quad_loop (some s) (ch ∷ chs) = quad_loop (quad_round s ch) chs

unfoldable pub peer_filter_parse_ipv4 : List ℕ → Option ℕ
peer_filter_parse_ipv4 chs = elim (quad_loop (some quad_start) chs) [
  | none ↦ none
  | some s ↦ if s.index != 4 then none else some (word_of s.parts)
]

-- A token of the list is stored, or counted as rejected.
unfoldable pub add_token : PeerFilter → List ℕ → PeerFilter
add_token f token = elim (peer_filter_parse_ipv4 token) [
  | none ↦ record f { rejected = add32 f.rejected 1 }
  | some a ↦
      if ltb f.count peer_filter_cap
      then record f { ipv4 = set f.ipv4 f.count a; count = f.count + 1 }
      else record f { rejected = add32 f.rejected 1 }
]

-- The token that ends here, unless it is empty.
unfoldable pub end_token : PeerFilter → List ℕ → PeerFilter
end_token f [] = f
end_token f (ch ∷ chs) = add_token f (ch ∷ chs)

-- The loop of `peer_filter_parse`, with the token that is being read.
unfoldable pub spec_loop : PeerFilter → List ℕ → List ℕ → PeerFilter
spec_loop f token [] = end_token f token
spec_loop f token (ch ∷ chs) =
    let f' = if is_separator ch then end_token f token else f in
    let token' = if is_separator ch then [] else token ++ ch ∷ [] in spec_loop f' token' chs

unfoldable pub peer_filter_parse : Option (List ℕ) → PeerFilter
peer_filter_parse none = peer_filter_init
peer_filter_parse (some spec) = spec_loop peer_filter_init [] spec

unfoldable pub peer_filter_accepts : PeerFilter → ℕ → Bool
peer_filter_accepts f addr =
    if f.count == 0 || addr == 0
    then true
    else elim (find_index? (λ (a : ℕ). a == addr) (take f.count f.ipv4)) [
      | none ↦ false
      | some i ↦ true
    ]

pub data EnvOutcome : Type 0 where
  unset used clamped bad : EnvOutcome

unfoldable pub skip_while : (ℕ → Bool) → List ℕ → List ℕ
skip_while p [] = []
skip_while p (ch ∷ chs) = let rest = skip_while p chs in if p ch then rest else ch ∷ chs

abbrev pub is_blank : ℕ → Bool
is_blank ch = ch == 32 || ch == 9

abbrev pub starts_with_digit : List ℕ → Bool
starts_with_digit [] = false
starts_with_digit (ch ∷ chs) = is_digit ch

abbrev pub is_empty : List ℕ → Bool
is_empty [] = true
is_empty (ch ∷ chs) = false

-- Digits, with blanks on either side.
unfoldable pub is_number : List ℕ → Bool
is_number raw =
    let p = skip_while is_blank raw in
    starts_with_digit p && is_empty (skip_while is_blank (skip_while is_digit p))

unfoldable pub env_outcome : Option (List ℕ) → ℕ → ℕ → EnvOutcome
env_outcome none parsed effective = unset
env_outcome (some []) parsed effective = unset
env_outcome (some (ch ∷ chs)) parsed effective =
    if parsed == 0 && effective != 0 && not (is_number (ch ∷ chs))
    then bad
    else if parsed == effective
    then used
    else clamped
