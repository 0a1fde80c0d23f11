-- ===== src/Filter/Tokens.antt =====
-- The parser of the address list accounts for every token of it.
use battlezone_netcode_patch.Prelude.{
  ℕ, suc, ◌+◌, ◌^◌, ◌≤◌, ◌<◌, ◌≡◌, sym, subst, inl, inr, Bool, true, false, not, ◌||◌, some, List,
  [], ◌∷◌, ◌++◌, arith, Bool-cases, Option-cases, ltb, if◌then◌else◌,
}
use battlezone_netcode_patch.Filter.{
  PeerFilter, peer_filter_cap, peer_filter_init, is_separator, peer_filter_parse_ipv4, add_token,
  end_token, spec_loop, peer_filter_parse, is_empty,
}

-- The places where a token starts, the first flag saying that a separator or the start is before.
abbrev pub starts : Bool → List ℕ → ℕ
starts b [] = 0
starts b (ch ∷ chs) =
    let rest = starts (is_separator ch) chs in if is_separator ch || not b then rest else suc rest

-- The tokens of the list.
abbrev pub tokens : List ℕ → ℕ
tokens chs = starts true chs

abbrev pub total : PeerFilter → ℕ
total f = f.count + f.rejected

abbrev open_tokens : List ℕ → ℕ
open_tokens [] = 0
open_tokens (ch ∷ chs) = 1

-- The filter holds no more than its capacity, and `n` tokens are accounted for.
abbrev pub Accounts : ℕ → PeerFilter → Type 0
Accounts n f = (f.count ≤ peer_filter_cap) × (total f ≡ n)

add_token-Accounts :
    (f : PeerFilter) (token : List ℕ)
    → f.count ≤ peer_filter_cap
    → total f + 1 < 2 ^ 32
    → Accounts (total f + 1) (add_token f token)
unfolding add_token
add_token-Accounts f token c l = elim (Option-cases (peer_filter_parse_ipv4 token)) [
  | inl e ↦ rw (e, add_token) (c, ground arith)
  | inr (a, e) ↦ elim (Bool-cases (ltb f.count peer_filter_cap)) [
    | inl r ↦ simp (e, r, add_token) (ground arith, omega arith)
    | inr r ↦ simp (e, r, add_token) (c, ground arith)
  ]
]

end_token-Accounts :
    (f : PeerFilter) (token : List ℕ)
    → f.count ≤ peer_filter_cap
    → total f + open_tokens token < 2 ^ 32
    → Accounts (total f + open_tokens token) (end_token f token)
unfolding end_token
end_token-Accounts f [] c l = (c, omega arith)
end_token-Accounts f (ch ∷ chs) c l = add_token-Accounts f (ch ∷ chs) c l

open_or_start :
    (token : List ℕ) (rest : ℕ)
    → open_tokens token + (if not (is_empty token) then rest else suc rest) ≡ suc rest
open_or_start [] rest = omega arith
open_or_start (x ∷ xs) rest = omega arith

-- A token that goes on is open.
grown :
    (f g : PeerFilter) (token : List ℕ) (ch : ℕ) (chs : List ℕ)
    → (total f + (open_tokens (token ++ ch ∷ []) + starts (is_empty (token ++ ch ∷ [])) chs)
          < 2 ^ 32
        → Accounts
            (total f + (open_tokens (token ++ ch ∷ []) + starts (is_empty (token ++ ch ∷ [])) chs))
            g)
    → total f + (1 + starts false chs) < 2 ^ 32
    → Accounts (total f + (1 + starts false chs)) g
grown f g [] ch chs h l = h l
grown f g (x ∷ xs) ch chs h l = h l

spec_loop-Accounts :
    (f : PeerFilter) (token chs : List ℕ)
    → f.count ≤ peer_filter_cap
    → total f + (open_tokens token + starts (is_empty token) chs) < 2 ^ 32
    → Accounts (total f + (open_tokens token + starts (is_empty token) chs)) (spec_loop f token chs)
unfolding spec_loop
spec_loop-Accounts f token [] c l =
    let z : total f + (open_tokens token + 0) ≡ total f + open_tokens token = omega arith in
    subst (λ n. Accounts n (end_token f token)) (sym z)
      (end_token-Accounts f token c (omega (arith, l)))
spec_loop-Accounts f token (ch ∷ chs) c l = elim (Bool-cases (is_separator ch)) [
  | inl e ↦
      let l' : total f + (open_tokens token + starts true chs) < 2 ^ 32 = simp e at l in
      let (c', t) = end_token-Accounts f token c (omega (arith, l')) in
      let n : total (end_token f token) + (0 + starts true chs)
          ≡ total f + (open_tokens token + starts true chs) =
        omega (arith, t) in
      simp e (
        subst (λ n. Accounts n (spec_loop (end_token f token) [] chs)) n
          (spec_loop-Accounts (end_token f token) [] chs c' (omega (arith, n, l'))))
  | inr e ↦
      let rest = starts false chs in
      let n : total f + (open_tokens token + (if not (is_empty token) then rest else suc rest))
          ≡ total f + (1 + rest) =
        omega (arith, open_or_start token rest) in
      let l' : total f + (open_tokens token + (if not (is_empty token) then rest else suc rest))
          < 2 ^ 32 =
        simp e at l in
      simp e (
        subst (λ m. Accounts m (spec_loop f (token ++ ch ∷ []) chs)) (sym n)
          (grown f (spec_loop f (token ++ ch ∷ []) chs) token ch chs
            (spec_loop-Accounts f (token ++ ch ∷ []) chs c) (omega (arith, n, l'))))
]

-- Every token of the list ends up in one place: it is stored, or it is counted as rejected. At most
-- eight are stored, and for a list of fewer than 2^32 tokens the stored ones and the rejected ones
-- add up to the tokens of the list.
pub tokens_accounted :
    (spec : List ℕ)
    → tokens spec < 2 ^ 32
    → let f = peer_filter_parse (some spec) in
      (f.count ≤ peer_filter_cap) × (f.count + f.rejected ≡ tokens spec)
unfolding peer_filter_parse
tokens_accounted spec l =
    let (c, t) = spec_loop-Accounts peer_filter_init [] spec (omega arith) (omega (arith, l)) in
    (c, omega (arith, t))
