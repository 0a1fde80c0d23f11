-- ===== src/Filter/Tests.antt =====
-- Lists of addresses, and the theorem there.
use battlezone_netcode_patch.Prelude.{ℕ, ◌+◌, ◌≤◌, ◌≡◌, refl, arith, none, some, List, [], ◌∷◌}
use battlezone_netcode_patch.Filter.{
  peer_filter_cap, peer_filter_parse_ipv4, quad_loop, quad_round, close_octet, word_of,
  peer_filter_parse,
}
use battlezone_netcode_patch.Filter.Tokens.{tokens, tokens_accounted}

-- 10.0.0.2
abbrev address : List ℕ
address = 49 ∷ 48 ∷ 46 ∷ 48 ∷ 46 ∷ 48 ∷ 46 ∷ 50 ∷ []

-- "10.0.0.2, x"
abbrev listing : List ℕ
listing = 49 ∷ 48 ∷ 46 ∷ 48 ∷ 46 ∷ 48 ∷ 46 ∷ 50 ∷ 44 ∷ 32 ∷ 120 ∷ []

address_parses : peer_filter_parse_ipv4 address ≡ some 0x0200_000a
unfolding peer_filter_parse_ipv4 quad_loop quad_round close_octet word_of
address_parses = refl

short_address_is_refused : peer_filter_parse_ipv4 (49 ∷ 48 ∷ []) ≡ none
unfolding peer_filter_parse_ipv4 quad_loop quad_round close_octet word_of
short_address_is_refused = refl

tokens_accounted_example :
    let f = peer_filter_parse (some listing) in
    (f.count ≤ peer_filter_cap) × (f.count + f.rejected ≡ tokens listing)
tokens_accounted_example = tokens_accounted listing (omega arith)
