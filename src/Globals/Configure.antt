-- ===== src/Globals/Configure.antt =====
-- shared/net_globals.h: the table of settings, and its targets from the environment. `getenv` and
-- `strtoul` are parameters: a variable is `none` or its bytes, and `strtoul` in base ten answers the
-- number and the bytes that it did not read.
use battlezone_netcode_patch.Prelude.{
  ℕ, ◌+◌, ◌-◌, ◌^◌, Bool, true, false, ◌&&◌, ◌||◌, Option, none, some, List, [], ◌∷◌, get_or, take,
  map, ltb, leb, ◌==◌, ◌!=◌, if◌then◌else◌,
}
use battlezone_netcode_patch.Globals.{NetGlobal, pending}

abbrev pub same_text : List ℕ → List ℕ → Bool
same_text [] [] = true
same_text [] (y ∷ ys) = false
same_text (x ∷ xs) [] = false
same_text (x ∷ xs) (y ∷ ys) = x == y && same_text xs ys

-- An entry of the table before the first pass.
abbrev entry : ℕ → List ℕ → List ℕ → ℕ → ℕ → ℕ → NetGlobal
entry va ini_key env stock lo hi = record {
  va = va;
  ini_key = ini_key;
  env = env;
  stock = stock;
  lo = lo;
  hi = hi;
  want = 0;
  seen = 0;
  state = pending;
  changed = 0;
}

abbrev pub min_bandwidth : NetGlobal
min_bandwidth =
    entry 0x8e8cf4
      (b'M' ∷ b'i' ∷ b'n' ∷ b'B' ∷ b'a' ∷ b'n' ∷ b'd' ∷ b'w' ∷ b'i' ∷ b'd' ∷ b't' ∷ b'h' ∷ [])
      (b'B' ∷ b'Z' ∷ b'_' ∷ b'N' ∷ b'E' ∷ b'T' ∷ b'_' ∷ b'M' ∷ b'I' ∷ b'N' ∷ b'B' ∷ b'A' ∷ b'N'
        ∷ b'D' ∷ b'W' ∷ b'I' ∷ b'D' ∷ b'T' ∷ b'H' ∷ [])
      4000 500 100000

abbrev pub max_bandwidth : NetGlobal
max_bandwidth =
    entry 0x8e8d08
      (b'M' ∷ b'a' ∷ b'x' ∷ b'B' ∷ b'a' ∷ b'n' ∷ b'd' ∷ b'w' ∷ b'i' ∷ b'd' ∷ b't' ∷ b'h' ∷ [])
      (b'B' ∷ b'Z' ∷ b'_' ∷ b'N' ∷ b'E' ∷ b'T' ∷ b'_' ∷ b'M' ∷ b'A' ∷ b'X' ∷ b'B' ∷ b'A' ∷ b'N'
        ∷ b'D' ∷ b'W' ∷ b'I' ∷ b'D' ∷ b'T' ∷ b'H' ∷ [])
      16000 1000 4000000

abbrev pub up_count : NetGlobal
up_count =
    entry 0x8e8cf0 (b'U' ∷ b'p' ∷ b'C' ∷ b'o' ∷ b'u' ∷ b'n' ∷ b't' ∷ [])
      (b'B' ∷ b'Z' ∷ b'_' ∷ b'N' ∷ b'E' ∷ b'T' ∷ b'_' ∷ b'U' ∷ b'P' ∷ b'C' ∷ b'O' ∷ b'U' ∷ b'N'
        ∷ b'T' ∷ [])
      10 1 100000

abbrev pub down_count : NetGlobal
down_count =
    entry 0x8e8d10 (b'D' ∷ b'o' ∷ b'w' ∷ b'n' ∷ b'C' ∷ b'o' ∷ b'u' ∷ b'n' ∷ b't' ∷ [])
      (b'B' ∷ b'Z' ∷ b'_' ∷ b'N' ∷ b'E' ∷ b'T' ∷ b'_' ∷ b'D' ∷ b'O' ∷ b'W' ∷ b'N' ∷ b'C' ∷ b'O'
        ∷ b'U' ∷ b'N' ∷ b'T' ∷ [])
      5 1 100000

abbrev pub max_ping : NetGlobal
max_ping =
    entry 0x8e8cec (b'M' ∷ b'a' ∷ b'x' ∷ b'P' ∷ b'i' ∷ b'n' ∷ b'g' ∷ [])
      (b'B' ∷ b'Z' ∷ b'_' ∷ b'N' ∷ b'E' ∷ b'T' ∷ b'_' ∷ b'M' ∷ b'A' ∷ b'X' ∷ b'P' ∷ b'I' ∷ b'N'
        ∷ b'G' ∷ [])
      300 50 60000

abbrev pub max_pings_lost : NetGlobal
max_pings_lost =
    entry 0x8e8cfc
      (b'M' ∷ b'a' ∷ b'x' ∷ b'P' ∷ b'i' ∷ b'n' ∷ b'g' ∷ b's' ∷ b'L' ∷ b'o' ∷ b's' ∷ b't' ∷ [])
      (b'B' ∷ b'Z' ∷ b'_' ∷ b'N' ∷ b'E' ∷ b'T' ∷ b'_' ∷ b'M' ∷ b'A' ∷ b'X' ∷ b'P' ∷ b'I' ∷ b'N'
        ∷ b'G' ∷ b'S' ∷ b'L' ∷ b'O' ∷ b'S' ∷ b'T' ∷ [])
      20 1 100000

abbrev pub auto_kick_start : NetGlobal
auto_kick_start =
    entry 0x8e8d0c
      (b'A' ∷ b'u' ∷ b't' ∷ b'o' ∷ b'K' ∷ b'i' ∷ b'c' ∷ b'k' ∷ b'S' ∷ b't' ∷ b'a' ∷ b'r' ∷ b't'
        ∷ [])
      (b'B' ∷ b'Z' ∷ b'_' ∷ b'A' ∷ b'U' ∷ b'T' ∷ b'O' ∷ b'K' ∷ b'I' ∷ b'C' ∷ b'K' ∷ b'_' ∷ b'S'
        ∷ b'T' ∷ b'A' ∷ b'R' ∷ b'T' ∷ [])
      10000 1000 600000

abbrev pub auto_kick_ping : NetGlobal
auto_kick_ping =
    entry 0x8e8cf8
      (b'A' ∷ b'u' ∷ b't' ∷ b'o' ∷ b'K' ∷ b'i' ∷ b'c' ∷ b'k' ∷ b'P' ∷ b'i' ∷ b'n' ∷ b'g' ∷ [])
      (b'B' ∷ b'Z' ∷ b'_' ∷ b'A' ∷ b'U' ∷ b'T' ∷ b'O' ∷ b'K' ∷ b'I' ∷ b'C' ∷ b'K' ∷ b'_' ∷ b'P'
        ∷ b'I' ∷ b'N' ∷ b'G' ∷ [])
      750 50 60000

abbrev pub auto_kick_loss : NetGlobal
auto_kick_loss =
    entry 0x8e8bfc
      (b'A' ∷ b'u' ∷ b't' ∷ b'o' ∷ b'K' ∷ b'i' ∷ b'c' ∷ b'k' ∷ b'L' ∷ b'o' ∷ b's' ∷ b's' ∷ [])
      (b'B' ∷ b'Z' ∷ b'_' ∷ b'A' ∷ b'U' ∷ b'T' ∷ b'O' ∷ b'K' ∷ b'I' ∷ b'C' ∷ b'K' ∷ b'_' ∷ b'L'
        ∷ b'O' ∷ b'S' ∷ b'S' ∷ [])
      25 1 100000

abbrev pub auto_kick_time : NetGlobal
auto_kick_time =
    entry 0x8e8ce4
      (b'A' ∷ b'u' ∷ b't' ∷ b'o' ∷ b'K' ∷ b'i' ∷ b'c' ∷ b'k' ∷ b'T' ∷ b'i' ∷ b'm' ∷ b'e' ∷ [])
      (b'B' ∷ b'Z' ∷ b'_' ∷ b'A' ∷ b'U' ∷ b'T' ∷ b'O' ∷ b'K' ∷ b'I' ∷ b'C' ∷ b'K' ∷ b'_' ∷ b'T'
        ∷ b'I' ∷ b'M' ∷ b'E' ∷ [])
      15000 1000 600000

abbrev pub net_globals_defaults : List NetGlobal
net_globals_defaults =
    min_bandwidth ∷ max_bandwidth ∷ up_count ∷ down_count ∷ max_ping ∷ max_pings_lost
    ∷ auto_kick_start ∷ auto_kick_ping ∷ auto_kick_loss ∷ auto_kick_time ∷ []

abbrev pub net_tune_preset : List ℕ
net_tune_preset = 16000 ∷ 320000 ∷ 100 ∷ 50 ∷ 450 ∷ 0 ∷ 0 ∷ 0 ∷ 0 ∷ 0 ∷ []

abbrev pub auto_kick_relax_preset : List ℕ
auto_kick_relax_preset = 0 ∷ 0 ∷ 0 ∷ 0 ∷ 0 ∷ 0 ∷ 60000 ∷ 2000 ∷ 200 ∷ 60000 ∷ []

abbrev pub bz_net_tune : List ℕ
bz_net_tune = b'B' ∷ b'Z' ∷ b'_' ∷ b'N' ∷ b'E' ∷ b'T' ∷ b'_' ∷ b'T' ∷ b'U' ∷ b'N' ∷ b'E' ∷ []

abbrev pub bz_autokick_relax : List ℕ
bz_autokick_relax =
    b'B' ∷ b'Z' ∷ b'_' ∷ b'A' ∷ b'U' ∷ b'T' ∷ b'O' ∷ b'K' ∷ b'I' ∷ b'C' ∷ b'K' ∷ b'_' ∷ b'R' ∷ b'E'
    ∷ b'L' ∷ b'A' ∷ b'X' ∷ []

abbrev pub to_lower : ℕ → ℕ
to_lower c = if leb b'A' c && leb c b'Z' then c - b'A' + b'a' else c

-- At most 15 bytes are compared.
unfoldable pub ng_env_truthy : Option (List ℕ) → Bool
ng_env_truthy none = false
ng_env_truthy (some []) = false
ng_env_truthy (some (c ∷ cs)) =
    let lower = map to_lower (take 15 (c ∷ cs)) in
    same_text (c ∷ cs) (b'1' ∷ [])
    || same_text lower (b't' ∷ b'r' ∷ b'u' ∷ b'e' ∷ [])
    || same_text lower (b'y' ∷ b'e' ∷ b's' ∷ [])
    || same_text lower (b'o' ∷ b'n' ∷ [])

abbrev pub on_by_default : Option (List ℕ) → Bool
on_by_default none = true
on_by_default (some []) = true
on_by_default (some (c ∷ cs)) = ng_env_truthy (some (c ∷ cs))

unfoldable pub ng_default_on : (List ℕ → Option (List ℕ)) → List ℕ → Bool
ng_default_on getenv name = on_by_default (getenv name)

-- The preset of entry `i`.
unfoldable pub preset_of : Bool → Bool → ℕ → ℕ
preset_of tune relax i =
    let kick = get_or auto_kick_relax_preset i 0 in
    if relax && kick != 0 then kick else if tune then get_or net_tune_preset i 0 else 0

module _ (getenv : List ℕ → Option (List ℕ)) (strtoul : List ℕ → ℕ × List ℕ) where
  -- The number, if the whole text was read and it has 32 bits.
  abbrev pub parsed : ℕ × List ℕ → ℕ → ℕ
  parsed (n, []) fallback = if ltb (2 ^ 32 - 1) n then fallback else n
  parsed (n, c ∷ cs) fallback = fallback

  abbrev pub parsed_env : Option (List ℕ) → ℕ → ℕ
  parsed_env none fallback = fallback
  parsed_env (some []) fallback = fallback
  parsed_env (some (c ∷ cs)) fallback = parsed (strtoul (c ∷ cs)) fallback

  unfoldable pub ng_parse_env_u32 : List ℕ → ℕ → ℕ
  ng_parse_env_u32 name fallback = parsed_env (getenv name) fallback

  -- The target: what the environment asks for, unless the gate would reject it.
  unfoldable pub wanted : NetGlobal → ℕ → ℕ
  wanted g preset =
      let want = ng_parse_env_u32 g.env preset in
      if want != 0 && (ltb want g.lo || ltb g.hi want) then preset else want

  -- The loop, from entry `i` on.
  unfoldable pub configure_loop : Bool → Bool → ℕ → List NetGlobal → List NetGlobal
  configure_loop tune relax i [] = []
  configure_loop tune relax i (g ∷ gs) =
      let rest = configure_loop tune relax (i + 1) gs in
      (if ltb i 10 then record g { want = wanted g (preset_of tune relax i) } else g) ∷ rest

  unfoldable pub net_globals_configure : List NetGlobal → List NetGlobal
  net_globals_configure t =
      configure_loop (ng_default_on getenv bz_net_tune) (ng_default_on getenv bz_autokick_relax) 0 t
