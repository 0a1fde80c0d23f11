-- ===== src/Globals/Tests.antt =====
-- A table of two settings, and the theorem there.
use battlezone_netcode_patch.Prelude.{
  get_or, none, some, ℕ, ◌≡◌, ◌⊎◌, refl, List, [], ◌∷◌, ◌==◌, if◌then◌else◌,
}
use battlezone_netcode_patch.Globals.{
  NetGlobal, pending, apply_one, apply_state, write, net_globals_apply,
}
use battlezone_netcode_patch.Globals.Configure.{
  min_bandwidth, net_globals_defaults, ng_parse_env_u32, ng_env_truthy, ng_default_on, preset_of,
  wanted, configure_loop, net_globals_configure,
}
use battlezone_netcode_patch.Globals.Ranges.{SomeBounds, configured_writes_in_range}
use battlezone_netcode_patch.Globals.Gate.{Guarded, AllExamined, writes_are_gated}

abbrev setting : ℕ → ℕ → ℕ → ℕ → NetGlobal
setting va lo hi want = record {
  va = va;
  ini_key = [];
  env = [];
  stock = 0;
  lo = lo;
  hi = hi;
  want = want;
  seen = 0;
  state = pending;
  changed = 0;
}

-- The first one is plausible, the second is not.
abbrev table : List NetGlobal
table = setting 0x8e8cf4 500 100000 16000 ∷ setting 0x8e8d08 1000 4000000 320000 ∷ []

abbrev game : ℕ → ℕ
game a = if a == 0x8e8cf4 then 4000 else 7

first_is_written : (net_globals_apply game table).1 0x8e8cf4 ≡ 16000
unfolding net_globals_apply apply_one apply_state write
first_is_written = refl

second_is_left : (net_globals_apply game table).1 0x8e8d08 ≡ 7
unfolding net_globals_apply apply_one apply_state write
second_is_left = refl

writes_are_gated_example :
    Guarded game table 0x8e8cf4 (net_globals_apply game table)
    × AllExamined (net_globals_apply game table).2
writes_are_gated_example = writes_are_gated game table 0x8e8cf4 (tt, (tt, tt))

configured_writes_in_range_example :
    let (n, mem', t') =
      net_globals_apply game
        (net_globals_configure (λ name. none) (λ text. (0, text)) net_globals_defaults) in
    (mem' 0x8e8cf4 ≡ game 0x8e8cf4) ⊎ SomeBounds net_globals_defaults 0x8e8cf4 (mem' 0x8e8cf4)
configured_writes_in_range_example =
    configured_writes_in_range (λ name. none) (λ text. (0, text)) game 0x8e8cf4

-- The floor of the send rate is set by default, and a value that the gate would reject is not taken.
default_floor :
    (get_or
      (net_globals_configure (λ name. none) (λ text. (0, text)) net_globals_defaults)
      0
      min_bandwidth).want
    ≡ 16000
unfolding net_globals_configure configure_loop wanted ng_parse_env_u32 ng_default_on preset_of
default_floor = refl

rejected_floor :
    (get_or
      (net_globals_configure (λ name. some (b'7' ∷ [])) (λ text. (7, [])) net_globals_defaults)
      0
      min_bandwidth).want
    ≡ 0
unfolding net_globals_configure configure_loop wanted ng_parse_env_u32 ng_default_on preset_of
    ng_env_truthy
rejected_floor = refl
