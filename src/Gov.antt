-- ===== src/Gov.antt =====
-- shared/gov_trace.h: the state machine that watches the game's live send rate and names what it
-- sees. `gov_trace_step` is the source's function of that name, cut at its early returns.
pub mod Run
pub mod Verdicts
pub mod Descent
pub mod Observed
pub mod Thread
mod Tests
use battlezone_netcode_patch.Prelude.{
  ℕ, ◌+◌, ◌-◌, ◌^◌, Bool, true, false, not, ◌&&◌, ◌||◌, ltb, leb, ◌==◌, ◌!=◌, if◌then◌else◌, add32,
  sub64, inc64,
}

pub data GovEvent : Type 0 where
  none bumped clamped held trace floor_rescue : GovEvent

pub record GovTraceCfg : Type 0 where
  pub target : ℕ
  pub cold_start : ℕ
  pub verify_ms : ℕ
  pub trace_ms : ℕ
  pub clamp_floor : ℕ
  pub down_slack : ℕ
  pub descent_band : ℕ
  pub descent_ms : ℕ

pub record GovTraceState : Type 0 where
  pub bumped_at : ℕ
  pub armed : ℕ
  pub low_seen : ℕ
  pub last_clamp_ms : ℕ
  pub last_trace_ms : ℕ
  pub win_min : ℕ
  pub win_max : ℕ
  pub win_samples : ℕ
  pub observed : ℕ
  pub since_bump_ms : ℕ
  pub polls : ℕ
  pub prev_distinct : ℕ
  pub last_change_ms : ℕ
  pub prev_hold_ms : ℕ
  pub last_rescue_ms : ℕ
  pub bumps : ℕ
  pub clamps : ℕ
  pub floor_rescues : ℕ
  pub peak : ℕ
  pub last_seen : ℕ

abbrev pub gov_cold_start_sentinel : ℕ
gov_cold_start_sentinel = 4000

abbrev pub gov_verify_ms_def : ℕ
gov_verify_ms_def = 10000

abbrev pub gov_trace_ms_def : ℕ
gov_trace_ms_def = 15000

abbrev pub gov_clamp_floor_def : ℕ
gov_clamp_floor_def = 16000

abbrev pub gov_down_slack_def : ℕ
gov_down_slack_def = 500

abbrev pub gov_descent_band_def : ℕ
gov_descent_band_def = 2000

abbrev pub gov_descent_ms_def : ℕ
gov_descent_ms_def = 30000

abbrev pub win_min_reset : ℕ
win_min_reset = 0xffff_ffff

pub gov_trace_init : ℕ → GovTraceState
gov_trace_init now = record {
  bumped_at = 0;
  armed = 0;
  low_seen = 0;
  last_clamp_ms = 0;
  last_trace_ms = now;
  win_min = win_min_reset;
  win_max = 0;
  win_samples = 0;
  observed = 0;
  since_bump_ms = 0;
  polls = 0;
  prev_distinct = 0;
  last_change_ms = now;
  prev_hold_ms = 0;
  last_rescue_ms = 0;
  bumps = 0;
  clamps = 0;
  floor_rescues = 0;
  peak = 0;
  last_seen = 0;
}

pub gov_trace_cfg_defaults : ℕ → ℕ → GovTraceCfg
gov_trace_cfg_defaults target cold_start = record {
  target = target;
  cold_start = cold_start;
  verify_ms = gov_verify_ms_def;
  trace_ms = gov_trace_ms_def;
  clamp_floor = gov_clamp_floor_def;
  down_slack = gov_down_slack_def;
  descent_band = gov_descent_band_def;
  descent_ms = gov_descent_ms_def;
}

-- The arrival is recorded: only a change moves `prev_distinct`.
pub arrive : GovTraceState → ℕ → ℕ → GovTraceState
arrive s live now =
    let changed = s.polls != 0 && live != s.last_seen in
    record s {
      polls = inc64 s.polls;
      prev_distinct = if changed then s.last_seen else s.prev_distinct;
      prev_hold_ms = if changed then sub64 now s.last_change_ms else s.prev_hold_ms;
      last_change_ms = if changed then now else s.last_change_ms;
      last_seen = live;
      peak = if ltb s.peak live then live else s.peak;
    }

-- Was the sentinel walked onto? `s` is the state before `arrive`, `t` the one after.
pub descent_arrival : GovTraceCfg → GovTraceState → GovTraceState → ℕ → Bool
descent_arrival c s t live =
    let from = if live != s.last_seen then s.last_seen else t.prev_distinct in
    live == c.cold_start
    && s.polls != 0
    && ltb c.cold_start from
    && leb (from - c.cold_start) c.descent_band
    && leb t.prev_hold_ms c.descent_ms

pub periodic : GovTraceCfg → GovTraceState → ℕ → ℕ → GovEvent × GovTraceState
periodic c s live now =
    if c.trace_ms != 0 && leb c.trace_ms (sub64 now s.last_trace_ms)
    then (trace, record s { last_trace_ms = now; observed = live })
    else (none, s)

-- The verify window closes.
pub settle : GovTraceCfg → GovTraceState → ℕ → ℕ → GovEvent × GovTraceState
settle c s live now =
    if s.armed != 0 && leb c.verify_ms (sub64 now s.bumped_at)
    then if s.low_seen != 0
      then (
        clamped,
        record s {
          armed = 0;
          observed = live;
          since_bump_ms = sub64 now s.bumped_at;
          clamps = inc64 s.clamps;
          last_clamp_ms = now;
          low_seen = 0;
        },
      )
      else (held, record s { armed = 0; observed = live; since_bump_ms = sub64 now s.bumped_at })
    else periodic c s live now

-- A read that only an overwrite explains, while a bump awaits its verdict.
abbrev pub is_revert : GovTraceCfg → GovTraceState → ℕ → Bool
is_revert c s live =
    s.armed != 0
    && ltb live c.target
    && leb live c.clamp_floor
    && ltb c.down_slack (c.target - live)

pub verify : GovTraceCfg → GovTraceState → ℕ → ℕ → GovEvent × GovTraceState
verify c s live now =
    if is_revert c s live
    then if s.low_seen != 0
      then (
        clamped,
        record s {
          armed = 0;
          clamps = inc64 s.clamps;
          last_clamp_ms = now;
          observed = live;
          since_bump_ms = sub64 now s.bumped_at;
          low_seen = 0;
        },
      )
      else settle c (record s { low_seen = 1 }) live now
    else settle c (record s { low_seen = 0 }) live now

-- The rolling window takes the observation in.
pub sample : GovTraceState → ℕ → GovTraceState
sample s live = record s {
  win_min = if ltb live s.win_min then live else s.win_min;
  win_max = if ltb s.win_max live then live else s.win_max;
  win_samples = add32 s.win_samples 1;
}

-- The decision, once the arrival is known to be a descent or not.
pub classify : GovTraceCfg → GovTraceState → Bool → ℕ → ℕ → GovEvent × GovTraceState
classify c s descent live now =
    if live == c.cold_start
      && not descent
      && s.armed == 0
      && (s.bumps == 0 || leb c.verify_ms (sub64 now s.bumped_at))
    then (bumped, record s { bumps = inc64 s.bumps; bumped_at = now; armed = 1; observed = live })
    else if descent
        && s.armed == 0
        && (s.floor_rescues == 0 || leb c.descent_ms (sub64 now s.last_rescue_ms))
    then (
      floor_rescue,
      record s { floor_rescues = inc64 s.floor_rescues; last_rescue_ms = now; observed = live },
    )
    else verify c (sample s live) live now

pub gov_trace_step : GovTraceCfg → GovTraceState → ℕ → ℕ → GovEvent × GovTraceState
gov_trace_step c s live now =
    let t = arrive s live now in classify c t (descent_arrival c s t live) live now

-- The three out-parameters `lo`, `hi` and `n`, and the state with its window reset.
pub gov_trace_window : GovTraceState → ℕ × ℕ × ℕ × GovTraceState
gov_trace_window s = (
  if s.win_samples != 0 then s.win_min else 0,
  s.win_max,
  s.win_samples,
  record s { win_min = win_min_reset; win_max = 0; win_samples = 0 },
)
