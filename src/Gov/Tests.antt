-- ===== src/Gov/Tests.antt =====
-- Runs of the governor trace, and the theorems at concrete sessions.
use battlezone_netcode_patch.Prelude.{
  true, false, ℕ, ◌+◌, ◌≤◌, ◌≡◌, inl, inr, refl, List, [], ◌∷◌, arith,
}
use battlezone_netcode_patch.Gov.{
  none, bumped, clamped, held, trace, floor_rescue, GovTraceCfg, GovTraceState, gov_trace_init,
  gov_trace_cfg_defaults, gov_trace_step, gov_trace_window, arrive, descent_arrival, sample,
  classify, verify, settle, periodic,
}
use battlezone_netcode_patch.Gov.Run.{Call, poll, window, call, run}
use battlezone_netcode_patch.Gov.Verdicts.{total, bump_count, verdict_count, one_verdict_per_bump}
use battlezone_netcode_patch.Gov.Descent.{
  polls_of, rescue_count, sentinel_arrival, collapse_never_bumps, rescue_cooldown,
}
use battlezone_netcode_patch.Rtt.{zero_stats}
use battlezone_netcode_patch.Dampen.{dampen_init}
use battlezone_netcode_patch.Gov.Thread.{GovThread, OnlyAt, gov_round, round-OnlyAt}

abbrev cfg : GovTraceCfg
cfg = record {
  target = 40000;
  cold_start = 4000;
  verify_ms = 10000;
  trace_ms = 15000;
  clamp_floor = 16000;
  down_slack = 500;
  descent_band = 2000;
  descent_ms = 30000;
}

cfg-defaults : gov_trace_cfg_defaults 40000 4000 ≡ cfg
unfolding gov_trace_cfg_defaults
cfg-defaults = refl

-- A match start whose poke is overwritten to stock before the window closes.
abbrev overwritten : List Call
overwritten = poll 4000 100 ∷ poll 40000 200 ∷ poll 16000 3900 ∷ poll 16000 4000 ∷ []

overwritten_events :
    (run cfg (gov_trace_init 0) overwritten).0 ≡ bumped ∷ none ∷ none ∷ clamped ∷ []
unfolding run call gov_trace_step gov_trace_init arrive descent_arrival sample classify verify
    settle periodic
overwritten_events = refl

-- A match start whose poke is held, and a collapse twenty minutes later.
abbrev collapse : List Call
collapse =
    poll 4000 100
    ∷ poll 40000 5000
    ∷ poll 40000 10200
    ∷ window
    ∷ poll 5000 1_200_000
    ∷ poll 4000 1_202_000
    ∷ poll 4000 1_202_100
    ∷ []

collapse_events :
    (run cfg (gov_trace_init 0) collapse).0
    ≡ bumped ∷ none ∷ held ∷ none ∷ trace ∷ floor_rescue ∷ none ∷ []
unfolding run call gov_trace_step gov_trace_init arrive descent_arrival sample classify verify
    settle periodic gov_trace_window
collapse_events = refl

one_verdict_per_bump_example :
    let (es, t) = run cfg (gov_trace_init 0) collapse in
    (total bump_count es ≡ total verdict_count es + t.armed) × (t.armed ≤ 1)
one_verdict_per_bump_example = one_verdict_per_bump cfg 0 collapse

-- The state just before the sentinel is read again, the poke still unproved.
abbrev poked : GovTraceState
poked = record {
  bumped_at = 100;
  armed = 1;
  low_seen = 1;
  last_clamp_ms = 0;
  last_trace_ms = 0;
  win_min = 16000;
  win_max = 40000;
  win_samples = 2;
  observed = 4000;
  since_bump_ms = 0;
  polls = 3;
  prev_distinct = 40000;
  last_change_ms = 3900;
  prev_hold_ms = 3700;
  last_rescue_ms = 0;
  bumps = 1;
  clamps = 0;
  floor_rescues = 0;
  peak = 40000;
  last_seen = 16000;
}

-- The governor has walked down to 5000, a step above its floor.
abbrev sinking : GovTraceState
sinking = record poked {
  armed = 0;
  low_seen = 0;
  polls = 9000;
  prev_distinct = 5400;
  last_change_ms = 1_200_000;
  prev_hold_ms = 2000;
  last_seen = 5000;
}

sentinel_arrival_example : (gov_trace_step cfg sinking 4000 1_202_000).0 ≡ floor_rescue
sentinel_arrival_example =
    sentinel_arrival cfg sinking 1_202_000 (omega arith) (omega arith) refl (inr (omega arith))
      (inl refl)

abbrev down : List (ℕ × ℕ)
down = (4600, 1_202_000) ∷ (4000, 1_204_000) ∷ (4000, 1_204_100) ∷ []

collapse_never_bumps_example : total bump_count (run cfg sinking (polls_of down)).0 ≡ 0
collapse_never_bumps_example =
    collapse_never_bumps cfg sinking down (omega arith) (omega arith) (omega arith) (
      omega arith,
      omega arith,
      omega arith,
      inr (omega arith),
      (
        omega arith,
        omega arith,
        omega arith,
        inr (omega arith),
        (omega arith, omega arith, omega arith, inl refl, tt),
      ),
    )

rescue_cooldown_example :
    total rescue_count
      (run cfg (gov_trace_step cfg sinking 4000 1_202_000).1 (polls_of ((4000, 1_202_100) ∷ []))).0
    ≡ 0
unfolding gov_trace_step arrive descent_arrival sample classify verify settle periodic
rescue_cooldown_example =
    rescue_cooldown cfg sinking 4000 1_202_000 ((4000, 1_202_100) ∷ []) (omega arith) refl
      (omega arith, tt)

abbrev thread : GovThread
thread = record {
  gts = sinking;
  rtt = record { enabled = false; trace_ms = 0; last_trace_ms = 0; peers = []; st = zero_stats };
  rtt_ready = true;
  dampen = dampen_init true 0;
  pace_ready = true;
}

round-OnlyAt_example : OnlyAt cfg 40000 4000 (gov_round cfg 40000 thread 4000 1_202_000 1_202_001).0
round-OnlyAt_example = round-OnlyAt cfg 40000 thread 4000 1_202_000 1_202_001
