-- ===== src/Gov/Verdicts.antt =====
-- One verdict for each poke, and what a verdict of `clamped` rests on.
use battlezone_netcode_patch.Prelude.{
  ℕ, ◌+◌, ◌-◌, ◌≤◌, ◌<◌, ◌≡◌, refl, ◌≢◌, ◌⊎◌, List, [], ◌∷◌, arith, sub64,
}
use battlezone_netcode_patch.Gov.{
  GovEvent, bumped, clamped, held, GovTraceCfg, GovTraceState, gov_trace_init, gov_trace_step,
  gov_trace_window, arrive, sample, classify, verify, settle, periodic,
}
use battlezone_netcode_patch.Gov.Run.{Call, poll, window, call, run}

-- How many bumps, and how many verdicts, an event counts for.
abbrev pub bump_count : GovEvent → ℕ
bump_count bumped = 1
bump_count _ = 0

abbrev pub verdict_count : GovEvent → ℕ
verdict_count clamped = 1
verdict_count held = 1
verdict_count _ = 0

abbrev pub total : (GovEvent → ℕ) → List GovEvent → ℕ
total f [] = 0
total f (e ∷ es) = f e + total f es

abbrev Counted : GovTraceState → GovEvent × GovTraceState → Type 0
Counted s r = (bump_count r.0 + s.armed ≡ verdict_count r.0 + r.1.armed) × (r.1.armed ≤ 1)

module _ (c : GovTraceCfg) (s : GovTraceState) (live now : ℕ) where
  settle-Counted : s.armed ≤ 1 → Counted s (settle c s live now)
  unfolding settle periodic
  settle-Counted h = ground arith

module _ (c : GovTraceCfg) (s : GovTraceState) (live now : ℕ) (h : s.armed ≤ 1) where
  verify-Counted : Counted s (verify c s live now)
  unfolding verify
  verify-Counted = ground (
    arith,
    settle-Counted c (record s { low_seen = 1 }) live now,
    settle-Counted c (record s { low_seen = 0 }) live now,
  )

-- One call: a bump arms, a verdict disarms, and nothing else touches the flag.
step-Counted :
    (c : GovTraceCfg) (s : GovTraceState) (live now : ℕ)
    → s.armed ≤ 1
    → Counted s (gov_trace_step c s live now)
unfolding gov_trace_step classify sample arrive
step-Counted c s live now h =
    ground (arith, verify-Counted c (sample (arrive s live now) live) live now)

call-Counted :
    (c : GovTraceCfg) (s : GovTraceState) (k : Call) → s.armed ≤ 1 → Counted s (call c s k)
unfolding call gov_trace_window
call-Counted c s (poll live now) h = step-Counted c s live now h
call-Counted c s window h = (refl, h)

run-Counted :
    (c : GovTraceCfg) (s : GovTraceState) (ks : List Call)
    → s.armed ≤ 1
    → let (es, t) = run c s ks in
      (total bump_count es + s.armed ≡ total verdict_count es + t.armed) × (t.armed ≤ 1)
unfolding run
run-Counted c s [] h = (omega arith, h)
run-Counted c s (k ∷ ks) h =
    let here = call-Counted c s k h in
    let there = run-Counted c (call c s k).1 ks here.1 in (omega (arith, here.0, there.0), there.1)

-- From the initial state, whatever is polled and whenever the window is read out, there are as
-- many pokes as verdicts on a poke, but for one poke at most that still awaits its verdict.
pub one_verdict_per_bump :
    (c : GovTraceCfg) (start : ℕ) (ks : List Call)
    → let (es, t) = run c (gov_trace_init start) ks in
      (total bump_count es ≡ total verdict_count es + t.armed) × (t.armed ≤ 1)
unfolding gov_trace_init
one_verdict_per_bump c start ks =
    let all = run-Counted c (gov_trace_init start) ks (omega arith) in (omega (arith, all.0), all.1)

-- What a verdict of `clamped` rests on.
abbrev Reverted : GovTraceCfg → GovTraceState → ℕ → ℕ → Type 0
Reverted c s live now =
    (s.armed ≢ 0)
    × (live < c.target)
    × (live ≤ c.clamp_floor)
    × (c.down_slack < c.target - live)
    × ((s.low_seen ≢ 0) ⊎ (c.verify_ms ≤ sub64 now s.bumped_at))

verify-clamped :
    (c : GovTraceCfg) (s : GovTraceState) (live now : ℕ)
    → (verify c s live now).0 ≡ clamped
    → Reverted c s live now
unfolding verify settle periodic
verify-clamped c s live now h = ground arith

-- A poll that returns `clamped` was made while a poke awaited its verdict, read a value below the
-- target, at or below the stock floor and more than the slack under the target, and either
-- `low_seen` was already set or the verify window was over.
clamped-Reverted :
    (c : GovTraceCfg) (s : GovTraceState) (live now : ℕ)
    → (gov_trace_step c s live now).0 ≡ clamped
    → (s.armed ≢ 0)
      × (live < c.target)
      × (live ≤ c.clamp_floor)
      × (c.down_slack < c.target - live)
      × ((s.low_seen ≢ 0) ⊎ (c.verify_ms ≤ sub64 now s.bumped_at))
unfolding gov_trace_step classify sample arrive
clamped-Reverted c s live now h =
    ground (arith, verify-clamped c (sample (arrive s live now) live) live now)
