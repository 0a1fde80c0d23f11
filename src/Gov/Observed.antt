-- ===== src/Gov/Observed.antt =====
-- What the session totals and the trace window say of the values polled.
use battlezone_netcode_patch.Prelude.{ℕ, ◌≤◌, ◌≡◌, ◌⊎◌, inl, refl, List, [], ◌∷◌, arith, max}
use battlezone_netcode_patch.Gov.{
  GovTraceCfg, GovTraceState, gov_trace_init, gov_trace_step, gov_trace_window, arrive,
  descent_arrival, sample, classify, verify, settle, periodic,
}
use battlezone_netcode_patch.Gov.Run.{Call, poll, window, call, run}
use battlezone_netcode_patch.Gov.Descent.{classify-SameArrival}

-- The highest value of a sequence of calls.
abbrev pub max_live : List Call → ℕ
max_live [] = 0
max_live (poll live now ∷ ks) = max live (max_live ks)
max_live (window ∷ ks) = max_live ks

peak-step :
    (c : GovTraceCfg) (s : GovTraceState) (live now : ℕ)
    → (gov_trace_step c s live now).1.peak ≡ max s.peak live
unfolding gov_trace_step arrive
peak-step c s live now = ground (
  arith,
  classify-SameArrival c (arrive s live now) (descent_arrival c s (arrive s live now) live) live
      now,
)

peak-run_from :
    (c : GovTraceCfg) (s : GovTraceState) (ks : List Call)
    → (run c s ks).1.peak ≡ max s.peak (max_live ks)
unfolding run call gov_trace_window
peak-run_from c s [] = omega arith
peak-run_from c s (poll live now ∷ ks) =
    omega (arith, peak-run_from c (gov_trace_step c s live now).1 ks, peak-step c s live now)
peak-run_from c s (window ∷ ks) = peak-run_from c (gov_trace_window s).3 ks

-- The session's `peak` is the greatest value polled since the start.
peak-run :
    (c : GovTraceCfg) (start : ℕ) (ks : List Call)
    → (run c (gov_trace_init start) ks).1.peak ≡ max_live ks
unfolding gov_trace_init
peak-run c start ks = omega (arith, peak-run_from c (gov_trace_init start) ks)

-- The window's bounds are in order once it has a sample, and stay under the session's peak.
record WindowOk (s : GovTraceState) : Type 0 where
  ordered : (s.win_samples ≡ 0) ⊎ (s.win_min ≤ s.win_max)
  under : s.win_max ≤ s.peak

abbrev SameWindow : GovTraceState → GovTraceState → Type 0
SameWindow s t =
    (t.win_samples ≡ s.win_samples)
    × (t.win_min ≡ s.win_min)
    × (t.win_max ≡ s.win_max)
    × (t.peak ≡ s.peak)

verify-SameWindow :
    (c : GovTraceCfg) (s : GovTraceState) (live now : ℕ) → SameWindow s (verify c s live now).1
unfolding verify settle periodic
verify-SameWindow c s live now = ground arith

step-WindowOk :
    (c : GovTraceCfg) (s : GovTraceState) (live now : ℕ)
    → WindowOk s
    → WindowOk (gov_trace_step c s live now).1
unfolding gov_trace_step classify arrive sample
step-WindowOk c s live now w =
    ground (arith, verify-SameWindow c (sample (arrive s live now) live) live now)

run-WindowOk :
    (c : GovTraceCfg) (s : GovTraceState) (ks : List Call) → WindowOk s → WindowOk (run c s ks).1
unfolding run call gov_trace_window
run-WindowOk c s [] w = w
run-WindowOk c s (poll live now ∷ ks) w =
    run-WindowOk c (gov_trace_step c s live now).1 ks (step-WindowOk c s live now w)
run-WindowOk c s (window ∷ ks) w =
    run-WindowOk c (gov_trace_window s).3 ks (record { ordered = inl refl; under = omega arith })

-- Whenever the window is read out, its low is at most its high, and its high at most the session's
-- peak.
window_ordered :
    (c : GovTraceCfg) (start : ℕ) (ks : List Call)
    → let s = (run c (gov_trace_init start) ks).1 in
      let (lo, hi, n, t) = gov_trace_window s in (lo ≤ hi) × (hi ≤ s.peak)
unfolding gov_trace_window gov_trace_init
window_ordered c start ks =
    let w =
      run-WindowOk c (gov_trace_init start) ks
        (record { ordered = inl refl; under = omega arith }) in
    ground (arith, w.ordered, w.under)
