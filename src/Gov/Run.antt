-- ===== src/Gov/Run.antt =====
-- The proxies' governor thread as a sequence of calls: a poll of the live value, or the read-out
-- of the window for the periodic log line.
use battlezone_netcode_patch.Prelude.{ℕ, List, [], ◌∷◌}
use battlezone_netcode_patch.Gov.{
  GovEvent, GovTraceCfg, GovTraceState, gov_trace_step, gov_trace_window,
}

pub data Call : Type 0 where
  poll : ℕ → ℕ → Call
  window : Call

unfoldable pub call : GovTraceCfg → GovTraceState → Call → GovEvent × GovTraceState
call c s (poll live now) = gov_trace_step c s live now
call c s window = let (lo, hi, n, t) = gov_trace_window s in (GovEvent.none, t)

-- The events of a sequence of calls, in order, and the state after it.
unfoldable pub run : GovTraceCfg → GovTraceState → List Call → List GovEvent × GovTraceState
run c s [] = ([], s)
run c s (k ∷ ks) = let (e, t) = call c s k in let (es, u) = run c t ks in (e ∷ es, u)
