-- ===== src/Pace/Tests.antt =====
-- A pacer at work, and the theorems at concrete states.
use battlezone_netcode_patch.Prelude.{
  ℕ, ◌+◌, ◌≤◌, ◌<◌, ◌≡◌, ◌≢◌, refl, List, [], ◌∷◌, replicate, length-replicate, arith,
}
use battlezone_netcode_patch.Prelude.Int.{pos}
use battlezone_netcode_patch.Pace.{
  send_now, queued, PaceCtx, pace_queue_slots, zero_entry, zero_stats, pace_tick, pace_observe,
}
use battlezone_netcode_patch.Pace.Admit.{inflow, refill, wait_for, shape, spend, pace_admit}
use battlezone_netcode_patch.Pace.Queue.{pending}
use battlezone_netcode_patch.Pace.Fifo.{
  QueueOp, enqueues, pops_due, pops_any, closes, queue_run, list_run, queue_refines_list,
}
use battlezone_netcode_patch.Pace.Delay.{never_overtakes, delay_bounded}

-- 20,000 bytes a second, an empty bucket, and `n` datagrams queued.
abbrev busy : ℕ → PaceCtx
busy n = record {
  rate_bps = 20000;
  burst_bytes = 2048;
  max_delay_ms = 20;
  tokens = pos 0;
  last_fill_ms = 1000;
  win_start_ms = 1000;
  win_packets = 0;
  win_bytes = 0;
  q = replicate pace_queue_slots zero_entry;
  head = 255;
  count = n;
  stats = zero_stats;
}

abbrev traffic : List QueueOp
traffic =
    enqueues 3 [] (pos 16) [] 100 1010
    ∷ enqueues 4 [] (pos 16) [] 100 1011
    ∷ pops_due 1000
    ∷ closes 3
    ∷ pops_any
    ∷ []

queue_refines_list_example : queue_run (busy 0) traffic ≡ list_run (pending (busy 0)) traffic
queue_refines_list_example =
    queue_refines_list (busy 0) traffic
      (omega arith, omega arith, omega (arith, length-replicate pace_queue_slots zero_entry))

never_overtakes_example : (pace_admit (busy 1) 200 1000).0 ≢ send_now
never_overtakes_example =
    never_overtakes (busy 1) 200 1000 (omega arith) (omega arith) (omega arith)

is_delayed : (pace_admit (busy 0) 200 1000).0 ≡ queued
unfolding pace_admit pace_observe pace_tick refill spend shape wait_for inflow
is_delayed = refl

delay_bounded_example :
    ((pace_admit (busy 0) 200 1000).1 ≤ 1000 + 20)
    × (0 < pace_queue_slots)
    × (18 ≤ 200)
    × ((busy 0).rate_bps ≢ 0)
delay_bounded_example = delay_bounded (busy 0) 200 1000 (omega arith) is_delayed
