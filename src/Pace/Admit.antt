-- ===== src/Pace/Admit.antt =====
-- `pace_admit` of shared/send_pace.h: send a datagram now, queue it, or give up on shaping. The
-- bucket is an int64_t in the source; it stays between -2^62 and the burst, so it is an integer here.
use battlezone_netcode_patch.Prelude.{
  ℕ, ◌*◌, ◌/◌, ◌%◌, not, ◌&&◌, ◌||◌, ltb, leb, ◌==◌, if◌then◌else◌, sub64, add64, inc64, u64_mod,
  to_u32,
}
use battlezone_netcode_patch.Prelude.Int.{pos, ◌+ℤ◌, ◌-ℤ◌, ltb_ℤ, leb_ℤ, pos_part}
use battlezone_netcode_patch.Reorder.{reorder_seq_min_pay}
use battlezone_netcode_patch.Pace.{
  PaceDecision, send_now, queued, flush_then_send, PaceStats, PaceCtx, pace_queue_slots,
  pace_observe,
}

-- What `elapsed` milliseconds add to the bucket.
unfoldable pub inflow : ℕ → ℕ → ℕ
inflow elapsed rate_bps = (elapsed * rate_bps % u64_mod) / 1000

unfoldable pub refill : PaceCtx → ℕ → PaceCtx
refill c now =
    let elapsed = sub64 now c.last_fill_ms in
    let t = c.tokens +ℤ pos (inflow elapsed c.rate_bps) in
    if ltb 0 elapsed
    then record c {
      tokens = if ltb_ℤ (pos c.burst_bytes) t then pos c.burst_bytes else t;
      last_fill_ms = now;
    }
    else c

-- How long until the bucket covers the packet.
unfoldable pub wait_for : PaceCtx → ℕ → ℕ
wait_for c len =
    let deficit = pos len -ℤ c.tokens in
    if ltb_ℤ (pos 0) deficit then (pos_part deficit * 1000 % u64_mod) / c.rate_bps else 0

unfoldable pub over_budget : PaceStats → ℕ → ℕ → PaceStats
over_budget s wait_ms max_delay_ms =
    if ltb max_delay_ms wait_ms
    then record s { over_budget_passed = inc64 s.over_budget_passed }
    else record s { queue_full_passed = inc64 s.queue_full_passed }

-- The decision that delays, with the wait at hand.
unfoldable pub shape : PaceCtx → ℕ → ℕ → ℕ → PaceDecision × ℕ × PaceCtx
shape c len now wait_ms =
    if ltb c.max_delay_ms wait_ms || leb pace_queue_slots c.count
    then (
      (if ltb 0 c.count then flush_then_send else send_now),
      now,
      record c { tokens = pos 0; stats = over_budget c.stats wait_ms c.max_delay_ms },
    )
    else (
      queued,
      add64 now wait_ms,
      record c {
        tokens = c.tokens -ℤ pos len;
        stats = record (c.stats) {
          paced = inc64 c.stats.paced;
          max_delay_ms =
              if ltb c.stats.max_delay_ms wait_ms then to_u32 wait_ms else c.stats.max_delay_ms;
        };
      },
    )

unfoldable pub spend : PaceCtx → ℕ → ℕ → PaceDecision × ℕ × PaceCtx
spend c len now =
    if not (ltb 0 c.count) && leb_ℤ (pos len) c.tokens
    then (send_now, now, record c { tokens = c.tokens -ℤ pos len })
    else shape c len now (wait_for c len)

-- The decision, `*due_ms`, and the state.
unfoldable pub pace_admit : PaceCtx → ℕ → ℕ → PaceDecision × ℕ × PaceCtx
pace_admit c len now =
    let o = pace_observe c len now in
    if o.rate_bps == 0
    then (send_now, now, o)
    else if ltb len reorder_seq_min_pay
    then (
      send_now,
      now,
      record o { stats = record (o.stats) { exempt_small = inc64 o.stats.exempt_small } },
    )
    else spend (refill o now) len now
