-- ===== src/Pace/Delay.antt =====
-- What `pace_admit` may do to a datagram: when it delays one, for how long, and in what order.
use battlezone_netcode_patch.Prelude.{ℕ, ◌+◌, ◌^◌, ◌≤◌, ◌<◌, ◌≡◌, ◌≢◌, arith}
use battlezone_netcode_patch.Reorder.{reorder_seq_min_pay}
use battlezone_netcode_patch.Pace.{
  send_now, queued, PaceCtx, pace_queue_slots, pace_tick, pace_observe,
}
use battlezone_netcode_patch.Pace.Admit.{refill, wait_for, shape, spend, pace_admit}

-- The measurement leaves the shaping alone.
abbrev SameShape : PaceCtx → PaceCtx → Type 0
SameShape c d = (d.rate_bps ≡ c.rate_bps) × (d.count ≡ c.count) × (d.max_delay_ms ≡ c.max_delay_ms)

observe-SameShape : (c : PaceCtx) (len now : ℕ) → SameShape c (pace_observe c len now)
unfolding pace_observe pace_tick
observe-SameShape c len now = ground arith

refill-SameShape : (c : PaceCtx) (now : ℕ) → SameShape c (refill c now)
unfolding refill
refill-SameShape c now = ground arith

spend_overtakes : (c : PaceCtx) (len now : ℕ) → 0 < c.count → (spend c len now).0 ≢ send_now
unfolding spend shape
spend_overtakes c len now l = ground arith

-- With pacing on, a datagram that carries a sequence never overtakes the queue: while anything is
-- queued it is either queued behind or sent after a flush of the queue, never at once.
pub never_overtakes :
    (c : PaceCtx) (len now : ℕ)
    → c.rate_bps ≢ 0
    → reorder_seq_min_pay ≤ len
    → 0 < c.count
    → (pace_admit c len now).0 ≢ send_now
unfolding pace_admit
never_overtakes c len now r l q =
    let (a, b, m) = observe-SameShape c len now in
    let (a', b', m') = refill-SameShape (pace_observe c len now) now in
    ground (arith, a, b, b', spend_overtakes (refill (pace_observe c len now) now) len now)

-- A small wait is the delay that is asked for.
shape-Delay :
    (c : PaceCtx) (len now wait : ℕ)
    → now + c.max_delay_ms < 2 ^ 64
    → (shape c len now wait).0 ≡ queued
    → ((shape c len now wait).1 ≤ now + c.max_delay_ms) × (c.count < pace_queue_slots)
unfolding shape
shape-Delay c len now wait h e = ground arith

spend-Delay :
    (c : PaceCtx) (len now : ℕ)
    → now + c.max_delay_ms < 2 ^ 64
    → (spend c len now).0 ≡ queued
    → ((spend c len now).1 ≤ now + c.max_delay_ms) × (c.count < pace_queue_slots)
unfolding spend
spend-Delay c len now h e = ground (arith, shape-Delay c len now (wait_for c len) h)

-- A delayed datagram is one that carries a sequence, with pacing on and a slot free in the queue, and
-- its due time is at most the configured maximum away; everything else is sent by the caller.
pub delay_bounded :
    (c : PaceCtx) (len now : ℕ)
    → now + c.max_delay_ms < 2 ^ 64
    → (pace_admit c len now).0 ≡ queued
    → ((pace_admit c len now).1 ≤ now + c.max_delay_ms)
      × (c.count < pace_queue_slots)
      × (reorder_seq_min_pay ≤ len)
      × (c.rate_bps ≢ 0)
unfolding pace_admit
delay_bounded c len now h e =
    let (a, b, m) = observe-SameShape c len now in
    let (a', b', m') = refill-SameShape (pace_observe c len now) now in
    ground (arith, a, b, b', m, m', spend-Delay (refill (pace_observe c len now) now) len now)
