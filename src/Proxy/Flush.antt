-- ===== src/Proxy/Flush.antt =====
-- `pace_flush_locked` and a round of `send_pace_thread`: what goes to the wire.
use battlezone_netcode_patch.Prelude.{
  ℕ, ◌+◌, ◌<◌, ◌≡◌, ◌∙◌, ap, sym, refl, inl, inr, true, none, List, [], ◌∷◌, ◌++◌, get_or, arith,
  Bool-cases, ltb, sub64,
}
use mathlib.Core.List.{append-nil}
use battlezone_netcode_patch.Pace.{PaceEntry, PaceCtx, zero_entry, pace_tick}
use battlezone_netcode_patch.Pace.Queue.{pending, pop_head, pace_pop_any, pace_pop_due}
use battlezone_netcode_patch.Pace.Fifo.{IsRing}
use battlezone_netcode_patch.Proxy.Send.{
  TxState, wire_of, wires, drain_loop, pace_flush_locked, pace_round,
}
use battlezone_netcode_patch.Proxy.Drain.{Drains, any-Pops, due-Pops, drain-Drains}

pub wires-append : (xs ys : List PaceEntry) → wires (xs ++ ys) ≡ wires xs ++ wires ys
wires-append [] ys = refl
wires-append (x ∷ xs) ys = ap (λ t. wire_of x ∷ t) (wires-append xs ys)

no_more : (c : PaceCtx) → (pace_pop_any c).0 ≡ none → c.count ≡ 0
unfolding pace_pop_any pop_head
no_more c e = ground arith

empty-pending : (c : PaceCtx) → c.count ≡ 0 → pending c ≡ []
empty-pending c e = simp e refl

flushed :
    (c : PaceCtx) (r : List PaceEntry × PaceCtx)
    → Drains pace_pop_any c r
    → (wires r.0 ≡ wires (pending c)) × (r.1.count ≡ 0) × IsRing r.1 × (r.1.rate_bps ≡ c.rate_bps)
flushed c (es, c') (p, k, r, stop) =
    let e = no_more c' stop in
    let q : pending c ≡ es = p ∙ ap (λ t. es ++ t) (empty-pending c' e) ∙ append-nil es in
    (sym (ap wires q), e, k, r)

-- A flush of a well-formed ring ends, and it hands every waiting datagram to the real sendto, the
-- oldest first and with its own socket, bytes and address, and leaves an empty queue.
pub flush_empties :
    (c : PaceCtx)
    → IsRing c
    → ((pace_flush_locked true c).0 ≡ wires (pending c))
      × ((pace_flush_locked true c).1.count ≡ 0)
      × IsRing (pace_flush_locked true c).1
      × ((pace_flush_locked true c).1.rate_bps ≡ c.rate_bps)
unfolding pace_flush_locked
flush_empties c k =
    flushed c (drain_loop pace_pop_any (c.count + 1) c)
      (drain-Drains pace_pop_any any-Pops (c.count + 1) c k (omega arith))

pub tick-Ring :
    (c : PaceCtx) (now : ℕ)
    → IsRing c
    → IsRing (pace_tick c now)
      × (pending (pace_tick c now) ≡ pending c)
      × ((pace_tick c now).rate_bps ≡ c.rate_bps)
unfolding pace_tick
tick-Ring c now k = elim (Bool-cases (ltb (sub64 now c.win_start_ms) 1000)) [
  | inl e ↦ simp e (k, refl, refl)
  | inr e ↦ simp e (k, refl, refl)
]

-- The head of the queue is due later.
abbrev pub Waits : PaceCtx → ℕ → Type 0
Waits c now = (0 < c.count) → now < (get_or c.q c.head zero_entry).due_ms

waits : (c : PaceCtx) (now : ℕ) → (pace_pop_due c now).0 ≡ none → Waits c now
unfolding pace_pop_due pop_head
waits c now e = ground arith

released :
    (c : PaceCtx) (now : ℕ) (r : List PaceEntry × PaceCtx)
    → Drains (λ t. pace_pop_due t now) c r
    → (wires (pending c) ≡ wires r.0 ++ wires (pending r.1))
      × IsRing r.1
      × (r.1.rate_bps ≡ c.rate_bps)
      × Waits r.1 now
released c now (es, c') (p, k, r, stop) =
    (ap wires p ∙ wires-append es (pending c'), k, r, waits c' now stop)

-- A round of the pacer thread ends, and it hands the oldest datagrams to the real sendto, in order,
-- leaves the others in order, and stops at a datagram that is due later.
pub round_releases :
    (s : TxState) (now : ℕ)
    → IsRing s.tx
    → s.pace_ready ≡ true
    → s.has_sendto ≡ true
    → (wires (pending s.tx) ≡ (pace_round s now).0 ++ wires (pending (pace_round s now).1.tx))
      × IsRing (pace_round s now).1.tx
      × ((pace_round s now).1.tx.rate_bps ≡ s.tx.rate_bps)
      × Waits (pace_round s now).1.tx now
unfolding pace_round
round_releases s now k p h =
    let (k', q, r) = tick-Ring s.tx now k in
    let t = pace_tick s.tx now in
    let (w, k'', r', z) =
      released t now (drain_loop (λ u. pace_pop_due u now) (t.count + 1) t)
        (drain-Drains (λ u. pace_pop_due u now) (due-Pops now) (t.count + 1) t k' (omega arith)) in
    simp (p, h) (sym (ap wires q) ∙ w, k'', r' ∙ r, z)
