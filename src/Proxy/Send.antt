-- ===== src/Proxy/Send.antt =====
-- The send hooks of dsound_proxy.cpp: the dampener decides first, then the sampler records what is
-- going to the wire, then the pacer may take the datagram, and what it does not take is sent.
use battlezone_netcode_patch.Prelude.{
  ℕ, zero, suc, ◌+◌, Bool, true, false, not, ◌&&◌, Option, none, some, List, [], ◌∷◌, leb, ◌==◌,
  ◌!=◌, if◌then◌else◌,
}
use battlezone_netcode_patch.Prelude.Int.{ℤ, pos, ltb_ℤ, pos_part}
use battlezone_netcode_patch.Reorder.{reorder_max_pkt_bytes}
use battlezone_netcode_patch.Dampen.{DampenDecision, send, suppress, DampenCtx}
use battlezone_netcode_patch.Dampen.Admit.{dampen_admit}
use battlezone_netcode_patch.Rtt.{RttCtx}
use battlezone_netcode_patch.Rtt.Peer.{rtt_on_send}
use battlezone_netcode_patch.Pace.{
  PaceDecision, send_now, queued, flush_then_send, PaceEntry, PaceCtx, pace_addr_bytes,
  pace_observe, pace_tick,
}
use battlezone_netcode_patch.Pace.Admit.{pace_admit}
use battlezone_netcode_patch.Pace.Queue.{pace_enqueue, pace_pop_any, pace_pop_due}
use battlezone_netcode_patch.Proxy.{Sockaddr, WireCall, by_sendto, af_inet, dup_is_loopback}
use battlezone_netcode_patch.Proxy.Dup.{DupState}

-- The globals that the send path owns.
pub record TxState : Type 0 where
  pub pace_ready : Bool
  pub rtt_ready : Bool
  pub has_sendto : Bool
  pub send_dup : Bool
  pub tx : PaceCtx
  pub dampen : DampenCtx
  pub dampen_sock : ℕ
  pub rtt : RttCtx
  pub dup : DupState

abbrev pub wire_of : PaceEntry → WireCall
wire_of e = by_sendto (record {
  sock = e.sock;
  bytes = some e.bytes;
  len = pos e.len;
  flags = 0;
  to = some e.to;
  tolen = e.tolen;
})

abbrev pub wires : List PaceEntry → List WireCall
wires [] = []
wires (e ∷ es) = wire_of e ∷ wires es

-- What a pop leads to: nothing more, or a datagram and the rest of the loop.
abbrev pub flush_step :
    (PaceCtx → List PaceEntry × PaceCtx) → Option PaceEntry × PaceCtx → List PaceEntry × PaceCtx
flush_step rest (none, c) = ([], c)
flush_step rest (some e, c) = let (es, c') = rest c in (e ∷ es, c')

-- The loop `while (pop(&g_tx, &e)) send(e);` of `pace_flush_locked` and of the pacer thread, on fuel.
unfoldable pub drain_loop :
    (PaceCtx → Option PaceEntry × PaceCtx) → ℕ → PaceCtx → List PaceEntry × PaceCtx
drain_loop pop zero c = ([], c)
drain_loop pop (suc n) c = flush_step (drain_loop pop n) (pop c)

-- The datagrams in the order of the calls, if the real sendto is known.
unfoldable pub pace_flush_locked : Bool → PaceCtx → List WireCall × PaceCtx
pace_flush_locked has_sendto c =
    let (es, c') = drain_loop pace_pop_any (c.count + 1) c in
    ((if has_sendto then wires es else []), c')

-- A round of `send_pace_thread`: it closes the measurement window and releases what is due.
unfoldable pub pace_round : TxState → ℕ → List WireCall × TxState
pace_round s now =
    let ticked = pace_tick s.tx now in
    let (es, c) = drain_loop (λ t. pace_pop_due t now) (ticked.count + 1) ticked in
    if not s.pace_ready
    then ([], s)
    else ((if s.has_sendto then wires es else []), record s { tx = c })

unfoldable pub is_pacable : TxState → ℕ → ℤ → Bool
is_pacable s len tolen =
    s.pace_ready
    && s.has_sendto
    && ltb_ℤ (pos 0) tolen
    && len != 0
    && leb len reorder_max_pkt_bytes
    && leb (pos_part tolen) pace_addr_bytes

-- `pace_take` with a decision: did the pacer take the datagram, what was flushed, and the state.
unfoldable pub take_decided :
    Bool → ℕ → List ℕ → ℕ → List ℕ → ℤ → PaceDecision × ℕ × PaceCtx → Bool × List WireCall × PaceCtx
take_decided has_sendto sock bytes len to tolen (queued, due, c) =
    let (stored, c') = pace_enqueue c sock to tolen bytes len due in
    let (out, c'') = pace_flush_locked has_sendto c' in
    if stored then (true, [], c') else (false, out, c'')
take_decided has_sendto sock bytes len to tolen (flush_then_send, due, c) =
    let (out, c') = pace_flush_locked has_sendto c in (false, out, c')
take_decided has_sendto sock bytes len to tolen (send_now, due, c) = (false, [], c)

unfoldable pub pace_take :
    TxState → ℕ → List ℕ → ℕ → List ℕ → ℤ → ℕ → Bool × List WireCall × TxState
pace_take s sock bytes len to tolen now =
    let (taken, out, c) =
      take_decided s.has_sendto sock bytes len to tolen (pace_admit s.tx len now) in
    if is_pacable s len tolen then (taken, out, record s { tx = c }) else (false, [], s)

-- The destination is IPv4 and not the game itself.
unfoldable pub is_peer : Sockaddr → Bool
is_peer to = to.family == af_inet && not (dup_is_loopback (some to))

unfoldable pub after_admit : TxState → ℕ → ℕ → ℕ → DampenDecision × DampenCtx → Bool × TxState
after_admit s sock len now (send, d) = (false, record s { dampen = d; dampen_sock = sock })
after_admit s sock len now (suppress, d) =
    (true, record s { dampen = d; dampen_sock = sock; tx = pace_observe s.tx len now })

-- Is the datagram dampened? The socket that carries dampened traffic is noted.
unfoldable pub dampen_stage : TxState → ℕ → List ℕ → ℕ → Sockaddr → ℕ → Bool × TxState
dampen_stage s sock bytes len to now =
    if s.dampen.enabled && s.pace_ready && is_peer to
    then after_admit s sock len now (dampen_admit s.dampen to.in_addr bytes len now)
    else (false, s)

unfoldable pub rtt_stage : TxState → List ℕ → ℕ → Sockaddr → ℕ → TxState
rtt_stage s bytes len to now =
    if s.rtt.enabled && s.rtt_ready && is_peer to
    then record s { rtt = rtt_on_send s.rtt to.in_addr bytes len now }
    else s
