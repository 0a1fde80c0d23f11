-- ===== src/Proxy/Recv.antt =====
-- The receive hooks of dsound_proxy.cpp: `hooked_WSARecvFrom` drains what the kernel has into the
-- reorder buffer and hands one datagram to the game.
use battlezone_netcode_patch.Prelude.{
  ℕ, zero, suc, ◌+◌, Bool, true, false, ◌&&◌, ◌||◌, Option, none, some, List, [], ◌∷◌, length, ltb,
  ◌==◌, ◌!=◌, if◌then◌else◌, inc64,
}
use battlezone_netcode_patch.Prelude.Int.{negsuc}
use battlezone_netcode_patch.Reorder.{
  evicted, SockAddr, PeerBuf, ReorderStats, ReorderCtx, reorder_seq_min_pay,
}
use battlezone_netcode_patch.Reorder.Wire.{reorder_seq_from_payload}
use battlezone_netcode_patch.Reorder.Peers.{
  peer_at, put_peer, reorder_get_peer, reorder_drain_saturated,
}
use battlezone_netcode_patch.Reorder.Window.{reorder_adapt_on_arrival}
use battlezone_netcode_patch.Reorder.Slots.{
  InsertResult, buffered, stale, duplicate, displaced, reorder_insert, reorder_note_delivery,
  reorder_take,
}
use battlezone_netcode_patch.Reorder.Pick.{Ready, reorder_next_ready}
use battlezone_netcode_patch.Proxy.{WsaBuf, af_inet}
use battlezone_netcode_patch.Proxy.Deliver.{FromArg, Received, deliver_to_caller}

abbrev pub wake_magic : List ℕ
wake_magic = b'B' ∷ b'Z' ∷ b'W' ∷ b'K' ∷ b'P' ∷ b'K' ∷ b'T' ∷ b'1' ∷ []

abbrev pub wsaewouldblock : ℕ
wsaewouldblock = 10035

-- What a call of the real WSARecvFrom answers into the drain buffer, and the clock after it.
pub record Drained : Type 0 where
  pub family : ℕ
  pub src : SockAddr
  pub bytes : List ℕ
  pub now : ℕ

pub data Read : Type 0 where
  too_big fails : Read
  datagram : Drained → Read

-- The globals of the receive path.
pub record RxState : Type 0 where
  pub rx : ReorderCtx
  pub sock : ℕ
  pub last_recv_call_ms : ℕ
  pub drain : ℕ

-- A datagram for the game: its source as bytes, and its payload.
pub record Handed : Type 0 where
  pub src : SockAddr
  pub payload : List ℕ
  pub len : ℕ

-- How a round of the drain loop ends. `hands true` notes the depth of the drain as well.
pub data Round : Type 0 where
  breaks : Round
  goes_on : RxState → Round
  hands : Bool → Handed → RxState → Round

abbrev pub same_bytes : List ℕ → List ℕ → Bool
same_bytes [] [] = true
same_bytes [] (y ∷ ys) = false
same_bytes (x ∷ xs) [] = false
same_bytes (x ∷ xs) (y ∷ ys) = x == y && same_bytes xs ys

abbrev pub with_stats : RxState → ReorderStats → RxState
with_stats s st = record s { rx = record (s.rx) { stats = st } }

-- What an insertion leads to.
unfoldable pub inserted : RxState → ℕ → Drained → ℕ → InsertResult × ReorderStats × PeerBuf → Round
inserted s i d len (buffered, st, pb) = goes_on (record s { rx = put_peer s.rx i (st, pb) })
inserted s i d len (displaced y, st, pb) =
    let noted = reorder_note_delivery s.rx st pb y.seq y.ts d.now evicted in
    hands true (record { src = y.from; payload = y.payload; len = y.len })
      (record s { rx = put_peer s.rx i noted })
inserted s i d len (stale, st, pb) =
    hands true (record { src = d.src; payload = d.bytes; len = len })
      (record s { rx = put_peer s.rx i (st, pb) })
inserted s i d len (duplicate, st, pb) =
    hands true (record { src = d.src; payload = d.bytes; len = len })
      (record s { rx = put_peer s.rx i (st, pb) })

-- The peer's entry, or the null pointer.
unfoldable pub at_peer : RxState → ℕ → Drained → ℕ → Option ℕ × ReorderCtx → Round
at_peer s sock d len (none, c) =
    hands false (record { src = d.src; payload = d.bytes; len = len })
      (record s {
        rx = record c {
          stats = record (c.stats) { bypass_table_full = inc64 c.stats.bypass_table_full };
        };
      })
at_peer s sock d len (some i, c) =
    let seq = reorder_seq_from_payload d.bytes in
    let adapted = reorder_adapt_on_arrival c (peer_at c i) seq d.now in
    inserted (record s { rx = c; sock = sock; last_recv_call_ms = d.now }) i d len
      (reorder_insert c c.stats adapted seq d.now d.src d.bytes len)

-- One datagram of the drain. A wake datagram is dropped; one that is too short to carry a sequence, or
-- not IPv4, goes to the game at once.
unfoldable pub take_in : RxState → ℕ → Drained → Round
take_in s sock d =
    let len = length d.bytes in
    let st = s.rx.stats in
    if len == 0
    then breaks
    else if same_bytes d.bytes wake_magic
    then goes_on s
    else if d.family != af_inet || ltb len reorder_seq_min_pay
    then hands false (record { src = d.src; payload = d.bytes; len = len })
        (with_stats s (record st { bypass_short = inc64 st.bypass_short }))
    else at_peer s sock d len (reorder_get_peer s.rx d.src d.now)

unfoldable pub drain_round : RxState → ℕ → Read → Round
drain_round s sock too_big =
    goes_on (with_stats s (record (s.rx.stats) { emsgsize = inc64 s.rx.stats.emsgsize }))
drain_round s sock fails = breaks
drain_round s sock (datagram d) = take_in s sock d

unfoldable pub note_depth : RxState → ℕ → RxState
note_depth s drained =
    if ltb s.rx.stats.max_drain_depth drained
    then with_stats s (record (s.rx.stats) { max_drain_depth = drained })
    else s

-- A datagram for the game, if the loop returned with one, the answers not asked for, and the state.
abbrev pub DrainResult : Type 0
DrainResult = Option Handed × List Read × RxState

abbrev pub after_round : ℕ → List Read → RxState → Round → (RxState → DrainResult) → DrainResult
after_round drained rs s breaks rest = (none, rs, note_depth s drained)
after_round drained rs s (goes_on s') rest = rest s'
after_round drained rs s (hands true h s') rest = (some h, rs, note_depth s' (drained + 1))
after_round drained rs s (hands false h s') rest = (some h, rs, s')

-- The drain loop, at most `g_reorder_drain` rounds, over the answers of the real WSARecvFrom.
unfoldable pub drain_reads : ℕ → RxState → ℕ → ℕ → List Read → DrainResult
drain_reads zero s sock drained rs = (none, rs, note_depth s drained)
drain_reads (suc n) s sock drained [] = (none, [], note_depth s drained)
drain_reads (suc n) s sock drained (r ∷ rs) =
    let rest = λ (s' : RxState). drain_reads n s' sock (drained + 1) rs in
    if reorder_drain_saturated s.rx
    then (none, r ∷ rs, note_depth s drained)
    else after_round drained rs s (drain_round s sock r) rest

-- The out-parameters of the hook, and `addr_bytes` lays a source address out in memory.
pub record RecvArgs : Type 0 where
  pub sock : ℕ
  pub buffers : List WsaBuf
  pub from : Option FromArg

unfoldable pub hand_over : (SockAddr → List ℕ) → RxState → RecvArgs → Handed → Received × RxState
hand_over addr_bytes s a h =
    let (r, st) =
      deliver_to_caller s.rx.stats a.buffers a.from (addr_bytes h.src) h.payload h.len in
    (r, with_stats s st)

-- The best packet that is ready, or none for now.
unfoldable pub poll_ready :
    (SockAddr → List ℕ) → RxState → RecvArgs → ℕ → Option Ready × ReorderCtx → Received × RxState
poll_ready addr_bytes s a now (none, c) = (
  record {
    rc = negsuc 0;
    wsa = wsaewouldblock;
    bytes_received = none;
    flags = none;
    buffers = a.buffers;
    from = a.from;
  },
  record s { rx = c },
)
poll_ready addr_bytes s a now (some x, c) =
    let (pkt, st, pb) = reorder_take c c.stats (peer_at c x.peer) x.slot now x.kind in
    hand_over addr_bytes (record s { rx = put_peer c x.peer (st, pb) }) a
      (record { src = pkt.from; payload = pkt.payload; len = pkt.len })

-- After the drain: the datagram it returned with, or what the buffer has.
unfoldable pub after_drain : (SockAddr → List ℕ) → RecvArgs → ℕ → DrainResult → Received × RxState
after_drain addr_bytes a now (some h, rs, s) = hand_over addr_bytes s a h
after_drain addr_bytes a now (none, rs, s) =
    poll_ready addr_bytes s a now (reorder_next_ready s.rx now)

-- A poll of the socket that carries the game's traffic is noted.
unfoldable pub polled_at : RxState → RecvArgs → ℕ → RxState
polled_at s a polled = if a.sock == s.sock then record s { last_recv_call_ms = polled } else s

-- The synchronous path of `hooked_WSARecvFrom` with reordering on. `polled` and `now` are the clock
-- on entry and after the drain.
unfoldable pub hooked_wsa_recv_from :
    (SockAddr → List ℕ) → RxState → RecvArgs → ℕ → ℕ → List Read → Received × RxState
hooked_wsa_recv_from addr_bytes s a polled now rs =
    after_drain addr_bytes a now (drain_reads s.drain (polled_at s a polled) a.sock 0 rs)
