-- ===== src/Reorder/Session.antt =====
-- One peer's packets through the buffer, as `hooked_WSARecvFrom` of the proxies drives it: an
-- arrival adapts the window and is inserted, and a packet that it displaces is delivered at once; a
-- delivery picks a slot and takes it.
use battlezone_netcode_patch.Prelude.{ℕ, Option, none, some, List, [], ◌∷◌, ◌++◌}
use battlezone_netcode_patch.Reorder.{
  DeliverKind, evicted, SockAddr, ReorderSlot, PeerBuf, ReorderStats, ReorderCtx,
}
use battlezone_netcode_patch.Reorder.Window.{reorder_adapt_on_arrival}
use battlezone_netcode_patch.Reorder.Slots.{
  InsertResult, displaced, reorder_note_delivery, reorder_insert, reorder_take,
}
use battlezone_netcode_patch.Reorder.Pick.{reorder_pick}

pub record Datagram : Type 0 where
  pub seq : ℕ
  pub from : SockAddr
  pub bytes : List ℕ
  pub len : ℕ

pub data Event : Type 0 where
  arrives : Datagram → ℕ → Event
  polled : ℕ → Event

unfoldable pub after_insert :
    ReorderCtx
    → ℕ
    → InsertResult × ReorderStats × PeerBuf
    → List ReorderSlot × ReorderStats × PeerBuf
after_insert c now (displaced y, st, pb) =
    let (st', pb') = reorder_note_delivery c st pb y.seq y.ts now evicted in (y ∷ [], st', pb')
after_insert c now (r, st, pb) = ([], st, pb)

-- What the arrival makes the buffer release, with the new state.
unfoldable pub arrive :
    ReorderCtx → ReorderStats → PeerBuf → Datagram → ℕ → List ReorderSlot × ReorderStats × PeerBuf
arrive c st pb d now =
    let adapted = reorder_adapt_on_arrival c pb d.seq now in
    after_insert c now (reorder_insert c st adapted d.seq now d.from d.bytes d.len)

unfoldable pub release :
    ReorderCtx
    → ReorderStats
    → PeerBuf
    → ℕ
    → DeliverKind × Option ℕ
    → List ReorderSlot × ReorderStats × PeerBuf
release c st pb now (k, none) = ([], st, pb)
release c st pb now (k, some i) =
    let (pkt, st', pb') = reorder_take c st pb i now k in (pkt ∷ [], st', pb')

unfoldable pub step :
    ReorderCtx → ReorderStats × PeerBuf → Event → List ReorderSlot × ReorderStats × PeerBuf
step c (st, pb) (arrives d now) = arrive c st pb d now
step c (st, pb) (polled now) = release c st pb now (reorder_pick c pb now)

-- All that the buffer releases over a sequence of events, in order.
unfoldable pub run : ReorderCtx → ReorderStats × PeerBuf → List Event → List ReorderSlot
run c s [] = []
run c s (e ∷ es) = let (out, st, pb) = step c s e in out ++ run c (st, pb) es
