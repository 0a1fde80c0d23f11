-- ===== src/Reorder/Slots.antt =====
-- The ring of buffered packets of a peer: `reorder_insert`, `reorder_purge_stale`,
-- `reorder_note_delivery` and `reorder_take`. Each returns the statistics and the entry it changed.
use battlezone_netcode_patch.Prelude.{
  ℕ, zero, suc, ◌-◌, Bool, true, false, not, ◌&&◌, ◌||◌, none, some, List, [], ◌∷◌, take, get_or,
  set, ltb, leb, ◌==◌, if◌then◌else◌, add64, inc64, add32,
}
use battlezone_netcode_patch.Prelude.Int.{ltb_ℤ, leb_ℤ, pos}
use battlezone_netcode_patch.Prelude.Scan.{find_index?, min_index}
use battlezone_netcode_patch.Reorder.{
  DeliverKind, first, in_order, forced, evicted, SockAddr, ReorderSlot, PeerBuf, ReorderStats,
  ReorderCtx, reorder_max_pkt_bytes,
}
use battlezone_netcode_patch.Reorder.Seq.{seq_cmp}
use battlezone_netcode_patch.Reorder.Peers.{zero_slot}
use battlezone_netcode_patch.Reorder.Window.{reorder_decay}

pub data InsertResult : Type 0 where
  buffered stale duplicate : InsertResult
  displaced : ReorderSlot → InsertResult

unfoldable pub reorder_must_pass_through : InsertResult → Bool
reorder_must_pass_through stale = true
reorder_must_pass_through duplicate = true
reorder_must_pass_through _ = false

abbrev pub slot_at : PeerBuf → ℕ → ReorderSlot
slot_at pb i = get_or pb.slots i zero_slot

-- Has the cursor moved past this slot?
abbrev pub is_passed : ℕ → ReorderSlot → Bool
is_passed last x = x.used && leb_ℤ (seq_cmp x.seq last) (pos 0)

-- The purge of the first `n` slots, with the count of filled slots and of purged packets. The
-- decrement of `filled` is guarded in the source, as `-` is here.
unfoldable pub purge_loop : ℕ → ℕ → List ReorderSlot → ℕ → ℕ → List ReorderSlot × ℕ × ℕ
purge_loop last zero xs filled purged = (xs, filled, purged)
purge_loop last (suc n) [] filled purged = ([], filled, purged)
purge_loop last (suc n) (x ∷ xs) filled purged =
    let gone = is_passed last x in
    let (ys, f, p) =
      purge_loop last n xs (if gone then filled - 1 else filled)
        (if gone then inc64 purged else purged) in
    ((if gone then record x { used = false } else x) ∷ ys, f, p)

unfoldable pub reorder_purge_stale : ReorderCtx → ReorderStats → PeerBuf → ReorderStats × PeerBuf
reorder_purge_stale c st pb =
    if not pb.seq_init
    then (st, pb)
    else let (ys, f, p) = purge_loop pb.last_seq c.depth pb.slots pb.filled st.purged_stale in
      (record st { purged_stale = p }, record pb { slots = ys; filled = f })

-- The index of the hold-time histogram's bucket.
unfoldable pub hold_bucket : ℕ → ℕ
hold_bucket held =
    if held == 0
    then 0
    else if leb held 5
    then 1
    else if leb held 15
    then 2
    else if leb held 30
    then 3
    else if leb held 60
    then 4
    else 5

unfoldable pub count_kind : ReorderStats → DeliverKind → ReorderStats
count_kind st first = record st { delivered_first = inc64 st.delivered_first }
count_kind st in_order = record st { delivered_in_order = inc64 st.delivered_in_order }
count_kind st forced = record st { delivered_forced = inc64 st.delivered_forced }
count_kind st evicted = record st { delivered_evicted = inc64 st.delivered_evicted }

-- The hold time and the kind of a delivery are accounted.
unfoldable pub account : ReorderStats → ℕ → ℕ → DeliverKind → ReorderStats
unfolding hold_bucket
account st arrival now kind =
    let held = if ltb arrival now then now - arrival else 0 in
    let held32 = if ltb 0xffff_ffff held then 0xffff_ffff else held in
    let b = hold_bucket held32 in
    let timed : ReorderStats = record st {
      hold_ms_sum = add64 st.hold_ms_sum held32;
      hold_ms_max = if ltb st.hold_ms_max held32 then held32 else st.hold_ms_max;
      hold_hist = set st.hold_hist b (inc64 (get_or st.hold_hist b 0));
    } in
    count_kind timed kind

-- The cursor after a delivery: it only ever advances.
abbrev pub advance : PeerBuf → ℕ → ℕ
advance pb seq =
    if not pb.seq_init || ltb_ℤ (pos 0) (seq_cmp seq pb.last_seq) then seq else pb.last_seq

unfoldable pub reorder_note_delivery :
    ReorderCtx → ReorderStats → PeerBuf → ℕ → ℕ → ℕ → DeliverKind → ReorderStats × PeerBuf
reorder_note_delivery c st pb seq arrival now kind =
    let moved : PeerBuf = record pb { last_seq = advance pb seq; seq_init = true } in
    let (st', pb') = reorder_purge_stale c st moved in
    (
      account st' arrival now kind,
      record pb' { last_deliver_ms = now; last_activity_ms = now; delivered = inc64 pb'.delivered },
    )

-- The slot that a packet is written into: at most `reorder_max_pkt_bytes` of it.
abbrev pub filled_slot : ℕ → ℕ → SockAddr → List ℕ → ℕ → ReorderSlot
filled_slot seq ts from bytes len =
    let n = if ltb reorder_max_pkt_bytes len then reorder_max_pkt_bytes else len in
    record { ts = ts; seq = seq; len = n; used = true; from = from; payload = take n bytes }

-- Neither stale nor buffered: the packet goes into the first free slot, or takes that of the oldest
-- arrival, which is handed back.
unfoldable pub store : ReorderCtx → PeerBuf → ReorderSlot → InsertResult × PeerBuf
store c pb x = elim (find_index? (λ (y : ReorderSlot). not y.used) (take c.depth pb.slots)) [
  | some i ↦ (buffered, record pb { slots = set pb.slots i x; filled = add32 pb.filled 1 })
  | none ↦
      let o = min_index (λ (y : ReorderSlot). y.ts) (take c.depth pb.slots) in
      (displaced (slot_at pb o), record pb { slots = set pb.slots o x })
]

unfoldable pub reorder_insert :
    ReorderCtx
    → ReorderStats
    → PeerBuf
    → ℕ
    → ℕ
    → SockAddr
    → List ℕ
    → ℕ
    → InsertResult × ReorderStats × PeerBuf
reorder_insert c st pb seq ts from bytes len =
    if pb.seq_init && leb_ℤ (seq_cmp seq pb.last_seq) (pos 0)
    then (stale, record st { dropped_stale = inc64 st.dropped_stale }, pb)
    else elim (find_index? (λ (y : ReorderSlot). y.used && y.seq == seq) (take c.depth pb.slots)) [
      | some i ↦ (duplicate, record st { dropped_duplicate = inc64 st.dropped_duplicate }, pb)
      | none ↦ let (r, pb') = store c pb (filled_slot seq ts from bytes len) in (r, st, pb')
    ]

-- The packet in slot `i` is released: copied out, freed, accounted, and the window decays.
unfoldable pub reorder_take :
    ReorderCtx → ReorderStats → PeerBuf → ℕ → ℕ → DeliverKind → ReorderSlot × ReorderStats × PeerBuf
reorder_take c st pb i now kind =
    let pkt = slot_at pb i in
    let freed : PeerBuf = record pb {
      slots = set pb.slots i (record pkt { used = false });
      filled = pb.filled - 1;
    } in
    let (st', pb') = reorder_note_delivery c st freed pkt.seq pkt.ts now kind in
    (pkt, st', reorder_decay c pb' now)
