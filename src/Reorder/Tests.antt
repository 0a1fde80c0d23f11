-- ===== src/Reorder/Tests.antt =====
-- A small buffer in use, and the theorems at concrete rings.
use battlezone_netcode_patch.Prelude.{
  ℕ, ◌+◌, ◌≤◌, ◌<◌, ◌≡◌, inl, inr, refl, true, false, none, some, List, [], ◌∷◌, map, length,
  replicate, arith, leb,
}
use battlezone_netcode_patch.Prelude.Scan.{find_index?, fold_from, min_index}
use battlezone_netcode_patch.Reorder.{forced, ReorderSlot, PeerBuf, ReorderCtx}
use battlezone_netcode_patch.Reorder.Seq.{seq_cmp, seq_next, seq_ahead_or_equal}
use battlezone_netcode_patch.Reorder.Wire.{
  header, reorder_seq_from_payload, reorder_ack_from_payload, reorder_send_time_ms,
  reorder_is_reliable, wire_roundtrip,
}
use battlezone_netcode_patch.Reorder.Peers.{zero_peer, zero_slot, zero_stats, reorder_hold_window}
use battlezone_netcode_patch.Reorder.Window.{
  reorder_adapt_on_arrival, grow, oldest_ts, reorder_decay, keep_of,
}
use battlezone_netcode_patch.Reorder.Slots.{
  purge_loop, reorder_purge_stale, reorder_note_delivery, account, hold_bucket, count_kind, store,
  reorder_insert, reorder_take,
}
use battlezone_netcode_patch.Reorder.Pick.{
  lowest_round, aged_round, nearer, index_of, pick_forced, pick_lowest, reorder_pick,
  reorder_next_ready,
}
use battlezone_netcode_patch.Reorder.PickLaws.{active, entry, Reason, pick_sound}
use battlezone_netcode_patch.Reorder.PickReady.{pick_ready}
use battlezone_netcode_patch.Reorder.Cursor.{NonePassed, note_delivery_advances}
use battlezone_netcode_patch.Reorder.Session.{
  Datagram, Event, arrives, polled, after_insert, arrive, release, step, run,
}
use battlezone_netcode_patch.Reorder.Clean.{IsClean}
use battlezone_netcode_patch.Reorder.Order.{Ascending, run-Ascending}
use battlezone_netcode_patch.Reorder.Conserve.{held, used_count, passed_on, insert_conserves}
use battlezone_netcode_patch.Reorder.Filled.{step-Counts}
use battlezone_netcode_patch.Reorder.WindowBounds.{
  InWindow, decays, window_bounds, decay_reaches_floor,
}
use battlezone_netcode_patch.Reorder.RoundRobin.{IsReady, Chosen, round_robin_fair}

-- Four slots a peer and two peers.
abbrev small : ReorderCtx
small = record {
  adapt = true;
  win_max_ms = 100;
  win_min_ms = 5;
  max_hold_ms = 100;
  depth = 4;
  peers = 2;
  tbl = [];
  rr = 0;
  stats = zero_stats;
}

abbrev slot : ℕ → ℕ → ReorderSlot
slot ts seq = record zero_slot { ts = ts; seq = seq; len = 18; used = true }

abbrev empty_ring : PeerBuf
empty_ring = record zero_peer { key = 77; win_ms = 5; slots = replicate 4 zero_slot }

-- Sequence 10 has gone out; 12 and 13 wait for 11.
abbrev waiting : PeerBuf
waiting = record empty_ring {
  seq_init = true;
  last_seq = 10;
  filled = 2;
  win_ms = 20;
  last_deliver_ms = 990;
  slots = slot 1000 13 ∷ slot 1001 12 ∷ zero_slot ∷ zero_slot ∷ [];
}

abbrev two_peers : ReorderCtx
two_peers = record small { tbl = empty_ring ∷ waiting ∷ [] }

abbrev gram : ℕ → Datagram
gram seq = record { seq = seq; from = record { addr = 1; port = 2 }; bytes = []; len = 18 }

abbrev session : List Event
session =
    arrives (gram 13) 1000
    ∷ arrives (gram 12) 1001
    ∷ polled 1002
    ∷ arrives (gram 14) 1003
    ∷ polled 1004
    ∷ polled 1040
    ∷ arrives (gram 12) 1041
    ∷ []

session_order :
    map (λ (x : ReorderSlot). x.seq) (run small (zero_stats, empty_ring) session)
    ≡ 12 ∷ 13 ∷ 14 ∷ []
unfolding run step arrive release after_insert reorder_adapt_on_arrival grow oldest_ts
    reorder_insert store reorder_pick pick_forced pick_lowest lowest_round aged_round nearer
    index_of reorder_take reorder_note_delivery reorder_purge_stale purge_loop account hold_bucket
    count_kind reorder_decay keep_of find_index? fold_from min_index seq_cmp seq_next
    seq_ahead_or_equal reorder_hold_window
session_order = refl

pick-waiting :
    (reorder_pick small waiting 1005 ≡ (forced, none))
    × (reorder_pick small waiting 1020 ≡ (forced, some 0))
    × (reorder_pick small waiting 1021 ≡ (forced, some 1))
unfolding reorder_pick pick_forced aged_round nearer index_of find_index? fold_from seq_cmp seq_next
    seq_ahead_or_equal reorder_hold_window
pick-waiting = (refl, refl, refl)

wire_roundtrip_example :
    let p = header 0xc0 0 1_786_000_000_123 77001 5 (1 ∷ []) in
    (reorder_seq_from_payload p ≡ 77001)
    × (reorder_ack_from_payload p ≡ 5)
    × (reorder_send_time_ms p ≡ 1_786_000_000_123)
    × (reorder_is_reliable p ≡ leb 0x80 0xc0)
wire_roundtrip_example =
    wire_roundtrip 0xc0 0 1_786_000_000_123 77001 5 (1 ∷ []) (omega arith) (omega arith)
      (omega arith) (omega arith)

note_delivery_advances_example :
    let pb' = (reorder_note_delivery small zero_stats waiting 12 1001 1030 forced).1 in
    (pb'.seq_init ≡ true) × (pb'.last_seq ≡ 12) × NonePassed 4 pb'.last_seq pb'.slots
unfolding seq_cmp
note_delivery_advances_example = note_delivery_advances small zero_stats waiting 12 1001 1030 forced

pick_sound_example :
    (1 < length (active small waiting))
    × ((entry (active small waiting) 1).used ≡ true)
    × Reason small waiting 1021 1 forced
unfolding reorder_pick pick_forced aged_round nearer index_of find_index? fold_from seq_cmp seq_next
    seq_ahead_or_equal reorder_hold_window
pick_sound_example = pick_sound small waiting 1021 1 forced refl

pick_ready_example : (i : ℕ) × ((reorder_pick small waiting 1021).1 ≡ some i)
unfolding reorder_hold_window
pick_ready_example =
    pick_ready small waiting 1021 1 (omega arith) (omega arith) refl (inr (inr refl))

empty_ring-IsClean : IsClean small empty_ring
empty_ring-IsClean = record { room = omega arith; none_passed = inl refl }

run-Ascending_example : Ascending false 0 (run small (zero_stats, empty_ring) session)
run-Ascending_example = run-Ascending small zero_stats empty_ring session empty_ring-IsClean

window_bounds_example :
    let a = reorder_adapt_on_arrival small waiting 9 1040 in
    let d = reorder_decay small waiting 1040 in
    InWindow small a × (20 ≤ a.win_ms) × InWindow small d × (d.win_ms ≤ 20)
window_bounds_example = window_bounds small waiting 9 1040 (omega arith) (omega arith)

abbrev nearly : PeerBuf
nearly = record waiting { win_ms = 7 }

decay_reaches_floor_example : (decays small nearly (1000 ∷ 1500 ∷ [])).win_ms ≡ 5
decay_reaches_floor_example =
    decay_reaches_floor small nearly (1000 ∷ 1500 ∷ []) refl (omega arith) (omega arith)
      (omega arith) (omega arith)

-- Peer 1 has a packet that has aged out.
second-IsReady : IsReady two_peers 1021 1
unfolding reorder_pick pick_forced aged_round nearer index_of find_index? fold_from seq_cmp seq_next
    seq_ahead_or_equal reorder_hold_window
second-IsReady = (omega arith, 1, refl)

round_robin_fair_example : Chosen two_peers 1021 1 (reorder_next_ready two_peers 1021)
round_robin_fair_example =
    round_robin_fair two_peers 1021 1 (omega arith) (omega arith) (omega arith) second-IsReady

insert_conserves_example :
    let (r, st, pb) = reorder_insert small zero_stats waiting 11 1005 (gram 11).from [] 18 in
    held 11 small pb + passed_on 11 11 r ≡ held 11 small waiting + 1
insert_conserves_example =
    insert_conserves 11 small zero_stats waiting 11 1005 (gram 11).from [] 18 (omega arith)

step-Counts_example :
    let (out, st, pb) = step small (zero_stats, waiting) (polled 1021) in
    pb.filled ≡ used_count small pb
step-Counts_example =
    step-Counts small zero_stats waiting (polled 1021) (omega arith) (omega arith) refl
