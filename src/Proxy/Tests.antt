-- ===== src/Proxy/Tests.antt =====
-- The hooks that send and close, at work, and the theorems at concrete states.
mod Receive
mod Log
use battlezone_netcode_patch.Prelude.{
  ℕ, ◌∙◌, sym, ◌≤◌, ◌<◌, ◌≡◌, ◌≢◌, ◌⊎◌, refl, true, false, not, none, some, List, [], ◌∷◌, ◌++◌,
  map, take, replicate, length-replicate, arith,
}
use battlezone_netcode_patch.Prelude.Int.{pos, negsuc, leb_ℤ}
use battlezone_netcode_patch.Prelude.Scan.{find_from, find_index?, fold_from}
use battlezone_netcode_patch.Reorder.{reorder_max_pkt_bytes}
use battlezone_netcode_patch.Reorder.Seq.{seq_cmp, seq_next, seq_ahead_or_equal}
use battlezone_netcode_patch.Reorder.Peers.{
  zero_slot, zero_peer, zero_stats as no_packets, reorder_hold_window,
}
use battlezone_netcode_patch.Reorder.Pick.{
  reorder_pick, pick_forced, pick_lowest, aged_round, nearer, index_of,
}
use battlezone_netcode_patch.Dampen.{dampen_init}
use battlezone_netcode_patch.Rtt.{RttCtx, zero_stats as no_samples}
use battlezone_netcode_patch.Pace.{PaceCtx, pace_queue_slots, zero_entry, zero_stats}
use battlezone_netcode_patch.Pace.Queue.{pending}
use battlezone_netcode_patch.Pace.Fifo.{IsRing}
use battlezone_netcode_patch.Proxy.{Sockaddr, WsaBuf, af_inet, invalid_socket}
use battlezone_netcode_patch.Prelude.Compact.{without}
use battlezone_netcode_patch.Proxy.Dup.{DupState, DupEntry, dup_queue_slots, zero_dup, waiting}
use battlezone_netcode_patch.Filter.{peer_filter_init}
use battlezone_netcode_patch.Proxy.SocketIds.{number_stays}
use battlezone_netcode_patch.Proxy.EventLog.{
  get_socket_id, number_socket, find_track, EventLog, LogEvent, Tracks, no_track, zero_record,
  flush_records,
}
use battlezone_netcode_patch.Proxy.Kept.{IsLog, last_of, log_run, recorded, log_keeps_last}
use battlezone_netcode_patch.Proxy.Close.{CloseState, hooked_closesocket}
use battlezone_netcode_patch.Proxy.Closed.{ends, Over, Untouched, close_clears}
use battlezone_netcode_patch.Proxy.Send.{TxState, wires, pace_flush_locked}
use battlezone_netcode_patch.Proxy.SendTo.{Ticks, hooked_sendto}
use battlezone_netcode_patch.Proxy.WsaSendTo.{Answer, gather, has_failed, hooked_wsa_send_to}
use battlezone_netcode_patch.Proxy.Flush.{flush_empties}
use battlezone_netcode_patch.Proxy.Take.{Paces, sequenced}
use battlezone_netcode_patch.Proxy.Order.{SendOp, sends, wakes, send_run, wire_in_order}
use battlezone_netcode_patch.Proxy.Gather.{contents, sizes, gather_whole}
use battlezone_netcode_patch.Proxy.Agree.{as_sendto, scattered, flat, hooks_agree}
use battlezone_netcode_patch.Proxy.Deliver.{deliver_to_caller, wsaemsgsize, msg_partial}
use battlezone_netcode_patch.Proxy.Scatter.{delivered_or_refused}
use battlezone_netcode_patch.Proxy.Recv.{
  RxState, RecvArgs, note_depth, polled_at, drain_reads, wsaewouldblock, hooked_wsa_recv_from,
}
use battlezone_netcode_patch.Proxy.Poll.{Deliverable, ready_is_delivered}

-- 20,000 bytes a second, an empty bucket, and one datagram queued.
abbrev pacer : PaceCtx
pacer = record {
  rate_bps = 20000;
  burst_bytes = 2048;
  max_delay_ms = 20;
  tokens = pos 0;
  last_fill_ms = 1000;
  win_start_ms = 1000;
  win_packets = 0;
  win_bytes = 0;
  q = replicate pace_queue_slots zero_entry;
  head = 255;
  count = 1;
  stats = zero_stats;
}

abbrev pacer-Ring : IsRing pacer
pacer-Ring = (omega arith, omega arith, omega (arith, length-replicate pace_queue_slots zero_entry))

abbrev sampler : RttCtx
sampler = record { enabled = false; trace_ms = 0; last_trace_ms = 0; peers = []; st = no_samples }

abbrev tx : TxState
tx = record {
  pace_ready = true;
  rtt_ready = true;
  has_sendto = true;
  send_dup = false;
  tx = pacer;
  dampen = dampen_init false 0;
  dampen_sock = invalid_socket;
  rtt = sampler;
  dup = record {
    ready = false;
    delay_ms = 25;
    max_pps = 40;
    q = [];
    q_head = 0;
    q_count = 0;
    bucket_start_ms = 0;
    bucket_sent = 0;
  };
}

abbrev peer : Sockaddr
peer = record { family = af_inet; in_addr = 16885952; bytes = 2 ∷ 0 ∷ 0 ∷ 80 ∷ [] }

abbrev clock : Ticks
clock = record { dampen_ms = 1001; rtt_ms = 1001; pace_ms = 1001; dup_ms = 1001 }

tx-Paces : Paces tx
tx-Paces = record { ring = pacer-Ring; rate = omega arith; ready = refl; has = refl; later = refl }

flush_empties_example :
    ((pace_flush_locked true pacer).0 ≡ wires (pending pacer))
    × ((pace_flush_locked true pacer).1.count ≡ 0)
    × IsRing (pace_flush_locked true pacer).1
    × ((pace_flush_locked true pacer).1.rate_bps ≡ 20000)
flush_empties_example = flush_empties pacer pacer-Ring

abbrev busy_game : List SendOp
busy_game =
    sends 3 (replicate 20 7) 20 peer 16 clock (pos 20)
    ∷ wakes 1002
    ∷ sends 3 (replicate 30 8) 30 peer 16 clock (pos 30)
    ∷ []

wire_in_order_example :
    sequenced (send_run tx busy_game).0 ++ sequenced (wires (pending (send_run tx busy_game).2.tx))
    ≡ sequenced (wires (pending pacer)) ++ sequenced (send_run tx busy_game).1
wire_in_order_example = wire_in_order tx busy_game tx-Paces (omega arith)

abbrev first_half : WsaBuf
first_half = record { buf = some (replicate 12 1); len = 12 }

abbrev second_half : WsaBuf
second_half = record { buf = some (replicate 8 2); len = 8 }

abbrev sent_all : Answer
sent_all = record { rc = pos 0; wsa = 0 }

both_fit : (gather [] 0 (first_half ∷ second_half ∷ [])).fits ≡ true
unfolding gather
both_fit = refl

both_count : 0 < (gather [] 0 (first_half ∷ second_half ∷ [])).total
unfolding gather
both_count = omega arith

accepted : leb_ℤ (pos 0) (pos 20) ≡ not (has_failed sent_all)
unfolding has_failed
accepted = refl

hooks_agree_example :
    let w =
      hooked_wsa_send_to true tx
        (scattered 3 first_half (second_half ∷ []) peer (pos 16))
        clock
        sent_all in
    let v = hooked_sendto tx (flat 3 first_half (second_half ∷ []) peer (pos 16)) clock (pos 20) in
    (map as_sendto w.out ≡ v.out) × (w.state ≡ v.state)
hooks_agree_example =
    hooks_agree tx 3 first_half (second_half ∷ []) peer (pos 16) clock sent_all (pos 20) refl
      both_fit both_count accepted

gather_whole_example :
    ((sizes (first_half ∷ second_half ∷ []) ≤ reorder_max_pkt_bytes)
      × (gather [] 0 (first_half ∷ second_half ∷ []) ≡ record {
        bytes = contents (first_half ∷ second_half ∷ []);
        total = sizes (first_half ∷ second_half ∷ []);
        fits = true;
      }))
    ⊎ ((reorder_max_pkt_bytes < sizes (first_half ∷ second_half ∷ []))
        × ((gather [] 0 (first_half ∷ second_half ∷ [])).fits ≡ false))
gather_whole_example = gather_whole (first_half ∷ second_half ∷ []) (omega arith)

-- One live peer, whose packet with sequence 7 is the first.
abbrev one_ready : RxState
one_ready = record {
  rx = record {
    adapt = true;
    win_max_ms = 100;
    win_min_ms = 5;
    max_hold_ms = 100;
    depth = 4;
    peers = 1;
    tbl =
        record zero_peer {
          key = 77;
          win_ms = 5;
          seq_init = true;
          last_seq = 6;
          filled = 1;
          slots = record zero_slot { ts = 1000; seq = 7; len = 18; used = true } ∷ [];
        }
        ∷ [];
    rr = 0;
    stats = no_packets;
  };
  sock = 3;
  last_recv_call_ms = 0;
  drain = 96;
}

-- With a queue of duplicates, and socket 3 as the one that carries the traffic.
abbrev in_session : TxState
in_session = record tx {
  dampen_sock = 3;
  dup = record {
    ready = true;
    delay_ms = 25;
    max_pps = 40;
    q = replicate dup_queue_slots zero_dup;
    q_head = 5;
    q_count = 2;
    bucket_start_ms = 0;
    bucket_sent = 0;
  };
}

-- Before a close, with no socket numbered.
abbrev closing : CloseState
closing = record {
  tracks = record { lock_ready = true; tracks = replicate 2 no_track; next_socket_id = 1 };
  sends = in_session;
  receives = one_ready;
}

close_clears_example :
    let s = closing.sends in
    let (_, out, g') = hooked_closesocket true true true closing 3 (pos 0) 1030 in
    let s' = g'.sends in
    (out ≡ wires (pending s.tx))
    × (s'.tx.count ≡ 0)
    × (waiting s'.dup ≡ without (λ (e : DupEntry). e.sock) 3 (waiting s.dup))
    × (((ends s 3 ≡ true) × Over s 0 s') ⊎ ((ends s 3 ≡ false) × Untouched s s'))
close_clears_example =
    close_clears closing 3 1030 0 (pos 0) true true (refl, refl, pacer-Ring)
      (refl, omega arith, omega arith, omega (arith, length-replicate dup_queue_slots zero_dup))
      (omega arith)
