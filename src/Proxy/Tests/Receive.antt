-- ===== src/Proxy/Tests/Receive.antt =====
-- The receive hook at work.
use battlezone_netcode_patch.Prelude.{
  ◌≤◌, ◌<◌, ◌≡◌, ◌≢◌, ◌⊎◌, refl, none, some, List, [], ◌∷◌, take, replicate, arith,
}
use battlezone_netcode_patch.Prelude.Int.{pos, negsuc}
use battlezone_netcode_patch.Prelude.Scan.{find_index?, fold_from}
use battlezone_netcode_patch.Reorder.Seq.{seq_cmp, seq_next, seq_ahead_or_equal}
use battlezone_netcode_patch.Reorder.Peers.{zero_stats as no_packets, reorder_hold_window}
use battlezone_netcode_patch.Reorder.Pick.{
  reorder_pick, pick_forced, pick_lowest, aged_round, nearer, index_of,
}
use battlezone_netcode_patch.Proxy.{WsaBuf}
use battlezone_netcode_patch.Proxy.Gather.{contents, sizes}
use battlezone_netcode_patch.Proxy.Deliver.{deliver_to_caller, wsaemsgsize, msg_partial}
use battlezone_netcode_patch.Proxy.Scatter.{delivered_or_refused}
use battlezone_netcode_patch.Proxy.Recv.{
  RecvArgs, note_depth, polled_at, drain_reads, wsaewouldblock, hooked_wsa_recv_from,
}
use battlezone_netcode_patch.Proxy.Poll.{Deliverable, ready_is_delivered}
use battlezone_netcode_patch.Proxy.Tests.{one_ready}

-- A datagram of 20 bytes for buffers of 16.
abbrev narrow : List WsaBuf
narrow =
    record { buf = some (replicate 8 0); len = 8 }
    ∷ record { buf = none; len = 4 }
    ∷ record { buf = some (replicate 8 0); len = 8 }
    ∷ []

delivered_or_refused_example :
    let (r, st) = deliver_to_caller no_packets narrow none [] (replicate 20 7) 20 in
    ((20 ≤ sizes narrow)
      × (r.rc ≡ pos 0)
      × (r.wsa ≡ 0)
      × (r.flags ≡ some 0)
      × (r.bytes_received ≡ some 20)
      × (take 20 (contents r.buffers) ≡ replicate 20 7))
    ⊎ ((sizes narrow < 20)
        × (r.rc ≡ negsuc 0)
        × (r.wsa ≡ wsaemsgsize)
        × (r.flags ≡ some msg_partial)
        × (r.bytes_received ≡ some (sizes narrow))
        × (take (sizes narrow) (contents r.buffers) ≡ take (sizes narrow) (replicate 20 7)))
delivered_or_refused_example =
    delivered_or_refused no_packets narrow none [] (replicate 20 7) 20 (omega arith) refl

abbrev ask : RecvArgs
ask = record { sock = 4; buffers = narrow; from = none }

one-Deliverable : Deliverable 1021 0 (drain_reads 96 (polled_at one_ready ask 1020) 4 0 [])
unfolding drain_reads polled_at note_depth reorder_pick pick_forced pick_lowest aged_round nearer
    index_of find_index? fold_from seq_cmp seq_next seq_ahead_or_equal reorder_hold_window
one-Deliverable = (omega arith, (omega arith, 0, refl))

ready_is_delivered_example :
    (hooked_wsa_recv_from (λ a. []) one_ready ask 1020 1021 []).0.wsa ≢ wsaewouldblock
ready_is_delivered_example =
    ready_is_delivered (λ a. []) one_ready ask 1020 1021 0 [] (omega arith) one-Deliverable
