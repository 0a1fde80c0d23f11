-- ===== src/Proxy/Wake/Tests.antt =====
-- The wake thread and the receive that hides its datagrams, at work.
use battlezone_netcode_patch.Prelude.{
  ℕ, ◌+◌, ◌*◌, ◌≤◌, ◌≡◌, refl, true, false, none, some, List, [], ◌∷◌, ◌++◌, length, replicate,
  if◌then◌else◌, arith,
}
use battlezone_netcode_patch.Prelude.Int.{ℤ, pos, negsuc}
use battlezone_netcode_patch.Prelude.Scan.{find_from, find_index?}
use battlezone_netcode_patch.Reorder.Peers.{zero_peer, reorder_init}
use battlezone_netcode_patch.Proxy.{af_inet, invalid_socket}
use battlezone_netcode_patch.Proxy.Recv.{RxState, wake_magic}
use battlezone_netcode_patch.Proxy.Wake.{
  WakeState, WakeOp, polls, rounds, wake_run, wake_round, is_holding, needs_no_wake, noticed,
  within_burst, wake_bound, with_sender, wake_from,
}
use battlezone_netcode_patch.Proxy.Burst.{AllWakes, wakes_bounded}
use battlezone_netcode_patch.Proxy.RecvFrom.{
  msg_peek, Got, FromCall, FromState, is_peek, hooked_recvfrom,
}
use battlezone_netcode_patch.Filter.{peer_filter_init}
use battlezone_netcode_patch.Rtt.{zero_stats}
use battlezone_netcode_patch.Proxy.EventLog.{zero_record, no_track}
use battlezone_netcode_patch.Proxy.Invisible.{DatagramSocket, recvfrom_hides_wakes, GameReceives}

-- A peer with a held packet, and a game that does not poll.
abbrev stalled : RxState
stalled = record {
  rx = record reorder_init { tbl = record zero_peer { key = 7; filled = 1 } ∷ []; peers = 1 };
  sock = 5;
  last_recv_call_ms = 1000;
  drain = 16;
}

abbrev rested : WakeState
rested = record { seen_call = 0; burst = 0; wake_sender = invalid_socket }

abbrev tenth : ℕ → WakeOp
tenth ms = rounds (record {
  now = ms;
  bound = some (record { family = af_inet; port = 4000; addr = 0 });
  opened = 9;
})

abbrev twelve : List WakeOp
twelve = replicate 12 (tenth 2000)

eight_of_twelve : length (wake_run true stalled rested twelve) ≡ 8
unfolding wake_run wake_round needs_no_wake is_holding find_index? find_from noticed within_burst
    wake_bound with_sender wake_from reorder_init
eight_of_twelve = refl

wakes_bounded_example :
    (length (wake_run true stalled rested (twelve ++ polls 2000 ∷ twelve)) ≤ 8 * (1 + 1))
    × AllWakes (wake_run true stalled rested (twelve ++ polls 2000 ∷ twelve))
wakes_bounded_example = wakes_bounded true stalled rested (twelve ++ polls 2000 ∷ twelve)

abbrev failed : Got
failed = record { rc = negsuc 0; wsa = 10035; bytes = []; from = none; port = 0 }

abbrev take_head : List (List ℕ) → ℤ → ℕ → Got × List (List ℕ)
take_head [] len flags = (failed, [])
take_head (d ∷ ds) len flags = (
  record { rc = pos (length d); wsa = 0; bytes = d; from = none; port = 0 },
  if is_peek flags then d ∷ ds else ds,
)

take_head_empty :
    (k : List (List ℕ)) (len : ℤ) (flags : ℕ)
    → k ≡ []
    → ((take_head k len flags).0.rc ≡ negsuc 0) × ((take_head k len flags).1 ≡ [])
take_head_empty k len flags e = rw e (refl, refl)

abbrev listed : DatagramSocket
listed = record {
  K = List (List ℕ);
  queue = λ k. k;
  recvfrom = take_head;
  recv_empty = take_head_empty;
  recv_head = λ k d ds len flags e l. rw e (refl, refl, refl);
}

abbrev globals : FromState
globals = record {
  log = (
    record {
      enabled = true;
      lock_ready = true;
      payload_bytes = 8;
      ring_records = 2;
      peer_filter = peer_filter_init;
      allocated = true;
      ring = zero_record ∷ zero_record ∷ [];
      head = 0;
      count = 0;
      sequence = 0;
      total_events = 0;
    },
    record { lock_ready = true; tracks = no_track ∷ []; next_socket_id = 1 },
  );
  rtt = record { enabled = false; trace_ms = 0; last_trace_ms = 0; peers = []; st = zero_stats };
  rtt_ready = true;
}

abbrev peeks : FromCall
peeks = record { sock = 5; has_buf = true; len = pos 64; flags = msg_peek }

abbrev two_wakes : List (List ℕ)
two_wakes = wake_magic ∷ wake_magic ∷ (1 ∷ 2 ∷ 3 ∷ []) ∷ []

recvfrom_hides_wakes_example :
    GameReceives listed true
      ((1 ∷ 2 ∷ 3 ∷ []) ∷ [])
      (hooked_recvfrom take_head 4 true globals peeks 7 8 two_wakes)
unfolding is_peek
recvfrom_hides_wakes_example =
    recvfrom_hides_wakes listed 4 globals peeks 64 7 8 two_wakes refl refl (omega arith)
      (omega arith, (omega arith, (omega arith, tt)))
