-- ===== src/Proxy/Tests/Log.antt =====
-- The event log, the duplicates and the numbers of sockets at work.
use battlezone_netcode_patch.Prelude.{
  ℕ, ◌+◌, ◌*◌, ◌≤◌, ◌∙◌, sym, ◌≡◌, ◌≢◌, refl, true, false, some, List, [], ◌∷◌, ◌++◌, replicate,
  length-replicate, arith,
}
use battlezone_netcode_patch.Prelude.Int.{pos, negsuc}
use battlezone_netcode_patch.Prelude.Scan.{find_from, find_index?}
use battlezone_netcode_patch.Proxy.Budget.{DupOp, enqueues, pops, closes, dup_run, Budgeted}
use battlezone_netcode_patch.Proxy.Seconds.{queued, duplicates-Budgeted}
use battlezone_netcode_patch.Proxy.Dup.{DupState, dup_queue_slots, zero_dup}
use battlezone_netcode_patch.Filter.{peer_filter_init}
use battlezone_netcode_patch.Proxy.SocketIds.{TrackOp, asks, forgets, track_run, number_stays}
use battlezone_netcode_patch.Proxy.EventLog.{
  get_socket_id, number_socket, find_track, EventLog, BufferLogRecord, LogEvent, Tracks, no_track,
  zero_record, flush_records,
}
use battlezone_netcode_patch.Proxy.Kept.{IsLog, last_of, log_run, recorded, log_keeps_last}
use battlezone_netcode_patch.Proxy.Tests.{peer, in_session}

abbrev blank : BufferLogRecord
blank = record zero_record { payload = replicate 8 0 }

-- A ring of two records, with one in it.
abbrev small_log : EventLog
small_log = record {
  enabled = true;
  lock_ready = true;
  payload_bytes = 8;
  ring_records = 2;
  peer_filter = peer_filter_init;
  allocated = true;
  ring = blank ∷ blank ∷ [];
  head = 1;
  count = 1;
  sequence = 1;
  total_events = 1;
}

small-IsLog : IsLog small_log
small-IsLog = record { on = refl; head = omega arith; count = omega arith; room = omega arith }

abbrev no_sockets : Tracks
no_sockets = record { lock_ready = true; tracks = replicate 2 no_track; next_socket_id = 1 }

abbrev seen : ℕ → LogEvent
seen sock = record {
  event_type = 1;
  sock = sock;
  src = some peer;
  src_port = 17770;
  flags = 0;
  requested_len = 20;
  transferred_len = 20;
  wsa_error = 0;
  payload = some (replicate 8 7);
  payload_len = 8;
}

abbrev evening : List (LogEvent × ℕ)
evening = (seen 5, 1000) ∷ (seen 6, 1001) ∷ (seen 5, 1002) ∷ []

log_keeps_last_example :
    flush_records (log_run (small_log, no_sockets) evening).0
    ≡ last_of 2 (flush_records small_log ++ recorded (small_log, no_sockets) evening)
log_keeps_last_example = log_keeps_last small_log no_sockets evening small-IsLog

abbrev copies : DupState
copies = in_session.dup

copies-Budgeted : Budgeted 40 copies
copies-Budgeted = record {
  head = omega arith;
  count = omega arith;
  room = omega (arith, length-replicate dup_queue_slots zero_dup);
  cap = refl;
  sent = omega arith;
}

abbrev dup_traffic : List DupOp
dup_traffic =
    enqueues 3 (some (replicate 20 7)) 20 (some peer) (pos 16) 5000 ∷ pops 5030 ∷ closes 3 ∷ []

duplicates-Budgeted_example :
    (queued copies dup_traffic + copies.bucket_sent ≤ 40 * 6)
    × Budgeted 40 (dup_run copies dup_traffic)
duplicates-Budgeted_example =
    duplicates-Budgeted 40 6 copies dup_traffic (omega arith) (omega arith) copies-Budgeted
      (omega arith) (omega arith) (omega arith, omega arith, tt)

numbers_differ : pos 1 ≢ negsuc 0
numbers_differ e = cc

first_number : (get_socket_id no_sockets 5 true).0 ≡ pos 1
unfolding get_socket_id number_socket find_track find_index? find_from
first_number = refl

-- Socket 6 is numbered and forgotten in between.
abbrev others : List TrackOp
others = asks 6 true ∷ forgets 6 ∷ asks 7 true ∷ []

number_stays_example :
    let (id, t') = get_socket_id no_sockets 5 true in
    get_socket_id (track_run t' others) 5 false ≡ (id, track_run t' others)
number_stays_example =
    number_stays no_sockets 5 others false refl (λ e. omega (arith, e))
      (λ e. numbers_differ (sym first_number ∙ e)) ((λ e. omega (arith, e)), tt)
