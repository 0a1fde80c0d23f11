-- ===== src/Iocp/Tests.antt =====
-- The hook on the completion port at work, and the theorems at concrete states.
use battlezone_netcode_patch.Prelude.{
  ℕ, ◌≡◌, refl, Bool, true, false, Option, none, some, List, [], ◌∷◌, ◌++◌, replicate, length,
  arith, ◌==◌, if◌then◌else◌,
}
use battlezone_netcode_patch.Prelude.Scan.{find_from, find_index?, fold_from}
use battlezone_netcode_patch.Reorder.{SockAddr, PeerBuf}
use battlezone_netcode_patch.Reorder.Peers.{
  zero_peer, zero_stats, peer_key, reorder_get_peer, put_peer, reorder_is_successor,
  reorder_hold_window, touch, fresh_peer, reclaim,
}
use battlezone_netcode_patch.Reorder.Seq.{seq_cmp, seq_next, seq_ahead_or_equal}
use battlezone_netcode_patch.Reorder.Wire.{reorder_seq_from_payload, be32_at}
use battlezone_netcode_patch.Reorder.Window.{
  reorder_adapt_on_arrival, grow, oldest_ts, keep_of, reorder_decay,
}
use battlezone_netcode_patch.Reorder.Slots.{
  reorder_note_delivery, purge_loop, reorder_purge_stale, hold_bucket, count_kind, account,
}
use battlezone_netcode_patch.Proxy.{af_inet}
use battlezone_netcode_patch.Iocp.{IocpRecv, Completion, Memory, Turn, IocpState, iocp_hold_cap}
use battlezone_netcode_patch.Iocp.Table.{
  no_recv, FirstBuf, iocp_track_recv, iocp_find_recv, clear_recv,
}
use battlezone_netcode_patch.Iocp.Pick.{
  no_held, iocp_pick_ready, iocp_release, judge_held, ready_round, ready_scan, oldest_round,
  iocp_pick_oldest, note_at, count_release,
}
use battlezone_netcode_patch.Iocp.Wait.{
  asked, note_now, defer, adapt_at, at_entry, at_source, is_unfit, read_recv, of_recv, watched,
  timed_out,
}
use battlezone_netcode_patch.Iocp.Port.{
  Waited, unhooked, starved, returned, turn, steps_aside, hooked_get_queued_completion_status,
  ready_first, asking, pass_through, after_turn, remaining, wait_loop, wait_budget, note_scan,
}
use battlezone_netcode_patch.Iocp.Held.{kept}
use battlezone_netcode_patch.Iocp.Conserve.{Conserves, port-Conserves}
use battlezone_netcode_patch.Iocp.Bounds.{Answers, port-Answers}
use battlezone_netcode_patch.Iocp.Busy.{Idles, port-Idles}
use battlezone_netcode_patch.Iocp.Tracked.{look_up, track-look_up}

abbrev host : SockAddr
host = record { addr = 0x0a00_0002; port = 4242 }

-- The buffer at address `a` holds the packet of sequence `a`, and every address is the host's.
abbrev memory : Memory
memory = record {
  payload = λ a. replicate 10 0 ++ (0 ∷ 0 ∷ 0 ∷ a ∷ []) ++ replicate 4 0;
  family = λ a. af_inet;
  source = λ a. host;
}

-- A receive into the buffer of its own number, and its completion at the time `ms`.
abbrev pending : ℕ → IocpRecv
pending a = record { ov = a; s = 9; buf = a; buflen = 2048; from = a; fromlen = a }

abbrev completes : ℕ → ℕ → Turn
completes a ms = record {
  top = ms;
  given = record { rc = true; bytes = 18; key = 7; ov = a };
  mem = memory;
  now = ms;
  done = ms;
}

abbrev nothing : ℕ → Turn
nothing ms = record {
  top = ms;
  given = record { rc = false; bytes = 0; key = 0; ov = 0 };
  mem = memory;
  now = ms;
  done = ms;
}

-- The host has delivered up to sequence 1, and receives 2 to 4 are posted.
abbrev heard : PeerBuf
heard = record zero_peer {
  key = 0x0a00_0002_1092;
  seq_init = true;
  last_seq = 1;
  win_ms = 100;
  last_activity_ms = 1000;
}

abbrev waiting : IocpState
waiting = record {
  has_real = true;
  scan = false;
  gqcs_logged = false;
  reorder = true;
  cs_ready = true;
  reorder_cs_ready = true;
  disabled = false;
  rx = record {
    adapt = true;
    win_max_ms = 100;
    win_min_ms = 5;
    max_hold_ms = 100;
    depth = 2;
    peers = 1;
    tbl = heard ∷ [];
    rr = 0;
    stats = zero_stats;
  };
  recvs = pending 2 ∷ pending 3 ∷ pending 4 ∷ no_recv ∷ [];
  held = replicate iocp_hold_cap no_held;
  posted = 3;
  completed = 0;
  deferred = 0;
  inorder = 0;
  forced_out = 0;
}

abbrev swapped : List Turn
swapped = completes 3 1000 ∷ completes 2 1001 ∷ nothing 1002 ∷ nothing 1003 ∷ nothing 1004 ∷ []

-- The OVERLAPPED that is handed over, the calls of the port, what is held back, and whether the hook
-- is disabled.
outcome : Waited → Option (ℕ × ℕ × ℕ × Bool)
outcome unhooked = none
outcome starved = none
outcome (returned c ts ws s) = some (c.ov, length ws, kept (λ _. 1) s.held, s.disabled)

-- The next call, with the turns and the state that a call leaves.
again_at : ℕ → Waited → Waited
again_at now unhooked = unhooked
again_at now starved = starved
again_at now (returned c ts ws s) = hooked_get_queued_completion_status s true 50 now ts

-- The gap before 3 is filled by 2, and 3 follows without a call of the port.
gap_is_filled :
    outcome (hooked_get_queued_completion_status waiting true 50 1000 swapped)
    ≡ some (2, 2, 1, false)
unfolding outcome iocp_find_recv clear_recv judge_held ready_round ready_scan iocp_pick_ready
    oldest_round iocp_pick_oldest note_at iocp_release count_release note_now defer adapt_at
    at_entry at_source is_unfit read_recv of_recv watched timed_out asked ready_first turn asking
    pass_through after_turn remaining wait_loop wait_budget steps_aside note_scan
    hooked_get_queued_completion_status be32_at reorder_seq_from_payload seq_cmp seq_next
    seq_ahead_or_equal put_peer reorder_is_successor reorder_hold_window peer_key fresh_peer reclaim
    touch reorder_get_peer grow oldest_ts reorder_adapt_on_arrival keep_of reorder_decay purge_loop
    reorder_purge_stale hold_bucket count_kind account reorder_note_delivery find_from find_index?
    fold_from
gap_is_filled = refl

successor_follows :
    outcome (again_at 1001 (hooked_get_queued_completion_status waiting true 50 1000 swapped))
    ≡ some (3, 0, 0, false)
unfolding outcome again_at iocp_find_recv clear_recv judge_held ready_round ready_scan
    iocp_pick_ready oldest_round iocp_pick_oldest note_at iocp_release count_release note_now defer
    adapt_at at_entry at_source is_unfit read_recv of_recv watched timed_out asked ready_first turn
    asking pass_through after_turn remaining wait_loop wait_budget steps_aside note_scan
    hooked_get_queued_completion_status be32_at reorder_seq_from_payload seq_cmp seq_next
    seq_ahead_or_equal put_peer reorder_is_successor reorder_hold_window peer_key fresh_peer reclaim
    touch reorder_get_peer grow oldest_ts reorder_adapt_on_arrival keep_of reorder_decay purge_loop
    reorder_purge_stale hold_bucket count_kind account reorder_note_delivery find_from find_index?
    fold_from
successor_follows = refl

-- A poll has no time to wait: a clock that ticks once while a completion is held back trips the watchdog,
-- and what is held stays there.
poll_trips_watchdog :
    outcome (
      hooked_get_queued_completion_status waiting true 0 1000
        (record (completes 3 1000) { done = 1001 } ∷ nothing 1001 ∷ []))
    ≡ some (0, 2, 1, true)
unfolding outcome iocp_find_recv clear_recv judge_held ready_round ready_scan iocp_pick_ready
    oldest_round iocp_pick_oldest note_at iocp_release count_release note_now defer adapt_at
    at_entry at_source is_unfit read_recv of_recv watched timed_out asked ready_first turn asking
    pass_through after_turn remaining wait_loop wait_budget steps_aside note_scan
    hooked_get_queued_completion_status be32_at reorder_seq_from_payload seq_cmp seq_next
    seq_ahead_or_equal put_peer reorder_is_successor reorder_hold_window peer_key fresh_peer reclaim
    touch reorder_get_peer grow oldest_ts reorder_adapt_on_arrival keep_of reorder_decay purge_loop
    reorder_purge_stale hold_bucket count_kind account reorder_note_delivery find_from find_index?
    fold_from
poll_trips_watchdog = refl

abbrev third : Completion → ℕ
third c = if c.ov == 3 then 1 else 0

third_has : (c : Completion) → c.ov ≡ 0 → third c ≡ 0
third_has c e = ground (arith, e)

port-Conserves_example :
    Conserves third waiting.held swapped
      (hooked_get_queued_completion_status waiting true 50 1000 swapped)
port-Conserves_example =
    port-Conserves third waiting true 50 1000 swapped third_has refl (omega arith)

port-Answers_example :
    Answers 5 1050 (hooked_get_queued_completion_status waiting true 50 1000 swapped)
unfolding steps_aside
port-Answers_example =
    port-Answers waiting true 50 1000 swapped refl refl (omega arith) (omega arith) (omega arith)
      (omega arith) (omega arith)

port-Idles_example : Idles (hooked_get_queued_completion_status waiting true 50 1000 swapped)
unfolding steps_aside
port-Idles_example =
    port-Idles waiting true 50 1000 swapped refl refl (refl, (refl, (refl, (refl, tt))))
      (omega arith)

abbrev fresh_buf : FirstBuf
fresh_buf = record { buf = 5; len = 512 }

track-look_up_example :
    look_up (iocp_track_recv waiting 6 9 (some fresh_buf) 5 5) 3 ≡ some (pending 3)
unfolding iocp_find_recv find_index? find_from
track-look_up_example =
    track-look_up waiting 6 9 fresh_buf 5 5 3 3 refl (λ e. omega (arith, e)) (λ e. omega (arith, e))
      (omega arith) refl
