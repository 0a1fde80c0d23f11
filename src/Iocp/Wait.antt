-- ===== src/Iocp/Wait.antt =====
-- `Hooked_GetQueuedCompletionStatus`: a completion is asked for, classified, and handed to the game or
-- held back.
use battlezone_netcode_patch.Prelude.{
  ℕ, ◌*◌, Bool, true, not, ◌||◌, Option, none, some, List, set, ltb, ◌==◌, ◌!=◌, if◌then◌else◌,
  sub64, inc64,
}
use battlezone_netcode_patch.Prelude.Int.{leb_ℤ, pos}
use battlezone_netcode_patch.Prelude.Scan.{find_index?}
use battlezone_netcode_patch.Reorder.{
  DeliverKind, first, in_order, forced, SockAddr, ReorderCtx, reorder_seq_min_pay,
}
use battlezone_netcode_patch.Reorder.Seq.{seq_cmp, seq_next}
use battlezone_netcode_patch.Reorder.Wire.{reorder_seq_from_payload}
use battlezone_netcode_patch.Reorder.Peers.{peer_at, put_peer, reorder_get_peer}
use battlezone_netcode_patch.Reorder.Window.{reorder_adapt_on_arrival}
use battlezone_netcode_patch.Reorder.Slots.{reorder_note_delivery}
use battlezone_netcode_patch.Proxy.{af_inet}
use battlezone_netcode_patch.Iocp.{IocpRecv, IocpHeld, Completion, Turn, IocpState, iocp_watchdog_x}
use battlezone_netcode_patch.Iocp.Table.{iocp_find_recv, recv_at, clear_recv}
use battlezone_netcode_patch.Iocp.Pick.{iocp_pick_oldest, iocp_release, count_release}

-- Is the completion for the game now, or was it held back?
pub data Classified : Type 0 where
  gives holds : IocpState → Classified

abbrev pub free_held : List IocpHeld → Option ℕ
free_held hs = find_index? (λ (h : IocpHeld). not h.used) hs

-- The place of the delivery of the packet `seq` at the peer `i`, at the time of its arrival.
unfoldable pub note_now : IocpState → ℕ → ℕ → ℕ → DeliverKind → IocpState
note_now s i seq now kind = record s {
  rx = put_peer s.rx i (reorder_note_delivery s.rx s.rx.stats (peer_at s.rx i) seq now now kind);
}

-- Ahead of a gap: held back if there is room.
unfoldable pub defer : IocpState → Turn → ℕ → SockAddr → ℕ → Option ℕ → Classified
defer s t seq src i none =
    let noted = note_now s i seq t.now forced in
    gives (record noted { forced_out = inc64 noted.forced_out })
defer s t seq src i (some j) =
    let h : IocpHeld = record {
      used = true;
      bytes = t.given.bytes;
      key = t.given.key;
      ov = t.given.ov;
      seq = seq;
      ts = t.now;
      from = src;
    } in
    holds (record s { held = set s.held j h; deferred = inc64 s.deferred })

unfoldable pub adapt_at : IocpState → ℕ → ℕ → ℕ → IocpState
adapt_at s i seq now = record s {
  rx = put_peer s.rx i (s.rx.stats, reorder_adapt_on_arrival s.rx (peer_at s.rx i) seq now);
}

abbrev pub count_in_order : IocpState → IocpState
count_in_order s = record s { inorder = inc64 s.inorder }

-- The packet `seq` from `src`, whose peer's entry is the first of the pair.
unfoldable pub at_entry : IocpState → Turn → ℕ → SockAddr → Option ℕ → Classified
at_entry s t seq src none = gives (count_in_order s)
at_entry s t seq src (some i) =
    let pb = peer_at s.rx i in
    if not pb.seq_init || seq == seq_next pb.last_seq
    then gives (count_in_order (note_now s i seq t.now (if pb.seq_init then in_order else first)))
    else if leb_ℤ (seq_cmp seq pb.last_seq) (pos 0)
    then gives (record s {
      rx = record (s.rx) {
        stats = record (s.rx.stats) { dropped_stale = inc64 s.rx.stats.dropped_stale };
      };
    })
    else defer (adapt_at s i seq t.now) t seq src i (free_held s.held)

unfoldable pub at_source : IocpState → Turn → ℕ → SockAddr → Option ℕ × ReorderCtx → Classified
at_source s t seq src (p, c) = at_entry (record s { rx = c }) t seq src p

-- Too short to carry a sequence, or its source is not known to be IPv4.
unfoldable pub is_unfit : Turn → IocpRecv → Bool
is_unfit t r =
    ltb t.given.bytes reorder_seq_min_pay
    || r.buf == 0
    || r.from == 0
    || t.mem.family r.from != af_inet

unfoldable pub read_recv : IocpState → Turn → IocpRecv → Classified
read_recv s t r =
    let src = t.mem.source r.from in
    at_source (record s { completed = inc64 s.completed }) t
      (reorder_seq_from_payload (t.mem.payload r.buf)) src (reorder_get_peer s.rx src t.now)

-- The receive that has completed, if it is one of the tracked ones: its entry is free again.
unfoldable pub of_recv : IocpState → Turn → Option ℕ → Classified
of_recv s t none = gives s
of_recv s t (some i) =
    let r = recv_at s i in
    let cleared = clear_recv s (some i) in
    if is_unfit t r then gives cleared else read_recv cleared t r

-- How a turn of the wait ends: `early` before the real call, `answers` after it; `again` and
-- `expires` when a completion was held back, within the watchdog's limit and past it.
pub data Turned : Type 0 where
  early answers : Completion → IocpState → Turned
  again expires : IocpState → Turned

-- The watchdog's test, after a completion was held back.
unfoldable pub watched : ℕ → ℕ → Turn → Classified → Turned
watched entered budget t (gives s) = answers t.given s
watched entered budget t (holds s) =
    if ltb (budget * iocp_watchdog_x) (sub64 t.done entered) then expires s else again s

-- No completion came: the oldest one that is held goes out, whatever its window.
unfoldable pub timed_out : IocpState → Turn → Option ℕ → Turned
timed_out s t none = answers t.given s
timed_out s t (some i) =
    let (out, s') = iocp_release s i t.now forced in answers out (count_release forced s')

unfoldable pub asked : ℕ → ℕ → IocpState → Turn → Turned
asked entered budget s t =
    if t.given.ov == 0
    then timed_out s t (iocp_pick_oldest s)
    else if not t.given.rc
    then answers t.given (clear_recv s (iocp_find_recv s t.given.ov))
    else watched entered budget t (of_recv s t (iocp_find_recv s t.given.ov))
