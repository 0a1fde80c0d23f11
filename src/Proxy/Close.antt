-- ===== src/Proxy/Close.antt =====
-- `hooked_closesocket` of dsound_proxy.cpp: what the close of a socket does to the machines and to the
-- numbers of the sockets. Its log lines are left out.
use battlezone_netcode_patch.Prelude.{
  ℕ, zero, suc, ◌+◌, Bool, not, ◌&&◌, List, [], get_or, ◌==◌, ◌!=◌, if◌then◌else◌,
}
use battlezone_netcode_patch.Reorder.Peers.{reorder_reset}
use battlezone_netcode_patch.Dampen.{DampenCtx, dampen_peers, dampen_invalid_sock, zero_peer}
use battlezone_netcode_patch.Dampen.Peer.{dampen_purge_peer, dampen_close_ends_session}
use battlezone_netcode_patch.Rtt.{RttCtx}
use battlezone_netcode_patch.Rtt.Peer.{rtt_purge_peer}
use battlezone_netcode_patch.Pace.{PaceCtx, pace_tick}
use battlezone_netcode_patch.Pace.Queue.{pace_purge_socket}
use battlezone_netcode_patch.Proxy.{WireCall, invalid_socket}
use battlezone_netcode_patch.Prelude.Int.{ℤ, negsuc}
use battlezone_netcode_patch.Proxy.EventLog.{Tracks, forget_socket_id}
use battlezone_netcode_patch.Proxy.Dup.{dup_purge_socket}
use battlezone_netcode_patch.Proxy.Send.{TxState, pace_flush_locked}
use battlezone_netcode_patch.Proxy.Recv.{RxState}

-- The address in entry `i` of the dampener's table.
abbrev pub addr_at : DampenCtx → ℕ → ℕ
addr_at d i = (get_or d.peers i zero_peer).addr

-- The loop over the dampener's peers: each is forgotten there and by the sampler.
unfoldable pub purge_peers : Bool → ℕ → ℕ → DampenCtx → RttCtx → DampenCtx × RttCtx
purge_peers rtt_ready zero i d r = (d, r)
purge_peers rtt_ready (suc n) i d r =
    let a = addr_at d i in
    let d' = if a != 0 then dampen_purge_peer d a else d in
    let r' = if a != 0 && rtt_ready then rtt_purge_peer r a else r in
    purge_peers rtt_ready n (i + 1) d' r'

-- The end of a session, if the socket is the one that carries the game's traffic.
unfoldable pub end_session : TxState → ℕ → TxState
end_session s sock =
    let tracked = if s.dampen_sock == invalid_socket then dampen_invalid_sock else s.dampen_sock in
    let (d, r) = purge_peers s.rtt_ready dampen_peers 0 s.dampen s.rtt in
    if dampen_close_ends_session sock tracked
    then record s { dampen = d; rtt = r; dampen_sock = invalid_socket }
    else s

-- After the flush: the purge, the end of the session and the last window of the measurement.
unfoldable pub close_flushed :
    TxState → ℕ → Bool → ℕ → List WireCall × PaceCtx → List WireCall × TxState
close_flushed s sock stats now (out, c) =
    let ended = end_session (record s { tx = pace_purge_socket c sock }) sock in
    (out, (if stats then record ended { tx = pace_tick ended.tx now } else ended))

-- The part under the pacer's lock: the flush goes to the real sendto.
unfoldable pub close_sends : TxState → ℕ → Bool → ℕ → List WireCall × TxState
close_sends s sock stats now =
    if s.pace_ready
    then close_flushed s sock stats now (pace_flush_locked s.has_sendto s.tx)
    else ([], s)

-- The reorder buffer after the close of a socket.
unfoldable pub close_reorder : Bool → RxState → ℕ → RxState
close_reorder ready s sock =
    if ready
    then record s {
      rx = reorder_reset s.rx;
      sock = if sock == s.sock then invalid_socket else s.sock;
    }
    else s

-- The machines after the real closesocket: the calls, and both halves of the state. `reorder_ready` and
-- `stats` are `g_reorder_cs_ready` and `g_reorder_stats`.
unfoldable pub close_machines :
    Bool → Bool → TxState → RxState → ℕ → ℕ → List WireCall × TxState × RxState
close_machines reorder_ready stats s rx sock now =
    let purged : TxState = record s { dup = dup_purge_socket s.dup sock } in
    let (out, s') = close_sends purged sock stats now in
    (out, s', close_reorder reorder_ready rx sock)

-- The globals that a close changes.
pub record CloseState : Type 0 where
  pub tracks : Tracks
  pub sends : TxState
  pub receives : RxState

-- The answer, the calls of the real sendto, and the globals. `has_real` says that the real closesocket
-- is known, and `rc` is what it answers.
unfoldable pub hooked_closesocket :
    Bool → Bool → Bool → CloseState → ℕ → ℤ → ℕ → ℤ × List WireCall × CloseState
hooked_closesocket has_real reorder_ready stats g sock rc now =
    if not has_real
    then (negsuc 0, [], g)
    else let (out, s, rx) = close_machines reorder_ready stats g.sends g.receives sock now in
      (rc, out, record { tracks = forget_socket_id g.tracks sock; sends = s; receives = rx })
