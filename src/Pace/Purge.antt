-- ===== src/Pace/Purge.antt =====
-- `pace_purge_socket` removes exactly the datagrams of the closed socket.
use battlezone_netcode_patch.Prelude.{ℕ, ◌≤◌, ◌<◌, ◌≡◌, length, arith}
use battlezone_netcode_patch.Prelude.Compact.{without, compact-Leaves}
use battlezone_netcode_patch.Pace.{PaceEntry, PaceCtx, pace_queue_slots, zero_entry}
use battlezone_netcode_patch.Pace.Queue.{pending, pace_purge_socket}

-- The purge keeps the ring's shape and removes exactly the entries of the socket.
pub purge-without :
    (c : PaceCtx) (sock : ℕ)
    → c.head < pace_queue_slots
    → c.count ≤ pace_queue_slots
    → pace_queue_slots ≤ length c.q
    → let p = pace_purge_socket c sock in
      (pending p ≡ without (λ (e : PaceEntry). e.sock) sock (pending c))
      × (pace_queue_slots ≤ length p.q)
      × (p.count ≤ pace_queue_slots)
unfolding pace_purge_socket
purge-without c sock hh hn hc =
    let (e, l, b) =
      compact-Leaves zero_entry pace_queue_slots (λ (e : PaceEntry). e.sock) sock c.head c.count 0 0
        c.q hh hc (omega arith) (omega arith) in
    (e, l, omega (arith, b, hn))
