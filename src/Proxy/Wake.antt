-- ===== src/Proxy/Wake.antt =====
-- The wake thread of dsound_proxy.cpp, `reorder_wake_thread`: while packets are held and the game does
-- not poll, a small datagram to the socket's own address makes it readable.
mod Tests
use battlezone_netcode_patch.Prelude.{
  ℕ, ◌+◌, ◌-◌, ◌*◌, ◌^◌, ◌≤◌, ◌≡◌, refl, inl, inr, Bool, true, false, not, ◌&&◌, ◌||◌, Option, none,
  some, List, [], ◌∷◌, ◌++◌, take, length, ltb, leb, ◌==◌, ◌!=◌, if◌then◌else◌, sub64, add32, arith,
  Bool-cases,
}
use battlezone_netcode_patch.Prelude.Scan.{find_index?}
use battlezone_netcode_patch.Reorder.{PeerBuf, ReorderCtx}
use battlezone_netcode_patch.Proxy.{af_inet, invalid_socket}
use battlezone_netcode_patch.Proxy.Recv.{RxState, wake_magic}

abbrev pub reorder_wake_idle_ms : ℕ
reorder_wake_idle_ms = 10

abbrev pub reorder_wake_burst_cap : ℕ
reorder_wake_burst_cap = 8

-- 127.0.0.1 in network order, on the little-endian target.
abbrev pub inaddr_loopback : ℕ
inaddr_loopback = 0x0100_007f

-- The locals of the thread, and the socket that it sends from.
pub record WakeState : Type 0 where
  pub seen_call : ℕ
  pub burst : ℕ
  pub wake_sender : ℕ

pub record Bound : Type 0 where
  pub family : ℕ
  pub port : ℕ
  pub addr : ℕ

-- One round: the clock, what getsockname answers, if it succeeds, and the socket that a call of
-- socket would open.
pub record WakeRound : Type 0 where
  pub now : ℕ
  pub bound : Option Bound
  pub opened : ℕ

-- A call of the real sendto.
pub record WakeSend : Type 0 where
  pub sock : ℕ
  pub payload : List ℕ
  pub port : ℕ
  pub addr : ℕ

unfoldable pub is_holding : ReorderCtx → Bool
is_holding c =
    elim (find_index? (λ (p : PeerBuf). p.key != 0 && ltb 0 p.filled) (take c.peers c.tbl)) [
      | none ↦ false
      | some i ↦ true
    ]

-- Is there nothing held, no socket, or does the game poll on its own?
unfoldable pub needs_no_wake : RxState → ℕ → Bool
needs_no_wake s now =
    not (is_holding s.rx)
    || s.sock == invalid_socket
    || ltb (sub64 now s.last_recv_call_ms) reorder_wake_idle_ms

-- A poll of the game since the last round resets the burst.
unfoldable pub noticed : RxState → WakeState → WakeState
noticed s w =
    if s.last_recv_call_ms != w.seen_call
    then record w { seen_call = s.last_recv_call_ms; burst = 0 }
    else w

unfoldable pub wake_from : WakeState → Bound → Option WakeSend × WakeState
wake_from w b = if w.wake_sender == invalid_socket then (none, w) else (
  some (record {
    sock = w.wake_sender;
    payload = wake_magic;
    port = b.port;
    addr = if b.addr == 0 then inaddr_loopback else b.addr;
  }),
  record w { burst = add32 w.burst 1 },
)

unfoldable pub with_sender : WakeState → ℕ → WakeState
with_sender w opened =
    if w.wake_sender == invalid_socket then record w { wake_sender = opened } else w

unfoldable pub wake_bound : WakeState → ℕ → Option Bound → Option WakeSend × WakeState
wake_bound w opened none = (none, w)
wake_bound w opened (some b) =
    if b.family != af_inet || b.port == 0 then (none, w) else wake_from (with_sender w opened) b

unfoldable pub within_burst : WakeState → WakeRound → Option WakeSend × WakeState
within_burst w t =
    if leb reorder_wake_burst_cap w.burst then (none, w) else wake_bound w t.opened t.bound

-- `ready` says that reordering is on and the real functions are there.
unfoldable pub wake_round : Bool → RxState → WakeState → WakeRound → Option WakeSend × WakeState
wake_round ready s w t =
    if not ready || needs_no_wake s t.now then (none, w) else within_burst (noticed s w) t

-- What happens while the thread runs: a poll of the game, which `hooked_WSARecvFrom` notes; a change
-- of the buffer and of the socket; a round.
pub data WakeOp : Type 0 where
  polls : ℕ → WakeOp
  changes : ReorderCtx → ℕ → WakeOp
  rounds : WakeRound → WakeOp

abbrev pub with_sent : Option WakeSend → List WakeSend → List WakeSend
with_sent none ms = ms
with_sent (some m) ms = m ∷ ms

unfoldable pub wake_run : Bool → RxState → WakeState → List WakeOp → List WakeSend
wake_run ready s w [] = []
wake_run ready s w (polls now ∷ os) = wake_run ready (record s { last_recv_call_ms = now }) w os
wake_run ready s w (changes c sock ∷ os) = wake_run ready (record s { rx = c; sock = sock }) w os
wake_run ready s w (rounds t ∷ os) =
    let (m, w') = wake_round ready s w t in with_sent m (wake_run ready s w' os)
