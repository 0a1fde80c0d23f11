-- ===== src/Proxy/RecvFrom.antt =====
-- `hooked_recvfrom` of dsound_proxy.cpp: a receive that swallows the wake datagrams. The real recvfrom
-- is a parameter: it takes the state of the network stack, the length of the buffer and the flags.
use Prim.Native.Nat.{bit_and}
use battlezone_netcode_patch.Prelude.{
  ℕ, zero, suc, ◌%◌, ◌^◌, Bool, true, false, not, ◌&&◌, Option, none, some, List, ltb, ◌==◌, ◌!=◌,
  if◌then◌else◌,
}
use battlezone_netcode_patch.Prelude.Int.{ℤ, pos, negsuc, eqb_ℤ, ltb_ℤ, pos_part}
use battlezone_netcode_patch.Rtt.{RttCtx}
use battlezone_netcode_patch.Rtt.Sample.{rtt_on_recv}
use battlezone_netcode_patch.Proxy.{Sockaddr, af_inet}
use battlezone_netcode_patch.Proxy.Recv.{wake_magic, same_bytes}
use battlezone_netcode_patch.Proxy.EventLog.{EventLog, Tracks, LogEvent, buffer_log_event}

abbrev pub msg_peek : ℕ
msg_peek = 2

abbrev pub event_type_recv_from : ℕ
event_type_recv_from = 1

abbrev pub wsanotinitialised : ℕ
wsanotinitialised = 10093

abbrev pub wake_bytes : ℕ
wake_bytes = 8

-- What recvfrom answers: its result, the error, the bytes it wrote and the source.
pub record Got : Type 0 where
  pub rc : ℤ
  pub wsa : ℕ
  pub bytes : List ℕ
  pub from : Option Sockaddr
  pub port : ℕ

pub record FromCall : Type 0 where
  pub sock : ℕ
  pub has_buf : Bool
  pub len : ℤ
  pub flags : ℕ

-- The globals that the hook reads and writes after the loop.
pub record FromState : Type 0 where
  pub log : EventLog × Tracks
  pub rtt : RttCtx
  pub rtt_ready : Bool

-- Is it a wake datagram, in a buffer of the caller?
unfoldable pub is_wake : FromCall → Got → Bool
is_wake a g = eqb_ℤ g.rc (pos wake_bytes) && a.has_buf && same_bytes g.bytes wake_magic

unfoldable pub is_peek : ℕ → Bool
is_peek flags = bit_and flags msg_peek != 0

abbrev pub unless_wake : {K : Type 0} → Bool → Got × K → Option (Got × K) → Option (Got × K)
unless_wake true r rest = rest
unless_wake false r rest = some r

module _ {K : Type 0} (real : K → ℤ → ℕ → Got × K) where
  -- A caller that peeks has not consumed the wake datagram, so it is read for good.
  unfoldable pub swallow : FromCall → K → K
  swallow a k = if is_peek a.flags then (real k (pos wake_bytes) 0).1 else k

  -- The loop, on fuel.
  unfoldable pub recv_loop : ℕ → FromCall → K → Option (Got × K)
  recv_loop zero a k = none
  recv_loop (suc n) a k =
      let r = real k a.len a.flags in unless_wake (is_wake a r.0) r (recv_loop n a (swallow a r.1))

unfoldable pub got_event : ℕ → FromCall → Got → LogEvent
got_event payload_bytes a g =
    let transferred = pos_part g.rc in
    let n = if ltb transferred payload_bytes then transferred else payload_bytes in
    record {
      event_type = event_type_recv_from;
      sock = a.sock;
      src = g.from;
      src_port = g.port;
      flags = a.flags % 2 ^ 16;
      requested_len = pos_part a.len;
      transferred_len = transferred;
      wsa_error = if eqb_ℤ g.rc (negsuc 0) then g.wsa else 0;
      payload = if ltb 0 n && a.has_buf then some g.bytes else none;
      payload_len = n;
    }

unfoldable pub logs_got : FromState → FromCall → Got → ℕ → FromState
logs_got s a g now =
    if s.log.0.enabled
    then record s { log = buffer_log_event s.log (got_event s.log.0.payload_bytes a g) now }
    else s

unfoldable pub samples_got : FromState → FromCall → Got → Option Sockaddr → ℕ → FromState
samples_got s a g none now = s
samples_got s a g (some src) now =
    if ltb_ℤ (pos 0) g.rc && s.rtt.enabled && s.rtt_ready && a.has_buf && src.family == af_inet
    then record s { rtt = (rtt_on_recv s.rtt src.in_addr g.bytes (pos_part g.rc) now).1 }
    else s

-- After the loop, with the clock at the two calls that read it.
unfoldable pub after_recv :
    {K : Type 0} → FromState → FromCall → ℕ → ℕ → Got × K → Got × FromState × K
after_recv s a log_now rtt_now (g, k) =
    (g, samples_got (logs_got s a g log_now) a g g.from rtt_now, k)

abbrev pub not_initialised : Got
not_initialised = record {
  rc = negsuc 0;
  wsa = wsanotinitialised;
  bytes = List.[];
  from = none;
  port = 0;
}

abbrev pub on_answer : {A B : Type 0} → (A → B) → Option A → Option B
on_answer f none = none
on_answer f (some x) = some (f x)

-- `has_real` says that the real function is there.
unfoldable pub hooked_recvfrom :
    {K : Type 0}
    → (K → ℤ → ℕ → Got × K)
    → ℕ
    → Bool
    → FromState
    → FromCall
    → ℕ
    → ℕ
    → K
    → Option (Got × FromState × K)
hooked_recvfrom real fuel has_real s a log_now rtt_now k =
    if not has_real
    then some (not_initialised, s, k)
    else on_answer (after_recv s a log_now rtt_now) (recv_loop real fuel a k)
