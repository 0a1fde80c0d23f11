-- ===== src/Proxy/SendTo.antt =====
-- `hooked_sendto` of dsound_proxy.cpp.
use battlezone_netcode_patch.Prelude.{
  ℕ, Bool, false, not, ◌&&◌, Option, none, some, List, [], ◌∷◌, ◌++◌, take, ◌==◌, if◌then◌else◌,
}
use battlezone_netcode_patch.Prelude.Int.{ℤ, pos, negsuc, leb_ℤ, ltb_ℤ, pos_part}
use battlezone_netcode_patch.Reorder.{reorder_seq_min_pay}
use battlezone_netcode_patch.Proxy.{Sockaddr, WireCall, by_sendto}
use battlezone_netcode_patch.Proxy.Dup.{dup_enqueue}
use battlezone_netcode_patch.Proxy.Send.{TxState, is_peer, dampen_stage, rtt_stage, pace_take}

-- What GetTickCount64 answers at the places of the hook that ask.
pub record Ticks : Type 0 where
  pub dampen_ms : ℕ
  pub rtt_ms : ℕ
  pub pace_ms : ℕ
  pub dup_ms : ℕ

-- The arguments of sendto.
pub record SendArgs : Type 0 where
  pub sock : ℕ
  pub buf : Option (List ℕ)
  pub len : ℤ
  pub flags : ℕ
  pub to : Option Sockaddr
  pub tolen : ℤ

-- What the game gets back, the error code if the hook sets it, and what went to Winsock, in order.
pub record Sent : Type 0 where
  pub rc : ℤ
  pub wsa : Option ℕ
  pub out : List WireCall
  pub state : TxState

abbrev pub cut : ℤ → List ℕ → List ℕ
cut len bytes = take (pos_part len) bytes

abbrev pub map_some : (List ℕ → List ℕ) → Option (List ℕ) → Option (List ℕ)
map_some f none = none
map_some f (some xs) = some (f xs)

abbrev pub bytes_of : Option Sockaddr → Option (List ℕ)
bytes_of none = none
bytes_of (some a) = some a.bytes

-- The game's own call, handed on.
abbrev pub real_send : SendArgs → WireCall
real_send a = by_sendto (record {
  sock = a.sock;
  bytes = map_some (cut a.len) a.buf;
  len = a.len;
  flags = a.flags;
  to = map_some (cut a.tolen) (bytes_of a.to);
  tolen = a.tolen;
})

abbrev pub wsanotinitialised : ℕ
wsanotinitialised = 10093

abbrev pub both : Option (List ℕ) → Option Sockaddr → Option (List ℕ × Sockaddr)
both none to = none
both (some bytes) none = none
both (some bytes) (some to) = some (bytes, to)

-- The datagram and its destination, if the call is one that the hook looks at: no flags, not empty,
-- no null pointer.
unfoldable pub looked_at : SendArgs → Option (List ℕ × Sockaddr)
looked_at a = if a.flags == 0 && ltb_ℤ (pos 0) a.len then both a.buf a.to else none

-- IPv4, no loopback, and long enough to carry a sequence.
unfoldable pub is_duplicable : SendArgs → Bool
is_duplicable a = elim (both a.buf a.to) [
  | none ↦ false
  | some (bytes, to) ↦ leb_ℤ (pos reorder_seq_min_pay) a.len && is_peer to
]

-- The duplicate, sent at once or queued.
unfoldable pub dup_stage : TxState → SendArgs → ℤ → ℕ → List WireCall × TxState
dup_stage s a rc now =
    let queue = record s {
      dup = dup_enqueue s.dup a.sock a.buf (pos_part a.len) a.to a.tolen now;
    } in
    if s.send_dup && leb_ℤ (pos 0) rc && is_duplicable a
    then (if s.dup.delay_ms == 0 then (real_send a ∷ [], s) else ([], queue))
    else ([], s)

-- The real sendto, whose answer is `rc`, and the duplicate.
unfoldable pub send_real : TxState → SendArgs → ℤ → ℕ → List WireCall → Sent
send_real s a rc now before =
    let (copies, s') = dup_stage s a rc now in
    record { rc = rc; wsa = none; out = before ++ real_send a ∷ copies; state = s' }

-- What is not dampened goes to the sampler and to the pacer.
unfoldable pub undampened : TxState → SendArgs → List ℕ → Sockaddr → Ticks → ℤ → Sent
undampened s a bytes to t rc =
    let s' = rtt_stage s bytes (pos_part a.len) to t.rtt_ms in
    let (taken, out, s'') = pace_take s' a.sock bytes (pos_part a.len) to.bytes a.tolen t.pace_ms in
    if taken
    then record { rc = a.len; wsa = none; out = out; state = s'' }
    else send_real s'' a rc t.dup_ms out

unfoldable pub send_looked_at : TxState → SendArgs → List ℕ → Sockaddr → Ticks → ℤ → Sent
send_looked_at s a bytes to t rc =
    let (dampened, s') = dampen_stage s a.sock bytes (pos_part a.len) to t.dampen_ms in
    if dampened
    then record { rc = a.len; wsa = some 0; out = []; state = s' }
    else undampened s' a bytes to t rc

-- `wsanotinitialised` is the error without a real sendto; `rc` is the real one's answer.
unfoldable pub hooked_sendto : TxState → SendArgs → Ticks → ℤ → Sent
hooked_sendto s a t rc =
    if not s.has_sendto
    then record { rc = negsuc 0; wsa = some wsanotinitialised; out = []; state = s }
    else elim (looked_at a) [
      | none ↦ send_real s a rc t.dup_ms []
      | some (bytes, to) ↦ send_looked_at s a bytes to t rc
    ]
