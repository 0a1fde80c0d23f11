-- ===== src/Proxy.antt =====
-- Linux/proton_dsound_proxy/src/dsound_proxy.cpp: the hooks that stand between the game and Winsock.
-- The globals of the file are records that the hooks take and return; a call of the real Winsock is
-- what it is called with, and what it answers is an argument. A pointer that may be null is an
-- `Option`, and a `sockaddr *` is the family and the IPv4 address that the hooks read, with its bytes.
pub mod Drain
pub mod Dup
pub mod Flush
pub mod Offer
pub mod Stages
pub mod Take
pub mod Order
pub mod Gather
pub mod Agree
pub mod Deliver
pub mod Scatter
pub mod Recv
pub mod Wake
pub mod Burst
pub mod Options
pub mod Buffers
pub mod RecvFrom
pub mod Invisible
pub mod Poll
pub mod Close
pub mod Session
pub mod Closed
pub mod EventLog
pub mod Kept
pub mod Budget
pub mod Seconds
pub mod SocketIds
pub mod Tests
pub mod Send
pub mod SendTo
pub mod WsaSendTo
use Prim.Native.Nat.{bit_and}
use battlezone_netcode_patch.Prelude.{
  ℕ, ◌+◌, ◌-◌, ◌*◌, ◌/◌, ◌%◌, ◌^◌, Bool, true, false, ◌&&◌, Option, none, some, List, take, ◌==◌,
}
use battlezone_netcode_patch.Prelude.Int.{ℤ, pos, pos_part}

abbrev pub af_inet : ℕ
af_inet = 2

-- SOCKET is 32 bits wide on the target.
abbrev pub invalid_socket : ℕ
invalid_socket = 2 ^ 32 - 1

abbrev pub sockaddr_storage_bytes : ℕ
sockaddr_storage_bytes = 128

pub record Sockaddr : Type 0 where
  pub family : ℕ
  pub in_addr : ℕ
  pub bytes : List ℕ

-- A WSABUF: its buffer, which may be null, and its length.
pub record WsaBuf : Type 0 where
  pub buf : Option (List ℕ)
  pub len : ℕ

-- A call of the real sendto: the datagram, cut to its length, the flags and the destination.
pub record Outgoing : Type 0 where
  pub sock : ℕ
  pub bytes : Option (List ℕ)
  pub len : ℤ
  pub flags : ℕ
  pub to : Option (List ℕ)
  pub tolen : ℤ

-- A call of the real WSASendTo; the last field says if it is overlapped.
pub record Scattered : Type 0 where
  pub sock : ℕ
  pub buffers : Option (List WsaBuf)
  pub flags : ℕ
  pub to : Option (List ℕ)
  pub tolen : ℤ
  pub overlapped : Bool

pub data WireCall : Type 0 where
  by_sendto : Outgoing → WireCall
  by_wsasendto : Scattered → WireCall

-- A synchronous datagram without flags.
abbrev pub plain : ℕ → List ℕ → ℕ → List ℕ → ℤ → WireCall
plain sock bytes len to tolen = by_sendto (record {
  sock = sock;
  bytes = some (take len bytes);
  len = pos len;
  flags = 0;
  to = some (take (pos_part tolen) to);
  tolen = tolen;
})

-- The bytes of a 32-bit word in the other order, on the little-endian target.
abbrev pub ntohl : ℕ → ℕ
ntohl x = x % 256 * 2 ^ 24 + x / 2 ^ 8 % 256 * 2 ^ 16 + x / 2 ^ 16 % 256 * 2 ^ 8 + x / 2 ^ 24 % 256

unfoldable pub dup_is_loopback : Option Sockaddr → Bool
dup_is_loopback none = false
dup_is_loopback (some to) = to.family == af_inet && ntohl to.in_addr / 2 ^ 24 == 127
