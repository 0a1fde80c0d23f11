-- ===== src/Proxy/Deliver.antt =====
-- `scatter_copy` and `deliver_to_caller` of dsound_proxy.cpp: a datagram is handed to the game's own
-- buffers. The entry in the buffer log is left out, and the pointers `bytes_received` and `inout_flags` are
-- those of a caller that passes both.
use battlezone_netcode_patch.Prelude.{
  ℕ, ◌+◌, ◌-◌, Option, none, some, List, [], ◌∷◌, ◌++◌, take, drop, ltb, ◌==◌, if◌then◌else◌, inc64,
}
use battlezone_netcode_patch.Prelude.Int.{ℤ, pos, negsuc, ltb_ℤ, pos_part}
use battlezone_netcode_patch.Reorder.{ReorderStats}
use battlezone_netcode_patch.Proxy.{WsaBuf}

-- The rest of the loop after a buffer that stays as it is.
abbrev pub past : WsaBuf → ℕ × List WsaBuf → ℕ × List WsaBuf
past b (done, bs) = (done, b ∷ bs)

-- memcpy of `n` bytes to the start of a buffer.
abbrev pub copied_into : List ℕ → ℕ → List ℕ → List ℕ
copied_into bytes n src = take n src ++ drop n bytes

abbrev pub chunk_of : ℕ → ℕ → ℕ
chunk_of left len = if ltb len left then len else left

-- One buffer, with the rest of the loop: a null or empty one is skipped.
abbrev pub scatter_one :
    Option (List ℕ) → ℕ → List ℕ → ℕ → ℕ → (ℕ → ℕ × List WsaBuf) → ℕ × List WsaBuf
scatter_one none len src srclen done rest = past (record { buf = none; len = len }) (rest done)
scatter_one (some bytes) len src srclen done rest =
    let n = chunk_of (srclen - done) len in
    if len == 0
    then past (record { buf = some bytes; len = len }) (rest done)
    else past (record { buf = some (copied_into bytes n (drop done src)); len = len })
        (rest (done + n))

-- How many bytes were copied, and the buffers.
unfoldable pub scatter_copy : List WsaBuf → List ℕ → ℕ → ℕ → ℕ × List WsaBuf
scatter_copy [] src srclen done = (done, [])
scatter_copy (b ∷ bs) src srclen done =
    let r = scatter_one b.buf b.len src srclen done (λ d. scatter_copy bs src srclen d) in
    if ltb done srclen then r else (done, b ∷ bs)

-- The caller's `from` and `fromlen`, where both are not null.
pub record FromArg : Type 0 where
  pub bytes : List ℕ
  pub len : ℤ

abbrev pub sockaddr_in_bytes : ℕ
sockaddr_in_bytes = 16

abbrev pub wsaemsgsize : ℕ
wsaemsgsize = 10040

-- `MSG_PARTIAL` of the Winsock headers.
abbrev pub msg_partial : ℕ
msg_partial = 32768

-- The result of a receive, the error code, and what the hook stores through the out-parameters.
pub record Received : Type 0 where
  pub rc : ℤ
  pub wsa : ℕ
  pub bytes_received : Option ℕ
  pub flags : Option ℕ
  pub buffers : List WsaBuf
  pub from : Option FromArg

abbrev pub from_out : Option FromArg → List ℕ → Option FromArg
from_out none src = none
from_out (some f) src =
    let sa = if ltb_ℤ f.len (pos sockaddr_in_bytes) then f.len else pos sockaddr_in_bytes in
    some (record {
      bytes = if ltb_ℤ (pos 0) sa then copied_into f.bytes (pos_part sa) src else f.bytes;
      len = pos sockaddr_in_bytes;
    })

-- `src` is the source address as bytes.
unfoldable pub deliver_to_caller :
    ReorderStats → List WsaBuf → Option FromArg → List ℕ → List ℕ → ℕ → Received × ReorderStats
deliver_to_caller st buffers from src payload len =
    let (copied, buffers') = scatter_copy buffers payload len 0 in
    let truncated = ltb copied len in
    (
      record {
        rc = if truncated then negsuc 0 else pos 0;
        wsa = if truncated then wsaemsgsize else 0;
        bytes_received = some copied;
        flags = some (if truncated then msg_partial else 0);
        buffers = buffers';
        from = from_out from src;
      },
      (if truncated then record st { truncated = inc64 st.truncated } else st),
    )
