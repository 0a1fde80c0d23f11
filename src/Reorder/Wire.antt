-- ===== src/Reorder/Wire.antt =====
-- The header fields of a datagram, as shared/reorder_core.h reads them out of the payload bytes.
use Prim.Native.Nat.{bit_and, bit_or}
use battlezone_netcode_patch.Prelude.{
  ℕ, zero, suc, ◌+◌, ◌*◌, ◌/◌, ◌%◌, ◌^◌, ◌<◌, ◌≡◌, ◌∙◌, Bool, true, refl, arith, List, ◌∷◌, get_or,
  leb, ◌!=◌, mul32, u64_mod,
}
use battlezone_netcode_patch.Prelude.Bits.{
  bit_or_disjoint, check_below, check_below_sound, ◌is◌, is→eq,
}
use battlezone_netcode_patch.Reorder.{
  reorder_seq_offset, reorder_ack_offset, bz_hdr_flag_reliable, bz_hdr_send_ms_offset,
  bz_hdr_send_ms_bytes,
}

-- p[i]. The callers have checked the length, so the default is not read.
abbrev pub byte_at : List ℕ → ℕ → ℕ
byte_at p i = get_or p i 0

-- Four bytes from offset `o`, the first one highest: `<<` and `|` on uint32_t.
unfoldable pub be32_at : List ℕ → ℕ → ℕ
be32_at p o =
    bit_or
      (bit_or (bit_or (mul32 (byte_at p o) (2 ^ 24)) (mul32 (byte_at p (o + 1)) (2 ^ 16)))
        (mul32 (byte_at p (o + 2)) (2 ^ 8)))
      (byte_at p (o + 3))

unfoldable pub reorder_seq_from_payload : List ℕ → ℕ
unfolding be32_at
reorder_seq_from_payload p = be32_at p reorder_seq_offset

unfoldable pub reorder_ack_from_payload : List ℕ → ℕ
unfolding be32_at
reorder_ack_from_payload p = be32_at p reorder_ack_offset

unfoldable pub reorder_is_reliable : List ℕ → Bool
reorder_is_reliable p = bit_and (byte_at p 0) bz_hdr_flag_reliable != 0

unfoldable pub reorder_is_retransmit : List ℕ → Bool
unfolding reorder_is_reliable
reorder_is_retransmit p = reorder_is_reliable p

-- The loop from byte `i`, with `n` rounds left.
send_time_loop : List ℕ → ℕ → ℕ → ℕ → ℕ
send_time_loop p v i zero = v
send_time_loop p v i (suc n) =
    send_time_loop p (bit_or (v * 2 ^ 8 % u64_mod) (byte_at p (bz_hdr_send_ms_offset + i))) (i + 1)
      n

unfoldable pub reorder_send_time_ms : List ℕ → ℕ
unfolding send_time_loop
reorder_send_time_ms p = send_time_loop p 0 0 bz_hdr_send_ms_bytes

-- The layout that the header comment documents: flags, kind, eight bytes of clock, four of
-- sequence, four of acknowledgement, each big-endian, and the body.
abbrev pub byte_of : ℕ → ℕ → ℕ
byte_of v k = v / 2 ^ k % 256

abbrev pub header : ℕ → ℕ → ℕ → ℕ → ℕ → List ℕ → List ℕ
header flags kind ms seq ack body =
    flags
    ∷ kind
    ∷ byte_of ms 56
    ∷ byte_of ms 48
    ∷ byte_of ms 40
    ∷ byte_of ms 32
    ∷ byte_of ms 24
    ∷ byte_of ms 16
    ∷ byte_of ms 8
    ∷ byte_of ms 0
    ∷ byte_of seq 24
    ∷ byte_of seq 16
    ∷ byte_of seq 8
    ∷ byte_of seq 0
    ∷ byte_of ack 24
    ∷ byte_of ack 16
    ∷ byte_of ack 8
    ∷ byte_of ack 0
    ∷ body

join4 :
    (a b c d : ℕ)
    → a < 256
    → b < 256
    → c < 256
    → d < 256
    → bit_or (bit_or (bit_or (mul32 a (2 ^ 24)) (mul32 b (2 ^ 16))) (mul32 c (2 ^ 8))) d
      ≡ ((a * 256 + b) * 256 + c) * 256 + d
join4 a b c d ha hb hc hd =
    let ea : mul32 a (2 ^ 24) ≡ a * 2 ^ 24 = omega arith in
    let eb : mul32 b (2 ^ 16) ≡ b * 2 ^ 16 = omega arith in
    let ec : mul32 c (2 ^ 8) ≡ c * 2 ^ 8 = omega arith in
    let e1 : a * 2 ^ 24 + b * 2 ^ 16 ≡ (a * 256 + b) * 2 ^ 16 = omega arith in
    let e2 : (a * 256 + b) * 2 ^ 16 + c * 2 ^ 8 ≡ ((a * 256 + b) * 256 + c) * 2 ^ 8 = omega arith in
    rw (
      ea,
      eb,
      ec,
      bit_or_disjoint 24 a (b * 2 ^ 16) (omega arith),
      e1,
      bit_or_disjoint 16 (a * 256 + b) (c * 2 ^ 8) (omega arith),
      e2,
      bit_or_disjoint 8 ((a * 256 + b) * 256 + c) d hd,
    )

push_byte : (v d : ℕ) → v < 2 ^ 56 → d < 256 → bit_or (v * 2 ^ 8 % u64_mod) d ≡ v * 256 + d
push_byte v d hv hd =
    let e : v * 2 ^ 8 % u64_mod ≡ v * 2 ^ 8 = omega arith in rw (e, bit_or_disjoint 8 v d hd)

-- One more byte of the clock.
next_byte :
    (ms a b : ℕ)
    → ms / a ≡ ms / b / 256
    → ms / b < 2 ^ 64
    → bit_or (ms / a * 2 ^ 8 % u64_mod) (ms / b % 256) ≡ ms / b
next_byte ms a b e h = push_byte (ms / a) (ms / b % 256) (omega arith) (omega arith) ∙ omega arith

module _ (flags kind ms seq ack : ℕ) (body : List ℕ) where
  abbrev packet : List ℕ
  packet = header flags kind ms seq ack body

  seq-header : seq < 2 ^ 32 → reorder_seq_from_payload packet ≡ seq
  unfolding reorder_seq_from_payload
  seq-header h =
      join4 (byte_of seq 24) (byte_of seq 16) (byte_of seq 8) (byte_of seq 0) (omega arith)
        (omega arith) (omega arith) (omega arith)
      ∙ omega arith

  ack-header : ack < 2 ^ 32 → reorder_ack_from_payload packet ≡ ack
  unfolding reorder_ack_from_payload
  ack-header h =
      join4 (byte_of ack 24) (byte_of ack 16) (byte_of ack 8) (byte_of ack 0) (omega arith)
        (omega arith) (omega arith) (omega arith)
      ∙ omega arith

  send_time-header : ms < 2 ^ 64 → reorder_send_time_ms packet ≡ ms
  unfolding reorder_send_time_ms
  send_time-header h =
      let top : bit_or 0 (byte_of ms 56) ≡ ms / 2 ^ 56 =
        bit_or_disjoint 8 0 (byte_of ms 56) (omega arith) ∙ omega arith in
      rw
        (
          top,
          next_byte ms (2 ^ 56) (2 ^ 48) (omega arith) (omega arith),
          next_byte ms (2 ^ 48) (2 ^ 40) (omega arith) (omega arith),
          next_byte ms (2 ^ 40) (2 ^ 32) (omega arith) (omega arith),
          next_byte ms (2 ^ 32) (2 ^ 24) (omega arith) (omega arith),
          next_byte ms (2 ^ 24) (2 ^ 16) (omega arith) (omega arith),
          next_byte ms (2 ^ 16) (2 ^ 8) (omega arith) (omega arith),
          next_byte ms (2 ^ 8) (2 ^ 0) (omega arith) (omega arith),
        )
        (omega arith)

reliable_table : check_below 256 (λ x. (bit_and x 0x80 != 0) is leb 128 x) ≡ true
unfolding check_below
reliable_table = refl

-- The flag bit is the top bit of the first byte.
reliable-leb : (x : ℕ) → x < 256 → (bit_and x 0x80 != 0) ≡ leb 128 x
reliable-leb x h = is→eq _ _ (check_below_sound 256 _ x reliable_table h)

-- What is written into a header by the documented layout is what the accessors read back: the
-- sequence, the acknowledgement, the sender's clock, and the reliable bit, which is set exactly in
-- the flag bytes from 0x80 up.
pub wire_roundtrip :
    (flags kind ms seq ack : ℕ) (body : List ℕ)
    → flags < 256
    → ms < 2 ^ 64
    → seq < 2 ^ 32
    → ack < 2 ^ 32
    → let p = header flags kind ms seq ack body in
      (reorder_seq_from_payload p ≡ seq)
      × (reorder_ack_from_payload p ≡ ack)
      × (reorder_send_time_ms p ≡ ms)
      × (reorder_is_reliable p ≡ leb 0x80 flags)
unfolding reorder_is_reliable
wire_roundtrip flags kind ms seq ack body hf hm hs ha = (
  seq-header flags kind ms seq ack body hs,
  ack-header flags kind ms seq ack body ha,
  send_time-header flags kind ms seq ack body hm,
  reliable-leb flags hf,
)
