-- ===== src/Reorder/Seq.antt =====
-- The sequence order of shared/reorder_core.h: int32_t differences on a 32-bit circle.
use battlezone_netcode_patch.Prelude.{
  ℕ, ◌+◌, ◌%◌, ◌^◌, ◌<◌, ◌≡◌, ◌≢◌, Bool, true, arith, sub32, add32,
}
use battlezone_netcode_patch.Prelude.Int.{ℤ, pos, negsuc, leb_ℤ, signed32}

unfoldable pub seq_cmp : ℕ → ℕ → ℤ
seq_cmp a b = signed32 (sub32 a b)

-- `& kReorderSeqMask` keeps the low 32 bits.
unfoldable pub seq_next : ℕ → ℕ
seq_next s = add32 s 1 % 2 ^ 32

unfoldable pub seq_ahead_or_equal : ℕ → ℕ → Bool
unfolding seq_cmp
seq_ahead_or_equal seq want = leb_ℤ (pos 0) (seq_cmp seq want)

-- Within half the circle the comparison is the true distance, also across the wrap: for `d` below
-- 2^31 the sequence `d` messages ahead compares as `d`, and the one `d + 1` behind as -(d + 1).
seq_cmp_distance :
    (s d : ℕ)
    → s < 2 ^ 32
    → d < 2 ^ 31
    → (seq_cmp (add32 s d) s ≡ pos d) × (seq_cmp s (add32 s (d + 1)) ≡ negsuc d)
unfolding seq_cmp
seq_cmp_distance s d h k = (ground arith, ground arith)

pub seq_cmp-eq_zero : (a b : ℕ) → a < 2 ^ 32 → b < 2 ^ 32 → seq_cmp a b ≡ pos 0 → a ≡ b
unfolding seq_cmp
seq_cmp-eq_zero a b ha hb e = ground arith

-- A successor is in range and one ahead, and any other sequence ahead of `s` by less than half the
-- circle is not behind the successor: nothing lies between.
seq_next_adjacent :
    (s t : ℕ)
    → s < 2 ^ 32
    → t < 2 ^ 32
    → t ≢ s
    → seq_ahead_or_equal t s ≡ true
    → (seq_next s < 2 ^ 32)
      × (seq_cmp (seq_next s) s ≡ pos 1)
      × (seq_ahead_or_equal t (seq_next s) ≡ true)
unfolding seq_next seq_cmp seq_ahead_or_equal
seq_next_adjacent s t hs ht h k = (omega arith, ground arith, ground arith)
