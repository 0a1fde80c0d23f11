-- ===== src/Reorder/Window.antt =====
-- The adaptive hold window of a peer: `reorder_adapt_on_arrival` and `reorder_decay`.
use battlezone_netcode_patch.Prelude.{
  ℕ, ◌-◌, ◌/◌, not, ◌&&◌, ◌||◌, List, take, ltb, leb, ◌==◌, if◌then◌else◌, sub64, sub32, add32,
  mul32, to_u32,
}
use battlezone_netcode_patch.Prelude.Int.{ltb_ℤ, eqb_ℤ, pos}
use battlezone_netcode_patch.Prelude.Scan.{fold_from}
use battlezone_netcode_patch.Reorder.{
  ReorderSlot, PeerBuf, ReorderCtx, reorder_grow_pad_ms, reorder_decay_ms, reorder_decay_keep_num,
  reorder_decay_keep_den,
}
use battlezone_netcode_patch.Reorder.Seq.{seq_cmp, seq_next}

-- The window is raised to `ms`, cut at the ceiling, where that is more.
unfoldable pub grow : ReorderCtx → PeerBuf → ℕ → ℕ → PeerBuf
grow c pb ms now =
    let capped = if ltb c.win_max_ms ms then c.win_max_ms else ms in
    if ltb pb.win_ms capped then record pb { win_ms = capped; last_adjust_ms = now } else pb

-- The arrival time of the oldest buffered packet, or `now`.
unfoldable pub oldest_ts : List ReorderSlot → ℕ → ℕ
oldest_ts slots now =
    fold_from (λ i (x : ReorderSlot) t. if x.used && ltb x.ts t then x.ts else t) 0 now slots

unfoldable pub reorder_adapt_on_arrival : ReorderCtx → PeerBuf → ℕ → ℕ → PeerBuf
unfolding grow
reorder_adapt_on_arrival c pb seq now =
    if not c.adapt || not pb.seq_init
    then pb
    else if eqb_ℤ (seq_cmp seq pb.last_seq) (pos 0)
    then pb
    else if ltb_ℤ (seq_cmp seq pb.last_seq) (pos 0)
    then grow c pb (add32 (to_u32 (sub64 now pb.last_deliver_ms)) reorder_grow_pad_ms) now
    else if seq == seq_next pb.last_seq && ltb 0 pb.filled
    then grow c pb
        (add32 (to_u32 (sub64 now (oldest_ts (take c.depth pb.slots) now))) reorder_grow_pad_ms) now
    else pb

-- What is kept of the excess over the floor in one decay step.
unfoldable pub keep_of : ℕ → ℕ
keep_of excess =
    let keep = mul32 excess reorder_decay_keep_num / reorder_decay_keep_den in
    if leb excess keep then sub32 excess 1 else keep

unfoldable pub reorder_decay : ReorderCtx → PeerBuf → ℕ → PeerBuf
unfolding keep_of
reorder_decay c pb now =
    if not c.adapt || ltb (sub64 now pb.last_adjust_ms) reorder_decay_ms
    then pb
    else if leb pb.win_ms c.win_min_ms
    then record pb { win_ms = c.win_min_ms; last_adjust_ms = now }
    else record pb {
      win_ms = add32 c.win_min_ms (keep_of (pb.win_ms - c.win_min_ms));
      last_adjust_ms = now;
    }
