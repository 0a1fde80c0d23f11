-- ===== src/Reorder/WindowBounds.antt =====
-- The hold window stays between its floor and its ceiling, and decays to the floor on a quiet link.
use battlezone_netcode_patch.Prelude.{
  ℕ, ◌+◌, ◌-◌, ◌^◌, ◌≤◌, ◌<◌, ◌≡◌, ◌⊎◌, true, List, [], ◌∷◌, take, length, arith, sub64, add32,
  to_u32,
}
use battlezone_netcode_patch.Reorder.{PeerBuf, ReorderCtx, reorder_decay_ms, reorder_grow_pad_ms}
use battlezone_netcode_patch.Reorder.Window.{
  grow, oldest_ts, reorder_adapt_on_arrival, keep_of, reorder_decay,
}

abbrev pub InWindow : ReorderCtx → PeerBuf → Type 0
InWindow c pb = (c.win_min_ms ≤ pb.win_ms) × (pb.win_ms ≤ c.win_max_ms)

grow_grows :
    (c : ReorderCtx) (pb : PeerBuf) (ms now : ℕ)
    → pb.win_ms ≤ c.win_max_ms
    → (pb.win_ms ≤ (grow c pb ms now).win_ms) × ((grow c pb ms now).win_ms ≤ c.win_max_ms)
unfolding grow
grow_grows c pb ms now h = ground arith

keep_of-lt : (excess : ℕ) → 0 < excess → excess < 2 ^ 32 → keep_of excess < excess
unfolding keep_of
keep_of-lt e h k = ground arith

-- An arrival only ever widens the window, a decay only ever narrows it, and neither takes it out of
-- the range from the floor to the ceiling.
pub window_bounds :
    (c : ReorderCtx) (pb : PeerBuf) (seq now : ℕ)
    → c.win_max_ms < 2 ^ 32
    → InWindow c pb
    → let a = reorder_adapt_on_arrival c pb seq now in
      let d = reorder_decay c pb now in
      InWindow c a × (pb.win_ms ≤ a.win_ms) × InWindow c d × (d.win_ms ≤ pb.win_ms)
unfolding reorder_adapt_on_arrival reorder_decay
window_bounds c pb seq now hm h =
    let late = add32 (to_u32 (sub64 now pb.last_deliver_ms)) reorder_grow_pad_ms in
    let waited =
      add32 (to_u32 (sub64 now (oldest_ts (take c.depth pb.slots) now))) reorder_grow_pad_ms in
    let excess = pb.win_ms - c.win_min_ms in
    (
      ground (arith, grow_grows c pb late now, grow_grows c pb waited now),
      ground (arith, grow_grows c pb late now, grow_grows c pb waited now),
      ground (arith, keep_of-lt excess),
      ground (arith, keep_of-lt excess),
    )

-- Decay steps at the given times.
abbrev pub decays : ReorderCtx → PeerBuf → List ℕ → PeerBuf
decays c pb [] = pb
decays c pb (t ∷ ts) = decays c (reorder_decay c pb t) ts

-- Each time is at least the decay period after the one before it, from `at` on.
abbrev pub Quiet : ℕ → List ℕ → Type 0
Quiet at [] = Unit {0}
Quiet at (t ∷ ts) = (reorder_decay_ms ≤ sub64 t at) × Quiet t ts

quiet_decay :
    (c : ReorderCtx) (pb : PeerBuf) (now : ℕ)
    → c.adapt ≡ true
    → c.win_max_ms < 2 ^ 32
    → InWindow c pb
    → reorder_decay_ms ≤ sub64 now pb.last_adjust_ms
    → let d = reorder_decay c pb now in
      InWindow c d × (d.last_adjust_ms ≡ now) × ((d.win_ms ≡ c.win_min_ms) ⊎ (d.win_ms < pb.win_ms))
unfolding reorder_decay
quiet_decay c pb now ha hm h q = ground (arith, keep_of-lt (pb.win_ms - c.win_min_ms))

-- On a link that gives no evidence of reordering the window returns to its floor: as many decay
-- steps as it is milliseconds above the floor, each half a second after the one before, are enough.
pub decay_reaches_floor :
    (c : ReorderCtx) (pb : PeerBuf) (ts : List ℕ)
    → c.adapt ≡ true
    → c.win_max_ms < 2 ^ 32
    → InWindow c pb
    → Quiet pb.last_adjust_ms ts
    → pb.win_ms ≤ c.win_min_ms + length ts
    → (decays c pb ts).win_ms ≡ c.win_min_ms
decay_reaches_floor c pb [] ha hm h q l = omega arith
decay_reaches_floor c pb (t ∷ ts) ha hm h q l =
    let d = quiet_decay c pb t ha hm h q.0 in
    decay_reaches_floor c (reorder_decay c pb t) ts ha hm d.0 (rw d.1 q.1)
      (omega (arith, d.2, l, h.0))
