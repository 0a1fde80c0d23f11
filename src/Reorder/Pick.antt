-- ===== src/Reorder/Pick.antt =====
-- Which buffered packet goes to the game next: `reorder_pick` for one peer, and the round-robin scan
-- `reorder_next_ready` over all.
use battlezone_netcode_patch.Prelude.{
  ℕ, zero, suc, ◌+◌, ◌-◌, ◌%◌, Bool, not, ◌&&◌, ◌||◌, Option, none, some, take, ltb, leb, ◌==◌,
  if◌then◌else◌, sub32, add32,
}
use battlezone_netcode_patch.Prelude.Int.{ltb_ℤ, eqb_ℤ, pos}
use battlezone_netcode_patch.Prelude.Scan.{find_index?, fold_from}
use battlezone_netcode_patch.Reorder.{
  DeliverKind, first, in_order, forced, ReorderSlot, PeerBuf, ReorderCtx,
}
use battlezone_netcode_patch.Reorder.Seq.{seq_cmp, seq_next, seq_ahead_or_equal}
use battlezone_netcode_patch.Reorder.Peers.{reorder_hold_window, peer_at}

-- The best slot so far in the scan for a first delivery, by its index.
unfoldable pub lowest_round : ℕ → ReorderSlot → Option (ℕ × ReorderSlot) → Option (ℕ × ReorderSlot)
lowest_round i x best = if not x.used then best else elim best [
  | none ↦ some (i, x)
  | some (j, y) ↦
      if ltb_ℤ (seq_cmp x.seq y.seq) (pos 0) || eqb_ℤ (seq_cmp x.seq y.seq) (pos 0) && ltb x.ts y.ts
      then some (i, x)
      else some (j, y)
]

-- The candidates for a forced release: the nearest one ahead with its distance, and the oldest
-- arrival with its time.
pub record Aged : Type 0 where
  pub best_ahead : Option (ℕ × ℕ)
  pub best_oldest : Option (ℕ × ℕ)

abbrev pub is_aged : ℕ → ℕ → ReorderSlot → Bool
is_aged now hold x = x.used && not (ltb now x.ts) && leb hold (now - x.ts)

unfoldable pub nearer : Option (ℕ × ℕ) → ℕ → ℕ → Option (ℕ × ℕ)
nearer none i v = some (i, v)
nearer (some (j, w)) i v = if ltb v w then some (i, v) else some (j, w)

unfoldable pub aged_round : ℕ → ℕ → ℕ → ℕ → ReorderSlot → Aged → Aged
aged_round want now hold i x a = if not (is_aged now hold x) then a else record {
  best_ahead =
      if seq_ahead_or_equal x.seq want
      then nearer a.best_ahead i (sub32 x.seq want)
      else a.best_ahead;
  best_oldest = nearer a.best_oldest i x.ts;
}

unfoldable pub index_of : Option (ℕ × ℕ) → Option ℕ → Option ℕ
index_of none r = r
index_of (some (i, v)) r = some i

unfoldable pub pick_forced : ReorderCtx → PeerBuf → ℕ → Option ℕ
pick_forced c pb now =
    let none_yet : Aged = record { best_ahead = none; best_oldest = none } in
    let a : Aged =
      fold_from (aged_round (seq_next pb.last_seq) now (reorder_hold_window c (some pb))) 0 none_yet
        (take c.depth pb.slots) in
    index_of a.best_ahead (index_of a.best_oldest none)

unfoldable pub pick_lowest : ReorderCtx → PeerBuf → Option ℕ
pick_lowest c pb = elim (fold_from lowest_round 0 none (take c.depth pb.slots)) [
  | none ↦ none
  | some (i, x) ↦ some i
]

-- The kind of the release and the slot; no slot is the source's -1.
unfoldable pub reorder_pick : ReorderCtx → PeerBuf → ℕ → DeliverKind × Option ℕ
reorder_pick c pb now =
    if pb.filled == 0
    then (in_order, none)
    else if not pb.seq_init
    then (first, pick_lowest c pb)
    else elim (find_index? (λ (x : ReorderSlot). x.used && x.seq == seq_next pb.last_seq)
        (take c.depth pb.slots)) [
          | some i ↦ (in_order, some i)
          | none ↦ (forced, pick_forced c pb now)
        ]

pub record Ready : Type 0 where
  pub peer : ℕ
  pub slot : ℕ
  pub kind : DeliverKind

-- The scan from round `n`, with `left` rounds to go.
unfoldable pub ready_loop : ReorderCtx → ℕ → ℕ → ℕ → Option Ready
ready_loop c now n zero = none
ready_loop c now n (suc left) =
    let i = add32 c.rr n % c.peers in
    let rest = ready_loop c now (n + 1) left in
    if (peer_at c i).key == 0
    then rest
    else let (k, s) = reorder_pick c (peer_at c i) now in
      elim s [ some j ↦ some (record { peer = i; slot = j; kind = k }) | none ↦ rest ]

unfoldable pub reorder_next_ready : ReorderCtx → ℕ → Option Ready × ReorderCtx
reorder_next_ready c now =
    let r = ready_loop c now 0 c.peers in
    elim r [ none ↦ (none, c) | some x ↦ (some x, record c { rr = add32 x.peer 1 % c.peers }) ]
