-- ===== src/Reorder/PickLaws.antt =====
-- What `reorder_pick` returns: a slot in use, the successor where it is buffered, and an aged packet
-- only where it is not.
use battlezone_netcode_patch.Prelude.{
  ℕ, ◌-◌, ◌<◌, ◌≡◌, subst, refl, inl, inr, true, false, ◌&&◌, Option, none, some, List, take,
  get_or, length, arith, Bool-cases, ◌==◌, sub32,
}
use battlezone_netcode_patch.Prelude.Scan.{find_index?-Found, Found, fold_from, fold_keeps}
use battlezone_netcode_patch.Reorder.{
  DeliverKind, first, in_order, forced, evicted, ReorderSlot, PeerBuf, ReorderCtx,
}
use battlezone_netcode_patch.Reorder.Seq.{seq_next, seq_ahead_or_equal}
use battlezone_netcode_patch.Reorder.Peers.{zero_slot, reorder_hold_window}
use battlezone_netcode_patch.Reorder.Pick.{
  lowest_round, Aged, is_aged, nearer, aged_round, index_of, pick_forced, pick_lowest, reorder_pick,
}

-- The slots that a scan of the ring sees, and the slot `i` of them.
abbrev pub active : ReorderCtx → PeerBuf → List ReorderSlot
active c pb = take c.depth pb.slots

abbrev pub entry : List ReorderSlot → ℕ → ReorderSlot
entry xs i = get_or xs i zero_slot

module _ (xs : List ReorderSlot) where
  abbrev LowestOk : Option (ℕ × ReorderSlot) → Type 0
  LowestOk none = Unit {0}
  LowestOk (some (i, x)) = (i < length xs) × ((entry xs i).used ≡ true)

  lowest_round-LowestOk :
      (i : ℕ) (b : Option (ℕ × ReorderSlot))
      → i < length xs
      → LowestOk b
      → LowestOk (lowest_round i (entry xs i) b)
  unfolding lowest_round
  lowest_round-LowestOk i none l h = ground arith
  lowest_round-LowestOk i (some (j, y)) l h = ground arith

  lowest-LowestOk : LowestOk (fold_from lowest_round 0 none xs)
  lowest-LowestOk = fold_keeps lowest_round zero_slot xs LowestOk lowest_round-LowestOk none tt

  module _ (want now hold : ℕ) where
    abbrev NearOk : Option (ℕ × ℕ) → Type 0
    NearOk none = Unit {0}
    NearOk (some (i, v)) = (i < length xs) × (is_aged now hold (entry xs i) ≡ true)

    abbrev AgedOk : Aged → Type 0
    AgedOk a = NearOk a.best_ahead × NearOk a.best_oldest

    nearer-NearOk :
        (b : Option (ℕ × ℕ)) (i v : ℕ)
        → i < length xs
        → is_aged now hold (entry xs i) ≡ true
        → NearOk b
        → NearOk (nearer b i v)
    unfolding nearer
    nearer-NearOk none i v l e h = (l, e)
    nearer-NearOk (some (j, w)) i v l e h = ground arith

    aged_round-AgedOk :
        (i : ℕ) (a : Aged)
        → i < length xs
        → AgedOk a
        → AgedOk (aged_round want now hold i (entry xs i) a)
    unfolding aged_round
    aged_round-AgedOk i a l h =
        let x = entry xs i in
        elim (Bool-cases (is_aged now hold x)) [
          | inr e ↦ rw e h
          | inl e ↦
              let o = nearer-NearOk a.best_oldest i x.ts l e h.1 in
              elim (Bool-cases (seq_ahead_or_equal x.seq want)) [
                | inr n ↦ rw (e, n) (h.0, o)
                | inl y ↦ rw (e, y) (nearer-NearOk a.best_ahead i (sub32 x.seq want) l e h.0, o)
              ]
        ]

    abbrev nothing : Aged
    nothing = record { best_ahead = none; best_oldest = none }

    aged-AgedOk : AgedOk (fold_from (aged_round want now hold) 0 nothing xs)
    aged-AgedOk =
        fold_keeps (aged_round want now hold) zero_slot xs AgedOk aged_round-AgedOk nothing (tt, tt)

    chosen-aged :
        (a : Aged) (i : ℕ)
        → AgedOk a
        → index_of a.best_ahead (index_of a.best_oldest none) ≡ some i
        → (i < length xs) × (is_aged now hold (entry xs i) ≡ true)
    unfolding index_of
    chosen-aged a i h e = ground arith

-- Why a slot was picked.
abbrev pub Reason : ReorderCtx → PeerBuf → ℕ → ℕ → DeliverKind → Type 0
Reason c pb now i first = pb.seq_init ≡ false
Reason c pb now i in_order =
    (pb.seq_init ≡ true) × ((entry (active c pb) i).seq ≡ seq_next pb.last_seq)
Reason c pb now i forced =
    (pb.seq_init ≡ true)
    × (is_aged now (reorder_hold_window c (some pb)) (entry (active c pb) i) ≡ true)
    × ((j : ℕ)
        → j < length (active c pb)
        → ((entry (active c pb) j).used && (entry (active c pb) j).seq == seq_next pb.last_seq)
          ≡ false)
Reason c pb now i evicted = ⊥

module _ (c : ReorderCtx) (pb : PeerBuf) (now : ℕ) where
  abbrev pub xs : List ReorderSlot
  xs = active c pb

  abbrev pub Picked : DeliverKind × Option ℕ → Type 0
  Picked (k, none) = Unit {0}
  Picked (k, some i) = (i < length xs) × ((entry xs i).used ≡ true) × Reason c pb now i k

  forced-Picked :
      pb.seq_init ≡ true
      → ((j : ℕ)
          → j < length xs
          → ((entry xs j).used && (entry xs j).seq == seq_next pb.last_seq) ≡ false)
      → (r : Option ℕ) → pick_forced c pb now ≡ r
      → Picked (forced, r)
  unfolding pick_forced
  forced-Picked e miss none p = tt
  forced-Picked e miss (some i) p =
      let want = seq_next pb.last_seq in
      let hold = reorder_hold_window c (some pb) in
      let h = chosen-aged xs want now hold _ i (aged-AgedOk xs want now hold) p in
      (h.0, ground (arith, h.1), (e, h.1, miss))

  lowest-Picked :
      pb.seq_init ≡ false
      → (r : Option (ℕ × ReorderSlot)) → LowestOk xs r
      → Picked (first, elim r [ none ↦ none | some (i, x) ↦ some i ])
  lowest-Picked e none h = tt
  lowest-Picked e (some (i, x)) h = (h.0, h.1, e)

  successor-Picked :
      pb.seq_init ≡ true
      → (r : Option ℕ)
      → Found (λ (x : ReorderSlot). x.used && x.seq == seq_next pb.last_seq) zero_slot 0 xs r
      → Picked (elim r [ some i ↦ (in_order, some i) | none ↦ (forced, pick_forced c pb now) ])
  successor-Picked e none f = forced-Picked e f (pick_forced c pb now) refl
  successor-Picked e (some i) f =
      let z : i - 0 ≡ i = omega arith in
      let hit = rw z at f.2 in (omega (arith, f.1), ground (arith, hit), (e, ground (arith, hit)))

  pub pick-Picked : Picked (reorder_pick c pb now)
  unfolding reorder_pick pick_lowest
  pick-Picked = elim (Bool-cases (pb.filled == 0)) [
    | inl e ↦ simp e tt
    | inr e ↦ elim (Bool-cases pb.seq_init) [
      | inr n ↦ simp (e, n) (lowest-Picked n _ (lowest-LowestOk xs))
      | inl y ↦ simp (e, y) (successor-Picked y _ (find_index?-Found _ zero_slot xs))
    ]
  ]

-- A picked slot lies in the active ring and holds a packet. The kind says why: a first delivery only
-- before the cursor is set; an in-order one is the exact successor of the cursor; a forced one has
-- aged out the hold window while no active slot holds the successor.
pub pick_sound :
    (c : ReorderCtx) (pb : PeerBuf) (now i : ℕ) (k : DeliverKind)
    → reorder_pick c pb now ≡ (k, some i)
    → (i < length (active c pb)) × ((entry (active c pb) i).used ≡ true) × Reason c pb now i k
pick_sound c pb now i k e = subst (Picked c pb now) e (pick-Picked c pb now)
