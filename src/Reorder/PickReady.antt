-- ===== src/Reorder/PickReady.antt =====
-- When `reorder_pick` has something to deliver: nothing that is due is left waiting.
use battlezone_netcode_patch.Prelude.{
  ℕ, ◌<◌, ◌≡◌, ◌≢◌, refl, ◌⊎◌, inl, inr, true, false, ◌&&◌, Option, none, some, length, arith,
  Bool-cases, ◌==◌,
}
use battlezone_netcode_patch.Prelude.Scan.{find_index?-Found, Found, fold_hits}
use battlezone_netcode_patch.Reorder.{
  DeliverKind, in_order, forced, ReorderSlot, PeerBuf, ReorderCtx,
}
use battlezone_netcode_patch.Reorder.Seq.{seq_next}
use battlezone_netcode_patch.Reorder.Peers.{zero_slot, reorder_hold_window}
use battlezone_netcode_patch.Reorder.Pick.{
  lowest_round, Aged, is_aged, nearer, aged_round, index_of, pick_forced, pick_lowest, reorder_pick,
}
use battlezone_netcode_patch.Reorder.PickLaws.{active, entry}

abbrev IsSome {ℓ} : {A : Type ℓ} → Option A → Type 0
IsSome none = ⊥
IsSome (some a) = Unit {0}

lowest_round-stays :
    (i : ℕ) (x : ReorderSlot) (b : Option (ℕ × ReorderSlot))
    → IsSome b
    → IsSome (lowest_round i x b)
unfolding lowest_round
lowest_round-stays i x none h = absurd h
lowest_round-stays i x (some (j, y)) h = ground arith

lowest_round-hits :
    (i : ℕ) (x : ReorderSlot) (b : Option (ℕ × ReorderSlot))
    → x.used ≡ true
    → IsSome (lowest_round i x b)
unfolding lowest_round
lowest_round-hits i x none h = ground arith
lowest_round-hits i x (some (j, y)) h = ground arith

nearer-IsSome : (b : Option (ℕ × ℕ)) (i v : ℕ) → IsSome (nearer b i v)
unfolding nearer
nearer-IsSome none i v = tt
nearer-IsSome (some (j, w)) i v = ground arith

module _ (want now hold : ℕ) where
  aged_round-stays :
      (i : ℕ) (x : ReorderSlot) (a : Aged)
      → IsSome a.best_oldest
      → IsSome (aged_round want now hold i x a).best_oldest
  unfolding aged_round
  aged_round-stays i x a h = ground (arith, nearer-IsSome a.best_oldest i x.ts)

  aged_round-hits :
      (i : ℕ) (x : ReorderSlot) (a : Aged)
      → is_aged now hold x ≡ true
      → IsSome (aged_round want now hold i x a).best_oldest
  unfolding aged_round
  aged_round-hits i x a h = rw h (nearer-IsSome a.best_oldest i x.ts)

index_of-IsSome : (a b : Option (ℕ × ℕ)) → IsSome b → IsSome (index_of a (index_of b none))
unfolding index_of
index_of-IsSome none none h = absurd h
index_of-IsSome none (some (j, w)) h = tt
index_of-IsSome (some (i, v)) b h = tt

abbrev index : Option (ℕ × ReorderSlot) → Option ℕ
index r = elim r [ none ↦ none | some (i, x) ↦ some i ]

index-IsSome : (r : Option (ℕ × ReorderSlot)) → IsSome r → IsSome (index r)
index-IsSome none h = h
index-IsSome (some (i, x)) h = tt

get_some {ℓ} : {A : Type ℓ} (o : Option A) → IsSome o → (a : A) × (o ≡ some a)
get_some none h = absurd h
get_some (some a) h = (a, refl)

module _ (c : ReorderCtx) (pb : PeerBuf) (now j : ℕ) (inside : j < length (active c pb)) where
  abbrev x : ReorderSlot
  x = entry (active c pb) j

  lowest-IsSome : x.used ≡ true → IsSome (pick_lowest c pb)
  unfolding pick_lowest
  lowest-IsSome h = index-IsSome _ (
      fold_hits lowest_round zero_slot IsSome lowest_round-stays 0 none (active c pb) j inside
        (λ k s. lowest_round-hits k x s h))

  forced-IsSome :
      is_aged now (reorder_hold_window c (some pb)) x ≡ true → IsSome (pick_forced c pb now)
  unfolding pick_forced
  forced-IsSome h =
      let want = seq_next pb.last_seq in
      let hold = reorder_hold_window c (some pb) in
      index_of-IsSome _ _ (
        fold_hits (aged_round want now hold) zero_slot (λ (a : Aged). IsSome a.best_oldest)
          (aged_round-stays want now hold) 0 _ (active c pb) j inside
          (λ k s. aged_round-hits want now hold k x s h))

  -- Either there is a successor in the ring, or the forced release decides.
  tail-IsSome :
      (r : Option ℕ)
      → Found
          (λ (x : ReorderSlot). x.used && x.seq == seq_next pb.last_seq)
          zero_slot
          0
          (active c pb)
          r
      → (x.used && x.seq == seq_next pb.last_seq ≡ true)
        ⊎ (is_aged now (reorder_hold_window c (some pb)) x ≡ true)
      → IsSome (
          let p : DeliverKind × Option ℕ = elim r [
            | some i ↦ (in_order, some i)
            | none ↦ (forced, pick_forced c pb now)
          ] in
          p.1)
  tail-IsSome (some i) f due = tt
  tail-IsSome none f (inr aged) = forced-IsSome aged
  tail-IsSome none f (inl hit) = let miss = f j inside in absurd (cc)

  picked-IsSome :
      pb.filled ≢ 0
      → x.used ≡ true
      → (pb.seq_init ≡ false)
        ⊎ (x.seq ≡ seq_next pb.last_seq)
        ⊎ (is_aged now (reorder_hold_window c (some pb)) x ≡ true)
      → IsSome (reorder_pick c pb now).1
  unfolding reorder_pick
  picked-IsSome h u due = elim (Bool-cases (pb.filled == 0)) [
    | inl e ↦ absurd (ground arith)
    | inr e ↦ elim (Bool-cases pb.seq_init) [
      | inr n ↦ simp (e, n) (lowest-IsSome u)
      | inl y ↦
          simp (e, y)
            (tail-IsSome _ (find_index?-Found _ zero_slot (active c pb)) (elim due [
              | inl n ↦ absurd (cc)
              | inr (inl next) ↦ inl (ground arith)
              | inr (inr aged) ↦ inr aged
            ]))
    ]
  ]

  -- In a ring that counts a packet, a packet that is due is never left waiting. Due is: any packet
  -- before the cursor is set, and after that the successor of the cursor, or one that has aged out
  -- the hold window. The pick then returns some slot.
  pub pick_ready :
      pb.filled ≢ 0
      → x.used ≡ true
      → (pb.seq_init ≡ false)
        ⊎ (x.seq ≡ seq_next pb.last_seq)
        ⊎ (is_aged now (reorder_hold_window c (some pb)) x ≡ true)
      → (i : ℕ) × ((reorder_pick c pb now).1 ≡ some i)
  pick_ready h u due = get_some _ (picked-IsSome h u due)
