-- ===== src/Reorder/Filled.antt =====
-- `filled` is the number of active slots in use, after every operation on the ring.
use battlezone_netcode_patch.Prelude.{
  ℕ, zero, suc, ◌+◌, ◌-◌, ◌^◌, ◌≤◌, ◌<◌, ◌≡◌, ◌∙◌, sym, ap, subst, refl, inl, inr, true, false,
  ◌&&◌, Option, none, some, List, [], ◌∷◌, take, set, length, length-take-le, arith, Bool-cases,
  Option-cases, ◌==◌, inc64,
}
use battlezone_netcode_patch.Prelude.Int.{leb_ℤ, pos}
use battlezone_netcode_patch.Prelude.Scan.{find_index?}
use battlezone_netcode_patch.Prelude.Sums.{sum, sum-le-length}
use battlezone_netcode_patch.Reorder.{
  DeliverKind, evicted, ReorderSlot, PeerBuf, ReorderStats, ReorderCtx,
}
use battlezone_netcode_patch.Reorder.Seq.{seq_cmp}
use battlezone_netcode_patch.Reorder.Window.{reorder_adapt_on_arrival, grow, reorder_decay}
use battlezone_netcode_patch.Reorder.Slots.{
  InsertResult, buffered, stale, duplicate, displaced, is_passed, purge_loop, reorder_purge_stale,
  advance, reorder_note_delivery, filled_slot, store, reorder_insert, reorder_take, slot_at,
}
use battlezone_netcode_patch.Reorder.Pick.{reorder_pick}
use battlezone_netcode_patch.Reorder.PickLaws.{active, entry, pick-Picked, Picked}
use battlezone_netcode_patch.Reorder.Conserve.{
  in_use, used_count, sum-write, Accounted, store-Accounted,
}
use battlezone_netcode_patch.Reorder.Session.{
  Datagram, Event, arrives, polled, after_insert, arrive, release, step,
}

abbrev pub Counts : ReorderCtx → PeerBuf → Type 0
Counts c pb = pb.filled ≡ used_count c pb

purge_loop_counts :
    (last n : ℕ) (xs : List ReorderSlot) (filled purged extra : ℕ)
    → filled ≡ sum in_use (take n xs) + extra
    → let (ys, f, p) = purge_loop last n xs filled purged in f ≡ sum in_use (take n ys) + extra
unfolding purge_loop
purge_loop_counts last zero xs filled purged extra h = h
purge_loop_counts last (suc n) [] filled purged extra h = h
purge_loop_counts last (suc n) (x ∷ xs) filled purged extra h =
    let gone = is_passed last x in
    elim (Bool-cases gone) [
      | inl e ↦ rw e (
          omega
            (arith, purge_loop_counts last n xs (filled - 1) (inc64 purged) extra (ground arith)))
      | inr e ↦ rw e (
          omega (
            arith,
            purge_loop_counts last n xs filled purged (in_use x + extra) (omega (arith, h)),
          ))
    ]

note_delivery-Counts :
    (c : ReorderCtx) (st : ReorderStats) (pb : PeerBuf) (seq arrival now : ℕ) (k : DeliverKind)
    → Counts c pb
    → Counts c (reorder_note_delivery c st pb seq arrival now k).1
unfolding reorder_note_delivery reorder_purge_stale
note_delivery-Counts c st pb seq arrival now k h = omega (
  arith,
  purge_loop_counts (advance pb seq) c.depth pb.slots pb.filled st.purged_stale 0 (omega arith),
)

abbrev SameCount : PeerBuf → PeerBuf → Type 0
SameCount p q = (q.filled ≡ p.filled) × (q.slots ≡ p.slots)

adapt-SameCount :
    (c : ReorderCtx) (pb : PeerBuf) (seq now : ℕ)
    → SameCount pb (reorder_adapt_on_arrival c pb seq now)
unfolding reorder_adapt_on_arrival grow
adapt-SameCount c pb seq now = ground arith

decay-SameCount : (c : ReorderCtx) (pb : PeerBuf) (now : ℕ) → SameCount pb (reorder_decay c pb now)
unfolding reorder_decay
decay-SameCount c pb now = ground arith

SameCount-Counts : (c : ReorderCtx) (p q : PeerBuf) → SameCount p q → Counts c p → Counts c q
SameCount-Counts c p q (f, s) h = f ∙ h ∙ ap (λ xs. sum in_use (take c.depth xs)) (sym s)

in_use-le : (x : ReorderSlot) → in_use x ≤ 1
in_use-le x = ground arith

module _ (c : ReorderCtx) (pb : PeerBuf) (h : Counts c pb) where
  take-Counts :
      (st : ReorderStats) (now : ℕ) (k : DeliverKind) (i : ℕ)
      → i < length (active c pb)
      → (entry (active c pb) i).used ≡ true
      → Counts c (release c st pb now (k, some i)).2
  unfolding release reorder_take
  take-Counts st now k i l u =
      let pkt = slot_at pb i in
      let gone : ReorderSlot = record pkt { used = false } in
      let freed : PeerBuf = record pb { slots = set pb.slots i gone; filled = pb.filled - 1 } in
      let noted = (reorder_note_delivery c st freed pkt.seq pkt.ts now k).1 in
      let fewer : Counts c freed = ground (arith, sum-write c pb gone in_use i l, u) in
      SameCount-Counts c noted (reorder_decay c noted now) (decay-SameCount c noted now)
        (note_delivery-Counts c st freed pkt.seq pkt.ts now k fewer)

  release-Counts :
      (st : ReorderStats) (now : ℕ) (p : DeliverKind × Option ℕ)
      → Picked c pb now p
      → Counts c (release c st pb now p).2
  unfolding release
  release-Counts st now (k, none) p = h
  release-Counts st now (k, some i) p = take-Counts st now k i p.0 p.1

  stored-Counts :
      (st : ReorderStats) (now : ℕ) (x : ReorderSlot) (r : InsertResult × PeerBuf)
      → c.depth < 2 ^ 31
      → x.used ≡ true
      → Accounted c pb x 0 r
      → Counts c (after_insert c now (r.0, st, r.1)).2
  unfolding after_insert
  stored-Counts st now x (buffered, p) d u a =
      let n = length-take-le c.depth pb.slots in
      ground (arith, a.1, a.2, sum-le-length in_use (active c pb) in_use-le, n.0)
  stored-Counts st now x (stale, p) d u a = absurd a
  stored-Counts st now x (duplicate, p) d u a = absurd a
  stored-Counts st now x (displaced y, p) d u a =
      note_delivery-Counts c st p y.seq y.ts now evicted (ground (arith, a.1, a.2))

  insert-Counts :
      (st : ReorderStats) (d : Datagram) (now : ℕ)
      → c.depth < 2 ^ 31
      → 0 < length (active c pb)
      → Counts c (after_insert c now (reorder_insert c st pb d.seq now d.from d.bytes d.len)).2
  unfolding reorder_insert after_insert
  insert-Counts st d now deep room =
      elim (Bool-cases (pb.seq_init && leb_ℤ (seq_cmp d.seq pb.last_seq) (pos 0))) [
        | inl e ↦ simp e h
        | inr e ↦
            let x = filled_slot d.seq now d.from d.bytes d.len in
            elim (Option-cases
              (find_index? (λ (y : ReorderSlot). y.used && y.seq == d.seq) (active c pb))) [
                | inr (i, f) ↦ simp (e, f) h
                | inl f ↦
                    simp (e, f)
                      (stored-Counts st now x (store c pb x) deep refl
                        (store-Accounted c pb x 0 room))
              ]
      ]

-- `filled` is the number of active slots in use, and stays so over every arrival and every delivery,
-- purges and displacements included.
pub step-Counts :
    (c : ReorderCtx) (st : ReorderStats) (pb : PeerBuf) (e : Event)
    → c.depth < 2 ^ 31
    → 0 < length (active c pb)
    → pb.filled ≡ used_count c pb
    → let (out, st', pb') = step c (st, pb) e in pb'.filled ≡ used_count c pb'
unfolding step arrive
step-Counts c st pb (arrives d now) deep room h =
    let a = reorder_adapt_on_arrival c pb d.seq now in
    let same = adapt-SameCount c pb d.seq now in
    insert-Counts c a (SameCount-Counts c pb a same h) st d now deep
      (subst (λ xs. 0 < length (take c.depth xs)) (sym same.1) room)
step-Counts c st pb (polled now) deep room h =
    release-Counts c pb h st now (reorder_pick c pb now) (pick-Picked c pb now)
