-- ===== src/Reorder/Outcome.antt =====
-- What one event makes the buffer release, and the cursor that it leaves.
use battlezone_netcode_patch.Prelude.{
  ℕ, ◌-◌, ◌<◌, ◌≡◌, ◌∙◌, sym, subst, refl, ◌⊎◌, inl, inr, true, false, not, ◌&&◌, Option, none,
  some, List, [], ◌∷◌, set, length, length-set, take-set, All-set, All-get, get_or-take,
  length-take-le, arith, Bool-cases, Option-cases, ◌==◌, add32,
}
use battlezone_netcode_patch.Prelude.Int.{ltb_ℤ, leb_ℤ, pos}
use battlezone_netcode_patch.Prelude.Scan.{
  find_index?, find_index?-Found, Found, min_index, min_index-lt,
}
use battlezone_netcode_patch.Reorder.{
  DeliverKind, evicted, ReorderSlot, PeerBuf, ReorderStats, ReorderCtx,
}
use battlezone_netcode_patch.Reorder.Seq.{seq_cmp}
use battlezone_netcode_patch.Reorder.Peers.{zero_slot}
use battlezone_netcode_patch.Reorder.Window.{reorder_decay}
use battlezone_netcode_patch.Reorder.Slots.{
  InsertResult, displaced, is_passed, reorder_purge_stale, reorder_note_delivery, filled_slot,
  store, reorder_insert, reorder_take, slot_at,
}
use battlezone_netcode_patch.Reorder.PickLaws.{active, entry, Picked}
use battlezone_netcode_patch.Reorder.Cursor.{note_delivery_advances}
use battlezone_netcode_patch.Reorder.Session.{Datagram, after_insert, release}
use battlezone_netcode_patch.Reorder.Clean.{
  IsClean, decay-SameRing, SameRing-IsClean, note_delivery-IsClean,
}
use battlezone_netcode_patch.Reorder.Stored.{store-none, store-some}

-- A slot in use that is not passed is strictly ahead, and its delivery makes it the cursor.
pub ahead_of_unpassed :
    (last : ℕ) (x : ReorderSlot)
    → x.used ≡ true
    → is_passed last x ≡ false
    → ltb_ℤ (pos 0) (seq_cmp x.seq last) ≡ true
ahead_of_unpassed last x u n = ground arith

-- May `seq` be delivered next?
abbrev pub May : PeerBuf → ℕ → Type 0
May pb seq = (pb.seq_init ≡ false) ⊎ (ltb_ℤ (pos 0) (seq_cmp seq pb.last_seq) ≡ true)

pub noted_cursor :
    (c : ReorderCtx) (st : ReorderStats) (pb : PeerBuf) (seq arrival now : ℕ) (k : DeliverKind)
    → May pb seq
    → (reorder_note_delivery c st pb seq arrival now k).1.last_seq ≡ seq
unfolding reorder_note_delivery reorder_purge_stale
noted_cursor c st pb seq arrival now k h = ground arith

-- What one event releases, and the cursor that it leaves.
abbrev pub Outcome : ReorderCtx → PeerBuf → List ReorderSlot × ReorderStats × PeerBuf → Type 0
Outcome c pb ([], st, q) = IsClean c q × (q.seq_init ≡ pb.seq_init) × (q.last_seq ≡ pb.last_seq)
Outcome c pb (x ∷ [], st, q) =
    IsClean c q × May pb x.seq × (q.seq_init ≡ true) × (q.last_seq ≡ x.seq)
Outcome c pb (x ∷ y ∷ r, st, q) = ⊥

pub set-IsClean :
    (c : ReorderCtx) (pb : PeerBuf) (i f : ℕ) (x : ReorderSlot)
    → IsClean c pb
    → (pb.seq_init ≡ false) ⊎ (is_passed pb.last_seq x ≡ false)
    → IsClean c (record pb { slots = set pb.slots i x; filled = f })
set-IsClean c pb i f x h n = record {
  room = rw (take-set c.depth pb.slots i x, length-set (active c pb) i x) h.room;
  none_passed = elim h.none_passed [
    | inl e ↦ inl e
    | inr all ↦ elim n [
      | inl e ↦ inl e
      | inr new ↦ inr (rw (take-set c.depth pb.slots i x) (All-set _ (active c pb) i x all new))
    ]
  ];
}

-- Any packet of a clean ring may be delivered next.
pub clean-May :
    (c : ReorderCtx) (pb : PeerBuf) (i : ℕ)
    → IsClean c pb
    → i < length (active c pb)
    → (entry (active c pb) i).used ≡ true
    → May pb (entry (active c pb) i).seq
clean-May c pb i h l u = elim h.none_passed [
  | inl e ↦ inl e
  | inr all ↦ inr (
      ahead_of_unpassed pb.last_seq (entry (active c pb) i) u
        (All-get _ (active c pb) i zero_slot all l))
]

module _ (c : ReorderCtx) (pb : PeerBuf) (h : IsClean c pb) where
  entry-slot_at : (i : ℕ) → i < length (active c pb) → entry (active c pb) i ≡ slot_at pb i
  entry-slot_at i l =
      let n = length-take-le c.depth pb.slots in
      get_or-take c.depth pb.slots i zero_slot (omega (arith, n.0, l))

  take-Outcome :
      (st : ReorderStats) (now : ℕ) (k : DeliverKind) (i : ℕ)
      → i < length (active c pb)
      → (entry (active c pb) i).used ≡ true
      → Outcome c pb (release c st pb now (k, some i))
  unfolding release reorder_take
  take-Outcome st now k i l u =
      let pkt = slot_at pb i in
      let freed : PeerBuf = record pb {
        slots = set pb.slots i (record pkt { used = false });
        filled = pb.filled - 1;
      } in
      let noted = (reorder_note_delivery c st freed pkt.seq pkt.ts now k).1 in
      let may : May pb pkt.seq =
        subst (λ (x : ReorderSlot). May pb x.seq) (entry-slot_at i l) (clean-May c pb i h l u) in
      let same = decay-SameRing c noted now in
      let clean_freed =
        set-IsClean c pb i (pb.filled - 1) (record pkt { used = false }) h (inr refl) in
      let clean = note_delivery-IsClean c st freed pkt.seq pkt.ts now k clean_freed.room in
      (
        SameRing-IsClean c noted (reorder_decay c noted now) same clean,
        may,
        same.0 ∙ (note_delivery_advances c st freed pkt.seq pkt.ts now k).0,
        same.1 ∙ noted_cursor c st freed pkt.seq pkt.ts now k may,
      )

  pub released-Outcome :
      (st : ReorderStats) (now : ℕ) (p : DeliverKind × Option ℕ)
      → Picked c pb now p
      → Outcome c pb (release c st pb now p)
  unfolding release
  released-Outcome st now (k, none) p = (h, refl, refl)
  released-Outcome st now (k, some i) p = take-Outcome st now k i p.0 p.1

  displaced-Outcome :
      (st : ReorderStats) (now o : ℕ) (x : ReorderSlot)
      → o < length (active c pb)
      → (entry (active c pb) o).used ≡ true
      → (pb.seq_init ≡ false) ⊎ (is_passed pb.last_seq x ≡ false)
      → Outcome c pb (
          after_insert c now (displaced (slot_at pb o), st, record pb { slots = set pb.slots o x }))
  unfolding after_insert
  displaced-Outcome st now o x l u n =
      let y = slot_at pb o in
      let q : PeerBuf = record pb { slots = set pb.slots o x } in
      let may : May pb y.seq =
        subst (λ (s : ReorderSlot). May pb s.seq) (entry-slot_at o l) (clean-May c pb o h l u) in
      (
        note_delivery-IsClean c st q y.seq y.ts now evicted
            (set-IsClean c pb o pb.filled x h n).room,
        may,
        (note_delivery_advances c st q y.seq y.ts now evicted).0,
        noted_cursor c st q y.seq y.ts now evicted may,
      )

  abbrev pub Stored : ReorderStats → ℕ → InsertResult × PeerBuf → Type 0
  Stored st now (r, q) = Outcome c pb (after_insert c now (r, st, q))

  store-Stored :
      (st : ReorderStats) (now : ℕ) (x : ReorderSlot)
      → (pb.seq_init ≡ false) ⊎ (is_passed pb.last_seq x ≡ false)
      → Stored st now (store c pb x)
  unfolding store after_insert
  store-Stored st now x n =
      elim (Option-cases (find_index? (λ (y : ReorderSlot). not y.used) (active c pb))) [
        | inr (i, e) ↦
            subst (Stored st now) (sym (store-some c pb x i e))
              (set-IsClean c pb i (add32 pb.filled 1) x h n, refl, refl)
        | inl e ↦
            let o = min_index (λ (y : ReorderSlot). y.ts) (active c pb) in
            let l = min_index-lt (λ (y : ReorderSlot). y.ts) (active c pb) h.room in
            let f =
              subst (Found (λ (y : ReorderSlot). not y.used) zero_slot 0 (active c pb)) e
                (find_index?-Found _ zero_slot (active c pb)) in
            let u : (entry (active c pb) o).used ≡ true = ground (arith, f o l) in
            subst (Stored st now) (sym (store-none c pb x e)) (displaced-Outcome st now o x l u n)
      ]

  pub insert-Outcome :
      (st : ReorderStats) (d : Datagram) (now : ℕ)
      → Outcome c pb (after_insert c now (reorder_insert c st pb d.seq now d.from d.bytes d.len))
  unfolding reorder_insert after_insert
  insert-Outcome st d now =
      elim (Bool-cases (pb.seq_init && leb_ℤ (seq_cmp d.seq pb.last_seq) (pos 0))) [
        | inl e ↦ simp e (h, refl, refl)
        | inr e ↦
            let x = filled_slot d.seq now d.from d.bytes d.len in
            let n : (pb.seq_init ≡ false) ⊎ (is_passed pb.last_seq x ≡ false) = ground arith in
            elim (Option-cases
              (find_index? (λ (y : ReorderSlot). y.used && y.seq == d.seq) (active c pb))) [
                | inr (i, f) ↦ simp (e, f) (h, refl, refl)
                | inl f ↦ simp (e, f) (store-Stored st now x n)
              ]
      ]
