-- ===== src/Reorder/Conserve.antt =====
-- No packet is lost or made up by an insertion, and `filled` counts the slots in use.
use battlezone_netcode_patch.Prelude.{
  ℕ, ◌+◌, ◌-◌, ◌<◌, ◌≡◌, sym, subst, refl, inl, inr, true, not, ◌&&◌, List, take, set, length,
  take-set, get_or-take, length-take-le, arith, Bool-cases, Option-cases, ◌==◌, if◌then◌else◌,
  add32,
}
use battlezone_netcode_patch.Prelude.Int.{leb_ℤ, pos}
use battlezone_netcode_patch.Prelude.Scan.{
  find_index?, find_index?-Found, Found, min_index, min_index-lt,
}
use battlezone_netcode_patch.Prelude.Sums.{sum, sum-set}
use battlezone_netcode_patch.Reorder.{ReorderSlot, PeerBuf, ReorderStats, ReorderCtx, SockAddr}
use battlezone_netcode_patch.Reorder.Seq.{seq_cmp}
use battlezone_netcode_patch.Reorder.Peers.{zero_slot}
use battlezone_netcode_patch.Reorder.Slots.{
  InsertResult, buffered, stale, duplicate, displaced, filled_slot, store, reorder_insert,
}
use battlezone_netcode_patch.Reorder.PickLaws.{active, entry}
use battlezone_netcode_patch.Reorder.Stored.{store-none, store-some}

-- How many slots in use hold the sequence `q`, and how many are in use at all.
abbrev pub one : ℕ → ℕ → ℕ
one q s = if s == q then 1 else 0

abbrev pub weight : ℕ → ReorderSlot → ℕ
weight q x = if x.used then one q x.seq else 0

abbrev pub in_use : ReorderSlot → ℕ
in_use x = if x.used then 1 else 0

abbrev pub held : ℕ → ReorderCtx → PeerBuf → ℕ
held q c pb = sum (weight q) (active c pb)

abbrev pub used_count : ReorderCtx → PeerBuf → ℕ
used_count c pb = sum in_use (active c pb)

module _ (c : ReorderCtx) (pb : PeerBuf) (x : ReorderSlot) where
  -- A write to slot `i` of the active ring trades its weight.
  pub sum-write :
      (f : ReorderSlot → ℕ) (i : ℕ)
      → i < length (active c pb)
      → sum f (take c.depth (set pb.slots i x)) + f (entry (active c pb) i)
        ≡ sum f (active c pb) + f x
  sum-write f i l = rw (take-set c.depth pb.slots i x) (sum-set f (active c pb) i x zero_slot l)

  abbrev pub Accounted : ℕ → InsertResult × PeerBuf → Type 0
  Accounted q (buffered, p) =
      (held q c p ≡ held q c pb + weight q x)
      × (used_count c p ≡ used_count c pb + in_use x)
      × (p.filled ≡ add32 pb.filled 1)
  Accounted q (stale, p) = ⊥
  Accounted q (duplicate, p) = ⊥
  Accounted q (displaced y, p) =
      (held q c p + one q y.seq ≡ held q c pb + weight q x)
      × (used_count c p + 1 ≡ used_count c pb + in_use x)
      × (p.filled ≡ pb.filled)

  pub store-Accounted : (q : ℕ) → 0 < length (active c pb) → Accounted q (store c pb x)
  store-Accounted q room =
      elim (Option-cases (find_index? (λ (y : ReorderSlot). not y.used) (active c pb))) [
        | inr (i, e) ↦
            let f =
              subst (Found (λ (y : ReorderSlot). not y.used) zero_slot 0 (active c pb)) e
                (find_index?-Found _ zero_slot (active c pb)) in
            let z : i - 0 ≡ i = omega arith in
            let free = rw z at f.2 in
            let l : i < length (active c pb) = omega (arith, f.1) in
            subst (Accounted q) (sym (store-some c pb x i e)) (
              ground (arith, sum-write (weight q) i l, free),
              ground (arith, sum-write in_use i l, free),
              refl,
            )
        | inl e ↦
            let o = min_index (λ (y : ReorderSlot). y.ts) (active c pb) in
            let l = min_index-lt (λ (y : ReorderSlot). y.ts) (active c pb) room in
            let f =
              subst (Found (λ (y : ReorderSlot). not y.used) zero_slot 0 (active c pb)) e
                (find_index?-Found _ zero_slot (active c pb)) in
            let u : (entry (active c pb) o).used ≡ true = ground (arith, f o l) in
            let n = length-take-le c.depth pb.slots in
            let same = get_or-take c.depth pb.slots o zero_slot (omega (arith, n.0, l)) in
            subst (Accounted q) (sym (store-none c pb x e)) (
              ground (arith, sum-write (weight q) o l, u, same),
              ground (arith, sum-write in_use o l, u),
              refl,
            )
      ]

-- What the caller hands to the game at once: the packet itself, the displaced one, or nothing.
abbrev pub passed_on : ℕ → ℕ → InsertResult → ℕ
passed_on q seq buffered = 0
passed_on q seq stale = one q seq
passed_on q seq duplicate = one q seq
passed_on q seq (displaced y) = one q y.seq

abbrev Balanced : ℕ → ℕ → ReorderCtx → PeerBuf → InsertResult × ReorderStats × PeerBuf → Type 0
Balanced q seq c pb (r, st, p) = held q c p + passed_on q seq r ≡ held q c pb + one q seq

stored-Balanced :
    (q seq : ℕ) (c : ReorderCtx) (st : ReorderStats) (pb : PeerBuf) (x : ReorderSlot)
    (r : InsertResult × PeerBuf)
    → x.used ≡ true
    → x.seq ≡ seq
    → Accounted c pb x q r
    → Balanced q seq c pb (r.0, st, r.1)
stored-Balanced q seq c st pb x (buffered, p) u e h = ground (arith, h.0)
stored-Balanced q seq c st pb x (stale, p) u e h = absurd h
stored-Balanced q seq c st pb x (duplicate, p) u e h = absurd h
stored-Balanced q seq c st pb x (displaced y, p) u e h = ground (arith, h.0)

-- An arriving packet is never lost: for every sequence `q`, the packets of that sequence that the
-- ring holds afterwards, with what the call obliges its caller to hand to the game, are those held
-- before and the arrival. (The ring must have at least one active slot.)
pub insert_conserves :
    (q : ℕ) (c : ReorderCtx) (st : ReorderStats) (pb : PeerBuf) (seq ts : ℕ) (from : SockAddr)
    (bytes : List ℕ) (len : ℕ)
    → 0 < length (active c pb)
    → let (r, st', pb') = reorder_insert c st pb seq ts from bytes len in
      held q c pb' + passed_on q seq r ≡ held q c pb + one q seq
unfolding reorder_insert
insert_conserves q c st pb seq ts from bytes len room =
    elim (Bool-cases (pb.seq_init && leb_ℤ (seq_cmp seq pb.last_seq) (pos 0))) [
      | inl e ↦ simp e
      | inr e ↦
          let x = filled_slot seq ts from bytes len in
          elim (Option-cases
            (find_index? (λ (y : ReorderSlot). y.used && y.seq == seq) (active c pb))) [
              | inr (i, f) ↦ simp (e, f)
              | inl f ↦
                  simp (e, f)
                    (stored-Balanced q seq c st pb x (store c pb x) refl refl
                      (store-Accounted c pb x q room))
            ]
    ]
