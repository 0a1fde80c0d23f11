-- ===== src/Reorder/Clean.antt =====
-- The ring behind the cursor: which steps keep it clean.
use battlezone_netcode_patch.Prelude.{
  ℕ, zero, suc, ◌<◌, ◌≡◌, sym, ap, subst, refl, ◌⊎◌, inr, false, List, [], ◌∷◌, take, length, arith,
}
use battlezone_netcode_patch.Reorder.{DeliverKind, ReorderSlot, PeerBuf, ReorderStats, ReorderCtx}
use battlezone_netcode_patch.Reorder.Window.{reorder_adapt_on_arrival, grow, reorder_decay}
use battlezone_netcode_patch.Reorder.Slots.{
  purge_loop, reorder_purge_stale, advance, reorder_note_delivery,
}
use battlezone_netcode_patch.Reorder.PickLaws.{active}
use battlezone_netcode_patch.Reorder.Cursor.{NonePassed, purge_loop-NonePassed}

-- The ring has room for a packet, and once the cursor is set no packet in it has been passed.
pub record IsClean (c : ReorderCtx) (pb : PeerBuf) : Type 0 where
  pub room : 0 < length (active c pb)
  pub none_passed : (pb.seq_init ≡ false) ⊎ NonePassed c.depth pb.last_seq pb.slots

-- The parts of the state that the order rests on.
abbrev pub SameRing : PeerBuf → PeerBuf → Type 0
SameRing p q = (q.seq_init ≡ p.seq_init) × (q.last_seq ≡ p.last_seq) × (q.slots ≡ p.slots)

pub adapt-SameRing :
    (c : ReorderCtx) (pb : PeerBuf) (seq now : ℕ)
    → SameRing pb (reorder_adapt_on_arrival c pb seq now)
unfolding reorder_adapt_on_arrival grow
adapt-SameRing c pb seq now = ground arith

pub decay-SameRing :
    (c : ReorderCtx) (pb : PeerBuf) (now : ℕ) → SameRing pb (reorder_decay c pb now)
unfolding reorder_decay
decay-SameRing c pb now = ground arith

pub SameRing-IsClean : (c : ReorderCtx) (p q : PeerBuf) → SameRing p q → IsClean c p → IsClean c q
SameRing-IsClean c p q (i, l, s) h = record {
  room = subst (λ xs. 0 < length (take c.depth xs)) (sym s) h.room;
  none_passed = rw (i, l, s) h.none_passed;
}

pub purge_loop-length :
    (last n m : ℕ) (xs : List ReorderSlot) (f p : ℕ)
    → length (take m (purge_loop last n xs f p).0) ≡ length (take m xs)
unfolding purge_loop
purge_loop-length last zero m xs f p = refl
purge_loop-length last (suc n) zero xs f p = refl
purge_loop-length last (suc n) (suc m) [] f p = refl
purge_loop-length last (suc n) (suc m) (x ∷ xs) f p = ap suc (purge_loop-length last n m xs _ _)

-- Whatever is delivered, the ring is clean behind the new cursor.
pub note_delivery-IsClean :
    (c : ReorderCtx) (st : ReorderStats) (pb : PeerBuf) (seq arrival now : ℕ) (k : DeliverKind)
    → 0 < length (active c pb)
    → IsClean c (reorder_note_delivery c st pb seq arrival now k).1
unfolding reorder_note_delivery reorder_purge_stale
note_delivery-IsClean c st pb seq arrival now k h = record {
  room = omega (
    arith,
    purge_loop-length (advance pb seq) c.depth c.depth pb.slots pb.filled st.purged_stale,
  );
  none_passed =
      inr (purge_loop-NonePassed (advance pb seq) c.depth pb.slots pb.filled st.purged_stale);
}
