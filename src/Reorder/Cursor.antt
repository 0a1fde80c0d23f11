-- ===== src/Reorder/Cursor.antt =====
-- The delivery cursor and the purge: no packet that the cursor has passed stays in the ring.
use battlezone_netcode_patch.Prelude.{
  ℕ, zero, suc, ◌-◌, ◌≡◌, refl, true, false, ◌&&◌, List, [], ◌∷◌, All, take, arith, if◌then◌else◌,
  inc64,
}
use battlezone_netcode_patch.Prelude.Int.{leb_ℤ, pos}
use battlezone_netcode_patch.Reorder.{DeliverKind, ReorderSlot, PeerBuf, ReorderStats, ReorderCtx}
use battlezone_netcode_patch.Reorder.Seq.{seq_cmp}
use battlezone_netcode_patch.Reorder.Slots.{
  is_passed, purge_loop, reorder_purge_stale, advance, reorder_note_delivery,
}

-- No slot in use holds a sequence at or behind `last`.
abbrev pub NonePassed : ℕ → ℕ → List ReorderSlot → Type 0
NonePassed depth last slots = All (λ x. is_passed last x ≡ false) (take depth slots)

pub purge_loop-NonePassed :
    (last n : ℕ) (xs : List ReorderSlot) (filled purged : ℕ)
    → NonePassed n last (purge_loop last n xs filled purged).0
unfolding purge_loop
purge_loop-NonePassed last zero xs filled purged = tt
purge_loop-NonePassed last (suc n) [] filled purged = tt
purge_loop-NonePassed last (suc n) (x ∷ xs) filled purged =
    let gone = is_passed last x in
    (
      ground arith,
      purge_loop-NonePassed last n xs (if gone then filled - 1 else filled)
          (if gone then inc64 purged else purged),
    )

-- After any delivery is noted, the cursor is valid, it is at the later one of the old cursor and the
-- delivered sequence (it never moves back), and no packet that it has passed is still buffered.
pub note_delivery_advances :
    (c : ReorderCtx) (st : ReorderStats) (pb : PeerBuf) (seq arrival now : ℕ) (kind : DeliverKind)
    → let pb' = (reorder_note_delivery c st pb seq arrival now kind).1 in
      (pb'.seq_init ≡ true)
      × (pb'.last_seq
          ≡ (if pb.seq_init && leb_ℤ (seq_cmp seq pb.last_seq) (pos 0) then pb.last_seq else seq))
      × NonePassed c.depth pb'.last_seq pb'.slots
unfolding reorder_note_delivery reorder_purge_stale
note_delivery_advances c st pb seq arrival now kind = (
  refl,
  ground arith,
  purge_loop-NonePassed (advance pb seq) c.depth pb.slots pb.filled st.purged_stale,
)
