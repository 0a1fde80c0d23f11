-- ===== src/Reorder/Order.antt =====
-- The order in which one peer's packets leave the buffer.
use battlezone_netcode_patch.Prelude.{
  ℕ, ◌≡◌, ◌∙◌, subst, ◌⊎◌, Bool, true, false, List, [], ◌∷◌, ◌++◌,
}
use battlezone_netcode_patch.Prelude.Int.{ltb_ℤ, pos}
use battlezone_netcode_patch.Reorder.{ReorderSlot, PeerBuf, ReorderStats, ReorderCtx}
use battlezone_netcode_patch.Reorder.Seq.{seq_cmp}
use battlezone_netcode_patch.Reorder.Window.{reorder_adapt_on_arrival}
use battlezone_netcode_patch.Reorder.PickLaws.{pick-Picked}
use battlezone_netcode_patch.Reorder.Session.{Event, arrives, polled, arrive, step, run}
use battlezone_netcode_patch.Reorder.Clean.{IsClean, SameRing, adapt-SameRing, SameRing-IsClean}
use battlezone_netcode_patch.Reorder.Outcome.{May, Outcome, insert-Outcome, released-Outcome}

-- The released sequences, from a cursor on: each is strictly ahead of the one before it.
abbrev pub Ascending : Bool → ℕ → List ReorderSlot → Type 0
Ascending init last [] = Unit {0}
Ascending init last (x ∷ xs) =
    ((init ≡ false) ⊎ (ltb_ℤ (pos 0) (seq_cmp x.seq last) ≡ true)) × Ascending true x.seq xs

SameRing-Outcome :
    (c : ReorderCtx) (p q : PeerBuf) (r : List ReorderSlot × ReorderStats × PeerBuf)
    → SameRing p q
    → Outcome c q r
    → Outcome c p r
SameRing-Outcome c p q ([], st, t) (i, l, s) h = (h.0, h.1 ∙ i, h.2 ∙ l)
SameRing-Outcome c p q (x ∷ [], st, t) (i, l, s) h =
    let may : May p x.seq = rw (← i, ← l) h.1 in (h.0, may, h.2, h.3)
SameRing-Outcome c p q (x ∷ y ∷ r, st, t) e h = h

step-Outcome :
    (c : ReorderCtx) (st : ReorderStats) (pb : PeerBuf) (e : Event)
    → IsClean c pb
    → Outcome c pb (step c (st, pb) e)
unfolding step arrive
step-Outcome c st pb (arrives d now) h =
    let a = reorder_adapt_on_arrival c pb d.seq now in
    let same = adapt-SameRing c pb d.seq now in
    SameRing-Outcome c pb a _ same (insert-Outcome c a (SameRing-IsClean c pb a same h) st d now)
step-Outcome c st pb (polled now) h = released-Outcome c pb h st now _ (pick-Picked c pb now)

abbrev Continues :
    ReorderCtx → PeerBuf → List Event → List ReorderSlot × ReorderStats × PeerBuf → Type 0
Continues c pb es (out, st, q) = Ascending pb.seq_init pb.last_seq (out ++ run c (st, q) es)

Outcome-Continues :
    (c : ReorderCtx) (pb : PeerBuf) (es : List Event)
    (r : List ReorderSlot × ReorderStats × PeerBuf)
    → ((st : ReorderStats) (q : PeerBuf)
        → IsClean c q
        → Ascending q.seq_init q.last_seq (run c (st, q) es))
    → Outcome c pb r
    → Continues c pb es r
Outcome-Continues c pb es ([], st, q) ih h = rw (← h.1, ← h.2) (ih st q h.0)
Outcome-Continues c pb es (x ∷ [], st, q) ih h = (
  h.1,
  subst (λ (s : ℕ). Ascending true s (run c (st, q) es)) h.3
      (subst (λ (b : Bool). Ascending b q.last_seq (run c (st, q) es)) h.2 (ih st q h.0)),
)
Outcome-Continues c pb es (x ∷ y ∷ r, st, q) ih h = absurd h

-- Whatever arrives, in whatever order and however late, and whenever the game polls: from a clean
-- ring the packets that the buffer releases to the game, forced and displaced ones included, go out
-- in strictly ascending sequence order, starting ahead of the cursor.
pub run-Ascending :
    (c : ReorderCtx) (st : ReorderStats) (pb : PeerBuf) (es : List Event)
    → IsClean c pb
    → Ascending pb.seq_init pb.last_seq (run c (st, pb) es)
unfolding run
run-Ascending c st pb [] h = tt
run-Ascending c st pb (e ∷ es) h =
    Outcome-Continues c pb es _ (λ st' q k. run-Ascending c st' q es k) (step-Outcome c st pb e h)
