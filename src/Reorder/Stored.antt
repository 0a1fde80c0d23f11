-- ===== src/Reorder/Stored.antt =====
-- The two outcomes of storing a packet that is neither stale nor buffered.
use battlezone_netcode_patch.Prelude.{ℕ, ◌≡◌, not, none, some, set, add32}
use battlezone_netcode_patch.Prelude.Scan.{find_index?, min_index}
use battlezone_netcode_patch.Reorder.{ReorderSlot, PeerBuf, ReorderCtx}
use battlezone_netcode_patch.Reorder.Slots.{buffered, displaced, store, slot_at}
use battlezone_netcode_patch.Reorder.PickLaws.{active}

pub store-none :
    (c : ReorderCtx) (pb : PeerBuf) (x : ReorderSlot)
    → find_index? (λ (y : ReorderSlot). not y.used) (active c pb) ≡ none
    → let o = min_index (λ (y : ReorderSlot). y.ts) (active c pb) in
      store c pb x ≡ (displaced (slot_at pb o), record pb { slots = set pb.slots o x })
unfolding store
store-none c pb x e = rw (e, store)

pub store-some :
    (c : ReorderCtx) (pb : PeerBuf) (x : ReorderSlot) (i : ℕ)
    → find_index? (λ (y : ReorderSlot). not y.used) (active c pb) ≡ some i
    → store c pb x ≡ (buffered, record pb { slots = set pb.slots i x; filled = add32 pb.filled 1 })
unfolding store
store-some c pb x i e = rw (e, store)
