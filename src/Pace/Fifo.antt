-- ===== src/Pace/Fifo.antt =====
-- The ring of delayed datagrams against a queue that is just a list.
use battlezone_netcode_patch.Prelude.{
  ℕ, zero, suc, ◌+◌, ◌-◌, ◌%◌, ◌≤◌, ◌<◌, ◌≡◌, ◌∙◌, ap, refl, ◌⊎◌, inl, inr, Bool, true, false, ◌||◌,
  Option, none, some, List, [], ◌∷◌, ◌++◌, get_or, set, length, length-set, arith, Bool-cases, ltb,
  leb, ◌==◌, if◌then◌else◌,
}
use battlezone_netcode_patch.Prelude.Int.{ℤ, pos, pos_part, leb_ℤ}
use battlezone_netcode_patch.Prelude.Ring.{window, length-window, window-push, window-pop}
use battlezone_netcode_patch.Reorder.{reorder_max_pkt_bytes}
use battlezone_netcode_patch.Pace.{
  PaceEntry, PaceCtx, pace_queue_slots, pace_addr_bytes, zero_entry,
}
use battlezone_netcode_patch.Pace.Queue.{
  pending, is_refused, queued_entry, pace_enqueue, pop_head, pace_pop_due, pace_pop_any,
  pace_purge_socket,
}
use battlezone_netcode_patch.Prelude.Compact.{without}
use battlezone_netcode_patch.Pace.Purge.{purge-without}

pub data QueueOp : Type 0 where
  enqueues : ℕ → List ℕ → ℤ → List ℕ → ℕ → ℕ → QueueOp
  pops_due : ℕ → QueueOp
  pops_any : QueueOp
  closes : ℕ → QueueOp

pub data QueueResult : Type 0 where
  stored : Bool → QueueResult
  popped : Option PaceEntry → QueueResult
  purged : QueueResult

abbrev pub on_stored : Bool × PaceCtx → QueueResult × PaceCtx
on_stored (b, c) = (stored b, c)

abbrev pub on_popped : Option PaceEntry × PaceCtx → QueueResult × PaceCtx
on_popped (e, c) = (popped e, c)

-- The source's operations.
abbrev pub queue_op : PaceCtx → QueueOp → QueueResult × PaceCtx
queue_op c (enqueues sock to tolen bytes len due_ms) =
    on_stored (pace_enqueue c sock to tolen bytes len due_ms)
queue_op c (pops_due now) = on_popped (pace_pop_due c now)
queue_op c pops_any = on_popped (pace_pop_any c)
queue_op c (closes sock) = (purged, pace_purge_socket c sock)

-- The specification: a list, the oldest entry first, of at most 256 entries.
abbrev pub list_op : List PaceEntry → QueueOp → QueueResult × List PaceEntry
list_op xs (enqueues sock to tolen bytes len due_ms) =
    if leb pace_queue_slots (length xs)
      || ltb reorder_max_pkt_bytes len
      || leb_ℤ tolen (pos 0)
      || ltb pace_addr_bytes (pos_part tolen)
    then (stored false, xs)
    else (stored true, xs ++ queued_entry sock to tolen bytes len due_ms ∷ [])
list_op [] (pops_due now) = (popped none, [])
list_op (x ∷ xs) (pops_due now) =
    if ltb now x.due_ms then (popped none, x ∷ xs) else (popped (some x), xs)
list_op [] pops_any = (popped none, [])
list_op (x ∷ xs) pops_any = (popped (some x), xs)
list_op xs (closes sock) = (purged, without (λ (e : PaceEntry). e.sock) sock xs)

abbrev pub queue_run : PaceCtx → List QueueOp → List QueueResult × List PaceEntry
queue_run c [] = ([], pending c)
queue_run c (o ∷ os) = let (r, c') = queue_op c o in let (rs, xs) = queue_run c' os in (r ∷ rs, xs)

abbrev pub list_run : List PaceEntry → List QueueOp → List QueueResult × List PaceEntry
list_run xs [] = ([], xs)
list_run xs (o ∷ os) = let (r, xs') = list_op xs o in let (rs, ys) = list_run xs' os in (r ∷ rs, ys)

abbrev pub IsRing : PaceCtx → Type 0
IsRing c =
    (c.head < pace_queue_slots) × (c.count ≤ pace_queue_slots) × (pace_queue_slots ≤ length c.q)

-- The ring state refines the list state, with the same answer.
abbrev Refines : QueueResult × List PaceEntry → QueueResult × PaceCtx → Type 0
Refines (a, xs) (r, c) = IsRing c × (r ≡ a) × (pending c ≡ xs)

pub window_cases :
    (q : List PaceEntry) (h n : ℕ)
    → h < pace_queue_slots
    → ((n ≡ 0) × (window zero_entry pace_queue_slots q h n ≡ []))
      ⊎ ((0 < n)
          × (window zero_entry pace_queue_slots q h n
              ≡ get_or q h zero_entry
                ∷ window zero_entry pace_queue_slots q ((h + 1) % pace_queue_slots) (n - 1)))
window_cases q h zero hh = inl (refl, refl)
window_cases q h (suc n) hh =
    let e : n ≡ suc n - 1 = omega arith in
    inr (
      omega arith,
      window-pop zero_entry pace_queue_slots q h n hh
          ∙ ap
              (λ m.
                get_or q h zero_entry
                ∷ window zero_entry pace_queue_slots q ((h + 1) % pace_queue_slots) m)
              e,
    )

-- A slot past the last one is filled.
pub placed :
    (c : PaceCtx) (e : PaceEntry)
    → IsRing c
    → c.count < pace_queue_slots
    → ((c.head < pace_queue_slots)
        × (c.count + 1 ≤ pace_queue_slots)
        × (pace_queue_slots ≤ length (set c.q ((c.head + c.count) % pace_queue_slots) e)))
      × (window zero_entry pace_queue_slots
            (set c.q ((c.head + c.count) % pace_queue_slots) e)
            c.head
            (c.count + 1)
          ≡ pending c ++ e ∷ [])
placed c e (hh, hn, hc) room =
    let one : c.count + 1 ≡ suc c.count = omega arith in
    (
      (hh, omega arith, omega (arith, length-set c.q ((c.head + c.count) % pace_queue_slots) e)),
      ap
            (window zero_entry pace_queue_slots (set c.q ((c.head + c.count) % pace_queue_slots) e)
              c.head)
            one
          ∙ window-push zero_entry pace_queue_slots c.q c.head c.count e hh hc room,
    )

pub roomy :
    (c : PaceCtx) (tolen : ℤ) (len : ℕ)
    → is_refused c tolen len ≡ false
    → c.count < pace_queue_slots
unfolding is_refused
roomy c tolen len f = ground arith

enqueue-Refines :
    (c : PaceCtx) (sock : ℕ) (to : List ℕ) (tolen : ℤ) (bytes : List ℕ) (len due_ms : ℕ)
    → IsRing c
    → Refines
        (list_op (pending c) (enqueues sock to tolen bytes len due_ms))
        (queue_op c (enqueues sock to tolen bytes len due_ms))
unfolding pace_enqueue is_refused
enqueue-Refines c sock to tolen bytes len due_ms k =
    let e = queued_entry sock to tolen bytes len due_ms in
    let n = length-window zero_entry pace_queue_slots c.q c.head c.count in
    elim (Bool-cases (is_refused c tolen len)) [
      | inl f ↦ simp (n, f, is_refused) (k, refl, refl)
      | inr f ↦
          let (k', p) = placed c e k (roomy c tolen len f) in simp (n, f, is_refused) (k', refl, p)
    ]

pop_head-Refines :
    (c : PaceCtx)
    → IsRing c
    → 0 < c.count
    → Refines
        (
          popped (some (get_or c.q c.head zero_entry)),
          window zero_entry pace_queue_slots c.q ((c.head + 1) % pace_queue_slots) (c.count - 1),
        )
        (on_popped (pop_head c))
unfolding pop_head
pop_head-Refines c (hh, hn, hc) l = ((omega arith, omega arith, hc), refl, refl)

pop_any-Refines :
    (c : PaceCtx) → IsRing c → Refines (list_op (pending c) pops_any) (queue_op c pops_any)
unfolding pace_pop_any
pop_any-Refines c k = elim (window_cases c.q c.head c.count k.0) [
  | inl (e, w) ↦ simp e ((k.0, omega arith, k.2), refl, refl)
  | inr (l, w) ↦
      let f : (c.count == 0) ≡ false = ground arith in simp (f, w) (pop_head-Refines c k l)
]

pop_due-Refines :
    (c : PaceCtx) (now : ℕ)
    → IsRing c
    → Refines (list_op (pending c) (pops_due now)) (queue_op c (pops_due now))
unfolding pace_pop_due
pop_due-Refines c now k = elim (window_cases c.q c.head c.count k.0) [
  | inl (e, w) ↦ simp e ((k.0, omega arith, k.2), refl, refl)
  | inr (l, w) ↦
      let f : (c.count == 0) ≡ false = ground arith in
      elim (Bool-cases (ltb now (get_or c.q c.head zero_entry).due_ms)) [
        | inl d ↦ simp (f, w, d) (k, refl, refl)
        | inr d ↦ simp (f, w, d) (pop_head-Refines c k l)
      ]
]

closes-Refines :
    (c : PaceCtx) (sock : ℕ) (xs : List PaceEntry)
    → pending c ≡ xs
    → IsRing c
    → Refines (list_op xs (closes sock)) (queue_op c (closes sock))
unfolding pace_purge_socket
closes-Refines c sock [] e (hh, hn, hc) =
    let (p, l, b) = purge-without c sock hh hn hc in
    ((hh, b, l), refl, p ∙ ap (without (λ (e : PaceEntry). e.sock) sock) e)
closes-Refines c sock (x ∷ xs) e (hh, hn, hc) =
    let (p, l, b) = purge-without c sock hh hn hc in
    ((hh, b, l), refl, p ∙ ap (without (λ (e : PaceEntry). e.sock) sock) e)

op-Refines : (c : PaceCtx) (o : QueueOp) → IsRing c → Refines (list_op (pending c) o) (queue_op c o)
op-Refines c (enqueues sock to tolen bytes len due_ms) k =
    enqueue-Refines c sock to tolen bytes len due_ms k
op-Refines c (pops_due now) k = pop_due-Refines c now k
op-Refines c pops_any k = pop_any-Refines c k
op-Refines c (closes sock) (hh, hn, hc) = closes-Refines c sock (pending c) refl (hh, hn, hc)

-- The ring buffer of delayed datagrams is a first-in first-out queue. Whatever sequence of enqueues,
-- timed pops, forced pops and purges of a closed socket runs on a well-formed ring, every answer and
-- the datagrams left over are those of a list that appends at the end, removes at the front, refuses
-- at 256 entries, and filters on a purge.
pub queue_refines_list :
    (c : PaceCtx) (os : List QueueOp) → IsRing c → queue_run c os ≡ list_run (pending c) os
queue_refines_list c [] k = refl
queue_refines_list c (o ∷ os) k =
    let (k', r, p) = op-Refines c o k in
    let ih = queue_refines_list (queue_op c o).1 os k' in simp (r, ih, p)
