-- ===== src/Proxy/Kept.antt =====
-- What the log ring keeps: the last records, in the order of the events.
use mathlib.Core.List.{append_assoc, append-nil}
use native.Mathlib.Nat.{mod-eq_of_lt}
use battlezone_netcode_patch.Prelude.{
  ℕ, suc, ◌+◌, ◌-◌, ◌%◌, ◌≤◌, ◌<◌, ◌≡◌, ◌∙◌, ap, sym, refl, inl, inr, true, false, ◌&&◌, List, [],
  ◌∷◌, ◌++◌, set, drop, length, length-append, length-set, arith, Bool-cases, ltb, if◌then◌else◌,
}
use battlezone_netcode_patch.Prelude.Int.{pos, ltb_ℤ, pos_part}
use battlezone_netcode_patch.Prelude.Slices.{drop-append, drop-drop, length-drop}
use battlezone_netcode_patch.Prelude.Ring.{
  mod_once, window, length-window, window-push, window-pop, window_overwrite,
}
use battlezone_netcode_patch.Proxy.EventLog.{
  get_socket_id, is_recorded, buffer_log_event, EventLog, LogEvent, Tracks, BufferLogRecord,
  zero_record, record_of, put_record, start_of, flush_records,
}

-- The ring is allocated and in shape.
pub record IsLog (l : EventLog) : Type 0 where
  pub on : (l.enabled && l.allocated) ≡ true
  pub head : l.head < l.ring_records
  pub count : l.count ≤ l.ring_records
  pub room : l.ring_records ≤ length l.ring

-- The last `cap` of a list.
abbrev pub last_of : ℕ → List BufferLogRecord → List BufferLogRecord
last_of cap xs = drop (length xs - cap) xs

put-IsLog : (l : EventLog) (r : BufferLogRecord) → IsLog l → IsLog (put_record l r)
unfolding put_record
put-IsLog l r k = record {
  on = k.on;
  head = omega (arith, k.head);
  count = ground (arith, k.count);
  room = omega (arith, k.room, length-set l.ring l.head r);
}

next_start :
    (h n cap : ℕ) → h < cap → n < cap → ((h + 1) % cap + cap - (n + 1)) % cap ≡ (h + cap - n) % cap
next_start h n cap hh hn = elim (Bool-cases (ltb (h + 1) cap)) [
  | inl e ↦
      let m : (h + 1) % cap ≡ h + 1 = ground (arith, mod_once (h + 1) cap (omega arith)) in
      ap (λ k. k % cap) (omega arith)
  | inr e ↦
      let m : (h + 1) % cap ≡ 0 = ground (arith, mod_once (h + 1) cap (omega arith)) in
      let f : (h + 1) % cap + cap - (n + 1) ≡ cap - (n + 1) = omega arith in
      let x : (cap - (n + 1)) % cap ≡ cap - (n + 1) = mod-eq_of_lt (omega arith) in
      let y = mod_once (h + cap - n) cap (omega arith) in ap (λ k. k % cap) f ∙ x ∙ ground arith
]

behind_newest : (h n cap : ℕ) → h < cap → n ≤ cap → ((h + cap - n) % cap + n) % cap ≡ h
behind_newest h n cap hh hn = elim (Bool-cases (ltb h n)) [
  | inl e ↦
      let p : (h + cap - n) % cap ≡ h + cap - n = mod-eq_of_lt (ground arith) in
      let q : (h + cap - n) % cap + n ≡ h + cap = ground arith in
      ap (λ k. k % cap) q ∙ mod_once (h + cap) cap (omega arith) ∙ ground arith
  | inr e ↦
      let p : (h + cap - n) % cap ≡ h - n =
        mod_once (h + cap - n) cap (ground arith) ∙ ground arith in
      let q : (h + cap - n) % cap + n ≡ h = ground arith in ap (λ k. k % cap) q ∙ mod-eq_of_lt hh
]

-- A record in a ring with room.
push-flush :
    (l : EventLog) (r : BufferLogRecord)
    → IsLog l
    → l.count < l.ring_records
    → flush_records (put_record l r) ≡ flush_records l ++ r ∷ []
unfolding put_record flush_records
push-flush l r k room =
    let cap = l.ring_records in
    let s = start_of l in
    let one : l.count + 1 ≡ suc l.count = omega arith in
    let more : ltb l.count cap ≡ true = ground arith in
    let e = next_start l.head l.count cap k.head room in
    let at = behind_newest l.head l.count cap k.head k.count in
    let in_ring : s < cap = omega (arith, k.head) in
    let pushed = window-push zero_record cap l.ring s l.count r in_ring k.room room in
    simp (k.on, more)
      (ap (λ t. window zero_record cap (set l.ring l.head r) t (l.count + 1)) e
        ∙ ap (window zero_record cap (set l.ring l.head r) s) one
        ∙ ap (λ i. window zero_record cap (set l.ring i r) s (suc l.count)) (sym at)
        ∙ pushed)

-- A record in a full ring replaces the oldest.
overwrite-flush :
    (l : EventLog) (r : BufferLogRecord)
    → IsLog l
    → l.count ≡ l.ring_records
    → flush_records (put_record l r) ≡ drop 1 (flush_records l ++ r ∷ [])
unfolding put_record flush_records
overwrite-flush l r k full =
    let cap = l.ring_records in
    let h = l.head in
    let n = cap - 1 in
    let next = (h + 1) % cap in
    let more : ltb l.count cap ≡ false = ground arith in
    let whole : suc n ≡ cap = omega (arith, k.head) in
    let count : l.count ≡ suc n = omega (arith, k.head) in
    let after : (next + cap - l.count) % cap ≡ next =
      ap (λ m. m % cap) (omega arith) ∙ mod-eq_of_lt (omega (arith, k.head)) in
    let before : start_of l ≡ h = ap (λ m. m % cap) (omega arith) ∙ mod-eq_of_lt k.head in
    simp (k.on, more)
      (ap (λ t. window zero_record cap (set l.ring h r) t l.count) after
        ∙ ap (window zero_record cap (set l.ring h r) next) full
        ∙ window_overwrite zero_record cap l.ring h n r k.head k.room whole
        ∙ sym (
            ap (λ t. drop 1 (window zero_record cap l.ring t l.count ++ r ∷ [])) before
            ∙ ap (λ m. drop 1 (window zero_record cap l.ring h m ++ r ∷ [])) count
            ∙ ap (λ xs. drop 1 (xs ++ r ∷ [])) (window-pop zero_record cap l.ring h n k.head)))

length-flush : (l : EventLog) → IsLog l → length (flush_records l) ≡ l.count
unfolding flush_records
length-flush l k =
    simp (k.on) (length-window zero_record l.ring_records l.ring (start_of l) l.count)

-- A record goes to the end, and the oldest leaves if there are too many.
put-flush :
    (l : EventLog) (r : BufferLogRecord)
    → IsLog l
    → flush_records (put_record l r) ≡ last_of l.ring_records (flush_records l ++ r ∷ [])
put-flush l r k =
    let xs = flush_records l in
    let n = length-flush l k in
    let m = length-append xs (r ∷ []) in
    elim (Bool-cases (ltb l.count l.ring_records)) [
      | inl e ↦
          let z : length (xs ++ r ∷ []) - l.ring_records ≡ 0 = ground (arith, m, n) in
          push-flush l r k (ground arith) ∙ ap (λ j. drop j (xs ++ r ∷ [])) (sym z)
      | inr e ↦
          let z : length (xs ++ r ∷ []) - l.ring_records ≡ 1 = ground (arith, m, n, k.count) in
          overwrite-flush l r k (ground (arith, k.count)) ∙ ap (λ j. drop j (xs ++ r ∷ [])) (sym z)
    ]

-- To cut before more is added changes nothing at the end.
last_of-last_of :
    (cap : ℕ) (xs ys : List BufferLogRecord)
    → last_of cap (last_of cap xs ++ ys) ≡ last_of cap (xs ++ ys)
last_of-last_of cap xs ys =
    let n = length xs - cap in
    let zs = xs ++ ys in
    let cut : drop n xs ++ ys ≡ drop n zs = sym (drop-append n xs ys (omega arith)) in
    let longer = length-append xs ys in
    let k : n + (length (drop n zs) - cap) ≡ length zs - cap =
      omega (arith, length-drop n zs, longer) in
    ap (last_of cap) cut ∙ drop-drop (length (drop n zs) - cap) n zs ∙ ap (λ j. drop j zs) k

all_short : (xs : List BufferLogRecord) (cap : ℕ) → length xs ≤ cap → last_of cap xs ≡ xs
all_short xs cap h = let z : length xs - cap ≡ 0 = omega arith in ap (λ j. drop j xs) z

-- The record that an event leaves, if it is recorded.
abbrev pub recorded_by : EventLog × Tracks → LogEvent → ℕ → List BufferLogRecord
recorded_by (l, t) e now =
    let id = (get_socket_id t e.sock true).0 in
    if is_recorded l e
    then record_of l e (if ltb_ℤ id (pos 0) then 0 else pos_part id) now ∷ []
    else []

-- Events with the clock, one after the other: the log, and the records of all of them.
abbrev pub log_run : EventLog × Tracks → List (LogEvent × ℕ) → EventLog × Tracks
log_run s [] = s
log_run s ((e, now) ∷ es) = log_run (buffer_log_event s e now) es

abbrev pub recorded : EventLog × Tracks → List (LogEvent × ℕ) → List BufferLogRecord
recorded s [] = []
recorded s ((e, now) ∷ es) = recorded_by s e now ++ recorded (buffer_log_event s e now) es

-- The last records of a log and of some more are in the log `l'` of the same size.
abbrev Logs : EventLog → List BufferLogRecord → EventLog → Type 0
Logs l more l' =
    (flush_records l' ≡ last_of l.ring_records (flush_records l ++ more))
    × IsLog l'
    × (l'.ring_records ≡ l.ring_records)

nothing-Logs : (l : EventLog) → IsLog l → Logs l [] l
nothing-Logs l k = (
  sym (
      ap (last_of l.ring_records) (append-nil (flush_records l))
      ∙ all_short (flush_records l) l.ring_records (omega (arith, length-flush l k, k.count))),
  k,
  refl,
)

same_size : (l : EventLog) (r : BufferLogRecord) → (put_record l r).ring_records ≡ l.ring_records
unfolding put_record
same_size l r = refl

event-Logs :
    (l : EventLog) (t : Tracks) (e : LogEvent) (now : ℕ)
    → IsLog l
    → Logs l (recorded_by (l, t) e now) (buffer_log_event (l, t) e now).0
unfolding buffer_log_event
event-Logs l t e now k =
    let id = (get_socket_id t e.sock true).0 in
    let r = record_of l e (if ltb_ℤ id (pos 0) then 0 else pos_part id) now in
    elim (Bool-cases (is_recorded l e)) [
      | inl f ↦ simp f (put-flush l r k, put-IsLog l r k, same_size l r)
      | inr f ↦ simp f (nothing-Logs l k)
    ]

-- The log keeps the last events. After any sequence of events, a flush writes the last
-- `ring_records` of the records that were in the ring before and of those of the new events that
-- pass the filter, in the order in which they came.
pub log_keeps_last :
    (l : EventLog) (t : Tracks) (es : List (LogEvent × ℕ))
    → IsLog l
    → flush_records (log_run (l, t) es).0
      ≡ last_of l.ring_records (flush_records l ++ recorded (l, t) es)
log_keeps_last l t [] k = (nothing-Logs l k).0
log_keeps_last l t ((e, now) ∷ es) k =
    let cap = l.ring_records in
    let (l', t') = buffer_log_event (l, t) e now in
    let more = recorded (l', t') es in
    let mine = recorded_by (l, t) e now in
    let (p, k', size) = event-Logs l t e now k in
    log_keeps_last l' t' es k'
    ∙ ap (λ c. last_of c (flush_records l' ++ more)) size
    ∙ ap (λ xs. last_of cap (xs ++ more)) p
    ∙ last_of-last_of cap (flush_records l ++ mine) more
    ∙ ap (last_of cap) (append_assoc (flush_records l) mine more)
