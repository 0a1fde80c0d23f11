-- ===== src/Proxy/Seconds.antt =====
-- How many duplicates are queued: no more than the budget of the seconds that have begun.
use battlezone_netcode_patch.Prelude.{
  ℕ, zero, suc, ◌+◌, ◌-◌, ◌*◌, ◌^◌, ◌≤◌, ◌<◌, ◌≡◌, ◌≢◌, ◌⊎◌, ◌∙◌, refl, inl, inr, false, not, ◌||◌,
  Option, none, some, List, [], ◌∷◌, get_or, arith, Bool-cases, ltb, leb, ◌==◌, sub64,
}
use battlezone_netcode_patch.Prelude.Int.{ℤ}
use battlezone_netcode_patch.Proxy.{Sockaddr}
use battlezone_netcode_patch.Proxy.Dup.{
  DupState, zero_dup, dup_is_refused, roll_bucket, is_over_budget, dup_append, dup_enqueue,
  dup_purge_socket, dup_pop_due,
}
use battlezone_netcode_patch.Proxy.Budget.{
  DupOp, enqueues, pops, closes, dup_op, dup_run, Budgeted, op-Budgeted, run-Budgeted,
}

-- The duplicates that the operations add to the ring.
abbrev pub queued_by : DupState → DupOp → ℕ
queued_by d (enqueues sock bytes len to tolen now) =
    (dup_enqueue d sock bytes len to tolen now).q_count - d.q_count
queued_by d (pops now) = 0
queued_by d (closes sock) = 0

abbrev pub queued : DupState → List DupOp → ℕ
queued d [] = 0
queued d (o ∷ os) = queued_by d o + queued (dup_op d o) os

-- The clock of the sends does not go back, from `t` on, and stays below `end`.
abbrev pub Clocked : ℕ → ℕ → List DupOp → Type 0
Clocked t end [] = Unit
Clocked t end (enqueues sock bytes len to tolen now ∷ os) =
    (t ≤ now) × (now < end) × Clocked now end os
Clocked t end (pops now ∷ os) = Clocked t end os
Clocked t end (closes sock ∷ os) = Clocked t end os

-- A send at `now` that queues `n` duplicates: in the second at hand, or the first of a new one.
abbrev Counts : DupState → ℕ → ℕ → DupState → Type 0
Counts d now n d' =
    ((d'.bucket_start_ms ≡ d.bucket_start_ms) × (n + d.bucket_sent ≡ d'.bucket_sent))
    ⊎ ((d'.bucket_start_ms ≡ now) × (d.bucket_start_ms + 1000 ≤ now) × (n ≡ d'.bucket_sent))

module _ (m : ℕ) (limited : m ≢ 0) (small : m < 2 ^ 32) where
  roll-Counts :
      (d : DupState) (now : ℕ)
      → d.bucket_start_ms ≤ now
      → now < 2 ^ 64
      → Counts d now 0 (roll_bucket d now)
        × ((roll_bucket d now).q_count ≡ d.q_count)
        × ((roll_bucket d now).max_pps ≡ d.max_pps)
  unfolding roll_bucket
  roll-Counts d now l b = elim (Bool-cases (leb 1000 (sub64 now d.bucket_start_ms))) [
    | inl e ↦ simp e (inr (refl, ground (arith, e), refl), refl, refl)
    | inr e ↦ simp e (inl (refl, omega arith), refl, refl)
  ]

  append-Counts :
      (d r : DupState) (sock : ℕ) (bytes : List ℕ) (len : ℕ) (to : List ℕ) (tolen : ℤ) (now : ℕ)
      → r.max_pps ≡ m
      → r.q_count ≡ d.q_count
      → is_over_budget r ≡ false
      → Counts d now 0 r
      → let d' = dup_append r sock bytes len to tolen now in
        Counts d now (d'.q_count - d.q_count) d'
  unfolding dup_append is_over_budget
  append-Counts d r sock bytes len to tolen now limit count e (inl (s, k)) =
      inl (s, ground (arith, limit, count, k))
  append-Counts d r sock bytes len to tolen now limit count e (inr (s, l, k)) =
      inr (s, l, ground (arith, limit, count, k))

  same-Counts :
      (d r : DupState) (now : ℕ)
      → r.q_count ≡ d.q_count
      → Counts d now 0 r
      → Counts d now (r.q_count - d.q_count) r
  same-Counts d r now e k = let z : r.q_count - d.q_count ≡ 0 = omega (arith, e) in rw z k

  none-Counts : (d : DupState) (now : ℕ) → Counts d now (d.q_count - d.q_count) d
  none-Counts d now = inl (refl, omega arith)

  enqueue-Counts :
      (d : DupState) (sock : ℕ) (bytes : Option (List ℕ)) (len : ℕ) (to : Option Sockaddr)
      (tolen : ℤ) (now : ℕ)
      → d.max_pps ≡ m
      → d.bucket_start_ms ≤ now
      → now < 2 ^ 64
      → let d' = dup_enqueue d sock bytes len to tolen now in
        Counts d now (d'.q_count - d.q_count) d'
  unfolding dup_enqueue
  enqueue-Counts d sock none len to tolen now limit l b = none-Counts d now
  enqueue-Counts d sock (some bytes) len none tolen now limit l b = none-Counts d now
  enqueue-Counts d sock (some bytes) len (some to) tolen now limit l b =
      let r = roll_bucket d now in
      let (k, count, same) = roll-Counts d now l b in
      elim (Bool-cases (dup_is_refused d len tolen)) [
        | inl e ↦ simp e (none-Counts d now)
        | inr e ↦ elim (Bool-cases (is_over_budget r)) [
          | inl f ↦ simp (e, f) (same-Counts d r now count k)
          | inr f ↦
              simp (e, f)
                (append-Counts d r sock bytes len to.bytes tolen now (same ∙ limit) count f k)
        ]
      ]

  -- The operations that send nothing leave the counter alone.
  pop_bucket :
      (d : DupState) (now : ℕ)
      → let d' = (dup_pop_due d now).1 in
        (d'.bucket_start_ms ≡ d.bucket_start_ms) × (d'.bucket_sent ≡ d.bucket_sent)
  unfolding dup_pop_due
  pop_bucket d now =
      elim (Bool-cases (d.q_count == 0 || ltb now (get_or d.q d.q_head zero_dup).due_ms)) [
        | inl e ↦ simp e (refl, refl)
        | inr e ↦ simp e (refl, refl)
      ]

  purge_bucket :
      (d : DupState) (sock : ℕ)
      → let d' = dup_purge_socket d sock in
        (d'.bucket_start_ms ≡ d.bucket_start_ms) × (d'.bucket_sent ≡ d.bucket_sent)
  unfolding dup_purge_socket
  purge_bucket d sock = elim (Bool-cases (not d.ready)) [
    | inl e ↦ simp e (refl, refl)
    | inr e ↦ simp e (refl, refl)
  ]

  one_more : (a n : ℕ) → 0 < n → a * n ≡ a * (n - 1) + a
  one_more a zero l = absurd (omega (arith, l))
  one_more a (suc n) l = let z : suc n - 1 ≡ n = omega arith in rw z (omega arith)

  -- Up to `n + 1` seconds after the start of the one at hand.
  queued_within :
      (n : ℕ) (d : DupState) (os : List DupOp) (t end : ℕ)
      → Budgeted m d
      → d.bucket_start_ms ≤ t
      → Clocked t end os
      → end ≤ d.bucket_start_ms + 1000 * (n + 1)
      → end < 2 ^ 64
      → queued d os + d.bucket_sent ≤ m * n + m
  queued_within n d [] t end k l c e b = omega (arith, k.sent)
  queued_within n d (pops now ∷ os) t end k l c e b =
      let (s, w) = pop_bucket d now in
      let r =
        queued_within n (dup_pop_due d now).1 os t end (op-Budgeted m d (pops now) limited small k)
          (omega (arith, s, l)) c (omega (arith, s, e)) b in
      omega (arith, r, w)
  queued_within n d (closes sock ∷ os) t end k l c e b =
      let (s, w) = purge_bucket d sock in
      let r =
        queued_within n (dup_purge_socket d sock) os t end
          (op-Budgeted m d (closes sock) limited small k) (omega (arith, s, l)) c
          (omega (arith, s, e)) b in
      omega (arith, r, w)
  queued_within n d (enqueues sock bytes len to tolen now ∷ os) t end k l (later, before, c) e b =
      let d' = dup_enqueue d sock bytes len to tolen now in
      let k' = op-Budgeted m d (enqueues sock bytes len to tolen now) limited small k in
      elim (enqueue-Counts d sock bytes len to tolen now k.cap (omega (arith, l, later))
        (omega (arith, before, b))) [
          | inl (s, w) ↦
              let r =
                queued_within n d' os now end k' (omega (arith, s, l, later)) c
                  (omega (arith, s, e)) b in
              omega (arith, r, w)
          | inr (s, far, w) ↦
              let r =
                queued_within (n - 1) d' os now end k' (omega (arith, s)) c
                  (omega (arith, s, far, before, e)) b in
              omega (arith, r, w, k.sent, one_more m n (omega (arith, far, before, e)))
        ]

-- The duplicates stay within their budget. Take a ring in shape with a limit of `m` a second, and a
-- clock that does not go back. Whatever is sent, popped or closed, at most `m` duplicates for each
-- second are queued up to any number `n` of seconds after the start of the second at hand, those that
-- this second has had before included; and the ring stays in shape, with at most 128 entries.
pub duplicates-Budgeted :
    (m n : ℕ) (d : DupState) (os : List DupOp)
    → m ≢ 0
    → m < 2 ^ 32
    → Budgeted m d
    → n ≢ 0
    → d.bucket_start_ms + 1000 * n < 2 ^ 64
    → Clocked d.bucket_start_ms (d.bucket_start_ms + 1000 * n) os
    → (queued d os + d.bucket_sent ≤ m * n) × Budgeted m (dup_run d os)
duplicates-Budgeted m n d os limited small k some_n b c =
    let z : n - 1 + 1 ≡ n = omega (arith, some_n) in
    let r =
      queued_within m limited small (n - 1) d os d.bucket_start_ms (d.bucket_start_ms + 1000 * n) k
        (omega arith) c (omega (arith, z)) b in
    (
      omega (arith, r, one_more m limited small m n (omega (arith, some_n))),
      run-Budgeted m d os limited small k,
    )
