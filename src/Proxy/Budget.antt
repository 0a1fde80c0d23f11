-- ===== src/Proxy/Budget.antt =====
-- The delayed duplicates: the ring stays in shape, and its counter within the budget.
use battlezone_netcode_patch.Prelude.{
  ℕ, ◌^◌, ◌≤◌, ◌<◌, ◌≡◌, ◌≢◌, inl, inr, false, not, ◌||◌, Option, none, some, List, [], ◌∷◌, get_or,
  length, length-set, arith, Bool-cases, ltb, leb, ◌==◌, sub64,
}
use battlezone_netcode_patch.Prelude.Int.{ℤ}
use battlezone_netcode_patch.Prelude.Compact.{compact-Leaves}
use battlezone_netcode_patch.Proxy.{Sockaddr}
use battlezone_netcode_patch.Proxy.Dup.{
  DupEntry, DupState, dup_queue_slots, zero_dup, dup_is_refused, roll_bucket, is_over_budget,
  dup_append, dup_enqueue, dup_purge_socket, dup_pop_due,
}

-- A send that is duplicated, a round of the thread, or the close of a socket.
pub data DupOp : Type 0 where
  enqueues : ℕ → Option (List ℕ) → ℕ → Option Sockaddr → ℤ → ℕ → DupOp
  pops : ℕ → DupOp
  closes : ℕ → DupOp

abbrev pub dup_op : DupState → DupOp → DupState
dup_op d (enqueues sock bytes len to tolen now) = dup_enqueue d sock bytes len to tolen now
dup_op d (pops now) = (dup_pop_due d now).1
dup_op d (closes sock) = dup_purge_socket d sock

abbrev pub dup_run : DupState → List DupOp → DupState
dup_run d [] = d
dup_run d (o ∷ os) = dup_run (dup_op d o) os

-- The ring is in shape, and the counter of the second at hand is within the limit.
pub record Budgeted (m : ℕ) (d : DupState) : Type 0 where
  pub head : d.q_head < dup_queue_slots
  pub count : d.q_count ≤ dup_queue_slots
  pub room : dup_queue_slots ≤ length d.q
  pub cap : d.max_pps ≡ m
  pub sent : d.bucket_sent ≤ m

module _ (m : ℕ) (limited : m ≢ 0) (small : m < 2 ^ 32) where
  roll-Budgeted : (d : DupState) (now : ℕ) → Budgeted m d → Budgeted m (roll_bucket d now)
  unfolding roll_bucket
  roll-Budgeted d now k = elim (Bool-cases (leb 1000 (sub64 now d.bucket_start_ms))) [
    | inl e ↦
        simp e (record {
          head = k.head;
          count = k.count;
          room = k.room;
          cap = k.cap;
          sent = omega arith;
        })
    | inr e ↦ simp e k
  ]

  append-Budgeted :
      (d : DupState) (sock : ℕ) (bytes : List ℕ) (len : ℕ) (to : List ℕ) (tolen : ℤ) (now : ℕ)
      → Budgeted m d
      → is_over_budget d ≡ false
      → Budgeted m (dup_append d sock bytes len to tolen now)
  unfolding dup_append is_over_budget
  append-Budgeted d sock bytes len to tolen now k e = record {
    head = k.head;
    count = ground (arith, k.cap);
    room = omega (arith, k.room, length-set {0} {A = DupEntry});
    cap = k.cap;
    sent = ground (arith, k.cap, k.sent);
  }

  enqueue-Budgeted :
      (d : DupState) (sock : ℕ) (bytes : Option (List ℕ)) (len : ℕ) (to : Option Sockaddr)
      (tolen : ℤ) (now : ℕ)
      → Budgeted m d
      → Budgeted m (dup_enqueue d sock bytes len to tolen now)
  unfolding dup_enqueue
  enqueue-Budgeted d sock none len to tolen now k = k
  enqueue-Budgeted d sock (some bytes) len none tolen now k = k
  enqueue-Budgeted d sock (some bytes) len (some to) tolen now k =
      let r = roll_bucket d now in
      let k' = roll-Budgeted d now k in
      elim (Bool-cases (dup_is_refused d len tolen)) [
        | inl e ↦ simp e k
        | inr e ↦ elim (Bool-cases (is_over_budget r)) [
          | inl f ↦ simp (e, f) k'
          | inr f ↦ simp (e, f) (append-Budgeted r sock bytes len to.bytes tolen now k' f)
        ]
      ]

  pop-Budgeted : (d : DupState) (now : ℕ) → Budgeted m d → Budgeted m (dup_pop_due d now).1
  unfolding dup_pop_due
  pop-Budgeted d now k =
      elim (Bool-cases (d.q_count == 0 || ltb now (get_or d.q d.q_head zero_dup).due_ms)) [
        | inl e ↦ simp e k
        | inr e ↦ simp e (record {
          head = omega arith;
          count = omega (arith, k.count);
          room = k.room;
          cap = k.cap;
          sent = k.sent;
        })
      ]

  purge-Budgeted : (d : DupState) (sock : ℕ) → Budgeted m d → Budgeted m (dup_purge_socket d sock)
  unfolding dup_purge_socket
  purge-Budgeted d sock k =
      let (e, l, b) =
        compact-Leaves zero_dup dup_queue_slots (λ (e : DupEntry). e.sock) sock d.q_head d.q_count 0
          0 d.q k.head k.room (omega arith) (omega (arith, k.count)) in
      elim (Bool-cases (not d.ready)) [
        | inl f ↦ simp f k
        | inr f ↦ simp f (record {
          head = k.head;
          count = omega (arith, b, k.count);
          room = l;
          cap = k.cap;
          sent = k.sent;
        })
      ]

pub op-Budgeted :
    (m : ℕ) (d : DupState) (o : DupOp) → m ≢ 0 → m < 2 ^ 32 → Budgeted m d → Budgeted m (dup_op d o)
op-Budgeted m d (enqueues sock bytes len to tolen now) z l k =
    enqueue-Budgeted m z l d sock bytes len to tolen now k
op-Budgeted m d (pops now) z l k = pop-Budgeted m z l d now k
op-Budgeted m d (closes sock) z l k = purge-Budgeted m z l d sock k

pub run-Budgeted :
    (m : ℕ) (d : DupState) (os : List DupOp)
    → m ≢ 0
    → m < 2 ^ 32
    → Budgeted m d
    → Budgeted m (dup_run d os)
run-Budgeted m d [] z l k = k
run-Budgeted m d (o ∷ os) z l k = run-Budgeted m (dup_op d o) os z l (op-Budgeted m d o z l k)
