-- ===== src/Rtt/Karn.antt =====
-- Karn's rule: a sample is the time since the only copy of the acknowledged sequence that is
-- outstanding. Here the ring of one peer against the history of what was sent to it.
use battlezone_netcode_patch.Prelude.{
  ℕ, zero, suc, ◌<◌, ◌≡◌, ◌≢◌, sym, subst, ◌⊎◌, inl, inr, true, false, ◌&&◌, List, [], ◌∷◌, ◌++◌,
  All, All-get, drop, get_or, set, length, arith, ◌==◌, if◌then◌else◌,
}
use battlezone_netcode_patch.Rtt.{RttSlot, zero_slot}

-- A reliable datagram that went out to the peer.
pub record Sent : Type 0 where
  pub seq : ℕ
  pub at : ℕ

-- The newest copy of the sequence went out at `t`; the history has the newest first.
abbrev pub LastSent : List Sent → ℕ → ℕ → Type 0
LastSent [] seq t = ⊥
LastSent (x ∷ h) seq t = if x.seq == seq then (x.at ≡ t) else LastSent h seq t

abbrev pub Tracked : List Sent → RttSlot → Type 0
Tracked h s = (s.used ≡ true) × ((s.ambiguous ≡ true) ⊎ LastSent h s.seq s.sent_ms)

-- The sequences differ from each other.
abbrev pub Unique : List RttSlot → Type 0
Unique [] = Unit {0}
Unique (x ∷ xs) = All (λ (y : RttSlot). y.seq ≢ x.seq) xs × Unique xs

-- A slot of another sequence stays as it is when `seq` goes out.
other-Tracked :
    (h : List Sent) (seq now : ℕ) (s : RttSlot)
    → s.seq ≢ seq
    → Tracked h s
    → Tracked (record { seq = seq; at = now } ∷ h) s
other-Tracked h seq now s ne (u, inl a) = (u, inl a)
other-Tracked h seq now s ne (u, inr l) =
    let e : (seq == s.seq) ≡ false = ground arith in (u, inr (rw e l))

pub others-Tracked :
    (h : List Sent) (seq now : ℕ) (xs : List RttSlot)
    → All (λ (y : RttSlot). y.seq ≢ seq) xs
    → All (Tracked h) xs
    → All (Tracked (record { seq = seq; at = now } ∷ h)) xs
others-Tracked h seq now [] ne t = tt
others-Tracked h seq now (x ∷ xs) (n, ne) (a, t) =
    (other-Tracked h seq now x n a, others-Tracked h seq now xs ne t)

-- A second copy of the sequence of entry `k` goes out, and the entry is marked.
pub spoiled-Tracked :
    (h : List Sent) (seq now : ℕ) (xs : List RttSlot) (k : ℕ) (v : RttSlot)
    → k < length xs
    → (get_or xs k zero_slot).seq ≡ seq
    → v.used ≡ true
    → v.ambiguous ≡ true
    → All (Tracked h) xs
    → Unique xs
    → All (Tracked (record { seq = seq; at = now } ∷ h)) (set xs k v)
spoiled-Tracked h seq now [] k v l e u a t q = elim l [ ]
spoiled-Tracked h seq now (x ∷ xs) zero v l e u a t q = (
  (u, inl a),
  others-Tracked h seq now xs (subst (λ m. All (λ (y : RttSlot). y.seq ≢ m) xs) e q.0) t.1,
)
spoiled-Tracked h seq now (x ∷ xs) (suc k) v l e u a t q =
    let differs : (get_or xs k zero_slot).seq ≢ x.seq =
      All-get (λ (y : RttSlot). y.seq ≢ x.seq) xs k zero_slot q.0 (omega arith) in
    (
      other-Tracked h seq now x (ground arith) t.0,
      spoiled-Tracked h seq now xs k v (omega arith) e u a t.1 q.1,
    )

set-All_seq :
    (m : ℕ) (xs : List RttSlot) (k : ℕ) (v : RttSlot)
    → v.seq ≡ (get_or xs k zero_slot).seq
    → All (λ (y : RttSlot). y.seq ≢ m) xs
    → All (λ (y : RttSlot). y.seq ≢ m) (set xs k v)
set-All_seq m [] k v e a = tt
set-All_seq m (x ∷ xs) zero v e a = ((rw e a.0), a.1)
set-All_seq m (x ∷ xs) (suc k) v e a = (a.0, set-All_seq m xs k v e a.1)

pub set-Unique :
    (xs : List RttSlot) (k : ℕ) (v : RttSlot)
    → v.seq ≡ (get_or xs k zero_slot).seq
    → Unique xs
    → Unique (set xs k v)
set-Unique [] k v e q = tt
set-Unique (x ∷ xs) zero v e q = (subst (λ m. All (λ (y : RttSlot). y.seq ≢ m) xs) (sym e) q.0, q.1)
set-Unique (x ∷ xs) (suc k) v e q = (set-All_seq x.seq xs k v e q.0, set-Unique xs k v e q.1)

append_one_seq :
    (m : ℕ) (xs : List RttSlot) (v : RttSlot)
    → v.seq ≢ m
    → All (λ (y : RttSlot). y.seq ≢ m) xs
    → All (λ (y : RttSlot). y.seq ≢ m) (xs ++ v ∷ [])
append_one_seq m [] v n a = (n, tt)
append_one_seq m (x ∷ xs) v n a = (a.0, append_one_seq m xs v n a.1)

pub append-Unique :
    (xs : List RttSlot) (v : RttSlot)
    → All (λ (y : RttSlot). y.seq ≢ v.seq) xs
    → Unique xs
    → Unique (xs ++ v ∷ [])
append-Unique [] v a q = (tt, tt)
append-Unique (x ∷ xs) v a q =
    (append_one_seq x.seq xs v (λ e. a.0 (sym e)) q.0, append-Unique xs v a.1 q.1)

pub append-Tracked :
    (h : List Sent) (xs : List RttSlot) (v : RttSlot)
    → All (Tracked h) xs
    → Tracked h v
    → All (Tracked h) (xs ++ v ∷ [])
append-Tracked h [] v a t = (t, tt)
append-Tracked h (x ∷ xs) v a t = (a.0, append-Tracked h xs v a.1 t)

pub drop-Tracked :
    (h : List Sent) (n : ℕ) (xs : List RttSlot)
    → All (Tracked h) xs × Unique xs
    → All (Tracked h) (drop n xs) × Unique (drop n xs)
drop-Tracked h zero xs a = a
drop-Tracked h (suc n) [] a = (tt, tt)
drop-Tracked h (suc n) (x ∷ xs) (a, q) = drop-Tracked h n xs (a.1, q.1)

missed_here :
    (seq : ℕ) (x : RttSlot) → x.used ≡ true → (x.used && x.seq == seq) ≡ false → x.seq ≢ seq
missed_here seq x u e = ground arith

-- A sequence that the search over used slots misses is in none of them.
pub missed-All :
    (h : List Sent) (seq : ℕ) (xs : List RttSlot)
    → All (Tracked h) xs
    → ((k : ℕ)
        → k < length xs
        → ((get_or xs k zero_slot).used && (get_or xs k zero_slot).seq == seq) ≡ false)
    → All (λ (y : RttSlot). y.seq ≢ seq) xs
missed-All h seq [] t m = tt
missed-All h seq (x ∷ xs) (t, ts) m =
    let here : (x.used && x.seq == seq) ≡ false = m 0 (omega arith) in
    (missed_here seq x t.0 here, missed-All h seq xs ts (λ k l. m (suc k) (omega arith)))
