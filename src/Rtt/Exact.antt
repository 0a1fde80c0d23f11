-- ===== src/Rtt/Exact.antt =====
-- The sampler of one peer over any traffic: what a sample measures.
use battlezone_netcode_patch.Prelude.{
  ℕ, zero, suc, ◌+◌, ◌-◌, ◌%◌, ◌≤◌, ◌<◌, ◌≡◌, ◌≢◌, ◌∙◌, sym, ap, subst, refl, inl, inr, true, false,
  ◌&&◌, List, [], ◌∷◌, ◌++◌, All, All-get, get_or, set, length, length-set, arith, Bool-cases,
  Option-cases, ◌==◌,
}
use battlezone_netcode_patch.Prelude.Scan.{find_index?, find_index?-Found, Found}
use battlezone_netcode_patch.Prelude.Ring.{
  window, length-window, window-get, window-set, window-push, window-pop,
}
use battlezone_netcode_patch.Rtt.{RttSlot, RttPeer, RttStats, rtt_slots, zero_slot}
use battlezone_netcode_patch.Rtt.Peer.{outstanding, spoil, make_room, track, send_seq}
use battlezone_netcode_patch.Rtt.Karn.{
  Sent, LastSent, Tracked, Unique, others-Tracked, spoiled-Tracked, set-Unique, append-Unique,
  append-Tracked, missed-All,
}

abbrev pub IsTracking : List Sent → RttPeer → Type 0
IsTracking h p =
    (p.head < rtt_slots)
    × (p.used ≤ rtt_slots)
    × (rtt_slots ≤ length p.slots)
    × All (Tracked h) (outstanding p)
    × Unique (outstanding p)

set_same : (xs : List RttSlot) (k : ℕ) → set xs k (get_or xs k zero_slot) ≡ xs
set_same [] k = refl
set_same (x ∷ xs) zero = refl
set_same (x ∷ xs) (suc k) = ap (◌∷◌ x) (set_same xs k)

spoil-IsTracking :
    (h : List Sent) (st : RttStats) (p : RttPeer) (k seq now : ℕ)
    → IsTracking h p
    → k < p.used
    → (get_or (outstanding p) k zero_slot).seq ≡ seq
    → IsTracking (record { seq = seq; at = now } ∷ h) (spoil st p k).1
unfolding spoil
spoil-IsTracking h st p k seq now (a, b, c, t, q) l e =
    let i = (p.head + k) % rtt_slots in
    let s = get_or p.slots i zero_slot in
    let v : RttSlot = record s { ambiguous = true } in
    let here : get_or (outstanding p) k zero_slot ≡ s =
      window-get zero_slot rtt_slots p.slots p.head p.used k l in
    let long : k < length (outstanding p) =
      omega (arith, l, length-window zero_slot rtt_slots p.slots p.head p.used) in
    let known : Tracked h (get_or (outstanding p) k zero_slot) =
      All-get (Tracked h) (outstanding p) k zero_slot t long in
    let ring : window zero_slot rtt_slots (set p.slots i v) p.head p.used
        ≡ set (outstanding p) k v =
      window-set zero_slot rtt_slots p.slots p.head p.used k v a c b l in
    elim (Bool-cases s.ambiguous) [
      | inl f ↦
          let marked : (get_or (outstanding p) k zero_slot).ambiguous ≡ true =
            ap (λ (x : RttSlot). x.ambiguous) here ∙ f in
          simp f (
            a,
            b,
            c,
            subst (All (Tracked (record { seq = seq; at = now } ∷ h))) (set_same (outstanding p) k)
                (spoiled-Tracked h seq now (outstanding p) k (get_or (outstanding p) k zero_slot)
                  long e known.0 marked t q),
            q,
          )
      | inr f ↦ simp f (
        a,
        b,
        omega (arith, length-set p.slots i v, c),
        subst (All (Tracked (record { seq = seq; at = now } ∷ h))) (sym ring) (
            spoiled-Tracked h seq now (outstanding p) k v long e
              (ap (λ (x : RttSlot). x.used) (sym here) ∙ known.0) refl t q),
        subst Unique (sym ring)
            (set-Unique (outstanding p) k v (ap (λ (x : RttSlot). x.seq) (sym here)) q),
      )
    ]

-- Room for one more, and the sequence is in no slot.
abbrev HasRoom : List Sent → ℕ → RttPeer → Type 0
HasRoom h seq p =
    IsTracking h p × (p.used < rtt_slots) × All (λ (y : RttSlot). y.seq ≢ seq) (outstanding p)

make_room-HasRoom :
    (h : List Sent) (st : RttStats) (p : RttPeer) (seq : ℕ)
    → IsTracking h p
    → All (λ (y : RttSlot). y.seq ≢ seq) (outstanding p)
    → HasRoom h seq (make_room st p).1
unfolding make_room
make_room-HasRoom h st p seq (a, b, c, t, q) n = elim (Bool-cases (p.used == rtt_slots)) [
  | inr f ↦ simp f ((a, b, c, t, q), ground arith, n)
  | inl f ↦
      let full : p.used ≡ suc 511 = ground arith in
      let less : p.used - 1 ≡ 511 = omega (arith, full) in
      let tail = window zero_slot rtt_slots p.slots ((p.head + 1) % rtt_slots) 511 in
      let pop : outstanding p ≡ get_or p.slots p.head zero_slot ∷ tail =
        ap (window zero_slot rtt_slots p.slots p.head) full
        ∙ window-pop zero_slot rtt_slots p.slots p.head 511 a in
      let same : tail ≡ window zero_slot rtt_slots p.slots ((p.head + 1) % rtt_slots) (p.used - 1) =
        ap (window zero_slot rtt_slots p.slots ((p.head + 1) % rtt_slots)) (sym less) in
      let t' : All (Tracked h) (get_or p.slots p.head zero_slot ∷ tail) =
        subst (All (Tracked h)) pop t in
      let q' : Unique (get_or p.slots p.head zero_slot ∷ tail) = subst Unique pop q in
      let n' : All (λ (y : RttSlot). y.seq ≢ seq) (get_or p.slots p.head zero_slot ∷ tail) =
        subst (All (λ (y : RttSlot). y.seq ≢ seq)) pop n in
      simp f (
        (omega arith, omega arith, c, subst (All (Tracked h)) same t'.1, subst Unique same q'.1),
        omega (arith, full),
        subst (All (λ (y : RttSlot). y.seq ≢ seq)) same n'.1,
      )
]

track-IsTracking :
    (h : List Sent) (st : RttStats) (p : RttPeer) (seq now : ℕ)
    → HasRoom h seq p
    → IsTracking (record { seq = seq; at = now } ∷ h) (track (st, p) seq now).1
unfolding track
track-IsTracking h st p seq now ((a, b, c, t, q), l, n) =
    let v : RttSlot = record { seq = seq; sent_ms = now; used = true; ambiguous = false } in
    let i = (p.head + p.used) % rtt_slots in
    let one : p.used + 1 ≡ suc p.used = omega arith in
    let ring : window zero_slot rtt_slots (set p.slots i v) p.head (p.used + 1)
        ≡ outstanding p ++ v ∷ [] =
      ap (window zero_slot rtt_slots (set p.slots i v) p.head) one
      ∙ window-push zero_slot rtt_slots p.slots p.head p.used v a c l in
    let e : (seq == seq) ≡ true = ground arith in
    let last : LastSent (record { seq = seq; at = now } ∷ h) seq now = rw e refl in
    (
      a,
      omega arith,
      omega (arith, length-set p.slots i v, c),
      subst (All (Tracked (record { seq = seq; at = now } ∷ h))) (sym ring) (
          append-Tracked (record { seq = seq; at = now } ∷ h) (outstanding p) v
            (others-Tracked h seq now (outstanding p) n t) (refl, inr last)),
      subst Unique (sym ring) (append-Unique (outstanding p) v n q),
    )

pub send_seq-IsTracking :
    (h : List Sent) (st : RttStats) (p : RttPeer) (seq now : ℕ)
    → IsTracking h p
    → IsTracking (record { seq = seq; at = now } ∷ h) (send_seq st p seq now).1
unfolding send_seq
send_seq-IsTracking h st p seq now k =
    let test = λ (s : RttSlot). s.used && s.seq == seq in
    let found = find_index?-Found test zero_slot (outstanding p) in
    elim (Option-cases (find_index? test (outstanding p))) [
      | inl f ↦
          let miss = subst (Found test zero_slot 0 (outstanding p)) f found in
          let m = make_room st p in
          rw (f, send_seq)
            (track-IsTracking h m.0 m.1 seq now
              (make_room-HasRoom h st p seq k (missed-All h seq (outstanding p) k.3 miss)))
      | inr (j, f) ↦
          let hit = subst (Found test zero_slot 0 (outstanding p)) f found in
          let l : j < p.used =
            omega (arith, hit.1, length-window zero_slot rtt_slots p.slots p.head p.used) in
          rw (f, send_seq) (spoil-IsTracking h st p j seq now k l (ground (arith, hit.2)))
    ]
