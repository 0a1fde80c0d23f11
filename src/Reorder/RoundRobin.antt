-- ===== src/Reorder/RoundRobin.antt =====
-- The scan over the peers: what it returns can be delivered, and no ready peer starves.
use native.Mathlib.Nat.{mod-eq_of_lt, mod-eq-sub-mod}
use battlezone_netcode_patch.Prelude.{
  ℕ, zero, suc, ◌+◌, ◌-◌, ◌%◌, ◌^◌, ◌≤◌, ◌<◌, ◌≡◌, ◌≢◌, ◌∙◌, sym, refl, subst, ◌⊎◌, inl, inr,
  Option, none, some, arith, Bool-cases, ltb, ◌==◌, if◌then◌else◌, add32,
}
use battlezone_netcode_patch.Prelude.Ring.{mod_once}
use battlezone_netcode_patch.Reorder.{DeliverKind, ReorderCtx}
use battlezone_netcode_patch.Reorder.Peers.{peer_at}
use battlezone_netcode_patch.Reorder.Pick.{reorder_pick, Ready, ready_loop, reorder_next_ready}

-- Where the scan looks in round `n`.
abbrev at_round : ReorderCtx → ℕ → ℕ
at_round c n = add32 c.rr n % c.peers

-- Has the live peer `i` a packet to deliver?
abbrev pub IsReady : ReorderCtx → ℕ → ℕ → Type 0
IsReady c now i =
    ((peer_at c i).key ≢ 0) × (s : ℕ) × ((reorder_pick c (peer_at c i) now).1 ≡ some s)

-- How many entries the rotation passes before it comes to entry `i`.
abbrev pub distance : ReorderCtx → ℕ → ℕ
distance c i = if ltb i c.rr then i + c.peers - c.rr else i - c.rr

some_not_none :
    (c : ReorderCtx) (now : ℕ) {n m : ℕ}
    → IsReady c now (at_round c m)
    → n ≡ m
    → (reorder_pick c (peer_at c (at_round c n)) now).1 ≡ none
    → ⊥
some_not_none c now r q e =
    cc (subst (λ k. (reorder_pick c (peer_at c (at_round c k)) now).1 ≡ none) q e, r.2)

module _ (c : ReorderCtx) (now : ℕ) where
  abbrev Served : ℕ → ℕ → Option Ready → Type 0
  Served n m none = ⊥
  Served n m (some r) =
      (k : ℕ) × (n ≤ k)
      × (k ≤ m)
      × (r.peer ≡ at_round c k)
      × ((peer_at c r.peer).key ≢ 0)
      × (reorder_pick c (peer_at c r.peer) now ≡ (r.kind, some r.slot))

  here_Served :
      (n m : ℕ) (p : DeliverKind × Option ℕ) (rest : Option Ready)
      → n ≤ m
      → (peer_at c (at_round c n)).key ≢ 0
      → reorder_pick c (peer_at c (at_round c n)) now ≡ p
      → (p.1 ≡ none → Served n m rest)
      → Served n m (elim p.1 [
        | some j ↦ some (record { peer = at_round c n; slot = j; kind = p.0 })
        | none ↦ rest
      ])
  here_Served n m (k, none) rest l h e f = f refl
  here_Served n m (k, some j) rest l h e f = (n, omega arith, l, refl, h, e)

  later-Served : (n m : ℕ) (r : Option Ready) → Served (n + 1) m r → Served n m r
  later-Served n m none h = h
  later-Served n m (some r) h = (h.0, omega (arith, h.1), h.2, h.3, h.4, h.5)

  loop-Served :
      (left n m : ℕ)
      → n ≤ m
      → m < n + left
      → IsReady c now (at_round c m)
      → Served n m (ready_loop c now n left)
  unfolding ready_loop
  loop-Served zero n m l h ready = absurd (omega arith)
  loop-Served (suc left) n m l h ready =
      let p = peer_at c (at_round c n) in
      let rest = ready_loop c now (n + 1) left in
      let later : n ≢ m → Served n m rest = λ ne.
        later-Served n m rest (loop-Served left (n + 1) m (omega arith) (omega arith) ready) in
      elim (Bool-cases (p.key == 0)) [
        | inl e ↦ rw e (
            later (λ q. ready.0 (subst (λ k. (peer_at c (at_round c k)).key ≡ 0) q (ground arith))))
        | inr e ↦ rw e (
            here_Served n m (reorder_pick c p now) rest l (ground arith) refl
              (λ miss. later (λ q. some_not_none c now ready q miss)))
      ]

  -- The entry at distance `d` of the cursor is looked at in round `d`.
  round_of :
      (i : ℕ) → i < c.peers → c.rr < c.peers → c.peers < 2 ^ 31 → at_round c (distance c i) ≡ i
  round_of i hi hr hp =
      let sum = c.rr + distance c i in
      let fits : add32 c.rr (distance c i) ≡ sum = ground arith in
      elim (Bool-cases (ltb i c.rr)) [
        | inr e ↦ let s : add32 c.rr (distance c i) ≡ i = ground arith in rw s (mod-eq_of_lt hi)
        | inl e ↦
            let s : add32 c.rr (distance c i) ≡ i + c.peers = ground arith in
            rw s (
              mod-eq-sub-mod {n = i + c.peers} {m = c.peers} (omega arith)
              ∙ (let z : i + c.peers - c.peers ≡ i = omega arith in rw z (mod-eq_of_lt hi)))
      ]

module _ (c : ReorderCtx) (hr : c.rr < c.peers) (hp : c.peers < 2 ^ 31) where
  at_round_lem :
      (k : ℕ)
      → k < c.peers
      → at_round c k ≡ (if ltb (c.rr + k) c.peers then c.rr + k else c.rr + k - c.peers)
  at_round_lem k l =
      let fits : add32 c.rr k ≡ c.rr + k = omega arith in
      rw fits (mod_once (c.rr + k) c.peers (omega arith))

  next_cursor :
      (j : ℕ) → j < c.peers → add32 j 1 % c.peers ≡ (if j + 1 == c.peers then 0 else j + 1)
  next_cursor j l =
      let fits : add32 j 1 ≡ j + 1 = omega arith in
      rw fits (mod_once (j + 1) c.peers (omega arith) ∙ ground arith)

  closer :
      (i k : ℕ)
      → i < c.peers
      → k ≤ distance c i
      → let j = at_round c k in
        (j < c.peers)
        × ((j ≡ i) ⊎ (distance (record c { rr = add32 j 1 % c.peers }) i < distance c i))
  closer i k hi hk =
      let small : k < c.peers = ground arith in
      let value = at_round_lem k small in
      let inside : at_round c k < c.peers = ground (arith, value) in
      let next = next_cursor (at_round c k) inside in (inside, ground (arith, value, next))

-- What the scan has chosen, seen from the ready peer `i`.
abbrev pub Chosen : ReorderCtx → ℕ → ℕ → Option Ready × ReorderCtx → Type 0
Chosen c now i (none, c') = ⊥
Chosen c now i (some r, c') =
    (r.peer < c.peers)
    × ((peer_at c r.peer).key ≢ 0)
    × (reorder_pick c (peer_at c r.peer) now ≡ (r.kind, some r.slot))
    × ((r.peer ≡ i) ⊎ (distance c' i < distance c i))

module _ (c : ReorderCtx) (now i : ℕ) (hr : c.rr < c.peers) (hp : c.peers < 2 ^ 31)
    (hi : i < c.peers) (ready : IsReady c now i) where
  Served-Chosen :
      (o : Option Ready)
      → Served c now 0 (distance c i) o
      → Chosen c now i (elim o [
        | none ↦ (none, c)
        | some x ↦ (some x, record c { rr = add32 x.peer 1 % c.peers })
      ])
  Served-Chosen none h = h
  Served-Chosen (some r) h =
      let near = closer c hr hp i h.0 hi h.2 in (rw h.3 near.0, h.4, h.5, rw h.3 near.1)

  -- If the live peer `i` has a packet to deliver, the scan returns a live peer with a packet that
  -- `reorder_pick` picks for it, and that is peer `i`, or the rotation has come strictly nearer to it.
  pub round_robin_fair : Chosen c now i (reorder_next_ready c now)
  unfolding reorder_next_ready
  round_robin_fair =
      let e = round_of c now i hi hr hp in
      Served-Chosen _ (
        loop-Served c now c.peers 0 (distance c i) (omega arith) (ground arith)
          (subst (IsReady c now) (sym e) ready))
