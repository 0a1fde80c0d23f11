-- ===== src/Proxy/Drain.antt =====
-- The loops that empty the pacer's queue: what they send, what they leave, and that they end.
use battlezone_netcode_patch.Prelude.{
  ℕ, zero, suc, ◌<◌, ◌≡◌, ◌∙◌, ap, refl, ◌⊎◌, inl, inr, Option, none, List, ◌∷◌, ◌++◌, get_or,
  arith, Bool-cases, ltb, ◌==◌,
}
use battlezone_netcode_patch.Pace.{PaceEntry, PaceCtx, zero_entry}
use battlezone_netcode_patch.Pace.Queue.{pending, pop_head, pace_pop_any, pace_pop_due}
use battlezone_netcode_patch.Pace.Fifo.{IsRing, window_cases}
use battlezone_netcode_patch.Proxy.Send.{flush_step, drain_loop}

-- A pop that finds nothing, or takes the oldest datagram of a queue.
abbrev pub Pops : (PaceCtx → Option PaceEntry × PaceCtx) → PaceCtx → Type 0
Pops pop c = (pop c ≡ (none, c)) ⊎ ((0 < c.count) × (pop c ≡ pop_head c))

pub any-Pops : (c : PaceCtx) → Pops pace_pop_any c
unfolding pace_pop_any
any-Pops c = elim (Bool-cases (c.count == 0)) [
  | inl e ↦ inl (simp e refl)
  | inr e ↦ inr (ground arith, simp e refl)
]

pub due-Pops : (now : ℕ) (c : PaceCtx) → Pops (λ t. pace_pop_due t now) c
unfolding pace_pop_due
due-Pops now c = elim (Bool-cases (c.count == 0)) [
  | inl e ↦ inl (simp e refl)
  | inr e ↦ elim (Bool-cases (ltb now (get_or c.q c.head zero_entry).due_ms)) [
    | inl d ↦ inl (simp (e, d) refl)
    | inr d ↦ inr (ground arith, simp (e, d) refl)
  ]
]

-- A well-formed ring after the oldest datagram has left.
pop_head-Ring :
    (c : PaceCtx)
    → IsRing c
    → 0 < c.count
    → IsRing (pop_head c).1 × (pending c ≡ get_or c.q c.head zero_entry ∷ pending (pop_head c).1)
unfolding pop_head
pop_head-Ring c (hh, hn, hc) l = elim (window_cases c.q c.head c.count hh) [
  | inl (e, w) ↦ absurd (omega arith)
  | inr (l', w) ↦ ((omega arith, omega arith, hc), w)
]

-- What a drain of `c` with `fuel` rounds returns: the datagrams `es` left from the front, the rest is
-- `c'`, and the loop stopped by itself.
abbrev pub Drains :
    (PaceCtx → Option PaceEntry × PaceCtx) → PaceCtx → List PaceEntry × PaceCtx → Type 0
Drains pop c (es, c') =
    (pending c ≡ es ++ pending c') × IsRing c' × (c'.rate_bps ≡ c.rate_bps) × ((pop c').0 ≡ none)

-- The oldest datagram, and then what the rest of the loop drains.
taken-Drains :
    (pop : PaceCtx → Option PaceEntry × PaceCtx) (loop : PaceCtx → List PaceEntry × PaceCtx)
    (c : PaceCtx)
    → (pending c ≡ get_or c.q c.head zero_entry ∷ pending (pop_head c).1)
    → Drains pop (pop_head c).1 (loop (pop_head c).1)
    → Drains pop c (flush_step loop (pop_head c))
unfolding pop_head
taken-Drains pop loop c w (p, k, r, stop) =
    (w ∙ ap (λ t. get_or c.q c.head zero_entry ∷ t) p, k, r, stop)

fewer : (c : PaceCtx) (n : ℕ) → 0 < c.count → c.count < suc n → (pop_head c).1.count < n
unfolding pop_head
fewer c n l h = omega arith

module _ (pop : PaceCtx → Option PaceEntry × PaceCtx) (pops : (c : PaceCtx) → Pops pop c) where
  pub drain-Drains :
      (fuel : ℕ) (c : PaceCtx) → IsRing c → c.count < fuel → Drains pop c (drain_loop pop fuel c)
  unfolding drain_loop
  drain-Drains zero c k l = absurd (omega arith)
  drain-Drains (suc n) c k l = elim (pops c) [
    | inl e ↦ simp e (refl, k, refl, refl)
    | inr (some_left, e) ↦
        let (k', w) = pop_head-Ring c k some_left in
        let ih = drain-Drains n (pop_head c).1 k' (fewer c n some_left l) in
        simp e (taken-Drains pop (drain_loop pop n) c w ih)
  ]
