-- ===== src/Proxy/Offer.antt =====
-- `pace_take`: a datagram with a sequence is queued, or sent at once, and stays in order.
use mathlib.Core.List.{append-nil}
use battlezone_netcode_patch.Prelude.{
  ℕ, ◌≤◌, ◌<◌, ◌≡◌, ◌≢◌, ◌∙◌, ap, refl, subst, ◌⊎◌, inl, inr, Bool, true, false, List, [], ◌∷◌,
  ◌++◌, arith, Bool-cases,
}
use battlezone_netcode_patch.Prelude.Int.{ℤ}
use battlezone_netcode_patch.Reorder.{reorder_seq_min_pay}
use battlezone_netcode_patch.Pace.{
  PaceDecision, send_now, queued, flush_then_send, PaceEntry, PaceCtx, pace_observe, pace_tick,
}
use battlezone_netcode_patch.Pace.Admit.{refill, wait_for, shape, spend, pace_admit}
use battlezone_netcode_patch.Pace.Delay.{never_overtakes}
use battlezone_netcode_patch.Pace.Queue.{pending, queued_entry, is_refused, pace_enqueue}
use battlezone_netcode_patch.Pace.Fifo.{IsRing, placed, roomy}
use battlezone_netcode_patch.Proxy.{WireCall, plain}
use battlezone_netcode_patch.Proxy.Send.{wires, pace_flush_locked, take_decided}
use battlezone_netcode_patch.Proxy.Flush.{wires-append, flush_empties}

-- The queue and the rate are left alone.
abbrev pub SameQueue : PaceCtx → PaceCtx → Type 0
SameQueue c d = (d.q ≡ c.q) × (d.head ≡ c.head) × (d.count ≡ c.count) × (d.rate_bps ≡ c.rate_bps)

pub observe-SameQueue : (c : PaceCtx) (len now : ℕ) → SameQueue c (pace_observe c len now)
unfolding pace_observe pace_tick
observe-SameQueue c len now = ground arith

refill-SameQueue : (c : PaceCtx) (now : ℕ) → SameQueue c (refill c now)
unfolding refill
refill-SameQueue c now = ground arith

shape-SameQueue : (c : PaceCtx) (len now wait : ℕ) → SameQueue c (shape c len now wait).2
unfolding shape
shape-SameQueue c len now wait = ground arith

spend-SameQueue : (c : PaceCtx) (len now : ℕ) → SameQueue c (spend c len now).2
unfolding spend
spend-SameQueue c len now = ground (arith, shape-SameQueue c len now (wait_for c len))

pub admit-SameQueue : (c : PaceCtx) (len now : ℕ) → SameQueue c (pace_admit c len now).2
unfolding pace_admit
admit-SameQueue c len now =
    let o = pace_observe c len now in
    let (a, b, n, r) = observe-SameQueue c len now in
    let (a', b', n', r') = refill-SameQueue o now in
    let (a'', b'', n'', r'') = spend-SameQueue (refill o now) len now in
    ground (arith, a, b, n, r, a', b', n', r', a'', b'', n'', r'')

pub same-pending : (c d : PaceCtx) → SameQueue c d → pending d ≡ pending c
same-pending c d (a, b, n, r) = simp (a, b, n) refl

pub same-Ring : (c d : PaceCtx) → SameQueue c d → IsRing c → IsRing d
same-Ring c d (a, b, n, r) (hh, hn, hc) = (simp b hh, simp n hn, simp a hc)

-- The calls of an offer: the flush, and the datagram itself if the pacer did not take it.
abbrev pub sent : Bool → List WireCall → WireCall → List WireCall
sent true out w = out
sent false out w = out ++ w ∷ []

-- The calls and what is queued after them are what was queued and then the datagram.
abbrev pub Follows : PaceCtx → WireCall → Bool × List WireCall × PaceCtx → Type 0
Follows c w (taken, out, c') =
    (sent taken out w ++ wires (pending c') ≡ wires (pending c) ++ w ∷ [])
    × IsRing c'
    × (c'.rate_bps ≡ c.rate_bps)

empty-wires : (c : PaceCtx) → c.count ≡ 0 → wires (pending c) ≡ []
empty-wires c e = simp e refl

flush-Follows :
    (c : PaceCtx) (w : WireCall)
    → IsRing c
    → Follows c w (false, (pace_flush_locked true c).0, (pace_flush_locked true c).1)
flush-Follows c w k =
    let (out, e, k', r) = flush_empties c k in
    (
      simp (out, empty-wires (pace_flush_locked true c).1 e)
          (append-nil (wires (pending c) ++ w ∷ [])),
      k',
      r,
    )

now-Follows : (c : PaceCtx) (w : WireCall) → IsRing c → c.count ≡ 0 → Follows c w (false, [], c)
now-Follows c w k e = simp (empty-wires c e) (refl, k, refl)

-- An enqueue that stores, as the other modules see it.
abbrev Stores : PaceCtx → PaceEntry → PaceCtx → Type 0
Stores c e c' = (pending c' ≡ pending c ++ e ∷ []) × IsRing c' × (c'.rate_bps ≡ c.rate_bps)

enqueue_cases :
    (c : PaceCtx) (sock len due : ℕ) (bytes to : List ℕ) (tolen : ℤ)
    → IsRing c
    → (pace_enqueue c sock to tolen bytes len due ≡ (false, c))
      ⊎ (((pace_enqueue c sock to tolen bytes len due).0 ≡ true)
          × Stores c
              (queued_entry sock to tolen bytes len due)
              (pace_enqueue c sock to tolen bytes len due).1)
unfolding pace_enqueue
enqueue_cases c sock len due bytes to tolen k = elim (Bool-cases (is_refused c tolen len)) [
  | inl f ↦ inl (simp f refl)
  | inr f ↦
      let (k', p) = placed c (queued_entry sock to tolen bytes len due) k (roomy c tolen len f) in
      simp f (inr (refl, (p, k', refl)))
]

-- The decision "queued" on a ring whose queue is that of `c`.
queued-Follows :
    (c : PaceCtx) (sock len due : ℕ) (bytes to : List ℕ) (tolen : ℤ)
    → IsRing c
    → Follows c
        (plain sock bytes len to tolen)
        (take_decided true sock bytes len to tolen (queued, due, c))
unfolding take_decided
queued-Follows c sock len due bytes to tolen k =
    let e = queued_entry sock to tolen bytes len due in
    elim (enqueue_cases c sock len due bytes to tolen k) [
      | inl f ↦ simp f (flush-Follows c (plain sock bytes len to tolen) k)
      | inr (f, (p, k', r)) ↦ simp f (ap wires p ∙ wires-append (pending c) (e ∷ []), k', r)
    ]

decided-Follows :
    (c : PaceCtx) (sock len due : ℕ) (bytes to : List ℕ) (tolen : ℤ) (d : PaceDecision)
    → IsRing c
    → (0 < c.count → d ≢ send_now)
    → Follows c
        (plain sock bytes len to tolen)
        (take_decided true sock bytes len to tolen (d, due, c))
unfolding take_decided
decided-Follows c sock len due bytes to tolen send_now k h =
    let e : c.count ≡ 0 = ground (arith, h) in now-Follows c (plain sock bytes len to tolen) k e
decided-Follows c sock len due bytes to tolen queued k h =
    queued-Follows c sock len due bytes to tolen k
decided-Follows c sock len due bytes to tolen flush_then_send k h =
    flush-Follows c (plain sock bytes len to tolen) k

same-Follows :
    (c d : PaceCtx) (w : WireCall) (r : Bool × List WireCall × PaceCtx)
    → SameQueue c d
    → Follows d w r
    → Follows c w r
same-Follows c d w r (a, b, n, e) (p, k, f) =
    (p ∙ ap (λ q. wires q ++ w ∷ []) (same-pending c d (a, b, n, e)), k, f ∙ e)

-- An offer of a datagram with a sequence, while pacing is on.
pub take-Follows :
    (c : PaceCtx) (sock len now : ℕ) (bytes to : List ℕ) (tolen : ℤ)
    → IsRing c
    → c.rate_bps ≢ 0
    → reorder_seq_min_pay ≤ len
    → Follows c
        (plain sock bytes len to tolen)
        (take_decided true sock bytes len to tolen (pace_admit c len now))
take-Follows c sock len now bytes to tolen k r l =
    let (a, b, n, e) = admit-SameQueue c len now in
    let r' = pace_admit c len now in
    same-Follows c r'.2 (plain sock bytes len to tolen)
      (take_decided true sock bytes len to tolen r') (a, b, n, e)
      (decided-Follows r'.2 sock len r'.1 bytes to tolen r'.0 (same-Ring c r'.2 (a, b, n, e) k)
        (λ q. never_overtakes c len now r l (subst (λ m. 0 < m) n q)))
