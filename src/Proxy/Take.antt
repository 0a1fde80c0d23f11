-- ===== src/Proxy/Take.antt =====
-- An offer to the pacer keeps the order on the wire, whatever the length of the datagram.
use mathlib.Core.List.{append-nil}
use battlezone_netcode_patch.Prelude.{
  ℕ, ◌≤◌, ◌<◌, ◌≡◌, ◌≢◌, ◌∙◌, ap, sym, refl, subst, inl, inr, Bool, true, false, ◌&&◌, List, [],
  ◌∷◌, ◌++◌, arith, Bool-cases, ltb, ◌==◌, if◌then◌else◌,
}
use battlezone_netcode_patch.Prelude.Int.{ℤ, pos, leb_ℤ}
use battlezone_netcode_patch.Reorder.{reorder_seq_min_pay, reorder_max_pkt_bytes}
use battlezone_netcode_patch.Pace.{
  PaceDecision, send_now, queued, flush_then_send, PaceCtx, pace_addr_bytes,
}
use battlezone_netcode_patch.Pace.Admit.{pace_admit}
use battlezone_netcode_patch.Pace.Queue.{pending}
use battlezone_netcode_patch.Pace.Fifo.{IsRing}
use battlezone_netcode_patch.Proxy.{WireCall, by_sendto, by_wsasendto, plain}
use battlezone_netcode_patch.Proxy.Send.{TxState, wires, is_pacable, take_decided, pace_take}
use battlezone_netcode_patch.Proxy.Offer.{
  sent, take-Follows, SameQueue, same-pending, same-Ring, admit-SameQueue,
}
use battlezone_netcode_patch.Proxy.Stages.{Keeps}

-- The calls with a datagram long enough to carry a sequence.
abbrev pub is_sequenced : WireCall → Bool
is_sequenced (by_sendto o) = leb_ℤ (pos reorder_seq_min_pay) o.len
is_sequenced (by_wsasendto o) = false

abbrev pub sequenced : List WireCall → List WireCall
sequenced [] = []
sequenced (w ∷ ws) = if is_sequenced w then w ∷ sequenced ws else sequenced ws

-- Pacing is on, and no duplicate is sent at once.
pub record Paces (s : TxState) : Type 0 where
  pub ring : IsRing s.tx
  pub rate : s.tx.rate_bps ≢ 0
  pub ready : s.pace_ready ≡ true
  pub has : s.has_sendto ≡ true
  pub later : (s.send_dup && s.dup.delay_ms == 0) ≡ false

pub kept-Paces : (s s' : TxState) → Keeps s s' → Paces s → Paces s'
kept-Paces s s' k p = record {
  ring = same-Ring s.tx s'.tx k.queue p.ring;
  rate = λ e. p.rate (sym k.queue.3 ∙ e);
  ready = k.ready ∙ p.ready;
  has = k.has ∙ p.has;
  later = simp (k.dups, k.delay) p.later;
}

pub sequenced-append : (xs ys : List WireCall) → sequenced (xs ++ ys) ≡ sequenced xs ++ sequenced ys
sequenced-append [] ys = refl
sequenced-append (x ∷ xs) ys = elim (Bool-cases (is_sequenced x)) [
  | inl e ↦ simp (e, sequenced-append xs ys) refl
  | inr e ↦ simp (e, sequenced-append xs ys) refl
]

-- Order, for what a datagram's calls are before it is known whether the pacer took it.
abbrev pub Ordered : TxState → WireCall → Bool × List WireCall × TxState → Type 0
Ordered s w (taken, out, s') =
    (sequenced (sent taken out w) ++ sequenced (wires (pending s'.tx))
      ≡ sequenced (wires (pending s.tx)) ++ sequenced (w ∷ []))
    × Paces s'

at_once :
    (has : Bool) (sock len : ℕ) (bytes to : List ℕ) (tolen : ℤ) (r : PaceDecision × ℕ × PaceCtx)
    → r.0 ≡ send_now
    → take_decided has sock bytes len to tolen r ≡ (false, [], r.2)
unfolding take_decided
at_once has sock len bytes to tolen (send_now, due, c) e = refl
at_once has sock len bytes to tolen (queued, due, c) e = cc
at_once has sock len bytes to tolen (flush_then_send, due, c) e = cc

short_admit :
    (c : PaceCtx) (len now : ℕ) → len < reorder_seq_min_pay → (pace_admit c len now).0 ≡ send_now
unfolding pace_admit
short_admit c len now l = ground arith

module _ (s : TxState) (p : Paces s) (sock len tolen now : ℕ) (bytes to : List ℕ) where
  abbrev pub wire : WireCall
  wire = plain sock bytes len to (pos tolen)

  abbrev decided : Bool × List WireCall × PaceCtx
  decided = take_decided true sock bytes len to (pos tolen) (pace_admit s.tx len now)

  tx-Paces : (c : PaceCtx) → IsRing c → (c.rate_bps ≡ s.tx.rate_bps) → Paces (record s { tx = c })
  tx-Paces c k e = record {
    ring = k;
    rate = λ z. p.rate (sym e ∙ z);
    ready = p.ready;
    has = p.has;
    later = p.later;
  }

  long-Ordered :
      reorder_seq_min_pay ≤ len → Ordered s wire (decided.0, decided.1, record s { tx = decided.2 })
  long-Ordered l =
      let (e, k, r) = take-Follows s.tx sock len now bytes to (pos tolen) p.ring p.rate l in
      (
        sym (sequenced-append (sent decided.0 decided.1 wire) (wires (pending decided.2)))
            ∙ ap sequenced e
            ∙ sequenced-append (wires (pending s.tx)) (wire ∷ []),
        tx-Paces decided.2 k r,
      )

  unshaped-Ordered :
      (c' : PaceCtx)
      → SameQueue s.tx c'
      → is_sequenced wire ≡ false
      → Ordered s wire (false, [], record s { tx = c' })
  unshaped-Ordered c' same f = (
    simp (f, same-pending s.tx c' same) (sym (append-nil (sequenced (wires (pending s.tx))))),
    tx-Paces c' (same-Ring s.tx c' same p.ring) same.3,
  )

  short-Ordered :
      len < reorder_seq_min_pay → Ordered s wire (decided.0, decided.1, record s { tx = decided.2 })
  short-Ordered l =
      let f : is_sequenced wire ≡ false = ground arith in
      subst
        (λ (r : Bool × List WireCall × PaceCtx). Ordered s wire (r.0, r.1, record s { tx = r.2 }))
        (sym (
          at_once true sock len bytes to (pos tolen) (pace_admit s.tx len now)
            (short_admit s.tx len now l)))
        (unshaped-Ordered (pace_admit s.tx len now).2 (admit-SameQueue s.tx len now) f)

  pub fits-Pacable :
      0 < len
      → len ≤ reorder_max_pkt_bytes
      → 0 < tolen
      → tolen ≤ pace_addr_bytes
      → is_pacable s len (pos tolen) ≡ true
  unfolding is_pacable
  fits-Pacable l m l' m' = ground (arith, p.ready, p.has)

  decided-Ordered :
      (b : Bool)
      → true ≡ b
      → Ordered s wire (
          let d = take_decided b sock bytes len to (pos tolen) (pace_admit s.tx len now) in
          (d.0, d.1, record s { tx = d.2 }))
  decided-Ordered b h =
      subst
        (λ b. Ordered s wire (
          let d = take_decided b sock bytes len to (pos tolen) (pace_admit s.tx len now) in
          (d.0, d.1, record s { tx = d.2 })))
        h
        (elim (Bool-cases (ltb len reorder_seq_min_pay)) [
          | inl f ↦ short-Ordered (ground arith)
          | inr f ↦ long-Ordered (ground arith)
        ])

  pub take-Ordered :
      is_pacable s len (pos tolen) ≡ true
      → Ordered s wire (pace_take s sock bytes len to (pos tolen) now)
  unfolding pace_take
  take-Ordered e = simp e (decided-Ordered s.has_sendto (sym p.has))
