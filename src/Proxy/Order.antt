-- ===== src/Proxy/Order.antt =====
-- The send hook and the pacer thread together: the order on the wire.
use mathlib.Core.List.{append_assoc, append-nil}
use battlezone_netcode_patch.Prelude.{
  ℕ, ◌≤◌, ◌<◌, ◌≡◌, ◌∙◌, ap, sym, refl, inl, inr, Bool, true, false, ◌&&◌, none, some, List, [],
  ◌∷◌, ◌++◌, arith, Bool-cases, ◌==◌, if◌then◌else◌,
}
use battlezone_netcode_patch.Prelude.Int.{ℤ, pos}
use battlezone_netcode_patch.Reorder.{reorder_max_pkt_bytes}
use battlezone_netcode_patch.Pace.{pace_addr_bytes}
use battlezone_netcode_patch.Pace.Queue.{pending}
use battlezone_netcode_patch.Proxy.{Sockaddr, WireCall, plain}
use battlezone_netcode_patch.Proxy.Send.{
  TxState, wires, pace_take, dampen_stage, rtt_stage, pace_round,
}
use battlezone_netcode_patch.Proxy.SendTo.{
  dup_stage, Ticks, SendArgs, Sent, looked_at, send_real, undampened, send_looked_at, hooked_sendto,
}
use battlezone_netcode_patch.Proxy.Flush.{round_releases}
use battlezone_netcode_patch.Proxy.Offer.{same-pending}
use battlezone_netcode_patch.Proxy.Take.{
  sequenced, sequenced-append, Paces, kept-Paces, Ordered, fits-Pacable, take-Ordered,
}
use battlezone_netcode_patch.Proxy.Stages.{Keeps, dampen-Keeps, rtt-Keeps, dup_later}

-- The game sends a datagram, with the answers of the clock and of the real sendto, or the pacer
-- thread wakes up.
pub data SendOp : Type 0 where
  sends : ℕ → List ℕ → ℕ → Sockaddr → ℕ → Ticks → ℤ → SendOp
  wakes : ℕ → SendOp

abbrev pub args : ℕ → List ℕ → ℕ → Sockaddr → ℕ → SendArgs
args sock bytes len to tolen = record {
  sock = sock;
  buf = some bytes;
  len = pos len;
  flags = 0;
  to = some to;
  tolen = pos tolen;
}

-- The calls of Winsock that one operation makes.
abbrev pub send_op : TxState → SendOp → List WireCall × TxState
send_op s (sends sock bytes len to tolen t rc) =
    let r = hooked_sendto s (args sock bytes len to tolen) t rc in (r.out, r.state)
send_op s (wakes now) = pace_round s now

-- What the game asks for and the dampener does not suppress.
abbrev pub asked : TxState → SendOp → List WireCall
asked s (sends sock bytes len to tolen t rc) =
    if (dampen_stage s sock bytes len to t.dampen_ms).0
    then []
    else plain sock bytes len to.bytes (pos tolen) ∷ []
asked s (wakes now) = []

-- The calls, what was asked for, and the state at the end.
abbrev pub send_run : TxState → List SendOp → List WireCall × List WireCall × TxState
send_run s [] = ([], [], s)
send_run s (o ∷ os) =
    let (out, s') = send_op s o in
    let (outs, wanted, s'') = send_run s' os in (out ++ outs, asked s o ++ wanted, s'')

-- The datagram and its address are of a size that the pacer can hold.
abbrev pub Fits : SendOp → Type 0
Fits (sends sock bytes len to tolen t rc) =
    (0 < len) × (len ≤ reorder_max_pkt_bytes) × (0 < tolen) × (tolen ≤ pace_addr_bytes)
Fits (wakes now) = 0 ≤ now

abbrev pub AllFit : List SendOp → Type 0
AllFit [] = 0 ≤ 0
AllFit (o ∷ os) = Fits o × AllFit os

-- What one operation sends and what is queued after it, where `wanted` is what the game asks for.
abbrev InOrder : TxState → List WireCall → List WireCall × TxState → Type 0
InOrder s wanted (out, s') =
    (sequenced out ++ sequenced (wires (pending s'.tx))
      ≡ sequenced (wires (pending s.tx)) ++ sequenced wanted)
    × Paces s'

abbrev result : Sent → List WireCall × TxState
result r = (r.out, r.state)

-- A change of state that keeps the queue changes no order.
moved-InOrder :
    (s s' : TxState) (wanted : List WireCall) (r : List WireCall × TxState)
    → Keeps s s'
    → InOrder s' wanted r
    → InOrder s wanted r
moved-InOrder s s' wanted (out, s'') k (e, p) =
    (e ∙ ap (λ q. sequenced (wires q) ++ sequenced wanted) (same-pending s.tx s'.tx k.queue), p)

module _ (sock : ℕ) (bytes : List ℕ) (len : ℕ) (to : Sockaddr) (tolen : ℕ) (t : Ticks)
    (rc : ℤ) where
  abbrev a : SendArgs
  a = args sock bytes len to tolen

  abbrev own : WireCall
  own = plain sock bytes len to.bytes (pos tolen)

  real-InOrder :
      (s s' : TxState) (out : List WireCall)
      → Ordered s own (false, out, s')
      → InOrder s (own ∷ []) (result (send_real s' a rc t.dup_ms out))
  unfolding send_real
  real-InOrder s s' out (e, p) =
      let (z, k) = dup_later s' a rc t.dup_ms p.later in
      let q = same-pending s'.tx (dup_stage s' a rc t.dup_ms).1.tx k.queue in
      (simp (z, q) e, kept-Paces s' (dup_stage s' a rc t.dup_ms).1 k p)

  offered-InOrder :
      (s : TxState) (r : Bool × List WireCall × TxState)
      → Ordered s own r
      → InOrder s (own ∷ []) (
          result (
            if r.0
            then record { rc = pos len; wsa = none; out = r.1; state = r.2 }
            else send_real r.2 a rc t.dup_ms r.1))
  offered-InOrder s (true, out, s') h = h
  offered-InOrder s (false, out, s') h = real-InOrder s s' out h

  undampened-InOrder :
      (s : TxState)
      → Paces s
      → Fits (sends sock bytes len to tolen t rc)
      → InOrder s (own ∷ []) (result (undampened s a bytes to t rc))
  unfolding undampened
  undampened-InOrder s p (l, m, l', m') =
      let k = rtt-Keeps s bytes len t.rtt_ms to in
      let s' = rtt_stage s bytes len to t.rtt_ms in
      let p' = kept-Paces s s' k p in
      let e = fits-Pacable s' p' sock len tolen t.pace_ms bytes to.bytes l m l' m' in
      moved-InOrder s s' (own ∷ []) (result (undampened s a bytes to t rc)) k (
        offered-InOrder s' (pace_take s' sock bytes len to.bytes (pos tolen) t.pace_ms)
          (take-Ordered s' p' sock len tolen t.pace_ms bytes to.bytes e))

  -- What the dampener lets through of this datagram.
  abbrev let_through : TxState → List WireCall
  let_through s = if (dampen_stage s sock bytes len to t.dampen_ms).0 then [] else own ∷ []

  looked_at-InOrder :
      (s : TxState)
      → Paces s
      → Fits (sends sock bytes len to tolen t rc)
      → InOrder s (let_through s) (result (send_looked_at s a bytes to t rc))
  unfolding send_looked_at
  looked_at-InOrder s p fits =
      let k = dampen-Keeps s sock len t.dampen_ms bytes to in
      let s' = (dampen_stage s sock bytes len to t.dampen_ms).1 in
      let p' = kept-Paces s s' k p in
      elim (Bool-cases (dampen_stage s sock bytes len to t.dampen_ms).0) [
        | inl f ↦ simp f (
          ap (λ q. sequenced (wires q)) (same-pending s.tx s'.tx k.queue)
              ∙ sym (append-nil (sequenced (wires (pending s.tx)))),
          p',
        )
        | inr f ↦ simp f (
            moved-InOrder s s' (own ∷ []) (result (undampened s' a bytes to t rc)) k
              (undampened-InOrder s' p' fits))
      ]

  has_datagram : 0 < len → looked_at a ≡ some (bytes, to)
  unfolding looked_at
  has_datagram l = ground arith

  sends-InOrder :
      (s : TxState)
      → Paces s
      → Fits (sends sock bytes len to tolen t rc)
      → InOrder s (let_through s) (result (hooked_sendto s a t rc))
  unfolding hooked_sendto
  sends-InOrder s p fits = simp (p.has, has_datagram fits.0) (looked_at-InOrder s p fits)

-- A round of the pacer thread touches the pacer only.
round_switches :
    (s : TxState) (now : ℕ)
    → ((pace_round s now).1.pace_ready ≡ s.pace_ready)
      × ((pace_round s now).1.has_sendto ≡ s.has_sendto)
      × (((pace_round s now).1.send_dup && (pace_round s now).1.dup.delay_ms == 0)
          ≡ (s.send_dup && s.dup.delay_ms == 0))
unfolding pace_round
round_switches s now = elim (Bool-cases s.pace_ready) [
  | inl e ↦ rw e (refl, refl, refl)
  | inr e ↦ rw e (refl, refl, refl)
]

op-InOrder : (s : TxState) (o : SendOp) → Paces s → Fits o → InOrder s (asked s o) (send_op s o)
op-InOrder s (sends sock bytes len to tolen t rc) p fits =
    sends-InOrder sock bytes len to tolen t rc s p fits
op-InOrder s (wakes now) p fits =
    let (w, k, r, z) = round_releases s now p.ring p.ready p.has in
    let s' = (pace_round s now).1 in
    let (a, b, c) = round_switches s now in
    (
      sym (sequenced-append (pace_round s now).0 (wires (pending s'.tx)))
          ∙ sym (ap sequenced w)
          ∙ sym (append-nil (sequenced (wires (pending s.tx)))),
      record {
        ring = k;
        rate = λ e. p.rate (sym r ∙ e);
        ready = a ∙ p.ready;
        has = b ∙ p.has;
        later = c ∙ p.later;
      },
    )

-- Two operations in a row.
joined :
    (out out' wanted wanted' before between after : List WireCall)
    → sequenced out ++ between ≡ before ++ sequenced wanted
    → sequenced out' ++ after ≡ between ++ sequenced wanted'
    → sequenced (out ++ out') ++ after ≡ before ++ sequenced (wanted ++ wanted')
joined out out' wanted wanted' before between after e e' =
    simp (sequenced-append out out', sequenced-append wanted wanted', append_assoc)
      (ap (λ t. sequenced out ++ t) e'
        ∙ sym (append_assoc (sequenced out) between (sequenced wanted'))
        ∙ ap (λ t. t ++ sequenced wanted') e
        ∙ append_assoc before (sequenced wanted) (sequenced wanted'))

-- Pacing never reorders. While it is on and duplicates are not sent at once, for any run of sends of
-- datagrams that the pacer can hold and of rounds of the pacer thread: the datagrams with a sequence
-- that went to the wire, followed by those still queued, are those queued at the start, followed by
-- those that the game sent and the dampener did not suppress, in the order of the sends. None is
-- lost, doubled or overtaken.
pub wire_in_order :
    (s : TxState) (os : List SendOp)
    → Paces s
    → AllFit os
    → sequenced (send_run s os).0 ++ sequenced (wires (pending (send_run s os).2.tx))
      ≡ sequenced (wires (pending s.tx)) ++ sequenced (send_run s os).1
wire_in_order s [] p f = sym (append-nil (sequenced (wires (pending s.tx))))
wire_in_order s (o ∷ os) p (f, fs) =
    let (e, p') = op-InOrder s o p f in
    let s' = (send_op s o).1 in
    let rest = send_run s' os in
    joined (send_op s o).0 rest.0 (asked s o) rest.1 (sequenced (wires (pending s.tx)))
      (sequenced (wires (pending s'.tx))) (sequenced (wires (pending rest.2.tx))) e
      (wire_in_order s' os p' fs)
