-- ===== src/Proxy/Agree.antt =====
-- The two send hooks against each other: WSASendTo of some buffers, and sendto of the bytes in them.
use mathlib.Core.List.{map-append}
use battlezone_netcode_patch.Prelude.{
  ℕ, ◌+◌, ◌<◌, ◌≡◌, ◌∙◌, ap, sym, refl, inl, inr, Bool, true, false, not, ◌&&◌, Option, none, some,
  List, [], ◌∷◌, map, take, arith, Bool-cases, ltb, leb, ◌==◌, if◌then◌else◌,
}
use battlezone_netcode_patch.Prelude.Int.{ℤ, pos, leb_ℤ}
use battlezone_netcode_patch.Reorder.{reorder_seq_min_pay}
use battlezone_netcode_patch.Pace.{
  PaceEntry, PaceDecision, send_now, queued, flush_then_send, PaceCtx,
}
use battlezone_netcode_patch.Pace.Admit.{pace_admit}
use battlezone_netcode_patch.Pace.Queue.{pace_enqueue, pace_pop_any}
use battlezone_netcode_patch.Proxy.{Sockaddr, WsaBuf, WireCall, by_sendto, by_wsasendto}
use battlezone_netcode_patch.Proxy.Send.{
  TxState, wire_of, wires, drain_loop, is_pacable, is_peer, pace_flush_locked, take_decided,
  pace_take, dampen_stage, rtt_stage,
}
use battlezone_netcode_patch.Proxy.SendTo.{
  real_send, Ticks, SendArgs, Sent, is_duplicable, dup_stage, send_real, undampened, send_looked_at,
  hooked_sendto, looked_at,
}
use battlezone_netcode_patch.Proxy.Gather.{gather-Bound, take_twice, regather}
use battlezone_netcode_patch.Proxy.WsaSendTo.{
  swallowed, real_wsa_send, wsa_again, WsaSendArgs, Answer, WsaSent, Flat, gather, buffers_of,
  has_failed, wsa_looked_at, wsa_dup_stage, wsa_send_real, wsa_undampened, wsa_send_looked_at,
  hooked_wsa_send_to,
}

abbrev pub gathered : Option (List WsaBuf) → Flat
gathered bs = gather [] 0 (buffers_of bs)

-- A call of Winsock as a call of sendto with the same datagram.
abbrev pub as_sendto : WireCall → WireCall
as_sendto (by_sendto o) = by_sendto o
as_sendto (by_wsasendto w) = by_sendto (record {
  sock = w.sock;
  bytes = some (take (gathered w.buffers).total (gathered w.buffers).bytes);
  len = pos (gathered w.buffers).total;
  flags = w.flags;
  to = w.to;
  tolen = w.tolen;
})

wires-as_sendto : (es : List PaceEntry) → map as_sendto (wires es) ≡ wires es
wires-as_sendto [] = refl
wires-as_sendto (e ∷ es) = ap (λ t. wire_of e ∷ t) (wires-as_sendto es)

flush-as_sendto :
    (has : Bool) (c : PaceCtx)
    → map as_sendto (pace_flush_locked has c).0 ≡ (pace_flush_locked has c).0
unfolding pace_flush_locked
flush-as_sendto true c = wires-as_sendto (drain_loop pace_pop_any (c.count + 1) c).0
flush-as_sendto false c = refl

decided-as_sendto :
    (has : Bool) (sock len : ℕ) (bytes to : List ℕ) (tolen : ℤ) (r : PaceDecision × ℕ × PaceCtx)
    → map as_sendto (take_decided has sock bytes len to tolen r).1
      ≡ (take_decided has sock bytes len to tolen r).1
unfolding take_decided
decided-as_sendto has sock len bytes to tolen (queued, due, c) =
    elim (Bool-cases (pace_enqueue c sock to tolen bytes len due).0) [
      | inl e ↦ simp e refl
      | inr e ↦ simp e (flush-as_sendto has (pace_enqueue c sock to tolen bytes len due).1)
    ]
decided-as_sendto has sock len bytes to tolen (flush_then_send, due, c) = flush-as_sendto has c
decided-as_sendto has sock len bytes to tolen (send_now, due, c) = refl

pub take-as_sendto :
    (s : TxState) (sock len now : ℕ) (bytes to : List ℕ) (tolen : ℤ)
    → map as_sendto (pace_take s sock bytes len to tolen now).1
      ≡ (pace_take s sock bytes len to tolen now).1
unfolding pace_take
take-as_sendto s sock len now bytes to tolen = elim (Bool-cases (is_pacable s len tolen)) [
  | inl e ↦
      simp e (decided-as_sendto s.has_sendto sock len bytes to tolen (pace_admit s.tx len now))
  | inr e ↦ simp e refl
]

leb_pos : (m n : ℕ) → leb_ℤ (pos m) (pos n) ≡ leb m n
leb_pos m n = ground arith

-- The tests of the two hooks are the same, in another order.
tests :
    (on peer answered long fits : Bool)
    → fits ≡ true
    → (on && peer && true && answered && fits && long) ≡ (on && answered && (long && peer))
tests on peer answered long fits e = ground arith

abbrev wsa_result : WsaSent → List WireCall × TxState
wsa_result r = (r.out, r.state)

abbrev result : Sent → List WireCall × TxState
result r = (r.out, r.state)

-- The two hooks do the same: the same datagrams in the same order, and the same state.
abbrev Same : List WireCall × TxState → List WireCall × TxState → Type 0
Same (out, s) (out', s') = (map as_sendto out ≡ out') × (s ≡ s')

module _ (sock : ℕ) (b : WsaBuf) (bs : List WsaBuf) (to : Sockaddr) (tolen : ℤ) where
  abbrev pub f : Flat
  f = gather [] 0 (b ∷ bs)

  -- A synchronous call of WSASendTo without flags.
  abbrev pub scattered : WsaSendArgs
  scattered = record {
    sock = sock;
    buffers = some (b ∷ bs);
    flags = 0;
    to = some to;
    tolen = tolen;
    overlapped = false;
  }

  -- The call of sendto with the same datagram.
  abbrev pub flat : SendArgs
  flat = record {
    sock = sock;
    buf = some f.bytes;
    len = pos f.total;
    flags = 0;
    to = some to;
    tolen = tolen;
  }

  again-Same : 0 < f.total → as_sendto (wsa_again scattered f to) ≡ real_send flat
  again-Same l = rw (
    regather f.total f.bytes l (gather-Bound [] 0 (b ∷ bs) (omega arith)),
    take_twice f.total f.bytes,
  )

  module _ (s : TxState) (t : Ticks) (r : Answer) (rc : ℤ) where
    dup-Same :
        f.fits ≡ true
        → 0 < f.total
        → leb_ℤ (pos 0) rc ≡ not (has_failed r)
        → Same (wsa_dup_stage s scattered r t.dup_ms) (dup_stage s flat rc t.dup_ms)
    unfolding wsa_dup_stage dup_stage is_duplicable
    dup-Same fits l e =
        let long = leb reorder_seq_min_pay f.total in
        let guards =
          tests s.send_dup (is_peer to) (not (has_failed r)) long f.fits fits
          ∙ ap (λ z. s.send_dup && z && (long && is_peer to)) (sym e)
          ∙ ap (λ z. s.send_dup && leb_ℤ (pos 0) rc && (z && is_peer to))
              (sym (leb_pos reorder_seq_min_pay f.total)) in
        elim (Bool-cases
          (s.send_dup && is_peer to && true && not (has_failed r) && f.fits && long)) [
            | inl g ↦ elim (Bool-cases (s.dup.delay_ms == 0)) [
              | inl d ↦ simp (g, sym guards ∙ g, d) (ap (λ w. w ∷ []) (again-Same l), refl)
              | inr d ↦ simp (g, sym guards ∙ g, d) (refl, refl)
            ]
            | inr g ↦ simp (g, sym guards ∙ g) (refl, refl)
          ]

    real-Same :
        (before : List WireCall)
        → map as_sendto before ≡ before
        → f.fits ≡ true
        → 0 < f.total
        → leb_ℤ (pos 0) rc ≡ not (has_failed r)
        → Same
            (wsa_result (wsa_send_real s scattered r t.dup_ms before))
            (result (send_real s flat rc t.dup_ms before))
    unfolding wsa_send_real send_real
    real-Same before p fits l e =
        let (q, m) = dup-Same fits l e in
        (
          map-append as_sendto before
                (real_wsa_send scattered ∷ (wsa_dup_stage s scattered r t.dup_ms).0)
              ∙ simp (p, q) refl,
          m,
        )

  -- Both hooks give the datagram to the pacer, or send it.
  offered-Same :
      (t : Ticks) (r : Answer) (rc : ℤ) (o : Bool × List WireCall × TxState)
      → map as_sendto o.1 ≡ o.1
      → f.fits ≡ true
      → 0 < f.total
      → leb_ℤ (pos 0) rc ≡ not (has_failed r)
      → Same
          (wsa_result
            (if o.0 then swallowed o.2 f.total o.1 else wsa_send_real o.2 scattered r t.dup_ms o.1))
          (result (
            if o.0
            then record { rc = pos f.total; wsa = none; out = o.1; state = o.2 }
            else send_real o.2 flat rc t.dup_ms o.1))
  offered-Same t r rc (true, out, s) p fits l e = (p, refl)
  offered-Same t r rc (false, out, s) p fits l e = real-Same s t r rc out p fits l e

  undampened-Same :
      (s : TxState) (t : Ticks) (r : Answer) (rc : ℤ)
      → f.fits ≡ true
      → 0 < f.total
      → leb_ℤ (pos 0) rc ≡ not (has_failed r)
      → Same
          (wsa_result (wsa_undampened s scattered f to t r))
          (result (undampened s flat f.bytes to t rc))
  unfolding wsa_undampened undampened
  undampened-Same s t r rc fits l e =
      let s' = rtt_stage s f.bytes f.total to t.rtt_ms in
      offered-Same t r rc (pace_take s' sock f.bytes f.total to.bytes tolen t.pace_ms)
        (take-as_sendto s' sock f.total t.pace_ms f.bytes to.bytes tolen) fits l e

  looked_at-Same :
      (s : TxState) (t : Ticks) (r : Answer) (rc : ℤ)
      → f.fits ≡ true
      → 0 < f.total
      → leb_ℤ (pos 0) rc ≡ not (has_failed r)
      → Same
          (wsa_result (wsa_send_looked_at s scattered f to t r))
          (result (send_looked_at s flat f.bytes to t rc))
  unfolding wsa_send_looked_at send_looked_at
  looked_at-Same s t r rc fits l e =
      let d = dampen_stage s sock f.bytes f.total to t.dampen_ms in
      elim (Bool-cases d.0) [
        | inl g ↦ simp g (refl, refl)
        | inr g ↦ simp g (undampened-Same d.1 t r rc fits l e)
      ]

  flat-looked_at : 0 < f.total → looked_at flat ≡ some (f.bytes, to)
  unfolding looked_at
  flat-looked_at l = ground arith

-- The two send hooks agree. A synchronous WSASendTo without flags of buffers that fit the flat copy
-- and are not all empty does what sendto of the gathered bytes does, when the real calls succeed or
-- fail alike: it hands the same datagrams to Winsock in the same order, with a duplicate or a flush
-- where sendto has one, and it leaves the same dampener, sampler, pacer and duplicates.
pub hooks_agree :
    (s : TxState) (sock : ℕ) (b : WsaBuf) (bs : List WsaBuf) (to : Sockaddr) (tolen : ℤ) (t : Ticks)
    (r : Answer) (rc : ℤ)
    → s.has_sendto ≡ true
    → (gather [] 0 (b ∷ bs)).fits ≡ true
    → 0 < (gather [] 0 (b ∷ bs)).total
    → leb_ℤ (pos 0) rc ≡ not (has_failed r)
    → let w = hooked_wsa_send_to true s (scattered sock b bs to tolen) t r in
      let v = hooked_sendto s (flat sock b bs to tolen) t rc in
      (map as_sendto w.out ≡ v.out) × (w.state ≡ v.state)
unfolding hooked_wsa_send_to hooked_sendto wsa_looked_at
hooks_agree s sock b bs to tolen t r rc has fits l e =
    let some_bytes : ltb 0 (gather [] 0 (b ∷ bs)).total ≡ true = ground arith in
    let g = flat-looked_at sock b bs to tolen l in
    simp (has, fits, some_bytes, g) (looked_at-Same sock b bs to tolen s t r rc fits l e)
