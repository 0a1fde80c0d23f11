-- ===== src/Rtt/Measured.antt =====
-- What `rtt_on_recv` measures, over any traffic with one peer.
use battlezone_netcode_patch.Prelude.{
  ℕ, ◌+◌, ◌-◌, ◌%◌, ◌≤◌, ◌<◌, ◌≡◌, ◌∙◌, sym, ap, subst, refl, ◌⊎◌, inl, inr, Bool, true, false,
  ◌&&◌, ◌||◌, List, [], ◌∷◌, All, All-get, get_or, arith, Bool-cases, Option-cases, ltb, ◌==◌,
  inc64, length-replicate,
}
use battlezone_netcode_patch.Prelude.Int.{pos, leb_ℤ}
use battlezone_netcode_patch.Prelude.Scan.{find_index?, find_index?-Found, Found}
use battlezone_netcode_patch.Prelude.Ring.{length-window, window-get}
use battlezone_netcode_patch.Reorder.Seq.{seq_cmp}
use battlezone_netcode_patch.Rtt.{
  RttSlot, RttPeer, RttStats, rtt_slots, rtt_max_sample_ms, zero_slot, zero_peer,
}
use battlezone_netcode_patch.Rtt.Peer.{outstanding, send_seq}
use battlezone_netcode_patch.Rtt.Sample.{
  retire, smooth, count_sample, take_sample, acknowledge, recv_ack,
}
use battlezone_netcode_patch.Rtt.Ring.{length-clear_loop, retire-outstanding}
use battlezone_netcode_patch.Rtt.Karn.{Sent, LastSent, Tracked, Unique, drop-Tracked}
use battlezone_netcode_patch.Rtt.Exact.{IsTracking, send_seq-IsTracking}

-- A value that is returned is 0, for no sample, or the time since the newest copy went out.
abbrev pub Measures : List Sent → ℕ → ℕ → ℕ → Type 0
Measures h ack now r =
    (r ≡ 0) ⊎ ((t : ℕ) × LastSent h ack t × (t ≤ now) × (r ≡ now - t) × (r ≤ rtt_max_sample_ms))

abbrev Received : List Sent → ℕ → ℕ → ℕ × RttStats × RttPeer → Type 0
Received h ack now (r, st, p) = IsTracking h p × Measures h ack now r

count_sample-IsTracking :
    (h : List Sent) (p : RttPeer) (r : ℕ) → IsTracking h p → IsTracking h (count_sample p r)
unfolding count_sample smooth
count_sample-IsTracking h p r k = elim (Bool-cases p.srtt_init) [
  | inl e ↦ simp e k
  | inr e ↦ simp e k
]

retire-IsTracking :
    (h : List Sent) (p : RttPeer) (n : ℕ) → IsTracking h p → n ≤ p.used → IsTracking h (retire p n)
unfolding retire
retire-IsTracking h p n (a, b, c, t, q) l =
    let e = retire-outstanding p n a b l in
    let (t', q') = drop-Tracked h n (outstanding p) (t, q) in
    (
      omega arith,
      ground arith,
      omega (arith, length-clear_loop p.head 0 n p.slots, c),
      subst (All (Tracked h)) (sym e) t',
      subst Unique (sym e) q',
    )

unmarked : (b : Bool) → b ≡ true → b ≡ false → ⊥
unmarked b e f = cc

take_sample-Received :
    (h : List Sent) (st : RttStats) (p : RttPeer) (s : RttSlot) (ack now : ℕ)
    → IsTracking h p
    → Tracked h s
    → s.seq ≡ ack
    → Received h ack now (take_sample st p s now)
unfolding take_sample
take_sample-Received h st p s ack now k t e = elim (Bool-cases s.ambiguous) [
  | inl f ↦ simp f (k, inl refl)
  | inr f ↦ elim (Bool-cases (ltb now s.sent_ms || ltb rtt_max_sample_ms (now - s.sent_ms))) [
    | inl g ↦ simp (f, g) (k, inl refl)
    | inr g ↦
        let sent : LastSent h s.seq s.sent_ms = elim t.1 [
          | inl b ↦ absurd (unmarked s.ambiguous b f)
          | inr l ↦ l
        ] in
        simp (f, g)
          (
            count_sample-IsTracking h p (now - s.sent_ms) k,
            inr (
              s.sent_ms,
              subst (λ m. LastSent h m s.sent_ms) e sent,
              ground arith,
              refl,
              ground arith,
            ),
          )
  ]
]

acknowledge-Received :
    (h : List Sent) (st : RttStats) (p : RttPeer) (ack now : ℕ)
    → IsTracking h p
    → Received h ack now (acknowledge st p ack now)
unfolding acknowledge
acknowledge-Received h st p ack now k =
    let test = λ (s : RttSlot). s.seq == ack in
    elim (Option-cases (find_index? test (outstanding p))) [
      | inl f ↦ rw (f, acknowledge) (k, inl refl)
      | inr (j, f) ↦
          let hit =
            subst (Found test zero_slot 0 (outstanding p)) f
              (find_index?-Found test zero_slot (outstanding p)) in
          let l : j < p.used =
            omega (arith, hit.1, length-window zero_slot rtt_slots p.slots p.head p.used) in
          let s = get_or p.slots ((p.head + j) % rtt_slots) zero_slot in
          let here : get_or (outstanding p) j zero_slot ≡ s =
            window-get zero_slot rtt_slots p.slots p.head p.used j l in
          rw (f, acknowledge)
            (take_sample-Received h st (retire p (j + 1)) s ack now
              (retire-IsTracking h p (j + 1) k (omega arith))
              (subst (Tracked h) here
                (All-get (Tracked h) (outstanding p) j zero_slot k.3 (omega (arith, hit.1))))
              (ap (λ (x : RttSlot). x.seq) (sym here) ∙ ground (arith, hit.2)))
    ]

recv_ack-Received :
    (h : List Sent) (st : RttStats) (p : RttPeer) (ack now : ℕ)
    → IsTracking h p
    → Received h ack now (recv_ack st p ack now)
unfolding recv_ack
recv_ack-Received h st p ack now k =
    elim (Bool-cases (p.ack_init && leb_ℤ (seq_cmp ack p.last_ack) (pos 0))) [
      | inl e ↦ rw (e, recv_ack) (k, inl refl)
      | inr e ↦
          let st' : RttStats = record st { acks_seen = inc64 st.acks_seen } in
          rw (e, recv_ack)
            (acknowledge-Received h st' (record p { last_ack = ack; ack_init = true }) ack now k)
    ]

-- The traffic with one peer: a reliable datagram out, or an acknowledgement in.
pub data Traffic : Type 0 where
  sends : ℕ → ℕ → Traffic
  acks : ℕ → ℕ → Traffic

unfoldable pub pass : List Sent × RttStats × RttPeer → Traffic → List Sent × RttStats × RttPeer
pass (h, st, p) (sends seq now) =
    let (st', p') = send_seq st p seq now in (record { seq = seq; at = now } ∷ h, st', p')
pass (h, st, p) (acks ack now) = let (r, st', p') = recv_ack st p ack now in (h, st', p')

unfoldable pub pass_all :
    List Sent × RttStats × RttPeer → List Traffic → List Sent × RttStats × RttPeer
pass_all s [] = s
pass_all s (e ∷ es) = pass_all (pass s e) es

abbrev Follows : List Sent × RttStats × RttPeer → Type 0
Follows (h, st, p) = IsTracking h p

pass-Follows : (s : List Sent × RttStats × RttPeer) (e : Traffic) → Follows s → Follows (pass s e)
unfolding pass
pass-Follows (h, st, p) (sends seq now) k = send_seq-IsTracking h st p seq now k
pass-Follows (h, st, p) (acks ack now) k = (recv_ack-Received h st p ack now k).0

pass_all-Follows :
    (s : List Sent × RttStats × RttPeer) (es : List Traffic) → Follows s → Follows (pass_all s es)
unfolding pass_all
pass_all-Follows s [] k = k
pass_all-Follows s (e ∷ es) k = pass_all-Follows (pass s e) es (pass-Follows s e k)

-- Start with an empty ring and let any datagrams go out to the peer and any acknowledgements come
-- back. The value that the next acknowledgement yields is 0, for no sample, or the exact time since
-- the newest copy of the acknowledged sequence went out, and then it is at most 30 seconds: no
-- sample is timed against an older copy of a sequence that was sent again.
pub sample-Measures :
    (st : RttStats) (es : List Traffic) (ack now : ℕ)
    → let s = pass_all ([], st, zero_peer) es in Measures s.0 ack now (recv_ack s.1 s.2 ack now).0
sample-Measures st es ack now =
    let s = pass_all ([], st, zero_peer) es in
    let start : IsTracking [] zero_peer =
      (omega arith, omega arith, omega (arith, length-replicate rtt_slots zero_slot), tt, tt) in
    (recv_ack-Received s.0 s.1 s.2 ack now (pass_all-Follows ([], st, zero_peer) es start)).1
