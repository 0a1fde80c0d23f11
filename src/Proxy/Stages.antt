-- ===== src/Proxy/Stages.antt =====
-- What the stages of the send hooks leave alone.
use battlezone_netcode_patch.Prelude.{
  ℕ, ◌≡◌, refl, inl, inr, false, ◌&&◌, Option, none, some, List, [], arith, Bool-cases, ◌==◌,
}
use battlezone_netcode_patch.Prelude.Int.{ℤ, pos, leb_ℤ, pos_part}
use battlezone_netcode_patch.Dampen.{DampenDecision, send, suppress, DampenCtx}
use battlezone_netcode_patch.Dampen.Admit.{dampen_admit}
use battlezone_netcode_patch.Proxy.{Sockaddr}
use battlezone_netcode_patch.Proxy.Dup.{DupState, roll_bucket, dup_append, dup_enqueue}
use battlezone_netcode_patch.Proxy.Send.{TxState, is_peer, after_admit, dampen_stage, rtt_stage}
use battlezone_netcode_patch.Proxy.SendTo.{SendArgs, is_duplicable, dup_stage}
use battlezone_netcode_patch.Proxy.Offer.{SameQueue, observe-SameQueue}

-- The queue of the pacer and the switches are left alone, and so is the delay of duplicates.
pub record Keeps (s s' : TxState) : Type 0 where
  pub queue : SameQueue s.tx s'.tx
  pub ready : s'.pace_ready ≡ s.pace_ready
  pub has : s'.has_sendto ≡ s.has_sendto
  pub dups : s'.send_dup ≡ s.send_dup
  pub delay : s'.dup.delay_ms ≡ s.dup.delay_ms

abbrev pub all_kept : (s : TxState) → Keeps s s
all_kept s = record {
  queue = (refl, refl, refl, refl);
  ready = refl;
  has = refl;
  dups = refl;
  delay = refl;
}

admitted-Keeps :
    (s : TxState) (sock len now : ℕ) (r : DampenDecision × DampenCtx)
    → Keeps s (after_admit s sock len now r).1
unfolding after_admit
admitted-Keeps s sock len now (send, d) = record {
  queue = (refl, refl, refl, refl);
  ready = refl;
  has = refl;
  dups = refl;
  delay = refl;
}
admitted-Keeps s sock len now (suppress, d) = record {
  queue = observe-SameQueue s.tx len now;
  ready = refl;
  has = refl;
  dups = refl;
  delay = refl;
}

pub dampen-Keeps :
    (s : TxState) (sock len now : ℕ) (bytes : List ℕ) (to : Sockaddr)
    → Keeps s (dampen_stage s sock bytes len to now).1
unfolding dampen_stage
dampen-Keeps s sock len now bytes to =
    elim (Bool-cases (s.dampen.enabled && s.pace_ready && is_peer to)) [
      | inl e ↦
          simp e (admitted-Keeps s sock len now (dampen_admit s.dampen to.in_addr bytes len now))
      | inr e ↦ simp e (all_kept s)
    ]

pub rtt-Keeps :
    (s : TxState) (bytes : List ℕ) (len now : ℕ) (to : Sockaddr)
    → Keeps s (rtt_stage s bytes len to now)
unfolding rtt_stage
rtt-Keeps s bytes len now to = elim (Bool-cases (s.rtt.enabled && s.rtt_ready && is_peer to)) [
  | inl e ↦ simp e (record {
    queue = (refl, refl, refl, refl);
    ready = refl;
    has = refl;
    dups = refl;
    delay = refl;
  })
  | inr e ↦ simp e (all_kept s)
]

pub enqueue_delay :
    (d : DupState) (sock len now : ℕ) (buf : Option (List ℕ)) (to : Option Sockaddr) (tolen : ℤ)
    → (dup_enqueue d sock buf len to tolen now).delay_ms ≡ d.delay_ms
unfolding dup_enqueue dup_append roll_bucket
enqueue_delay d sock len now none to tolen = refl
enqueue_delay d sock len now (some bytes) none tolen = refl
enqueue_delay d sock len now (some bytes) (some to) tolen = ground arith

-- Without immediate duplicates this stage sends nothing.
pub dup_later :
    (s : TxState) (a : SendArgs) (rc : ℤ) (now : ℕ)
    → (s.send_dup && s.dup.delay_ms == 0) ≡ false
    → ((dup_stage s a rc now).0 ≡ []) × Keeps s (dup_stage s a rc now).1
unfolding dup_stage
dup_later s a rc now h = elim (Bool-cases (s.send_dup && leb_ℤ (pos 0) rc && is_duplicable a)) [
  | inl e ↦
      let z : (s.dup.delay_ms == 0) ≡ false = ground arith in
      simp (e, z)
        (
          refl,
          record {
            queue = (refl, refl, refl, refl);
            ready = refl;
            has = refl;
            dups = refl;
            delay = enqueue_delay s.dup a.sock (pos_part a.len) now a.buf a.to a.tolen;
          },
        )
  | inr e ↦ simp e (refl, all_kept s)
]
