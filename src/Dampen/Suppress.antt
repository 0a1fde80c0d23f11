-- ===== src/Dampen/Suppress.antt =====
-- `dampen_admit` and the history of what it let through, over any sequence of the operations.
use battlezone_netcode_patch.Prelude.{
  ℕ, ◌+◌, ◌%◌, ◌<◌, ◌≡◌, ◌∙◌, sym, ap, subst, refl, inl, inr, some, List, ◌∷◌, All-get, get_or,
  arith, Bool-cases, Option-cases, ltb, ◌==◌, sub64, inc64,
}
use battlezone_netcode_patch.Prelude.Int.{ltb_ℤ, pos}
use battlezone_netcode_patch.Prelude.Scan.{find_index?, find_index?-Found, Found}
use battlezone_netcode_patch.Prelude.Ring.{length-window, window-get}
use battlezone_netcode_patch.Reorder.Seq.{seq_cmp}
use battlezone_netcode_patch.Dampen.{
  DampenDecision, send, suppress, DampenEntry, DampenPeer, DampenStats, dampen_slots, dampen_max_ms,
  dampen_window_for, zero_entry,
}
use battlezone_netcode_patch.Dampen.Peer.{recent, dampen_add_slot}
use battlezone_netcode_patch.Dampen.Admit.{
  raise_high, first_copy, later_copy, is_restart, admit_seq,
}
use battlezone_netcode_patch.Dampen.Sound.{
  Copy, WasSent, IsKnown, IsSound, window_for_bounds, later-IsSound, add_slot-IsSound,
  set_entry-IsSound,
}

-- The copy was sent to this peer at `t`, and less than the ceiling ago.
abbrev pub Redundant : List Copy → ℕ → ℕ → ℕ → Type 0
Redundant h addr seq now =
    (t : ℕ) × WasSent h (record { addr = addr; seq = seq; at = t }) × (sub64 now t < dampen_max_ms)

abbrev pub logged : List Copy → ℕ → ℕ → ℕ → DampenDecision → List Copy
logged h addr seq now send = record { addr = addr; seq = seq; at = now } ∷ h
logged h addr seq now suppress = h

-- What a decision must be, for the peer `addr` and a sequence.
abbrev pub Admitted : List Copy → ℕ → ℕ → ℕ → DampenDecision × DampenStats × DampenPeer → Type 0
Admitted h addr seq now (send, st, p) =
    (p.addr ≡ addr) × IsSound (record { addr = addr; seq = seq; at = now } ∷ h) p
Admitted h addr seq now (suppress, st, p) = (p.addr ≡ addr) × IsSound h p × Redundant h addr seq now

raise_high-IsSound :
    (h : List Copy) (p : DampenPeer) (seq : ℕ)
    → IsSound h p
    → ((raise_high p seq).addr ≡ p.addr) × IsSound h (raise_high p seq)
unfolding raise_high
raise_high-IsSound h p seq s = elim (Bool-cases (ltb_ℤ (pos 0) (seq_cmp seq p.high_seq))) [
  | inl e ↦ simp e (refl, s)
  | inr e ↦ simp e (refl, s)
]

add_slot_addr : (p : DampenPeer) (e : DampenEntry) → (dampen_add_slot p e).addr ≡ p.addr
unfolding dampen_add_slot
add_slot_addr p e = ground arith

first_copy-Admitted :
    (h : List Copy) (st : DampenStats) (p : DampenPeer) (seq now : ℕ)
    → IsSound h p
    → Admitted h p.addr seq now (first_copy st p seq now)
unfolding first_copy
first_copy-Admitted h st p seq now s =
    let e : DampenEntry = record {
      seq = seq;
      last_sent_ms = now;
      window_ms = dampen_window_for p;
    } in
    let x : Copy = record { addr = p.addr; seq = seq; at = now } in
    (
      add_slot_addr p e,
      add_slot-IsSound (x ∷ h) p e (later-IsSound h x p s) (inl refl, (window_for_bounds p).1),
    )

later_copy-Admitted :
    (h : List Copy) (st : DampenStats) (p : DampenPeer) (k seq len now : ℕ)
    → IsSound h p
    → k < p.used
    → (get_or p.slots ((p.head + k) % dampen_slots) zero_entry).seq ≡ seq
    → IsKnown h p.addr (get_or p.slots ((p.head + k) % dampen_slots) zero_entry)
    → Admitted h p.addr seq now (later_copy st p k len now)
unfolding later_copy
later_copy-Admitted h st p k seq len now s l es known =
    let e = get_or p.slots ((p.head + k) % dampen_slots) zero_entry in
    let x : Copy = record { addr = p.addr; seq = seq; at = now } in
    elim (Bool-cases (ltb (sub64 now e.last_sent_ms) e.window_ms)) [
      | inl f ↦ simp f (
        refl,
        s,
        (
          e.last_sent_ms,
          subst (λ q. WasSent h (record { addr = p.addr; seq = q; at = e.last_sent_ms })) es
              known.0,
          ground (arith, known.1),
        ),
      )
      | inr f ↦ simp f (
        refl,
        set_entry-IsSound (x ∷ h) p k _ (later-IsSound h x p s) l
            (inl (ap (λ q. record { addr = p.addr; seq = q; at = now }) es), ground arith),
      )
    ]

-- The copy that the loop found.
found_copy-Admitted :
    (h : List Copy) (st : DampenStats) (p : DampenPeer) (k seq len now : ℕ)
    → IsSound h p
    → find_index? (λ (e : DampenEntry). e.seq == seq) (recent p) ≡ some k
    → Admitted h p.addr seq now (later_copy st p k len now)
found_copy-Admitted h st p k seq len now s f =
    let hit =
      subst (Found (λ (e : DampenEntry). e.seq == seq) zero_entry 0 (recent p)) f
        (find_index?-Found (λ (e : DampenEntry). e.seq == seq) zero_entry (recent p)) in
    let l : k < p.used =
      omega (arith, hit.1, length-window zero_entry dampen_slots p.slots p.head p.used) in
    let here : get_or (recent p) k zero_entry
        ≡ get_or p.slots ((p.head + k) % dampen_slots) zero_entry =
      window-get zero_entry dampen_slots p.slots p.head p.used k l in
    later_copy-Admitted h st p k seq len now s l
      (ap (λ (e : DampenEntry). e.seq) (sym here) ∙ ground (arith, hit.2))
      (subst (IsKnown h p.addr) here
        (All-get (IsKnown h p.addr) (recent p) k zero_entry s.3 (omega (arith, hit.1))))

raise_high-recent : (p : DampenPeer) (seq : ℕ) → recent (raise_high p seq) ≡ recent p
unfolding raise_high
raise_high-recent p seq = elim (Bool-cases (ltb_ℤ (pos 0) (seq_cmp seq p.high_seq))) [
  | inl e ↦ simp e
  | inr e ↦ simp e
]

pub admit_seq-Admitted :
    (h : List Copy) (st : DampenStats) (p : DampenPeer) (seq len now : ℕ)
    → IsSound h p
    → Admitted h p.addr seq now (admit_seq st p seq len now)
unfolding admit_seq
admit_seq-Admitted h st p seq len now s =
    let cleared : DampenPeer = record p { used = 0; head = 0; high_seq = seq } in
    let after = raise_high-IsSound h cleared seq (omega arith, omega arith, s.2, tt) in
    let raised = raise_high-IsSound h p seq s in
    let st' : DampenStats = record st { epoch_resets = inc64 st.epoch_resets } in
    let same = raise_high-recent p seq in
    elim (Bool-cases (is_restart p seq)) [
      | inl e ↦ rw e (
          subst (λ a. Admitted h a seq now (first_copy st' (raise_high cleared seq) seq now))
            after.0 (first_copy-Admitted h st' (raise_high cleared seq) seq now after.1))
      | inr e ↦
          rw e (elim (Option-cases (find_index? (λ (x : DampenEntry). x.seq == seq) (recent p))) [
            | inl f ↦ rw f (
                subst (λ a. Admitted h a seq now (first_copy st (raise_high p seq) seq now))
                  raised.0 (first_copy-Admitted h st (raise_high p seq) seq now raised.1))
            | inr (k, f) ↦ rw f (
                subst (λ a. Admitted h a seq now (later_copy st (raise_high p seq) k len now))
                  raised.0
                  (found_copy-Admitted h st (raise_high p seq) k seq len now raised.1
                    (ap (find_index? (λ (x : DampenEntry). x.seq == seq)) same ∙ f)))
          ])
    ]
