-- ===== src/Dampen/Admit.antt =====
-- `dampen_admit` of shared/send_dampen.h: is this outbound datagram a redundant copy?
use battlezone_netcode_patch.Prelude.{
  ℕ, ◌+◌, ◌%◌, Bool, not, ◌&&◌, none, some, List, get_or, set, ltb, leb, ◌==◌, if◌then◌else◌, sub64,
  add64, inc64, mul32,
}
use battlezone_netcode_patch.Prelude.Int.{pos, ltb_ℤ}
use battlezone_netcode_patch.Prelude.Scan.{find_index?}
use battlezone_netcode_patch.Reorder.{reorder_seq_min_pay}
use battlezone_netcode_patch.Reorder.Seq.{seq_cmp}
use battlezone_netcode_patch.Reorder.Wire.{reorder_is_reliable, reorder_seq_from_payload}
use battlezone_netcode_patch.Dampen.{
  DampenDecision, send, suppress, DampenEntry, DampenPeer, DampenStats, DampenCtx, dampen_slots,
  dampen_max_ms, dampen_window_for, zero_entry,
}
use battlezone_netcode_patch.Dampen.Peer.{peer_at, dampen_get_peer, recent, dampen_add_slot}

-- The peer restarted its counter: the sequence is behind the oldest one retained.
unfoldable pub is_restart : DampenPeer → ℕ → Bool
is_restart p seq =
    ltb 0 p.used && ltb_ℤ (seq_cmp seq (get_or p.slots p.head zero_entry).seq) (pos 0)

unfoldable pub raise_high : DampenPeer → ℕ → DampenPeer
raise_high p seq = if ltb_ℤ (pos 0) (seq_cmp seq p.high_seq) then record p { high_seq = seq } else p

-- The first copy of a sequence is recorded and sent.
unfoldable pub first_copy :
    DampenStats → DampenPeer → ℕ → ℕ → DampenDecision × DampenStats × DampenPeer
first_copy st p seq now = (
  send,
  (if leb dampen_slots p.used then record st { tbl_full = inc64 st.tbl_full } else st),
  dampen_add_slot p (record { seq = seq; last_sent_ms = now; window_ms = dampen_window_for p }),
)

-- A later copy, whose sequence is entry `k` of the ring.
unfoldable pub later_copy :
    DampenStats → DampenPeer → ℕ → ℕ → ℕ → DampenDecision × DampenStats × DampenPeer
later_copy st p k len now =
    let i = (p.head + k) % dampen_slots in
    let e = get_or p.slots i zero_entry in
    if ltb (sub64 now e.last_sent_ms) e.window_ms
    then (
      suppress,
      record st { suppressed = inc64 st.suppressed; bytes_saved = add64 st.bytes_saved len },
      p,
    )
    else let doubled = mul32 e.window_ms 2 in
      (
        send,
        st,
        record p {
          slots = set p.slots i (record e {
            last_sent_ms = now;
            window_ms = if ltb dampen_max_ms doubled then dampen_max_ms else doubled;
          });
        },
      )

-- The decision for a sequence, with the peer's entry at hand.
unfoldable pub admit_seq :
    DampenStats → DampenPeer → ℕ → ℕ → ℕ → DampenDecision × DampenStats × DampenPeer
admit_seq st p seq len now =
    if is_restart p seq
    then first_copy (record st { epoch_resets = inc64 st.epoch_resets })
        (raise_high (record p { used = 0; head = 0; high_seq = seq }) seq) seq now
    else elim (find_index? (λ (e : DampenEntry). e.seq == seq) (recent p)) [
      | none ↦ first_copy st (raise_high p seq) seq now
      | some k ↦ later_copy st (raise_high p seq) k len now
    ]

unfoldable pub admit_peer : DampenCtx → ℕ → ℕ → ℕ → ℕ → DampenDecision × DampenCtx
admit_peer c addr seq len now =
    let (i, c') = dampen_get_peer c addr now in
    let (d, st, p) = admit_seq c'.st (peer_at c' i) seq len now in
    (d, record c' { peers = set c'.peers i p; st = st })

unfoldable pub dampen_admit : DampenCtx → ℕ → List ℕ → ℕ → ℕ → DampenDecision × DampenCtx
dampen_admit c addr pay len now =
    let c' : DampenCtx = record c { st = record (c.st) { seen = inc64 c.st.seen } } in
    if not c.enabled
    then (send, c')
    else if ltb len reorder_seq_min_pay
    then (send, record c' { st = record (c'.st) { bypass_short = inc64 c'.st.bypass_short } })
    else if not (reorder_is_reliable pay)
    then (send, record c' { st = record (c'.st) { bypass_notretx = inc64 c'.st.bypass_notretx } })
    else admit_peer c' addr (reorder_seq_from_payload pay) len now
