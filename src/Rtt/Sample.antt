-- ===== src/Rtt/Sample.antt =====
-- `rtt_on_recv` of shared/net_rtt.h: a sample from the acknowledgement of an inbound datagram.
use battlezone_netcode_patch.Prelude.{
  ℕ, zero, suc, ◌+◌, ◌-◌, ◌/◌, ◌%◌, true, false, not, ◌&&◌, ◌||◌, none, some, List, get_or, set,
  ltb, ◌==◌, if◌then◌else◌, add32, sub32, mul32, add64, inc64,
}
use battlezone_netcode_patch.Prelude.Int.{pos, leb_ℤ}
use battlezone_netcode_patch.Prelude.Scan.{find_index?}
use battlezone_netcode_patch.Reorder.Seq.{seq_cmp}
use battlezone_netcode_patch.Reorder.Wire.{reorder_ack_from_payload}
use battlezone_netcode_patch.Rtt.{
  RttSlot, RttPeer, RttStats, RttCtx, rtt_slots, rtt_max_sample_ms, zero_slot,
}
use battlezone_netcode_patch.Rtt.Peer.{peer_at, outstanding, rtt_get_peer, is_ignored}

unfoldable pub clear_loop : ℕ → ℕ → ℕ → List RttSlot → List RttSlot
clear_loop h i zero slots = slots
clear_loop h i (suc n) slots =
    let j = (h + i) % rtt_slots in
    clear_loop h (i + 1) n (set slots j (record (get_or slots j zero_slot) { used = false }))

-- The `n` oldest slots leave the ring.
unfoldable pub retire : RttPeer → ℕ → RttPeer
retire p n = record p {
  slots = clear_loop p.head 0 n p.slots;
  head = (p.head + n) % rtt_slots;
  used = sub32 p.used n;
}

unfoldable pub lower : ℕ → ℕ → ℕ
lower m r = if m == 0 || ltb r m then r else m

unfoldable pub higher : ℕ → ℕ → ℕ
higher m r = if ltb m r then r else m

unfoldable pub smooth : RttPeer → ℕ → RttPeer
smooth p r =
    let delta = if ltb p.srtt_ms r then sub32 r p.srtt_ms else sub32 p.srtt_ms r in
    if not p.srtt_init
    then record p { srtt_ms = r; rttvar_ms = r / 2; srtt_init = true }
    else record p {
      rttvar_ms = add32 (mul32 3 p.rttvar_ms) delta / 4;
      srtt_ms = add32 (mul32 7 p.srtt_ms) r / 8;
    }

unfoldable pub count_sample : RttPeer → ℕ → RttPeer
count_sample p r =
    smooth
      (record p {
        samples = inc64 p.samples;
        sum_ms = add64 p.sum_ms r;
        min_ms = lower p.min_ms r;
        max_ms = higher p.max_ms r;
        win_samples = inc64 p.win_samples;
        win_sum_ms = add64 p.win_sum_ms r;
        win_min_ms = lower p.win_min_ms r;
        win_max_ms = higher p.win_max_ms r;
      })
      r

-- The value returned, 0 for no sample, with the acknowledged slot `s` already out of the ring.
unfoldable pub take_sample : RttStats → RttPeer → RttSlot → ℕ → ℕ × RttStats × RttPeer
take_sample st p s now =
    if s.ambiguous
    then (0, record st { discarded_ambig = inc64 st.discarded_ambig }, p)
    else if ltb now s.sent_ms || ltb rtt_max_sample_ms (now - s.sent_ms)
    then (0, record st { discarded_range = inc64 st.discarded_range }, p)
    else (
      now - s.sent_ms,
      record st { samples = inc64 st.samples },
      count_sample p (now - s.sent_ms),
    )

unfoldable pub acknowledge : RttStats → RttPeer → ℕ → ℕ → ℕ × RttStats × RttPeer
acknowledge st p ack now = elim (find_index? (λ (s : RttSlot). s.seq == ack) (outstanding p)) [
  | none ↦ (0, record st { unmatched = inc64 st.unmatched }, p)
  | some k ↦
      take_sample st (retire p (k + 1)) (get_or p.slots ((p.head + k) % rtt_slots) zero_slot) now
]

unfoldable pub recv_ack : RttStats → RttPeer → ℕ → ℕ → ℕ × RttStats × RttPeer
recv_ack st p ack now =
    if p.ack_init && leb_ℤ (seq_cmp ack p.last_ack) (pos 0)
    then (0, st, p)
    else acknowledge (record st { acks_seen = inc64 st.acks_seen })
        (record p { last_ack = ack; ack_init = true }) ack now

unfoldable pub rtt_on_recv : RttCtx → ℕ → List ℕ → ℕ → ℕ → ℕ × RttCtx
rtt_on_recv c addr pay len now =
    if is_ignored c addr len
    then (0, c)
    else let (i, c') = rtt_get_peer c addr now in
      let (r, st, p) = recv_ack c'.st (peer_at c' i) (reorder_ack_from_payload pay) now in
      (r, record c' { peers = set c'.peers i p; st = st })
