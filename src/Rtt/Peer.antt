-- ===== src/Rtt/Peer.antt =====
-- The peer table of shared/net_rtt.h and the record of an outbound datagram.
use battlezone_netcode_patch.Prelude.{
  ℕ, ◌+◌, ◌-◌, ◌%◌, Bool, true, false, not, ◌&&◌, ◌||◌, Option, none, some, List, [], ◌∷◌, map,
  get_or, set, take, ltb, ◌==◌, ◌!=◌, if◌then◌else◌, sub64, inc64,
}
use battlezone_netcode_patch.Prelude.Scan.{find_index?, min_index}
use battlezone_netcode_patch.Prelude.Ring.{window}
use battlezone_netcode_patch.Reorder.{reorder_seq_min_pay}
use battlezone_netcode_patch.Reorder.Wire.{reorder_is_reliable, reorder_seq_from_payload}
use battlezone_netcode_patch.Rtt.{
  RttSlot, RttPeer, RttStats, RttCtx, rtt_slots, zero_slot, zero_peer,
}

abbrev pub peer_at : RttCtx → ℕ → RttPeer
peer_at c i = get_or c.peers i zero_peer

abbrev pub put_peer : RttCtx → ℕ → RttPeer → RttCtx
put_peer c i p = record c { peers = set c.peers i p }

unfoldable pub find_peer : RttCtx → ℕ → Option ℕ
find_peer c addr = find_index? (λ (p : RttPeer). p.addr == addr) c.peers

-- The entry `i`, zeroed and claimed for `addr`.
abbrev pub claimed : RttCtx → ℕ → ℕ → ℕ → ℕ × RttCtx
claimed c i addr now = (i, put_peer c i (record zero_peer { addr = addr; last_use_ms = now }))

unfoldable pub evict : RttCtx → ℕ → ℕ → ℕ × RttCtx
evict c addr now =
    let oldest = min_index (λ (p : RttPeer). p.last_use_ms) c.peers in
    claimed (record c { st = record (c.st) { peers_evicted = inc64 c.st.peers_evicted } }) oldest
      addr now

unfoldable pub rtt_get_peer : RttCtx → ℕ → ℕ → ℕ × RttCtx
rtt_get_peer c addr now = elim (find_peer c addr) [
  | some i ↦ (i, put_peer c i (record (peer_at c i) { last_use_ms = now }))
  | none ↦ elim (find_peer c 0) [ some i ↦ claimed c i addr now | none ↦ evict c addr now ]
]

unfoldable pub rtt_purge_peer : RttCtx → ℕ → RttCtx
rtt_purge_peer c addr = elim (find_peer c addr) [ some i ↦ put_peer c i zero_peer | none ↦ c ]

-- The outstanding slots, oldest first: those that the loops over `(head + i) % kRttSlots` visit.
abbrev pub outstanding : RttPeer → List RttSlot
outstanding p = window zero_slot rtt_slots p.slots p.head p.used

-- The slot `k` of the ring was sent again: an acknowledgement of it cannot be attributed.
unfoldable pub spoil : RttStats → RttPeer → ℕ → RttStats × RttPeer
spoil st p k =
    let i = (p.head + k) % rtt_slots in
    let s = get_or p.slots i zero_slot in
    if s.ambiguous then (st, p) else (
      record st { sends_ambiguous = inc64 st.sends_ambiguous },
      record p { slots = set p.slots i (record s { ambiguous = true }) },
    )

-- In a full ring the oldest slot is forgotten.
unfoldable pub make_room : RttStats → RttPeer → RttStats × RttPeer
make_room st p =
    if p.used == rtt_slots
    then (
      (if (get_or p.slots p.head zero_slot).used
          then record st { slots_evicted = inc64 st.slots_evicted }
          else st),
      record p { head = (p.head + 1) % rtt_slots; used = p.used - 1 },
    )
    else (st, p)

unfoldable pub track : RttStats × RttPeer → ℕ → ℕ → RttStats × RttPeer
track (st, p) seq now = (
  record st { sends_tracked = inc64 st.sends_tracked },
  record p {
    slots =
        set p.slots ((p.head + p.used) % rtt_slots)
          (record { seq = seq; sent_ms = now; used = true; ambiguous = false });
    used = p.used + 1;
  },
)

unfoldable pub send_seq : RttStats → RttPeer → ℕ → ℕ → RttStats × RttPeer
send_seq st p seq now =
    elim (find_index? (λ (s : RttSlot). s.used && s.seq == seq) (outstanding p)) [
      | some k ↦ spoil st p k
      | none ↦ track (make_room st p) seq now
    ]

unfoldable pub is_ignored : RttCtx → ℕ → ℕ → Bool
is_ignored c addr len = not c.enabled || ltb len reorder_seq_min_pay || addr == 0

unfoldable pub rtt_on_send : RttCtx → ℕ → List ℕ → ℕ → ℕ → RttCtx
rtt_on_send c addr pay len now =
    if is_ignored c addr len || not (reorder_is_reliable pay)
    then c
    else let (i, c') = rtt_get_peer c addr now in
      let (st, p) = send_seq c'.st (peer_at c' i) (reorder_seq_from_payload pay) now in
      record c' { peers = set c'.peers i p; st = st }

unfoldable pub rtt_trace_due : RttCtx → ℕ → Bool × RttCtx
rtt_trace_due c now =
    if not c.enabled || c.trace_ms == 0 || ltb (sub64 now c.last_trace_ms) c.trace_ms
    then (false, c)
    else (true, record c { last_trace_ms = now })

unfoldable pub rtt_window_reset : RttCtx → RttCtx
rtt_window_reset c = record c {
  peers =
      map
        (λ (p : RttPeer). record p {
          win_samples = 0;
          win_sum_ms = 0;
          win_min_ms = 0;
          win_max_ms = 0;
        })
        c.peers;
}

-- The addresses of the peers that have samples; the buffer takes `cap` of them.
unfoldable pub active_loop : List RttPeer → List ℕ
active_loop [] = []
active_loop (p ∷ ps) =
    let rest = active_loop ps in if p.addr != 0 && ltb 0 p.samples then p.addr ∷ rest else rest

unfoldable pub rtt_active_peers : RttCtx → ℕ → List ℕ
rtt_active_peers c cap = take cap (active_loop c.peers)
