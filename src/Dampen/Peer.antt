-- ===== src/Dampen/Peer.antt =====
-- The peer table and the ring of one peer, as shared/send_dampen.h keeps them.
use battlezone_netcode_patch.Prelude.{
  ℕ, ◌+◌, ◌-◌, ◌/◌, ◌%◌, ◌^◌, Bool, not, ◌&&◌, ◌||◌, Option, none, some, List, get_or, set, ltb,
  ◌==◌, if◌then◌else◌, inc64, to_u32,
}
use battlezone_netcode_patch.Prelude.Int.{ℤ, pos, negsuc, ◌+ℤ◌, ◌-ℤ◌, signed32}
use battlezone_netcode_patch.Prelude.Scan.{find_index?, min_index}
use battlezone_netcode_patch.Prelude.Ring.{window}
use battlezone_netcode_patch.Dampen.{
  DampenEntry, DampenPeer, DampenCtx, dampen_slots, zero_entry, zero_peer, dampen_invalid_sock,
}

abbrev pub peer_at : DampenCtx → ℕ → DampenPeer
peer_at c i = get_or c.peers i zero_peer

abbrev pub put_peer : DampenCtx → ℕ → DampenPeer → DampenCtx
put_peer c i p = record c { peers = set c.peers i p }

unfoldable pub find_peer : DampenCtx → ℕ → Option ℕ
find_peer c addr = find_index? (λ (p : DampenPeer). p.addr == addr) c.peers

-- The entry `i`, zeroed and claimed for `addr`.
abbrev pub claimed : DampenCtx → ℕ → ℕ → ℕ → ℕ × DampenCtx
claimed c i addr now = (i, put_peer c i (record zero_peer { addr = addr; last_use_ms = now }))

unfoldable pub evict : DampenCtx → ℕ → ℕ → ℕ × DampenCtx
evict c addr now =
    let oldest = min_index (λ (p : DampenPeer). p.last_use_ms) c.peers in
    claimed (record c { st = record (c.st) { peers_evicted = inc64 c.st.peers_evicted } }) oldest
      addr now

unfoldable pub dampen_get_peer : DampenCtx → ℕ → ℕ → ℕ × DampenCtx
dampen_get_peer c addr now = elim (find_peer c addr) [
  | some i ↦ (i, put_peer c i (record (peer_at c i) { last_use_ms = now }))
  | none ↦ elim (find_peer c 0) [ some i ↦ claimed c i addr now | none ↦ evict c addr now ]
]

-- The entries of the ring, oldest first: those that the loops over `(head + i) % kDampenSlots` visit.
abbrev pub recent : DampenPeer → List DampenEntry
recent p = window zero_entry dampen_slots p.slots p.head p.used

-- A slot is added and filled with `e`; in a full ring it is the oldest one's.
unfoldable pub dampen_add_slot : DampenPeer → DampenEntry → DampenPeer
dampen_add_slot p e =
    if ltb p.used dampen_slots
    then record p { slots = set p.slots ((p.head + p.used) % dampen_slots) e; used = p.used + 1 }
    else record p { slots = set p.slots p.head e; head = (p.head + 1) % dampen_slots }

unfoldable pub dampen_purge_peer : DampenCtx → ℕ → DampenCtx
dampen_purge_peer c addr = elim (find_peer c addr) [ some i ↦ put_peer c i zero_peer | none ↦ c ]

unfoldable pub dampen_set_rtt : DampenCtx → ℕ → ℕ → DampenCtx
dampen_set_rtt c addr rtt_ms = if not c.enabled || rtt_ms == 0 then c else elim (find_peer c addr) [
  | some i ↦ put_peer c i (record (peer_at c i) { rtt_ewma_ms = rtt_ms })
  | none ↦ c
]

-- x >> 3 on an int32_t, rounding towards minus infinity.
unfoldable pub shift_right3 : ℤ → ℤ
shift_right3 (pos n) = pos (n / 8)
shift_right3 (negsuc n) = negsuc (n / 8)

-- The low 32 bits of an integer.
unfoldable pub to_bits32 : ℤ → ℕ
to_bits32 (pos n) = n % 2 ^ 32
to_bits32 (negsuc n) = 2 ^ 32 - 1 - n % 2 ^ 32

unfoldable pub ewma : ℕ → ℕ → ℕ
ewma old sample =
    if old == 0
    then sample
    else let delta = signed32 (to_bits32 (signed32 sample -ℤ signed32 old)) in
      to_bits32 (signed32 old +ℤ shift_right3 delta)

unfoldable pub dampen_observe_ack : DampenCtx → ℕ → ℕ → ℕ → DampenCtx
dampen_observe_ack c addr acked now = if not c.enabled then c else elim (find_peer c addr) [
  | none ↦ c
  | some i ↦
      let p = peer_at c i in
      elim (find_index? (λ (e : DampenEntry). e.seq == acked) (recent p)) [
        | none ↦ c
        | some k ↦
            let sent = (get_or (recent p) k zero_entry).last_sent_ms in
            let sample = if ltb sent now then to_u32 (now - sent) else 0 in
            put_peer c i (record p { rtt_ewma_ms = ewma p.rtt_ewma_ms sample })
      ]
]

unfoldable pub dampen_close_ends_session : ℕ → ℕ → Bool
dampen_close_ends_session closing sock =
    not (sock == 0 || sock == dampen_invalid_sock) && closing == sock
