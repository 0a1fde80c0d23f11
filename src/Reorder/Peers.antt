-- ===== src/Reorder/Peers.antt =====
-- The peer table of shared/reorder_core.h: configuration, reset, and the look-up that creates or
-- reclaims an entry. A `PeerBuf *` is the index of its entry in the table.
use Prim.Native.Nat.{bit_or}
use battlezone_netcode_patch.Prelude.{
  ℕ, ◌*◌, ◌^◌, Bool, true, false, ◌&&◌, Option, none, some, [], take, get_or, set, replicate, ltb,
  leb, ◌==◌, ◌!=◌, if◌then◌else◌, sub64, add64, inc64,
}
use battlezone_netcode_patch.Prelude.Scan.{find_index?, min_index}
use battlezone_netcode_patch.Reorder.{
  SockAddr, ReorderSlot, PeerBuf, ReorderStats, ReorderCtx, reorder_slot_cap, reorder_peer_cap,
  reorder_default_ms, reorder_min_ms_def, reorder_peer_idle_ms,
}
use battlezone_netcode_patch.Reorder.Seq.{seq_next}

-- All bytes zero, as `memset` leaves an entry.
abbrev pub zero_slot : ReorderSlot
zero_slot = record {
  ts = 0;
  seq = 0;
  len = 0;
  used = false;
  from = record { addr = 0; port = 0 };
  payload = [];
}

abbrev pub zero_peer : PeerBuf
zero_peer = record {
  key = 0;
  seq_init = false;
  last_seq = 0;
  filled = 0;
  win_ms = 0;
  last_adjust_ms = 0;
  last_activity_ms = 0;
  last_deliver_ms = 0;
  delivered = 0;
  slots = replicate reorder_slot_cap zero_slot;
}

abbrev pub zero_stats : ReorderStats
zero_stats = record {
  delivered_first = 0;
  delivered_in_order = 0;
  delivered_forced = 0;
  delivered_evicted = 0;
  dropped_stale = 0;
  dropped_duplicate = 0;
  purged_stale = 0;
  dropped_reclaim = 0;
  bypass_short = 0;
  bypass_table_full = 0;
  emsgsize = 0;
  truncated = 0;
  peers_reclaimed = 0;
  hold_ms_sum = 0;
  hold_ms_max = 0;
  max_drain_depth = 0;
  hold_hist = replicate 6 0;
}

unfoldable pub reorder_init : ReorderCtx
reorder_init = record {
  adapt = true;
  win_max_ms = reorder_default_ms;
  win_min_ms = reorder_min_ms_def;
  max_hold_ms = reorder_default_ms;
  depth = reorder_slot_cap;
  peers = reorder_peer_cap;
  tbl = replicate reorder_peer_cap zero_peer;
  rr = 0;
  stats = zero_stats;
}

unfoldable pub reorder_reset : ReorderCtx → ReorderCtx
reorder_reset c = record c { tbl = replicate reorder_peer_cap zero_peer; rr = 0 }

abbrev pub peer_at : ReorderCtx → ℕ → PeerBuf
peer_at c i = get_or c.tbl i zero_peer

-- What a call does through its `PeerBuf *`: the entry and the statistics change in place.
unfoldable pub put_peer : ReorderCtx → ℕ → ReorderStats × PeerBuf → ReorderCtx
put_peer c i (st, pb) = record c { tbl = set c.tbl i pb; stats = st }

unfoldable pub reorder_peer_full : ReorderCtx → PeerBuf → Bool
reorder_peer_full c pb = leb c.depth pb.filled

-- `none` is the null pointer in these two.
unfoldable pub reorder_is_successor : Option PeerBuf → ℕ → Bool
reorder_is_successor none seq = false
reorder_is_successor (some pb) seq = pb.seq_init && seq == seq_next pb.last_seq

unfoldable pub reorder_hold_window : ReorderCtx → Option PeerBuf → ℕ
reorder_hold_window c pb =
    let hold : ℕ = elim pb [ none ↦ c.win_min_ms | some p ↦ p.win_ms ] in
    if c.max_hold_ms != 0 && ltb c.max_hold_ms hold then c.max_hold_ms else hold

unfoldable pub reorder_drain_saturated : ReorderCtx → Bool
reorder_drain_saturated c =
    elim (find_index? (λ (p : PeerBuf). p.key != 0 && leb c.depth p.filled) (take c.peers c.tbl)) [
      | none ↦ false
      | some i ↦ true
    ]

unfoldable pub peer_key : SockAddr → ℕ
peer_key a = bit_or (a.addr * 2 ^ 16) a.port

unfoldable pub fresh_peer : ReorderCtx → ℕ → ℕ → PeerBuf
fresh_peer c k now = record zero_peer {
  key = k;
  win_ms = if c.adapt then c.win_min_ms else c.win_max_ms;
  last_adjust_ms = now;
  last_activity_ms = now;
  last_deliver_ms = now;
}

abbrev claim : ReorderCtx → ℕ → ℕ → ℕ → Option ℕ × ReorderCtx
claim c i k now = (some i, record c { tbl = set c.tbl i (fresh_peer c k now) })

-- The table is full: the least recently active entry goes, if it has been idle long enough.
unfoldable pub reclaim : ReorderCtx → ℕ → ℕ → Option ℕ × ReorderCtx
reclaim c k now =
    let o = min_index (λ (p : PeerBuf). p.last_activity_ms) (take c.peers c.tbl) in
    let oldest = peer_at c o in
    if ltb (sub64 now oldest.last_activity_ms) reorder_peer_idle_ms
    then (none, c)
    else claim
        (record c {
          stats = record (c.stats) {
            peers_reclaimed = inc64 c.stats.peers_reclaimed;
            dropped_reclaim = add64 c.stats.dropped_reclaim oldest.filled;
          };
        })
        o k now

unfoldable pub touch : ReorderCtx → ℕ → ℕ → ReorderCtx
touch c i now = record c { tbl = set c.tbl i (record (peer_at c i) { last_activity_ms = now }) }

-- `none` is the null pointer: every peer is live, and the caller passes the packet through.
unfoldable pub reorder_get_peer : ReorderCtx → SockAddr → ℕ → Option ℕ × ReorderCtx
reorder_get_peer c addr now =
    let k = peer_key addr in
    elim (find_index? (λ (p : PeerBuf). p.key == k) (take c.peers c.tbl)) [
      | some i ↦ (some i, touch c i now)
      | none ↦ elim (find_index? (λ (p : PeerBuf). p.key == 0) (take c.peers c.tbl)) [
        | some i ↦ claim c i k now
        | none ↦ reclaim c k now
      ]
    ]
