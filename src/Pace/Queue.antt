-- ===== src/Pace/Queue.antt =====
-- The queue of delayed datagrams of shared/send_pace.h, a ring of `kPaceQueueSlots` entries.
use battlezone_netcode_patch.Prelude.{
  ℕ, ◌+◌, ◌-◌, ◌%◌, Bool, true, false, ◌||◌, Option, none, some, List, get_or, set, take, ltb, leb,
  ◌==◌, if◌then◌else◌,
}
use battlezone_netcode_patch.Prelude.Int.{ℤ, pos, leb_ℤ, pos_part}
use battlezone_netcode_patch.Prelude.Ring.{window}
use battlezone_netcode_patch.Prelude.Compact.{compact}
use battlezone_netcode_patch.Reorder.{reorder_max_pkt_bytes}
use battlezone_netcode_patch.Pace.{
  PaceEntry, PaceCtx, pace_queue_slots, pace_addr_bytes, zero_entry,
}

-- The queued datagrams, the next to leave first.
abbrev pub pending : PaceCtx → List PaceEntry
pending c = window zero_entry pace_queue_slots c.q c.head c.count

unfoldable pub is_refused : PaceCtx → ℤ → ℕ → Bool
is_refused c tolen len =
    leb pace_queue_slots c.count
    || ltb reorder_max_pkt_bytes len
    || leb_ℤ tolen (pos 0)
    || ltb pace_addr_bytes (pos_part tolen)

abbrev pub queued_entry : ℕ → List ℕ → ℤ → List ℕ → ℕ → ℕ → PaceEntry
queued_entry sock to tolen bytes len due_ms = record {
  sock = sock;
  due_ms = due_ms;
  tolen = tolen;
  len = len;
  to = take (pos_part tolen) to;
  bytes = take len bytes;
}

unfoldable pub pace_enqueue : PaceCtx → ℕ → List ℕ → ℤ → List ℕ → ℕ → ℕ → Bool × PaceCtx
pace_enqueue c sock to tolen bytes len due_ms = if is_refused c tolen len then (false, c) else (
  true,
  record c {
    q =
        set c.q ((c.head + c.count) % pace_queue_slots)
          (queued_entry sock to tolen bytes len due_ms);
    count = c.count + 1;
    stats = record (c.stats) {
      peak_queue = if ltb c.stats.peak_queue (c.count + 1) then c.count + 1 else c.stats.peak_queue;
    };
  },
)

unfoldable pub pop_head : PaceCtx → Option PaceEntry × PaceCtx
pop_head c = (
  some (get_or c.q c.head zero_entry),
  record c { head = (c.head + 1) % pace_queue_slots; count = c.count - 1 },
)

unfoldable pub pace_pop_due : PaceCtx → ℕ → Option PaceEntry × PaceCtx
pace_pop_due c now =
    if c.count == 0 || ltb now (get_or c.q c.head zero_entry).due_ms then (none, c) else pop_head c

unfoldable pub pace_pop_any : PaceCtx → Option PaceEntry × PaceCtx
pace_pop_any c = if c.count == 0 then (none, c) else pop_head c

unfoldable pub pace_purge_socket : PaceCtx → ℕ → PaceCtx
pace_purge_socket c sock =
    let (kept, q) =
      compact zero_entry pace_queue_slots (λ (e : PaceEntry). e.sock) sock c.head c.count 0 0 c.q in
    record c { q = q; count = kept }
