-- ===== src/Proxy/Dup.antt =====
-- The delayed duplicates of dsound_proxy.cpp: a rate gate and a ring of `kDupQueueSlots` entries.
use battlezone_netcode_patch.Prelude.{
  ℕ, ◌+◌, ◌-◌, ◌%◌, Bool, not, ◌&&◌, ◌||◌, Option, none, some, List, [], get_or, set, take, ltb,
  leb, ◌==◌, ◌!=◌, if◌then◌else◌, sub64, add64, add32,
}
use battlezone_netcode_patch.Prelude.Int.{ℤ, pos, leb_ℤ, pos_part}
use battlezone_netcode_patch.Prelude.Ring.{window}
use battlezone_netcode_patch.Prelude.Compact.{compact}
use battlezone_netcode_patch.Reorder.{reorder_max_pkt_bytes}
use battlezone_netcode_patch.Proxy.{Sockaddr, sockaddr_storage_bytes}

abbrev pub dup_queue_slots : ℕ
dup_queue_slots = 128

abbrev pub dup_delay_ms_def : ℕ
dup_delay_ms_def = 25

abbrev pub dup_max_pps_def : ℕ
dup_max_pps_def = 40

pub record DupEntry : Type 0 where
  pub sock : ℕ
  pub due_ms : ℕ
  pub tolen : ℤ
  pub len : ℕ
  pub to : List ℕ
  pub bytes : List ℕ

-- The globals `g_dup_*`.
pub record DupState : Type 0 where
  pub ready : Bool
  pub delay_ms : ℕ
  pub max_pps : ℕ
  pub q : List DupEntry
  pub q_head : ℕ
  pub q_count : ℕ
  pub bucket_start_ms : ℕ
  pub bucket_sent : ℕ

abbrev pub zero_dup : DupEntry
zero_dup = record { sock = 0; due_ms = 0; tolen = pos 0; len = 0; to = []; bytes = [] }

-- The duplicates that wait, the next to leave first.
abbrev pub waiting : DupState → List DupEntry
waiting d = window zero_dup dup_queue_slots d.q d.q_head d.q_count

unfoldable pub dup_is_refused : DupState → ℕ → ℤ → Bool
dup_is_refused d len tolen =
    not d.ready
    || len == 0
    || ltb reorder_max_pkt_bytes len
    || leb_ℤ tolen (pos 0)
    || ltb sockaddr_storage_bytes (pos_part tolen)

-- A new second opens a new budget.
unfoldable pub roll_bucket : DupState → ℕ → DupState
roll_bucket d now =
    if leb 1000 (sub64 now d.bucket_start_ms)
    then record d { bucket_start_ms = now; bucket_sent = 0 }
    else d

unfoldable pub is_over_budget : DupState → Bool
is_over_budget d = (d.max_pps != 0 && leb d.max_pps d.bucket_sent) || leb dup_queue_slots d.q_count

unfoldable pub dup_append : DupState → ℕ → List ℕ → ℕ → List ℕ → ℤ → ℕ → DupState
dup_append d sock bytes len to tolen now = record d {
  bucket_sent = add32 d.bucket_sent 1;
  q = set d.q ((d.q_head + d.q_count) % dup_queue_slots) (record {
    sock = sock;
    due_ms = add64 now d.delay_ms;
    tolen = tolen;
    len = len;
    to = take (pos_part tolen) to;
    bytes = take len bytes;
  });
  q_count = d.q_count + 1;
}

-- The datagram and the address may be null.
unfoldable pub dup_enqueue : DupState → ℕ → Option (List ℕ) → ℕ → Option Sockaddr → ℤ → ℕ → DupState
dup_enqueue d sock none len to tolen now = d
dup_enqueue d sock (some bytes) len none tolen now = d
dup_enqueue d sock (some bytes) len (some to) tolen now =
    let r = roll_bucket d now in
    if dup_is_refused d len tolen
    then d
    else if is_over_budget r
    then r
    else dup_append r sock bytes len to.bytes tolen now

unfoldable pub dup_purge_socket : DupState → ℕ → DupState
dup_purge_socket d sock =
    let (kept, q) =
      compact zero_dup dup_queue_slots (λ (e : DupEntry). e.sock) sock d.q_head d.q_count 0 0 d.q in
    if not d.ready then d else record d { q = q; q_count = kept }

-- One round of `dup_pacer_thread`.
unfoldable pub dup_pop_due : DupState → ℕ → Option DupEntry × DupState
dup_pop_due d now =
    if d.q_count == 0 || ltb now (get_or d.q d.q_head zero_dup).due_ms then (none, d) else (
      some (get_or d.q d.q_head zero_dup),
      record d { q_head = (d.q_head + 1) % dup_queue_slots; q_count = d.q_count - 1 },
    )
