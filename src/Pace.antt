-- ===== src/Pace.antt =====
-- shared/send_pace.h: the measurement of outbound bursts and the token bucket that smooths them.
pub mod Admit
pub mod Queue
pub mod Purge
pub mod Fifo
pub mod Delay
pub mod Tests
use battlezone_netcode_patch.Prelude.{
  ℕ, zero, suc, ◌+◌, ◌-◌, ◌*◌, ◌/◌, ◌%◌, ◌^◌, List, [], replicate, ltb, ◌==◌, if◌then◌else◌, sub64,
  add32, add64, inc64,
}
use battlezone_netcode_patch.Prelude.Int.{ℤ, pos}
use battlezone_netcode_patch.Reorder.{reorder_max_pkt_bytes}

abbrev pub pace_queue_slots : ℕ
pace_queue_slots = 256

abbrev pub pace_max_delay_def : ℕ
pace_max_delay_def = 20

abbrev pub pace_burst_pps : ℕ
pace_burst_pps = 100

abbrev pub pace_addr_bytes : ℕ
pace_addr_bytes = 128

pub data PaceDecision : Type 0 where
  send_now queued flush_then_send : PaceDecision

pub record PaceEntry : Type 0 where
  pub sock : ℕ
  pub due_ms : ℕ
  pub tolen : ℤ
  pub len : ℕ
  pub to : List ℕ
  pub bytes : List ℕ

pub record PaceStats : Type 0 where
  pub packets : ℕ
  pub bytes : ℕ
  pub paced : ℕ
  pub exempt_small : ℕ
  pub over_budget_passed : ℕ
  pub queue_full_passed : ℕ
  pub peak_pps : ℕ
  pub peak_bps : ℕ
  pub burst_seconds : ℕ
  pub max_delay_ms : ℕ
  pub peak_queue : ℕ

pub record PaceCtx : Type 0 where
  pub rate_bps : ℕ
  pub burst_bytes : ℕ
  pub max_delay_ms : ℕ
  pub tokens : ℤ
  pub last_fill_ms : ℕ
  pub win_start_ms : ℕ
  pub win_packets : ℕ
  pub win_bytes : ℕ
  pub q : List PaceEntry
  pub head : ℕ
  pub count : ℕ
  pub stats : PaceStats

abbrev pub zero_entry : PaceEntry
zero_entry = record { sock = 0; due_ms = 0; tolen = pos 0; len = 0; to = []; bytes = [] }

abbrev pub zero_stats : PaceStats
zero_stats = record {
  packets = 0;
  bytes = 0;
  paced = 0;
  exempt_small = 0;
  over_budget_passed = 0;
  queue_full_passed = 0;
  peak_pps = 0;
  peak_bps = 0;
  burst_seconds = 0;
  max_delay_ms = 0;
  peak_queue = 0;
}

-- The capacity of the bucket: a twentieth of the rate, and room for one packet at least.
unfoldable pub burst_for : ℕ → ℕ
burst_for rate_bps =
    let b = if rate_bps == 0 then 0 else rate_bps / 20 in
    if ltb b reorder_max_pkt_bytes then reorder_max_pkt_bytes else b

unfoldable pub pace_init : ℕ → ℕ → ℕ → PaceCtx
pace_init rate_bps max_delay_ms now = record {
  rate_bps = rate_bps;
  burst_bytes = burst_for rate_bps;
  max_delay_ms = max_delay_ms;
  tokens = pos (burst_for rate_bps);
  last_fill_ms = now;
  win_start_ms = now;
  win_packets = 0;
  win_bytes = 0;
  q = replicate pace_queue_slots zero_entry;
  head = 0;
  count = 0;
  stats = zero_stats;
}

-- The statistics when a one-second window of `packets` and `bytes` closes.
unfoldable pub close_window : PaceStats → ℕ → ℕ → PaceStats
close_window s packets bytes = record s {
  peak_pps = if ltb s.peak_pps packets then packets else s.peak_pps;
  peak_bps = if ltb s.peak_bps bytes then bytes else s.peak_bps;
  burst_seconds = if ltb pace_burst_pps packets then inc64 s.burst_seconds else s.burst_seconds;
}

unfoldable pub pace_tick : PaceCtx → ℕ → PaceCtx
pace_tick c now = if ltb (sub64 now c.win_start_ms) 1000 then c else record c {
  stats = close_window c.stats c.win_packets c.win_bytes;
  win_start_ms = sub64 now (sub64 now c.win_start_ms % 1000);
  win_packets = 0;
  win_bytes = 0;
}

unfoldable pub pace_observe : PaceCtx → ℕ → ℕ → PaceCtx
pace_observe c len now =
    let t = pace_tick c now in
    record t {
      win_packets = add32 t.win_packets 1;
      win_bytes = add32 t.win_bytes len;
      stats = record (t.stats) { packets = inc64 t.stats.packets; bytes = add64 t.stats.bytes len };
    }
