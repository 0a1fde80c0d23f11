-- ===== src/Dampen.antt =====
-- shared/send_dampen.h: the suppressor of redundant copies of a reliable message, one ring of recent
-- sequences for each peer. A `DampenPeer *` is the index of its entry in the table.
pub mod Peer
pub mod Admit
pub mod Sound
pub mod Suppress
pub mod Table
pub mod History
pub mod Tests
use battlezone_netcode_patch.Prelude.{
  ℕ, zero, suc, ◌+◌, ◌-◌, ◌*◌, ◌/◌, ◌%◌, ◌^◌, Bool, true, false, List, [], replicate, ltb,
  if◌then◌else◌, mul32,
}

abbrev pub dampen_peers : ℕ
dampen_peers = 16

abbrev pub dampen_slots : ℕ
dampen_slots = 512

abbrev pub dampen_floor_ms : ℕ
dampen_floor_ms = 60

abbrev pub dampen_max_ms : ℕ
dampen_max_ms = 400

abbrev pub dampen_rtt_shift : ℕ
dampen_rtt_shift = 3

abbrev pub dampen_invalid_sock : ℕ
dampen_invalid_sock = 2 ^ 64 - 1

pub data DampenDecision : Type 0 where
  send suppress : DampenDecision

pub record DampenEntry : Type 0 where
  pub seq : ℕ
  pub last_sent_ms : ℕ
  pub window_ms : ℕ

pub record DampenPeer : Type 0 where
  pub addr : ℕ
  pub rtt_ewma_ms : ℕ
  pub high_seq : ℕ
  pub used : ℕ
  pub head : ℕ
  pub last_use_ms : ℕ
  pub slots : List DampenEntry

pub record DampenStats : Type 0 where
  pub seen : ℕ
  pub suppressed : ℕ
  pub bytes_saved : ℕ
  pub peers_evicted : ℕ
  pub bypass_short : ℕ
  pub bypass_notretx : ℕ
  pub tbl_full : ℕ
  pub epoch_resets : ℕ

pub record DampenCtx : Type 0 where
  pub enabled : Bool
  pub peers : List DampenPeer
  pub st : DampenStats

abbrev pub zero_entry : DampenEntry
zero_entry = record { seq = 0; last_sent_ms = 0; window_ms = 0 }

abbrev pub zero_peer : DampenPeer
zero_peer = record {
  addr = 0;
  rtt_ewma_ms = 0;
  high_seq = 0;
  used = 0;
  head = 0;
  last_use_ms = 0;
  slots = replicate dampen_slots zero_entry;
}

abbrev pub zero_stats : DampenStats
zero_stats = record {
  seen = 0;
  suppressed = 0;
  bytes_saved = 0;
  peers_evicted = 0;
  bypass_short = 0;
  bypass_notretx = 0;
  tbl_full = 0;
  epoch_resets = 0;
}

unfoldable pub dampen_init : Bool → ℕ → DampenCtx
dampen_init enabled now = record {
  enabled = enabled;
  peers = replicate dampen_peers zero_peer;
  st = zero_stats;
}

unfoldable pub dampen_window_for : DampenPeer → ℕ
dampen_window_for p =
    let w = mul32 p.rtt_ewma_ms 12 / 10 in
    let raised = if ltb w dampen_floor_ms then dampen_floor_ms else w in
    if ltb dampen_max_ms raised then dampen_max_ms else raised
