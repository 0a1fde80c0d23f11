-- ===== src/Rtt.antt =====
-- shared/net_rtt.h: the sampler of round trips from the acknowledgements of the protocol, one ring of
-- outstanding sequences for each peer. An `RttPeer *` is the index of its entry in the table.
pub mod Peer
pub mod Sample
pub mod Ring
pub mod Karn
pub mod Exact
pub mod Measured
pub mod Tests
use battlezone_netcode_patch.Prelude.{ℕ, zero, suc, Bool, true, false, List, [], replicate}

abbrev pub rtt_peers : ℕ
rtt_peers = 16

abbrev pub rtt_slots : ℕ
rtt_slots = 512

abbrev pub rtt_max_sample_ms : ℕ
rtt_max_sample_ms = 30000

pub record RttSlot : Type 0 where
  pub seq : ℕ
  pub sent_ms : ℕ
  pub used : Bool
  pub ambiguous : Bool

pub record RttPeer : Type 0 where
  pub addr : ℕ
  pub last_use_ms : ℕ
  pub slots : List RttSlot
  pub head : ℕ
  pub used : ℕ
  pub last_ack : ℕ
  pub ack_init : Bool
  pub samples : ℕ
  pub sum_ms : ℕ
  pub min_ms : ℕ
  pub max_ms : ℕ
  pub win_samples : ℕ
  pub win_sum_ms : ℕ
  pub win_min_ms : ℕ
  pub win_max_ms : ℕ
  pub srtt_ms : ℕ
  pub rttvar_ms : ℕ
  pub srtt_init : Bool

pub record RttStats : Type 0 where
  pub sends_tracked : ℕ
  pub sends_ambiguous : ℕ
  pub slots_evicted : ℕ
  pub acks_seen : ℕ
  pub samples : ℕ
  pub unmatched : ℕ
  pub discarded_ambig : ℕ
  pub discarded_range : ℕ
  pub peers_evicted : ℕ

pub record RttCtx : Type 0 where
  pub enabled : Bool
  pub trace_ms : ℕ
  pub last_trace_ms : ℕ
  pub peers : List RttPeer
  pub st : RttStats

abbrev pub zero_slot : RttSlot
zero_slot = record { seq = 0; sent_ms = 0; used = false; ambiguous = false }

abbrev pub zero_peer : RttPeer
zero_peer = record {
  addr = 0;
  last_use_ms = 0;
  slots = replicate rtt_slots zero_slot;
  head = 0;
  used = 0;
  last_ack = 0;
  ack_init = false;
  samples = 0;
  sum_ms = 0;
  min_ms = 0;
  max_ms = 0;
  win_samples = 0;
  win_sum_ms = 0;
  win_min_ms = 0;
  win_max_ms = 0;
  srtt_ms = 0;
  rttvar_ms = 0;
  srtt_init = false;
}

abbrev pub zero_stats : RttStats
zero_stats = record {
  sends_tracked = 0;
  sends_ambiguous = 0;
  slots_evicted = 0;
  acks_seen = 0;
  samples = 0;
  unmatched = 0;
  discarded_ambig = 0;
  discarded_range = 0;
  peers_evicted = 0;
}

pub rtt_init : Bool → ℕ → ℕ → RttCtx
rtt_init enabled trace_ms now = record {
  enabled = enabled;
  trace_ms = trace_ms;
  last_trace_ms = now;
  peers = replicate rtt_peers zero_peer;
  st = zero_stats;
}
