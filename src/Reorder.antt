-- ===== src/Reorder.antt =====
-- shared/reorder_core.h: the data of the per-peer reorder buffer. The operations are in the
-- children, one for each part of the header, and take the state and return the new one.
pub mod Seq
pub mod Wire
pub mod Peers
pub mod Window
pub mod Slots
pub mod Pick
pub mod Cursor
pub mod PickLaws
pub mod PickReady
pub mod RoundRobin
pub mod WindowBounds
pub mod Session
pub mod Clean
pub mod Stored
pub mod Outcome
pub mod Order
pub mod Conserve
pub mod Filled
mod Tests
use battlezone_netcode_patch.Prelude.{ℕ, Bool, List, ◌^◌}

abbrev pub reorder_seq_offset : ℕ
reorder_seq_offset = 10

abbrev pub reorder_seq_min_pay : ℕ
reorder_seq_min_pay = 18

abbrev pub reorder_ack_offset : ℕ
reorder_ack_offset = 14

abbrev pub reorder_seq_mask : ℕ
reorder_seq_mask = 0xffff_ffff

abbrev pub bz_hdr_flag_reliable : ℕ
bz_hdr_flag_reliable = 0x80

abbrev pub bz_hdr_send_ms_offset : ℕ
bz_hdr_send_ms_offset = 2

abbrev pub bz_hdr_send_ms_bytes : ℕ
bz_hdr_send_ms_bytes = 8

abbrev pub reorder_default_ms : ℕ
reorder_default_ms = 100

abbrev pub reorder_min_ms_def : ℕ
reorder_min_ms_def = 5

abbrev pub reorder_grow_pad_ms : ℕ
reorder_grow_pad_ms = 5

abbrev pub reorder_decay_ms : ℕ
reorder_decay_ms = 500

abbrev pub reorder_decay_keep_num : ℕ
reorder_decay_keep_num = 3

abbrev pub reorder_decay_keep_den : ℕ
reorder_decay_keep_den = 4

abbrev pub reorder_slot_cap : ℕ
reorder_slot_cap = 32

abbrev pub reorder_peer_cap : ℕ
reorder_peer_cap = 16

abbrev pub reorder_max_pkt_bytes : ℕ
reorder_max_pkt_bytes = 2048

abbrev pub reorder_peer_idle_ms : ℕ
reorder_peer_idle_ms = 30000

pub data DeliverKind : Type 0 where
  first in_order forced evicted : DeliverKind

-- A `sockaddr_in`: the raw IPv4 word and the port in host order.
pub record SockAddr : Type 0 where
  pub addr : ℕ
  pub port : ℕ

-- `used` is a flag, and `payload` the first `len` bytes of `data`.
pub record ReorderSlot : Type 0 where
  pub ts : ℕ
  pub seq : ℕ
  pub len : ℕ
  pub used : Bool
  pub from : SockAddr
  pub payload : List ℕ

pub record PeerBuf : Type 0 where
  pub key : ℕ
  pub seq_init : Bool
  pub last_seq : ℕ
  pub filled : ℕ
  pub win_ms : ℕ
  pub last_adjust_ms : ℕ
  pub last_activity_ms : ℕ
  pub last_deliver_ms : ℕ
  pub delivered : ℕ
  pub slots : List ReorderSlot

pub record ReorderStats : Type 0 where
  pub delivered_first : ℕ
  pub delivered_in_order : ℕ
  pub delivered_forced : ℕ
  pub delivered_evicted : ℕ
  pub dropped_stale : ℕ
  pub dropped_duplicate : ℕ
  pub purged_stale : ℕ
  pub dropped_reclaim : ℕ
  pub bypass_short : ℕ
  pub bypass_table_full : ℕ
  pub emsgsize : ℕ
  pub truncated : ℕ
  pub peers_reclaimed : ℕ
  pub hold_ms_sum : ℕ
  pub hold_ms_max : ℕ
  pub max_drain_depth : ℕ
  pub hold_hist : List ℕ

pub record ReorderCtx : Type 0 where
  pub adapt : Bool
  pub win_max_ms : ℕ
  pub win_min_ms : ℕ
  pub max_hold_ms : ℕ
  pub depth : ℕ
  pub peers : ℕ
  pub tbl : List PeerBuf
  pub rr : ℕ
  pub stats : ReorderStats
