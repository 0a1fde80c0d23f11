-- ===== src/Dampen/Tests.antt =====
-- The dampener on a few datagrams, and the theorems there.
use battlezone_netcode_patch.Prelude.{ℕ, ◌≡◌, refl, true, List, [], ◌∷◌}
use battlezone_netcode_patch.Prelude.Scan.{find_index?, find_from}
use battlezone_netcode_patch.Reorder.Seq.{seq_cmp}
use battlezone_netcode_patch.Reorder.Wire.{
  header, be32_at, reorder_is_reliable, reorder_seq_from_payload,
}
use battlezone_netcode_patch.Dampen.{suppress, dampen_init, dampen_window_for}
use battlezone_netcode_patch.Dampen.Peer.{find_peer, dampen_get_peer, dampen_add_slot}
use battlezone_netcode_patch.Dampen.Admit.{
  is_restart, raise_high, first_copy, later_copy, admit_seq, admit_peer, dampen_admit,
}
use battlezone_netcode_patch.Dampen.Suppress.{Redundant}
use battlezone_netcode_patch.Dampen.History.{
  carries_seq, Op, admits, op, run, suppressed_only-Redundant,
}

-- A reliable datagram with this sequence.
abbrev message : ℕ → List ℕ
message seq = header 0xc0 0 0 seq 0 []

abbrev sent_once : List Op
sent_once = admits 7 (message 41) 18 1000 ∷ []

duplicate_is_suppressed :
    (dampen_admit (run ([], dampen_init true 0) sent_once).1 7 (message 41) 18 1030).0 ≡ suppress
unfolding run op dampen_admit admit_peer admit_seq dampen_get_peer find_peer find_index? find_from
    first_copy later_copy raise_high is_restart dampen_add_slot dampen_window_for dampen_init
    reorder_is_reliable reorder_seq_from_payload be32_at seq_cmp
duplicate_is_suppressed = refl

suppressed_only-Redundant_example :
    (carries_seq (message 41) 18 ≡ true)
    × Redundant
        (run ([], dampen_init true 0) sent_once).0
        7
        (reorder_seq_from_payload (message 41))
        1030
suppressed_only-Redundant_example =
    suppressed_only-Redundant true 0 sent_once 7 (message 41) 18 1030 duplicate_is_suppressed
