-- ===== src/Rtt/Tests.antt =====
-- The sampler on a few datagrams, and the theorem there.
use battlezone_netcode_patch.Prelude.{ℕ, ◌≡◌, refl, List, [], ◌∷◌}
use battlezone_netcode_patch.Prelude.Scan.{find_index?, find_from}
use battlezone_netcode_patch.Reorder.Seq.{seq_cmp}
use battlezone_netcode_patch.Rtt.{zero_stats, zero_peer}
use battlezone_netcode_patch.Rtt.Peer.{spoil, make_room, track, send_seq}
use battlezone_netcode_patch.Rtt.Sample.{
  clear_loop, retire, lower, higher, smooth, count_sample, take_sample, acknowledge, recv_ack,
}
use battlezone_netcode_patch.Rtt.Measured.{
  Traffic, sends, pass, pass_all, Measures, sample-Measures,
}

-- 40 goes out once, 41 twice.
abbrev traffic : List Traffic
traffic = sends 40 1000 ∷ sends 41 1010 ∷ sends 41 1020 ∷ []

abbrev value_of : List Traffic → ℕ → ℕ → ℕ
value_of es ack now =
    let s = pass_all ([], zero_stats, zero_peer) es in (recv_ack s.1 s.2 ack now).0

a_single_send_is_timed : value_of traffic 40 1073 ≡ 73
unfolding pass_all pass send_seq spoil make_room track find_index? find_from recv_ack acknowledge
    retire clear_loop take_sample count_sample smooth lower higher seq_cmp
a_single_send_is_timed = refl

a_second_copy_is_not_timed : value_of traffic 41 1073 ≡ 0
unfolding pass_all pass send_seq spoil make_room track find_index? find_from recv_ack acknowledge
    retire clear_loop take_sample count_sample smooth lower higher seq_cmp
a_second_copy_is_not_timed = refl

sample-Measures_example :
    let s = pass_all ([], zero_stats, zero_peer) traffic in
    Measures s.0 40 1073 (recv_ack s.1 s.2 40 1073).0
sample-Measures_example = sample-Measures zero_stats traffic 40 1073
