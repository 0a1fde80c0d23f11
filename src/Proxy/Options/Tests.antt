-- ===== src/Proxy/Options/Tests.antt =====
-- A socket whose game asks for small buffers.
use battlezone_netcode_patch.Prelude.{◌≡◌, refl, true, none, some, [], ◌∷◌}
use battlezone_netcode_patch.Prelude.Int.{pos}
use battlezone_netcode_patch.Prelude.Scan.{find_index?, find_from}
use battlezone_netcode_patch.Proxy.EventLog.{no_track, get_socket_id, number_socket, find_track}
use battlezone_netcode_patch.Proxy.Options.{
  OptCall, OptState, number, given, sol_socket, so_sndbuf, sock_dgram, send_buf, hooked_socket,
  numbers_socket,
}
use battlezone_netcode_patch.Proxy.Buffers.{
  by_setsockopt, by_wsa, in_force, opt_session, buffers_stay,
}

abbrev start : OptState
start = record {
  has_setsockopt = true;
  has_wsasetsocketoption = true;
  has_wsasocketw = true;
  has_socket = true;
  dscp = 46;
  tracks = record { lock_ready = true; tracks = no_track ∷ []; next_socket_id = 1 };
}

-- A socket that the game creates with `socket` is numbered.
numbered : (hooked_socket start 5).1.tracks.next_socket_id ≡ 2
unfolding hooked_socket numbers_socket get_socket_id number_socket find_track find_index? find_from
numbered = refl

abbrev shrinks : OptCall
shrinks = record {
  sock = 5;
  level = sol_socket;
  optname = so_sndbuf;
  value = given (some (0 ∷ 128 ∷ 0 ∷ 0 ∷ [])) (pos 4);
}

buffers_stay_example :
    in_force 5 so_sndbuf none
      (opt_session start sock_dgram 0 5 (by_setsockopt shrinks ∷ by_wsa shrinks ∷ []))
    ≡ some (number send_buf)
buffers_stay_example =
    buffers_stay start sock_dgram 0 5 so_sndbuf (by_setsockopt shrinks ∷ by_wsa shrinks ∷ []) refl
      refl refl refl refl
