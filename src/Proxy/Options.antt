-- ===== src/Proxy/Options.antt =====
-- The socket options of dsound_proxy.cpp: `hooked_WSASocketW` sets the buffers and the class of a new
-- UDP socket, `hooked_socket` sets nothing, and the two hooks that set options replace the size of a
-- buffer by the proxy's.
mod Tests
use battlezone_netcode_patch.Prelude.{
  ℕ, ◌*◌, ◌^◌, Bool, true, not, ◌&&◌, ◌||◌, Option, none, some, List, [], ◌∷◌, ◌++◌, ◌==◌,
  if◌then◌else◌,
}
use battlezone_netcode_patch.Prelude.Int.{ℤ, pos, negsuc}
use battlezone_netcode_patch.Proxy.{invalid_socket}
use battlezone_netcode_patch.Proxy.EventLog.{Tracks, get_socket_id}

abbrev pub send_buf : ℕ
send_buf = 524288

abbrev pub recv_buf : ℕ
recv_buf = 4194304

abbrev pub sol_socket : ℕ
sol_socket = 0xffff

abbrev pub so_sndbuf : ℕ
so_sndbuf = 0x1001

abbrev pub so_rcvbuf : ℕ
so_rcvbuf = 0x1002

abbrev pub ipproto_ip : ℕ
ipproto_ip = 0

abbrev pub ip_tos : ℕ
ip_tos = 3

abbrev pub sock_dgram : ℕ
sock_dgram = 2

abbrev pub ipproto_udp : ℕ
ipproto_udp = 17

-- The value of an option: an int of the proxy, or what the game passes, a pointer and a length.
pub data OptValue : Type 0 where
  number : ℕ → OptValue
  given : Option (List ℕ) → ℤ → OptValue

-- A call of the real setsockopt, or of the real WSASetSocketOption.
pub record OptCall : Type 0 where
  pub sock : ℕ
  pub level : ℕ
  pub optname : ℕ
  pub value : OptValue

-- The globals that the hooks read and write.
pub record OptState : Type 0 where
  pub has_setsockopt : Bool
  pub has_wsasetsocketoption : Bool
  pub has_wsasocketw : Bool
  pub has_socket : Bool
  pub dscp : ℕ
  pub tracks : Tracks

abbrev int_call : ℕ → ℕ → ℕ → ℕ → OptCall
int_call s level optname v = record { sock = s; level = level; optname = optname; value = number v }

-- The top six bits of the TOS byte.
unfoldable pub apply_dscp : OptState → ℕ → List OptCall
apply_dscp st s =
    if st.dscp == 0 || not st.has_setsockopt
    then []
    else int_call s ipproto_ip ip_tos (st.dscp * 2 ^ 2) ∷ []

unfoldable pub numbers_socket : OptState → ℕ → OptState
numbers_socket st s = record st { tracks = (get_socket_id st.tracks s true).1 }

-- The calls of the real function, and the globals. The answer is that of the first call, or an error
-- if there is none.
unfoldable pub hooked_setsockopt : OptState → OptCall → List OptCall × OptState
hooked_setsockopt st c =
    if not st.has_setsockopt
    then ([], st)
    else if c.level == sol_socket && c.optname == so_sndbuf
    then (
      int_call c.sock c.level c.optname send_buf ∷ apply_dscp st c.sock,
      numbers_socket st c.sock,
    )
    else if c.level == sol_socket && c.optname == so_rcvbuf
    then (int_call c.sock c.level c.optname recv_buf ∷ [], numbers_socket st c.sock)
    else (c ∷ [], st)

unfoldable pub hooked_wsa_set_socket_option : OptState → OptCall → List OptCall × OptState
hooked_wsa_set_socket_option st c =
    if not st.has_wsasetsocketoption
    then ([], st)
    else if c.level == sol_socket && c.optname == so_sndbuf
    then (int_call c.sock c.level c.optname send_buf ∷ [], numbers_socket st c.sock)
    else if c.level == sol_socket && c.optname == so_rcvbuf
    then (int_call c.sock c.level c.optname recv_buf ∷ [], numbers_socket st c.sock)
    else (c ∷ [], st)

-- `opened` is what the real socket answers. No option is set.
unfoldable pub hooked_socket : OptState → ℕ → ℕ × OptState
hooked_socket st opened =
    if not st.has_socket
    then (invalid_socket, st)
    else if opened == invalid_socket
    then (opened, st)
    else (opened, numbers_socket st opened)

-- `opened` is what the real WSASocketW answers.
unfoldable pub hooked_wsa_socket_w : OptState → ℕ → ℕ → ℕ → ℕ × List OptCall × OptState
hooked_wsa_socket_w st type protocol opened =
    if not st.has_wsasocketw
    then (invalid_socket, [], st)
    else if opened == invalid_socket
    then (opened, [], st)
    else if (type == sock_dgram || protocol == ipproto_udp) && st.has_setsockopt
    then (
      opened,
      int_call opened sol_socket so_sndbuf send_buf
          ∷ int_call opened sol_socket so_rcvbuf recv_buf
          ∷ apply_dscp st opened,
      numbers_socket st opened,
    )
    else (opened, [], numbers_socket st opened)
