-- ===== src/Proxy/Buffers.antt =====
-- The buffers of a UDP socket of `hooked_WSASocketW` stay as that hook sets them.
use battlezone_netcode_patch.Prelude.{
  ℕ, ◌≡◌, ◌∙◌, refl, ap, inl, inr, Bool, true, false, not, ◌&&◌, ◌||◌, Option, none, some, List, [],
  ◌∷◌, ◌++◌, ◌==◌, if◌then◌else◌, Bool-cases, arith,
}
use battlezone_netcode_patch.Proxy.{invalid_socket}
use battlezone_netcode_patch.Proxy.Options.{
  send_buf, recv_buf, sol_socket, so_sndbuf, so_rcvbuf, OptValue, number, OptCall, OptState,
  apply_dscp, numbers_socket, hooked_setsockopt, hooked_wsa_set_socket_option, hooked_wsa_socket_w,
  sock_dgram, ipproto_udp,
}

-- The value that Winsock has for an option after the calls: that of the last call that sets it, or
-- `v` if there is none.
abbrev pub sets : ℕ → ℕ → OptCall → Bool
sets s opt c = c.sock == s && c.level == sol_socket && c.optname == opt

abbrev pub in_force : ℕ → ℕ → Option OptValue → List OptCall → Option OptValue
in_force s opt v [] = v
in_force s opt v (c ∷ cs) = in_force s opt (if sets s opt c then some c.value else v) cs

abbrev pub target_of : ℕ → ℕ
target_of opt = if opt == so_sndbuf then send_buf else recv_buf

-- A call that does not set a buffer to anything but its target.
abbrev IsTamed : OptCall → Type 0
IsTamed c =
    (opt : ℕ)
    → (opt == so_sndbuf || opt == so_rcvbuf) ≡ true
    → (c.level == sol_socket && c.optname == opt) ≡ true
    → c.value ≡ number (target_of opt)

abbrev AllTamed : List OptCall → Type 0
AllTamed [] = Unit
AllTamed (c ∷ cs) = IsTamed c × AllTamed cs

-- What the game does: it sets an option by the one function or the other.
pub data OptOp : Type 0 where
  by_setsockopt by_wsa : OptCall → OptOp

unfoldable pub opt_step : OptState → OptOp → List OptCall × OptState
opt_step st (by_setsockopt c) = hooked_setsockopt st c
opt_step st (by_wsa c) = hooked_wsa_set_socket_option st c

unfoldable pub opt_run : OptState → List OptOp → List OptCall
opt_run st [] = []
opt_run st (o ∷ os) = let (cs, st') = opt_step st o in cs ++ opt_run st' os

tamed_append : (xs ys : List OptCall) → AllTamed xs → AllTamed ys → AllTamed (xs ++ ys)
tamed_append [] ys k l = l
tamed_append (x ∷ xs) ys k l = (k.0, tamed_append xs ys k.1 l)

dscp-AllTamed : (st : OptState) (s : ℕ) → AllTamed (apply_dscp st s)
unfolding apply_dscp
dscp-AllTamed st s = elim (Bool-cases (st.dscp == 0 || not st.has_setsockopt)) [
  | inl e ↦ simp e tt
  | inr e ↦ simp e ((λ opt h k. absurd (ground (arith, k))), tt)
]

-- The four ways of a hook, and what each has to show.
by_option :
    (p q r : Bool) (w x y z : List OptCall × OptState)
    → AllTamed w.0
    → (q ≡ true → AllTamed x.0)
    → (r ≡ true → AllTamed y.0)
    → (q ≡ false → r ≡ false → AllTamed z.0)
    → AllTamed (if p then w else if q then x else if r then y else z).0
by_option true q r w x y z k l m n = k
by_option false true r w x y z k l m n = l refl
by_option false false true w x y z k l m n = m refl
by_option false false false w x y z k l m n = n refl refl

send-IsTamed :
    (s : ℕ) (l o : ℕ)
    → (l == sol_socket && o == so_sndbuf) ≡ true
    → IsTamed (record { sock = s; level = l; optname = o; value = number send_buf })
send-IsTamed s l o e opt h k = ground (arith, e, h, k)

recv-IsTamed :
    (s l o : ℕ)
    → (l == sol_socket && o == so_rcvbuf) ≡ true
    → IsTamed (record { sock = s; level = l; optname = o; value = number recv_buf })
recv-IsTamed s l o e opt h k = ground (arith, e, h, k)

-- A call that the hooks pass on sets neither buffer.
other-IsTamed :
    (c : OptCall)
    → (c.level == sol_socket && c.optname == so_sndbuf) ≡ false
    → (c.level == sol_socket && c.optname == so_rcvbuf) ≡ false
    → IsTamed c
other-IsTamed c e f opt h k = absurd (ground (arith, e, f, h, k))

module _ (st : OptState) (c : OptCall) where
  forced : ℕ → OptCall
  forced v = record c { value = number v }

  setsockopt-AllTamed : AllTamed (hooked_setsockopt st c).0
  unfolding hooked_setsockopt forced
  setsockopt-AllTamed =
      by_option (not st.has_setsockopt) (c.level == sol_socket && c.optname == so_sndbuf)
        (c.level == sol_socket && c.optname == so_rcvbuf) ([], st)
        (forced send_buf ∷ apply_dscp st c.sock, numbers_socket st c.sock)
        (forced recv_buf ∷ [], numbers_socket st c.sock) (c ∷ [], st) tt
        (λ e. (send-IsTamed c.sock c.level c.optname e, dscp-AllTamed st c.sock))
        (λ e. (recv-IsTamed c.sock c.level c.optname e, tt)) (λ e f. (other-IsTamed c e f, tt))

  wsa-AllTamed : AllTamed (hooked_wsa_set_socket_option st c).0
  unfolding hooked_wsa_set_socket_option forced
  wsa-AllTamed =
      by_option (not st.has_wsasetsocketoption) (c.level == sol_socket && c.optname == so_sndbuf)
        (c.level == sol_socket && c.optname == so_rcvbuf) ([], st)
        (forced send_buf ∷ [], numbers_socket st c.sock)
        (forced recv_buf ∷ [], numbers_socket st c.sock) (c ∷ [], st) tt
        (λ e. (send-IsTamed c.sock c.level c.optname e, tt))
        (λ e. (recv-IsTamed c.sock c.level c.optname e, tt)) (λ e f. (other-IsTamed c e f, tt))

step-AllTamed : (st : OptState) (o : OptOp) → AllTamed (opt_step st o).0
unfolding opt_step
step-AllTamed st (by_setsockopt c) = setsockopt-AllTamed st c
step-AllTamed st (by_wsa c) = wsa-AllTamed st c

run-AllTamed : (st : OptState) (os : List OptOp) → AllTamed (opt_run st os)
unfolding opt_run
run-AllTamed st [] = tt
run-AllTamed st (o ∷ os) =
    tamed_append (opt_step st o).0 (opt_run (opt_step st o).1 os) (step-AllTamed st o)
      (run-AllTamed (opt_step st o).1 os)

-- Calls that are tamed leave a buffer that has its target there.
tamed_stays :
    (s opt : ℕ) (cs : List OptCall)
    → (opt == so_sndbuf || opt == so_rcvbuf) ≡ true
    → AllTamed cs
    → in_force s opt (some (number (target_of opt))) cs ≡ some (number (target_of opt))
tamed_stays s opt [] h k = refl
tamed_stays s opt (c ∷ cs) h k = elim (Bool-cases (sets s opt c)) [
  | inl e ↦ simp (e, k.0 opt h (ground (arith, e))) (tamed_stays s opt cs h k.1)
  | inr e ↦ simp e (tamed_stays s opt cs h k.1)
]

in_force-append :
    (s opt : ℕ) (v : Option OptValue) (xs ys : List OptCall)
    → in_force s opt v (xs ++ ys) ≡ in_force s opt (in_force s opt v xs) ys
in_force-append s opt v [] ys = refl
in_force-append s opt v (x ∷ xs) ys =
    in_force-append s opt (if sets s opt x then some x.value else v) xs ys

abbrev new_call : ℕ → ℕ → ℕ → OptCall
new_call s opt v = record { sock = s; level = sol_socket; optname = opt; value = number v }

-- The calls of the creation of a socket, and then those of what the game does.
unfoldable pub opt_session : OptState → ℕ → ℕ → ℕ → List OptOp → List OptCall
opt_session st type protocol opened os =
    let (s, cs, st') = hooked_wsa_socket_w st type protocol opened in cs ++ opt_run st' os

first_two :
    (s opt : ℕ)
    → (opt == so_sndbuf || opt == so_rcvbuf) ≡ true
    → in_force s opt none (new_call s so_sndbuf send_buf ∷ new_call s so_rcvbuf recv_buf ∷ [])
      ≡ some (number (target_of opt))
first_two s opt h = ground (arith, h)

created :
    (st : OptState) (type protocol opened opt : ℕ)
    → st.has_setsockopt ≡ true
    → st.has_wsasocketw ≡ true
    → (opened == invalid_socket) ≡ false
    → (type == sock_dgram || protocol == ipproto_udp) ≡ true
    → (opt == so_sndbuf || opt == so_rcvbuf) ≡ true
    → in_force opened opt none (hooked_wsa_socket_w st type protocol opened).1
      ≡ some (number (target_of opt))
unfolding hooked_wsa_socket_w
created st type protocol opened opt set make ok udp h =
    let rest = apply_dscp st opened in
    simp (make, ok, udp, set)
      (ap (λ v. in_force opened opt v rest) (first_two opened opt h)
        ∙ tamed_stays opened opt rest h (dscp-AllTamed st opened))

-- The send and the receive buffer of a UDP socket that the game creates with WSASocketW have the
-- proxy's sizes, and keep them, whatever options of whatever sockets the game sets with setsockopt or
-- with WSASetSocketOption: the last value that Winsock is given for each buffer is the proxy's. (The
-- real setsockopt and WSASocketW are there, and the creation succeeds.)
pub buffers_stay :
    (st : OptState) (type protocol opened opt : ℕ) (os : List OptOp)
    → st.has_setsockopt ≡ true
    → st.has_wsasocketw ≡ true
    → (opened == invalid_socket) ≡ false
    → (type == sock_dgram || protocol == ipproto_udp) ≡ true
    → (opt == so_sndbuf || opt == so_rcvbuf) ≡ true
    → in_force opened opt none (opt_session st type protocol opened os)
      ≡ some (number (target_of opt))
unfolding opt_session
buffers_stay st type protocol opened opt os set make ok udp h =
    let made = hooked_wsa_socket_w st type protocol opened in
    let later = opt_run made.2 os in
    in_force-append opened opt none made.1 later
    ∙ ap (λ v. in_force opened opt v later) (created st type protocol opened opt set make ok udp h)
    ∙ tamed_stays opened opt later h (run-AllTamed made.2 os)
