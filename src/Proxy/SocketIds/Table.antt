-- ===== src/Proxy/SocketIds/Table.antt =====
-- The table of socket numbers: what a search in it and a call of the two functions come to.
use battlezone_netcode_patch.Prelude.{
  ℕ, ◌+◌, ◌-◌, ◌<◌, ◌≡◌, ◌∙◌, ap, sym, refl, subst, inl, inr, Bool, true, false, none, some,
  Option-cases, List, get_or, set, length, length-set, get_or-set_self, get_or-set_ne, arith,
  Bool-cases, ◌==◌,
}
use battlezone_netcode_patch.Prelude.Int.{pos, negsuc}
use battlezone_netcode_patch.Prelude.Scan.{Found, find_index?, find_index?-Found}
use battlezone_netcode_patch.Proxy.{invalid_socket}
use battlezone_netcode_patch.Proxy.EventLog.{
  SocketTrack, Tracks, no_track, find_track, take_entry, number_socket, get_socket_id,
  forget_socket_id,
}

-- A search for `s` after the entry `j` was given to it, where no entry had it.
clash : ◌≡◌ {A = Bool} false true → ⊥
clash e = cc

pub numbered :
    (ts : List SocketTrack) (s j : ℕ) (x : SocketTrack)
    → j < length ts
    → (x.s == s) ≡ true
    → ((k : ℕ) → k < length ts → ((get_or ts k no_track).s == s) ≡ false)
    → find_track (set ts j x) s ≡ some j
unfolding find_track
numbered ts s j x l e h =
    let is = λ (t : SocketTrack). t.s == s in
    let ts' = set ts j x in
    let found = find_index?-Found is no_track ts' in
    let here = get_or-set_self ts j x no_track l in
    let size = length-set ts j x in
    elim (Option-cases (find_index? is ts')) [
      | inl f ↦
          let missing = subst (Found is no_track 0 ts') f found in
          let z = missing j (omega arith) in absurd (clash (sym z ∙ ap is here ∙ e))
      | inr (k, f) ↦
          let (lo, hi, hit, before) = subst (Found is no_track 0 ts') f found in
          elim (Bool-cases (j == k - 0)) [
            | inl g ↦ f ∙ ap some (ground arith)
            | inr g ↦
                let other = get_or-set_ne ts j (k - 0) x no_track (ground arith) in
                let z = h (k - 0) (omega arith) in absurd (clash (sym z ∙ sym (ap is other) ∙ hit))
          ]
    ]

pub hit_answers :
    (t : Tracks) (s i : ℕ) (create : Bool)
    → t.lock_ready ≡ true
    → find_track t.tracks s ≡ some i
    → get_socket_id t s create ≡ ((get_or t.tracks i no_track).id, t)
unfolding get_socket_id
hit_answers t s i create ready f = simp (ready, f) refl

pub miss_numbers :
    (t : Tracks) (s : ℕ)
    → t.lock_ready ≡ true
    → find_track t.tracks s ≡ none
    → get_socket_id t s true ≡ number_socket t s
unfolding get_socket_id
miss_numbers t s ready f = simp (ready, f) refl

-- The table with `s` in entry `j`.
abbrev with_socket : Tracks → ℕ → ℕ → Tracks
with_socket t s j = record t {
  tracks = set t.tracks j (record { s = s; id = pos t.next_socket_id });
  next_socket_id = t.next_socket_id + 1;
}

pub free_numbers :
    (t : Tracks) (s j : ℕ)
    → find_track t.tracks invalid_socket ≡ some j
    → number_socket t s ≡ (pos t.next_socket_id, with_socket t s j)
unfolding number_socket
free_numbers t s j f = ap (take_entry t s) f

pub full_refuses :
    (t : Tracks) (s : ℕ)
    → find_track t.tracks invalid_socket ≡ none
    → number_socket t s ≡ (negsuc 0, t)
unfolding number_socket
full_refuses t s f = ap (take_entry t s) f

pub found_in : (ts : List SocketTrack) (s j : ℕ) → find_track ts s ≡ some j → j < length ts
unfolding find_track
found_in ts s j f =
    let is = λ (t : SocketTrack). t.s == s in
    let h = subst (Found is no_track 0 ts) f (find_index?-Found is no_track ts) in
    omega (arith, h.1)

pub found_nowhere :
    (ts : List SocketTrack) (s : ℕ)
    → find_track ts s ≡ none
    → (k : ℕ) → k < length ts
    → ((get_or ts k no_track).s == s) ≡ false
unfolding find_track
found_nowhere ts s f =
    let is = λ (t : SocketTrack). t.s == s in
    subst (Found is no_track 0 ts) f (find_index?-Found is no_track ts)

pub same : (s : ℕ) → (s == s) ≡ true
same s = ground arith

pub both : (x u s : ℕ) → (x == u) ≡ true → (x == s) ≡ true → u ≡ s
both x u s e f = ground (arith, e, f)

-- The entry that a search finds has the socket.
pub found_is :
    (ts : List SocketTrack) (s j : ℕ)
    → find_track ts s ≡ some j
    → ((get_or ts j no_track).s == s) ≡ true
unfolding find_track
found_is ts s j f =
    let is = λ (t : SocketTrack). t.s == s in
    let h = subst (Found is no_track 0 ts) f (find_index?-Found is no_track ts) in
    let z : j - 0 ≡ j = omega arith in rw z at h.2

pub miss_quiet :
    (t : Tracks) (u : ℕ)
    → t.lock_ready ≡ true
    → find_track t.tracks u ≡ none
    → get_socket_id t u false ≡ (negsuc 0, t)
unfolding get_socket_id
miss_quiet t u ready f = simp (ready, f) refl

pub forget_found :
    (t : Tracks) (u k : ℕ)
    → t.lock_ready ≡ true
    → find_track t.tracks u ≡ some k
    → forget_socket_id t u ≡ record t { tracks = set t.tracks k no_track }
unfolding forget_socket_id
forget_found t u k ready f = simp (ready, f) refl

pub forget_missing :
    (t : Tracks) (u : ℕ)
    → t.lock_ready ≡ true
    → find_track t.tracks u ≡ none
    → forget_socket_id t u ≡ t
unfolding forget_socket_id
forget_missing t u ready f = simp (ready, f) refl
