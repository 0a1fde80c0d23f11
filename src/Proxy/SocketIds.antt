-- ===== src/Proxy/SocketIds.antt =====
-- The numbers of sockets: a number that was given stays.
mod Table
use battlezone_netcode_patch.Prelude.{
  ℕ, ◌+◌, ◌-◌, ◌<◌, ◌≡◌, ◌≢◌, ◌∙◌, ap, sym, refl, subst, inl, inr, Bool, true, false, none, some,
  Option-cases, List, [], ◌∷◌, get_or, set, length, length-set, get_or-set_self, get_or-set_ne,
  arith, Bool-cases, ◌==◌,
}
use battlezone_netcode_patch.Prelude.Int.{ℤ, pos, negsuc}
use battlezone_netcode_patch.Prelude.Scan.{Found, find_index?, find_index?-Found, find-set_miss}
use battlezone_netcode_patch.Proxy.{invalid_socket}
use battlezone_netcode_patch.Proxy.EventLog.{
  SocketTrack, Tracks, no_track, find_track, take_entry, number_socket, get_socket_id,
  forget_socket_id,
}
use battlezone_netcode_patch.Proxy.SocketIds.Table.{
  numbered, hit_answers, miss_numbers, free_numbers, full_refuses, found_in, found_nowhere, same,
  both, found_is, miss_quiet, forget_found, forget_missing,
}

-- The hooks that number and forget sockets, one after the other.
pub data TrackOp : Type 0 where
  asks : ℕ → Bool → TrackOp
  forgets : ℕ → TrackOp

abbrev pub track_op : Tracks → TrackOp → Tracks
track_op t (asks s create) = (get_socket_id t s create).1
track_op t (forgets s) = forget_socket_id t s

abbrev pub track_run : Tracks → List TrackOp → Tracks
track_run t [] = t
track_run t (o ∷ os) = track_run (track_op t o) os

-- None of the operations forgets `s`.
abbrev pub Remembers : ℕ → List TrackOp → Type 0
Remembers s [] = Unit
Remembers s (asks u create ∷ os) = Remembers s os
Remembers s (forgets u ∷ os) = (u ≢ s) × Remembers s os

-- Entry `j` is the first of `s`, and has the number `id`.
record Numbered (t : Tracks) (s : ℕ) (id : ℤ) : Type 0 where
  ready : t.lock_ready ≡ true
  at : ℕ
  found : find_track t.tracks s ≡ some at
  has : (get_or t.tracks at no_track).id ≡ id

-- A write to an entry that is not of `s`, before or after it, leaves the number of `s`.
write-Numbered :
    (t : Tracks) (s u k next : ℕ) (x : SocketTrack) (id : ℤ)
    → find_track t.tracks u ≡ some k
    → u ≢ s
    → x.s ≢ s
    → Numbered t s id
    → Numbered (record t { tracks = set t.tracks k x; next_socket_id = next }) s id
unfolding find_track
write-Numbered t s u k next x id f ne ne' n =
    let l = found_in t.tracks u k f in
    let of_u = found_is t.tracks u k f in
    let of_s = found_is t.tracks s n.at n.found in
    let apart : k ≢ n.at = λ e. ne (
      both (get_or t.tracks k no_track).s u s of_u
        (subst (λ i. ((get_or t.tracks i no_track).s == s) ≡ true) (sym e) of_s)) in
    record {
      ready = n.ready;
      at = n.at;
      found =
          find-set_miss (λ (y : SocketTrack). y.s == s) no_track t.tracks k x l
            (ground (arith, ne')) (ground (arith, of_u, ne))
          ∙ n.found;
      has = ap (λ (y : SocketTrack). y.id) (get_or-set_ne t.tracks k n.at x no_track apart) ∙ n.has;
    }

-- A socket that is found nowhere is not the one with a number.
other_socket :
    (ts : List SocketTrack) (s u j : ℕ) → find_track ts s ≡ some j → find_track ts u ≡ none → u ≢ s
other_socket ts s u j f g e = cc

-- A new number for another socket.
miss-Numbered :
    (t : Tracks) (s u : ℕ) (create : Bool) (id : ℤ)
    → s ≢ invalid_socket
    → find_track t.tracks u ≡ none
    → Numbered t s id
    → Numbered (get_socket_id t u create).1 s id
miss-Numbered t s u false id real f n =
    subst (λ (r : ℤ × Tracks). Numbered r.1 s id) (sym (miss_quiet t u n.ready f)) n
miss-Numbered t s u true id real f n =
    let other = other_socket t.tracks s u n.at n.found f in
    elim (Option-cases (find_track t.tracks invalid_socket)) [
      | inr (k, g) ↦
          subst (λ (r : ℤ × Tracks). Numbered r.1 s id)
            (sym (miss_numbers t u n.ready f ∙ free_numbers t u k g))
            (write-Numbered t s invalid_socket k (t.next_socket_id + 1)
              (record { s = u; id = pos t.next_socket_id }) id g (λ e. real (sym e)) other n)
      | inl g ↦
          subst (λ (r : ℤ × Tracks). Numbered r.1 s id)
            (sym (miss_numbers t u n.ready f ∙ full_refuses t u g)) n
    ]

ask-Numbered :
    (t : Tracks) (s u : ℕ) (create : Bool) (id : ℤ)
    → s ≢ invalid_socket
    → Numbered t s id
    → Numbered (get_socket_id t u create).1 s id
ask-Numbered t s u create id real n = elim (Option-cases (find_track t.tracks u)) [
  | inr (i, f) ↦
      subst (λ (r : ℤ × Tracks). Numbered r.1 s id) (sym (hit_answers t u i create n.ready f)) n
  | inl f ↦ miss-Numbered t s u create id real f n
]

forget-Numbered :
    (t : Tracks) (s u : ℕ) (id : ℤ)
    → s ≢ invalid_socket
    → u ≢ s
    → Numbered t s id
    → Numbered (forget_socket_id t u) s id
forget-Numbered t s u id real ne n = elim (Option-cases (find_track t.tracks u)) [
  | inr (k, f) ↦
      subst (λ t'. Numbered t' s id) (sym (forget_found t u k n.ready f))
        (write-Numbered t s u k t.next_socket_id no_track id f ne (λ e. real (sym e)) n)
  | inl f ↦ subst (λ t'. Numbered t' s id) (sym (forget_missing t u n.ready f)) n
]

run-Numbered :
    (t : Tracks) (s : ℕ) (id : ℤ) (os : List TrackOp)
    → s ≢ invalid_socket
    → Remembers s os
    → Numbered t s id
    → Numbered (track_run t os) s id
run-Numbered t s id [] real k n = n
run-Numbered t s id (asks u create ∷ os) real k n =
    run-Numbered (get_socket_id t u create).1 s id os real k (ask-Numbered t s u create id real n)
run-Numbered t s id (forgets u ∷ os) real (ne, k) n =
    run-Numbered (forget_socket_id t u) s id os real k (forget-Numbered t s u id real ne n)

-- The answer to the first question.
first-Numbered :
    (t : Tracks) (s : ℕ)
    → t.lock_ready ≡ true
    → (get_socket_id t s true).0 ≢ negsuc 0
    → let (id, t') = get_socket_id t s true in Numbered t' s id
first-Numbered t s ready given = elim (Option-cases (find_track t.tracks s)) [
  | inr (i, f) ↦
      subst (λ (r : ℤ × Tracks). Numbered r.1 s r.0) (sym (hit_answers t s i true ready f))
        (record { ready = ready; at = i; found = f; has = refl })
  | inl f ↦ elim (Option-cases (find_track t.tracks invalid_socket)) [
    | inr (j, g) ↦
        let x : SocketTrack = record { s = s; id = pos t.next_socket_id } in
        let l = found_in t.tracks invalid_socket j g in
        subst (λ (r : ℤ × Tracks). Numbered r.1 s r.0)
          (sym (miss_numbers t s ready f ∙ free_numbers t s j g))
          (record {
            ready = ready;
            at = j;
            found = numbered t.tracks s j x l (same s) (found_nowhere t.tracks s f);
            has = ap (λ (y : SocketTrack). y.id) (get_or-set_self t.tracks j x no_track l);
          })
    | inl g ↦
        absurd
          (given (ap (λ (r : ℤ × Tracks). r.0) (miss_numbers t s ready f ∙ full_refuses t s g)))
  ]
]

Numbered-answers :
    (t : Tracks) (s : ℕ) (id : ℤ) (again : Bool)
    → Numbered t s id
    → get_socket_id t s again ≡ (id, t)
Numbered-answers t s id again n =
    hit_answers t s n.at again n.ready n.found ∙ ap (λ i. (i, t)) n.has

-- A socket keeps its number. Once `get_socket_id` has answered a number for a valid socket, then
-- whatever other questions come and whatever other sockets are forgotten, it answers the same number
-- for it, and changes nothing, whenever it is asked again, with or without leave to create one. (The
-- lock is ready, and the socket itself is not forgotten in between.)
pub number_stays :
    (t : Tracks) (s : ℕ) (os : List TrackOp) (again : Bool)
    → t.lock_ready ≡ true
    → s ≢ invalid_socket
    → (get_socket_id t s true).0 ≢ negsuc 0
    → Remembers s os
    → let (id, t') = get_socket_id t s true in
      get_socket_id (track_run t' os) s again ≡ (id, track_run t' os)
number_stays t s os again ready real given k =
    let (id, t') = get_socket_id t s true in
    Numbered-answers (track_run t' os) s id again
      (run-Numbered t' s id os real k (first-Numbered t s ready given))
