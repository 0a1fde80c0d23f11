-- ===== src/Proxy/Scatter.antt =====
-- What `scatter_copy` leaves in the caller's buffers, and how `deliver_to_caller` reports it.
use mathlib.Core.List.{append_assoc}
use battlezone_netcode_patch.Prelude.{
  ℕ, zero, suc, ◌+◌, ◌-◌, ◌≤◌, ◌<◌, ◌≡◌, ◌∙◌, ◌⊎◌, ap, sym, refl, subst, inl, inr, false, Option,
  none, some, List, [], ◌∷◌, ◌++◌, take, drop, length, length-append, min, arith, Bool-cases, ltb,
  ◌==◌,
}
use battlezone_netcode_patch.Prelude.Slices.{
  take-add, drop-drop, take-all, length-drop, length-take_of, take-front,
}
use battlezone_netcode_patch.Prelude.Int.{pos, negsuc}
use battlezone_netcode_patch.Reorder.{ReorderStats}
use battlezone_netcode_patch.Proxy.{WsaBuf}
use battlezone_netcode_patch.Proxy.Gather.{contents, size, sizes}
use battlezone_netcode_patch.Proxy.Deliver.{
  past, copied_into, scatter_one, scatter_copy, FromArg, deliver_to_caller, wsaemsgsize,
  msg_partial,
}

-- A buffer is null, or as long as it says.
abbrev pub Sized : Option (List ℕ) → ℕ → Type 0
Sized none len = 0 ≤ 0
Sized (some bytes) len = length bytes ≡ len

abbrev pub AllSized : List WsaBuf → Type 0
AllSized [] = 0 ≤ 0
AllSized (b ∷ bs) = Sized b.buf b.len × AllSized bs

-- With `left` bytes to copy after the first `done`: as many as there are and as there is room for are
-- copied, in order, and what is behind them stays.
abbrev Fills : List ℕ → ℕ → ℕ → ℕ → ℕ × List WsaBuf → Type 0
Fills src done left room (n, bs') =
    (tail : List ℕ) × (n ≡ done + min left room)
    × (contents bs' ≡ take (min left room) (drop done src) ++ tail)
    × (sizes bs' ≡ room)

stop-Fills :
    (src : List ℕ) (done left room : ℕ) (bs : List WsaBuf)
    → left ≡ 0
    → sizes bs ≡ room
    → Fills src done left room (done, bs)
stop-Fills src done left room bs e r =
    let z : min left room ≡ 0 = omega arith in
    (contents bs, omega arith, ap (λ m. take m (drop done src) ++ contents bs) (sym z), r)

-- A buffer without room adds nothing.
same-Fills :
    (src : List ℕ) (done left room : ℕ) (r : ℕ × List WsaBuf)
    → Fills src done left room r
    → Fills src done left (0 + room) (r.0, record { buf = none; len = 0 } ∷ r.1)
same-Fills src done left room r (tail, n, c, z) =
    let m : min left room ≡ min left (0 + room) = omega arith in
    (tail, omega arith, c ∙ ap (λ k. take k (drop done src) ++ tail) m, omega arith)

-- A full buffer, and then the rest.
full-Fills :
    (src bytes : List ℕ) (done left len room : ℕ) (r : ℕ × List WsaBuf)
    → length bytes ≡ len
    → length (drop done src) ≡ left
    → len ≤ left
    → Fills src (done + len) (left - len) room r
    → Fills src done left
        (len + room)
        (past (record { buf = some (copied_into bytes len (drop done src)); len = len }) r)
full-Fills src bytes done left len room (n, bs) e l le (tail, p, q, z) =
    let y = drop done src in
    let rest = min (left - len) room in
    let m : min left (len + room) ≡ len + rest = omega arith in
    let split : take (min left (len + room)) y ≡ take len y ++ take rest (drop (done + len) src) =
      ap (λ k. take k y) m
      ∙ take-add len rest y
      ∙ ap (λ t. take len y ++ take rest t) (drop-drop len done src) in
    (
      tail,
      omega arith,
      ap (λ t. t ++ contents bs) (take-front len y (drop len bytes) (omega arith))
          ∙ ap (λ t. take len y ++ t) q
          ∙ sym (append_assoc (take len y) (take rest (drop (done + len) src)) tail)
          ∙ ap (λ t. t ++ tail) (sym split),
      omega arith,
    )

-- A buffer with room for all that is left.
partial-Fills :
    (src bytes : List ℕ) (done left len room : ℕ) (r : ℕ × List WsaBuf)
    → length bytes ≡ len
    → length (drop done src) ≡ left
    → left ≤ len
    → Fills src (done + left) 0 room r
    → Fills src done left
        (len + room)
        (past (record { buf = some (copied_into bytes left (drop done src)); len = len }) r)
partial-Fills src bytes done left len room (n, bs) e l le (tail, p, q, z) =
    let y = drop done src in
    let back = drop left bytes in
    let m : left ≡ min left (len + room) = omega arith in
    let whole : length (take left y ++ back) ≡ len = omega (
      arith,
      length-append (take left y) back,
      length-take_of left y (omega arith),
      length-drop left bytes,
    ) in
    (
      back ++ contents bs,
      omega arith,
      ap (λ t. t ++ contents bs) (take-all len (take left y ++ back) whole)
          ∙ append_assoc (take left y) back (contents bs)
          ∙ ap (λ k. take k y ++ (back ++ contents bs)) m,
      omega arith,
    )

-- One buffer, whatever the rest of the loop does.
one-Fills :
    (src : List ℕ) (done srclen len room : ℕ) (buf : Option (List ℕ)) (rest : ℕ → ℕ × List WsaBuf)
    → Sized buf len
    → length src ≡ srclen
    → done < srclen
    → ((d : ℕ) → d ≤ srclen → Fills src d (srclen - d) room (rest d))
    → Fills src done
        (srclen - done)
        (size buf len + room)
        (scatter_one buf len src srclen done rest)
one-Fills src done srclen len room none rest h e l ih =
    same-Fills src done (srclen - done) room (rest done) (ih done (omega arith))
one-Fills src done srclen zero room (some bytes) rest h e l ih =
    same-Fills src done (srclen - done) room (rest done) (ih done (omega arith))
one-Fills src done srclen (suc k) room (some bytes) rest h e l ih =
    let len : ℕ = suc k in
    let z : (len == 0) ≡ false = ground arith in
    let y : length (drop done src) ≡ srclen - done = omega (arith, length-drop done src) in
    elim (Bool-cases (ltb len (srclen - done))) [
      | inl f ↦
          let r = ih (done + len) (ground arith) in
          let left : srclen - (done + len) ≡ srclen - done - len = omega arith in
          simp (z, f)
            (full-Fills src bytes done (srclen - done) len room (rest (done + len)) h y
              (ground arith)
              (subst (λ m. Fills src (done + len) m room (rest (done + len))) left r))
      | inr f ↦
          let left : ℕ = srclen - done in
          let r = ih (done + left) (omega arith) in
          let none_left : srclen - (done + left) ≡ 0 = omega arith in
          simp (z, f)
            (partial-Fills src bytes done left len room (rest (done + left)) h y (ground arith)
              (subst (λ m. Fills src (done + left) m room (rest (done + left))) none_left r))
    ]

scatter-Fills :
    (bs : List WsaBuf) (src : List ℕ) (srclen done : ℕ)
    → AllSized bs
    → length src ≡ srclen
    → done ≤ srclen
    → Fills src done (srclen - done) (sizes bs) (scatter_copy bs src srclen done)
unfolding scatter_copy
scatter-Fills [] src srclen done h e l =
    let m : min (srclen - done) 0 ≡ 0 = omega arith in
    ([], omega arith, ap (λ k. take k (drop done src) ++ []) (sym m), refl)
scatter-Fills (b ∷ bs) src srclen done (h, hs) e l = elim (Bool-cases (ltb done srclen)) [
  | inl f ↦ simp f (
      one-Fills src done srclen b.len (sizes bs) b.buf (λ d. scatter_copy bs src srclen d) h e
        (ground arith) (λ d m. scatter-Fills bs src srclen d hs e m))
  | inr f ↦
      simp f (stop-Fills src done (srclen - done) (sizes (b ∷ bs)) (b ∷ bs) (ground arith) refl)
]

prefix :
    (m : ℕ) (payload tail x : List ℕ)
    → x ≡ take m payload ++ tail
    → m ≤ length payload
    → take m x ≡ take m payload
prefix m payload tail x e h = ap (take m) e ∙ take-front m payload tail h

-- A datagram reaches the game whole, or as an error. For buffers that are as long as they say and a
-- datagram as long as its length: where there is room for it, the call succeeds, its length is
-- reported, and the contents of the buffers start with it. Where there is not, the call fails with
-- WSAEMSGSIZE, the partial flag and the size of the room, and the contents of the buffers
-- start with the part of the datagram that fits.
pub delivered_or_refused :
    (st : ReorderStats) (bs : List WsaBuf) (from : Option FromArg) (src payload : List ℕ) (len : ℕ)
    → AllSized bs
    → length payload ≡ len
    → let (r, st') = deliver_to_caller st bs from src payload len in
      ((len ≤ sizes bs)
        × (r.rc ≡ pos 0)
        × (r.wsa ≡ 0)
        × (r.flags ≡ some 0)
        × (r.bytes_received ≡ some len)
        × (take len (contents r.buffers) ≡ payload))
      ⊎ ((sizes bs < len)
          × (r.rc ≡ negsuc 0)
          × (r.wsa ≡ wsaemsgsize)
          × (r.flags ≡ some msg_partial)
          × (r.bytes_received ≡ some (sizes bs))
          × (take (sizes bs) (contents r.buffers) ≡ take (sizes bs) payload))
unfolding deliver_to_caller
delivered_or_refused st bs from src payload len h e =
    let (tail, n, c, z) = scatter-Fills bs payload len 0 h e (omega arith) in
    let n' : (scatter_copy bs payload len 0).0 ≡ min len (sizes bs) = omega (arith, n) in
    let m : min (len - 0) (sizes bs) ≡ min len (sizes bs) = omega arith in
    let c' = c ∙ ap (λ k. take k payload ++ tail) m in
    elim (Bool-cases (ltb (scatter_copy bs payload len 0).0 len)) [
      | inl f ↦
          let some_room : sizes bs < len = ground arith in
          let k : min len (sizes bs) ≡ sizes bs = omega arith in
          simp f (
            inr (
              some_room,
              refl,
              refl,
              refl,
              ap some (n' ∙ k),
              prefix (sizes bs) payload tail (contents (scatter_copy bs payload len 0).1)
                  (c' ∙ ap (λ k. take k payload ++ tail) k) (omega arith),
            ))
      | inr f ↦
          let room : len ≤ sizes bs = ground arith in
          let k : min len (sizes bs) ≡ len = omega arith in
          simp f (
            inl (
              room,
              refl,
              refl,
              refl,
              ap some (n' ∙ k),
              prefix len payload tail (contents (scatter_copy bs payload len 0).1)
                    (c' ∙ ap (λ k. take k payload ++ tail) k) (omega arith)
                  ∙ take-all len payload e,
            ))
    ]
