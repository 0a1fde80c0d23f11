-- ===== src/Proxy/Poll.antt =====
-- A poll of the reorder buffer: the drain leaves the rotation alone, and what is ready is delivered.
use battlezone_netcode_patch.Prelude.{
  ℕ, zero, suc, ◌+◌, ◌^◌, ◌<◌, ◌≤◌, ◌≡◌, ◌≢◌, ◌∙◌, refl, inl, inr, true, false, ◌||◌, Option, none,
  some, List, [], ◌∷◌, length, arith, Bool-cases, ltb, ◌==◌, ◌!=◌,
}
use battlezone_netcode_patch.Reorder.{
  SockAddr, PeerBuf, ReorderStats, ReorderCtx, reorder_seq_min_pay,
}
use battlezone_netcode_patch.Reorder.Peers.{
  peer_at, put_peer, touch, reclaim, reorder_get_peer, reorder_drain_saturated,
}
use battlezone_netcode_patch.Reorder.Wire.{reorder_seq_from_payload}
use battlezone_netcode_patch.Reorder.Window.{reorder_adapt_on_arrival}
use battlezone_netcode_patch.Reorder.Slots.{
  reorder_insert, reorder_take, InsertResult, buffered, stale, duplicate, displaced,
}
use battlezone_netcode_patch.Reorder.Pick.{Ready, reorder_next_ready}
use battlezone_netcode_patch.Reorder.RoundRobin.{IsReady, Chosen, round_robin_fair}
use battlezone_netcode_patch.Proxy.{af_inet}
use battlezone_netcode_patch.Proxy.Deliver.{deliver_to_caller}
use battlezone_netcode_patch.Proxy.Recv.{
  wake_magic, wsaewouldblock, Drained, Read, too_big, fails, datagram, RxState, Handed, Round,
  breaks, goes_on, hands, same_bytes, inserted, at_peer, take_in, drain_round, note_depth,
  DrainResult, after_round, drain_reads, RecvArgs, hand_over, poll_ready, after_drain, polled_at,
  hooked_wsa_recv_from,
}

-- The rotation over the peers is left alone.
abbrev pub SameScan : ReorderCtx → ReorderCtx → Type 0
SameScan c d = (d.rr ≡ c.rr) × (d.peers ≡ c.peers)

get_peer-SameScan :
    (c : ReorderCtx) (addr : SockAddr) (now : ℕ) → SameScan c (reorder_get_peer c addr now).1
unfolding reorder_get_peer reclaim touch
get_peer-SameScan c addr now = ground arith

-- The same for the state that a round leaves.
abbrev Scans : ReorderCtx → Round → Type 0
Scans c breaks = 0 ≤ 0
Scans c (goes_on s') = SameScan c s'.rx
Scans c (hands b h s') = SameScan c s'.rx

inserted-Scans :
    (c : ReorderCtx) (s : RxState) (i : ℕ) (d : Drained) (len : ℕ)
    (r : InsertResult × ReorderStats × PeerBuf)
    → SameScan c s.rx
    → Scans c (inserted s i d len r)
unfolding inserted put_peer
inserted-Scans c s i d len (buffered, st, pb) e = e
inserted-Scans c s i d len (stale, st, pb) e = e
inserted-Scans c s i d len (duplicate, st, pb) e = e
inserted-Scans c s i d len (displaced y, st, pb) e = e

at_peer-Scans :
    (c : ReorderCtx) (s : RxState) (sock : ℕ) (d : Drained) (len : ℕ) (r : Option ℕ × ReorderCtx)
    → SameScan c r.1
    → Scans c (at_peer s sock d len r)
unfolding at_peer
at_peer-Scans c s sock d len (none, c') e = e
at_peer-Scans c s sock d len (some i, c') e =
    let seq = reorder_seq_from_payload d.bytes in
    let adapted = reorder_adapt_on_arrival c' (peer_at c' i) seq d.now in
    inserted-Scans c (record s { rx = c'; sock = sock; last_recv_call_ms = d.now }) i d len
      (reorder_insert c' c'.stats adapted seq d.now d.src d.bytes len) e

take_in-Scans : (s : RxState) (sock : ℕ) (d : Drained) → Scans s.rx (take_in s sock d)
unfolding take_in
take_in-Scans s sock d = elim (Bool-cases (length d.bytes == 0)) [
  | inl e ↦ simp e (omega arith)
  | inr e ↦ elim (Bool-cases (same_bytes d.bytes wake_magic)) [
    | inl f ↦ simp (e, f) (refl, refl)
    | inr f ↦ elim (Bool-cases (d.family != af_inet || ltb (length d.bytes) reorder_seq_min_pay)) [
      | inl g ↦ simp (e, f, g) (refl, refl)
      | inr g ↦
          simp (e, f, g)
            (at_peer-Scans s.rx s sock d (length d.bytes) (reorder_get_peer s.rx d.src d.now)
              (get_peer-SameScan s.rx d.src d.now))
    ]
  ]
]

round-Scans : (s : RxState) (sock : ℕ) (r : Read) → Scans s.rx (drain_round s sock r)
unfolding drain_round
round-Scans s sock too_big = (refl, refl)
round-Scans s sock fails = omega arith
round-Scans s sock (datagram d) = take_in-Scans s sock d

depth-SameScan :
    (c : ReorderCtx) (s : RxState) (n : ℕ) → SameScan c s.rx → SameScan c (note_depth s n).rx
unfolding note_depth
depth-SameScan c s n e = elim (Bool-cases (ltb s.rx.stats.max_drain_depth n)) [
  | inl f ↦ simp f e
  | inr f ↦ simp f e
]

then_SameScan : (c d e : ReorderCtx) → SameScan c d → SameScan d e → SameScan c e
then_SameScan c d e (a, b) (a', b') = (a' ∙ a, b' ∙ b)

after-SameScan :
    (s : RxState) (drained : ℕ) (rs : List Read) (r : Round) (rest : RxState → DrainResult)
    → Scans s.rx r
    → ((s' : RxState) → SameScan s'.rx (rest s').2.rx)
    → SameScan s.rx (after_round drained rs s r rest).2.rx
after-SameScan s drained rs breaks rest e ih = depth-SameScan s.rx s drained (refl, refl)
after-SameScan s drained rs (goes_on s') rest e ih =
    then_SameScan s.rx s'.rx (rest s').2.rx e (ih s')
after-SameScan s drained rs (hands true h s') rest e ih = depth-SameScan s.rx s' (drained + 1) e
after-SameScan s drained rs (hands false h s') rest e ih = e

drain-SameScan :
    (n : ℕ) (s : RxState) (sock drained : ℕ) (rs : List Read)
    → SameScan s.rx (drain_reads n s sock drained rs).2.rx
unfolding drain_reads
drain-SameScan zero s sock drained rs = depth-SameScan s.rx s drained (refl, refl)
drain-SameScan (suc n) s sock drained [] = depth-SameScan s.rx s drained (refl, refl)
drain-SameScan (suc n) s sock drained (r ∷ rs) = elim (Bool-cases (reorder_drain_saturated s.rx)) [
  | inl e ↦ simp e (depth-SameScan s.rx s drained (refl, refl))
  | inr e ↦ simp e (
      after-SameScan s drained rs (drain_round s sock r)
        (λ s'. drain_reads n s' sock (drained + 1) rs) (round-Scans s sock r)
        (λ s'. drain-SameScan n s' sock (drained + 1) rs))
]

handed_answer :
    (addr_bytes : SockAddr → List ℕ) (s : RxState) (a : RecvArgs) (h : Handed)
    → (hand_over addr_bytes s a h).0.wsa ≢ wsaewouldblock
unfolding hand_over deliver_to_caller
handed_answer addr_bytes s a h = ground arith

poll_answer :
    (addr_bytes : SockAddr → List ℕ) (a : RecvArgs) (now i : ℕ) (s : RxState)
    (r : Option Ready × ReorderCtx)
    → Chosen s.rx now i r
    → (poll_ready addr_bytes s a now r).0.wsa ≢ wsaewouldblock
unfolding poll_ready
poll_answer addr_bytes a now i s (none, c) h = absurd h
poll_answer addr_bytes a now i s (some x, c) h =
    let (pkt, st, pb) = reorder_take c c.stats (peer_at c x.peer) x.slot now x.kind in
    handed_answer addr_bytes (record s { rx = put_peer c x.peer (st, pb) }) a
      (record { src = pkt.from; payload = pkt.payload; len = pkt.len })

-- The rotation's cursor is in the table.
abbrev pub Rotates : ReorderCtx → Type 0
Rotates c = (c.rr < c.peers) × (c.peers < 2 ^ 31)

-- Is a packet of some live peer ready after the drain?
abbrev pub Deliverable : ℕ → ℕ → DrainResult → Type 0
Deliverable now i (h, rs, s) = (i < s.rx.peers) × IsReady s.rx now i

drained_answer :
    (addr_bytes : SockAddr → List ℕ) (a : RecvArgs) (now i : ℕ) (r : DrainResult)
    → Rotates r.2.rx
    → Deliverable now i r
    → (after_drain addr_bytes a now r).0.wsa ≢ wsaewouldblock
unfolding after_drain
drained_answer addr_bytes a now i (some h, rs, s) k d = handed_answer addr_bytes s a h
drained_answer addr_bytes a now i (none, rs, s) (hr, hp) (hi, ready) =
    poll_answer addr_bytes a now i s (reorder_next_ready s.rx now)
      (round_robin_fair s.rx now i hr hp hi ready)

scan-Rotates : (c d : ReorderCtx) → SameScan c d → Rotates c → Rotates d
scan-Rotates c d (e, f) (hr, hp) = (omega arith, omega arith)

polled-Rotates :
    (s : RxState) (a : RecvArgs) (polled : ℕ) → Rotates s.rx → Rotates (polled_at s a polled).rx
unfolding polled_at
polled-Rotates s a polled k = elim (Bool-cases (a.sock == s.sock)) [
  | inl e ↦ simp e k
  | inr e ↦ simp e k
]

-- A receive never says that the socket is empty while a packet can be delivered. Whatever the real
-- WSARecvFrom answers to the drain, if some live peer has a packet that the buffer would release
-- when the drain is over, the call does not fail with WSAEWOULDBLOCK.
pub ready_is_delivered :
    (addr_bytes : SockAddr → List ℕ) (s : RxState) (a : RecvArgs) (polled now i : ℕ)
    (rs : List Read)
    → Rotates s.rx
    → Deliverable now i (drain_reads s.drain (polled_at s a polled) a.sock 0 rs)
    → (hooked_wsa_recv_from addr_bytes s a polled now rs).0.wsa ≢ wsaewouldblock
unfolding hooked_wsa_recv_from polled_at
ready_is_delivered addr_bytes s a polled now i rs k d =
    let r = drain_reads s.drain (polled_at s a polled) a.sock 0 rs in
    let e = drain-SameScan s.drain (polled_at s a polled) a.sock 0 rs in
    let start = (polled_at s a polled).rx in
    drained_answer addr_bytes a now i r (scan-Rotates start r.2.rx e (polled-Rotates s a polled k))
      d
