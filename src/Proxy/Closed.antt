-- ===== src/Proxy/Closed.antt =====
-- What `hooked_closesocket` leaves.
use battlezone_netcode_patch.Prelude.{
  ℕ, ◌≤◌, ◌<◌, ◌≡◌, ◌∙◌, ap, sym, refl, subst, ◌⊎◌, inl, inr, Bool, true, false, List, length,
  arith, Bool-cases, ◌==◌, if◌then◌else◌,
}
use battlezone_netcode_patch.Prelude.Int.{ℤ}
use battlezone_netcode_patch.Prelude.Compact.{compact, without, compact-Leaves}
use battlezone_netcode_patch.Dampen.{dampen_peers, dampen_invalid_sock}
use battlezone_netcode_patch.Dampen.Peer.{dampen_close_ends_session}
use battlezone_netcode_patch.Pace.{PaceCtx, pace_tick}
use battlezone_netcode_patch.Pace.Queue.{pending, pace_purge_socket}
use battlezone_netcode_patch.Pace.Fifo.{IsRing}
use battlezone_netcode_patch.Proxy.{WireCall, invalid_socket}
use battlezone_netcode_patch.Proxy.Dup.{
  DupEntry, DupState, dup_queue_slots, zero_dup, waiting, dup_purge_socket,
}
use battlezone_netcode_patch.Proxy.Send.{TxState, wires, pace_flush_locked}
use battlezone_netcode_patch.Proxy.Recv.{RxState}
use battlezone_netcode_patch.Proxy.Flush.{flush_empties}
use battlezone_netcode_patch.Proxy.Close.{
  addr_at, end_session, close_flushed, close_sends, close_machines, CloseState, hooked_closesocket,
}
use battlezone_netcode_patch.Proxy.Session.{purge_peers-Freed}

purged_count : (c : PaceCtx) (sock : ℕ) → c.count ≡ 0 → (pace_purge_socket c sock).count ≡ 0
unfolding pace_purge_socket compact
purged_count c sock e = simp e refl

ticked_count : (c : PaceCtx) (now : ℕ) → (pace_tick c now).count ≡ c.count
unfolding pace_tick
ticked_count c now = ground arith

-- Does the close of `sock` end the session?
abbrev pub ends : TxState → ℕ → Bool
ends s sock =
    dampen_close_ends_session sock
      (if s.dampen_sock == invalid_socket then dampen_invalid_sock else s.dampen_sock)

-- The session is over: entry `k` of the dampener is free, and no socket is tracked.
abbrev pub Over : TxState → ℕ → TxState → Type 0
Over s k s' = (addr_at s'.dampen k ≡ 0) × (s'.dampen_sock ≡ invalid_socket)

-- The session goes on: the dampener and the sampler are untouched.
abbrev pub Untouched : TxState → TxState → Type 0
Untouched s s' = (s'.dampen ≡ s.dampen) × (s'.rtt ≡ s.rtt) × (s'.dampen_sock ≡ s.dampen_sock)

ended :
    (s : TxState) (sock k : ℕ)
    → k < dampen_peers
    → ((ends s sock ≡ true) × Over s k (end_session s sock))
      ⊎ ((ends s sock ≡ false) × Untouched s (end_session s sock))
unfolding end_session
ended s sock k l = elim (Bool-cases (ends s sock)) [
  | inl e ↦ simp e (
      inl (
        refl,
        (
          purge_peers-Freed s.rtt_ready dampen_peers 0 s.dampen s.rtt (λ j m. absurd (omega arith))
              k (omega arith),
          refl,
        ),
      ))
  | inr e ↦ simp e (inr (refl, (refl, refl, refl)))
]

ended_tx : (s : TxState) (sock : ℕ) → (end_session s sock).tx ≡ s.tx
unfolding end_session
ended_tx s sock = elim (Bool-cases (ends s sock)) [ inl e ↦ simp e refl | inr e ↦ simp e refl ]

-- The queue of duplicates is a well-formed ring.
abbrev pub IsDupRing : DupState → Type 0
IsDupRing d =
    (d.ready ≡ true)
    × (d.q_head < dup_queue_slots)
    × (d.q_count ≤ dup_queue_slots)
    × (dup_queue_slots ≤ length d.q)

purged_dups :
    (d : DupState) (sock : ℕ)
    → IsDupRing d
    → waiting (dup_purge_socket d sock) ≡ without (λ (e : DupEntry). e.sock) sock (waiting d)
unfolding dup_purge_socket
purged_dups d sock (r, hh, hn, hc) =
    let (e, l, b) =
      compact-Leaves zero_dup dup_queue_slots (λ (e : DupEntry). e.sock) sock d.q_head d.q_count 0 0
        d.q hh hc (omega arith) (omega arith) in
    simp r e

-- The lock is there and the real sendto is known.
abbrev pub Ready : TxState → Type 0
Ready s = (s.pace_ready ≡ true) × (s.has_sendto ≡ true) × IsRing s.tx

-- What goes out, and the pacer and the session afterwards.
abbrev pub Closes : TxState → ℕ → ℕ → List WireCall × TxState → Type 0
Closes s sock k (out, s') =
    (out ≡ wires (pending s.tx))
    × (s'.tx.count ≡ 0)
    × (((ends s sock ≡ true) × Over s k s') ⊎ ((ends s sock ≡ false) × Untouched s s'))
    × (s'.dup ≡ s.dup)

ended_dup : (s : TxState) (sock : ℕ) → (end_session s sock).dup ≡ s.dup
unfolding end_session
ended_dup s sock = elim (Bool-cases (ends s sock)) [ inl e ↦ simp e refl | inr e ↦ simp e refl ]

flushed-Closes :
    (s : TxState) (sock now k : ℕ) (stats : Bool) (r : List WireCall × PaceCtx)
    → r.0 ≡ wires (pending s.tx)
    → r.1.count ≡ 0
    → k < dampen_peers
    → Closes s sock k (close_flushed s sock stats now r)
unfolding close_flushed
flushed-Closes s sock now k stats (out, c) e z l =
    let flushed : TxState = record s { tx = pace_purge_socket c sock } in
    let tx = ended_tx flushed sock in
    let none_left = ap (λ (q : PaceCtx). q.count) tx ∙ purged_count c sock z in
    let session = ended flushed sock k l in
    let dups = ended_dup flushed sock in
    elim stats as (λ b. Closes s sock k (close_flushed s sock b now (out, c))) [
      | true ↦ (e, ticked_count (end_session flushed sock).tx now ∙ none_left, session, dups)
      | false ↦ (e, none_left, session, dups)
    ]

known_flush :
    (s : TxState)
    → Ready s
    → ((pace_flush_locked s.has_sendto s.tx).0 ≡ wires (pending s.tx))
      × ((pace_flush_locked s.has_sendto s.tx).1.count ≡ 0)
known_flush s (p, h, r) =
    let (out, e, r', t) = flush_empties s.tx r in
    subst
      (λ b.
        ((pace_flush_locked b s.tx).0 ≡ wires (pending s.tx))
        × ((pace_flush_locked b s.tx).1.count ≡ 0))
      (sym h) (out, e)

sends-Closes :
    (s : TxState) (sock now k : ℕ) (stats : Bool)
    → Ready s
    → k < dampen_peers
    → Closes s sock k (close_sends s sock stats now)
unfolding close_sends
sends-Closes s sock now k stats (p, h, r) l =
    let (out, e) = known_flush s (p, h, r) in
    simp p (flushed-Closes s sock now k stats (pace_flush_locked s.has_sendto s.tx) out e l)

-- The machines after a close.
machines-close :
    (s : TxState) (rx : RxState) (sock now k : ℕ) (reorder_ready stats : Bool)
    → Ready s
    → IsDupRing s.dup
    → k < dampen_peers
    → let (out, s', rx') = close_machines reorder_ready stats s rx sock now in
      (out ≡ wires (pending s.tx))
      × (s'.tx.count ≡ 0)
      × (waiting s'.dup ≡ without (λ (e : DupEntry). e.sock) sock (waiting s.dup))
      × (((ends s sock ≡ true) × Over s k s') ⊎ ((ends s sock ≡ false) × Untouched s s'))
unfolding close_machines
machines-close s rx sock now k reorder_ready stats (p, h, r) d l =
    let purged : TxState = record s { dup = dup_purge_socket s.dup sock } in
    let (out, e, session, dups) = sends-Closes purged sock now k stats (p, h, r) l in
    (out, e, ap waiting dups ∙ purged_dups s.dup sock d, session)

-- The close of a socket, by a known closesocket. The real sendto gets everything that the pacer still held, in order, and
-- the pacer is empty; the duplicates that wait are those of the other sockets. If the socket is the
-- one that carries the game's traffic, every entry `k` of the dampener's table is free afterwards and
-- no socket is tracked; otherwise the dampener, the sampler and the tracked socket are untouched.
pub close_clears :
    (g : CloseState) (sock now k : ℕ) (rc : ℤ) (reorder_ready stats : Bool)
    → Ready g.sends
    → IsDupRing g.sends.dup
    → k < dampen_peers
    → let s = g.sends in
      let (_, out, g') = hooked_closesocket true reorder_ready stats g sock rc now in
      let s' = g'.sends in
      (out ≡ wires (pending s.tx))
      × (s'.tx.count ≡ 0)
      × (waiting s'.dup ≡ without (λ (e : DupEntry). e.sock) sock (waiting s.dup))
      × (((ends s sock ≡ true) × Over s k s') ⊎ ((ends s sock ≡ false) × Untouched s s'))
unfolding hooked_closesocket
close_clears g sock now k rc reorder_ready stats ready d l =
    machines-close g.sends g.receives sock now k reorder_ready stats ready d l
