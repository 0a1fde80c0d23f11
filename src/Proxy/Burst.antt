-- ===== src/Proxy/Burst.antt =====
-- How many wake datagrams go out.
use battlezone_netcode_patch.Prelude.{
  ℕ, suc, ◌+◌, ◌-◌, ◌*◌, ◌≤◌, ◌<◌, ◌≡◌, ◌∙◌, subst, refl, inl, inr, Bool, not, ◌||◌, Option, none,
  some, List, [], ◌∷◌, length, leb, ◌==◌, ◌!=◌, if◌then◌else◌, arith, Bool-cases,
}
use battlezone_netcode_patch.Proxy.{af_inet, invalid_socket}
use battlezone_netcode_patch.Proxy.Recv.{RxState, wake_magic}
use battlezone_netcode_patch.Proxy.Wake.{
  reorder_wake_burst_cap, WakeState, Bound, WakeRound, WakeSend, needs_no_wake, noticed, wake_from,
  with_sender, wake_bound, within_burst, wake_round, WakeOp, polls, changes, rounds, with_sent,
  wake_run,
}

-- How many more may go out before the next poll.
abbrev left : ℕ → WakeState → ℕ
left last w =
    if w.seen_call == last then reorder_wake_burst_cap - w.burst else reorder_wake_burst_cap

abbrev tally : Option WakeSend → ℕ
tally none = 0
tally (some m) = 1

-- A round pays for what it sends, and sends nothing but the wake datagram.
abbrev IsWake : Option WakeSend → Type 0
IsWake none = Unit
IsWake (some m) = m.payload ≡ wake_magic

abbrev Pays : ℕ → ℕ → Option WakeSend × WakeState → Type 0
Pays last n (m, w) = (tally m + left last w ≤ n) × IsWake m

-- Once the burst is that of the last poll.
from-Pays :
    (last : ℕ) (w : WakeState) (b : Bound)
    → w.seen_call ≡ last
    → w.burst < reorder_wake_burst_cap
    → Pays last (left last w) (wake_from w b)
unfolding wake_from
from-Pays last w b e l = elim (Bool-cases (w.wake_sender == invalid_socket)) [
  | inl f ↦ simp f (omega arith, tt)
  | inr f ↦ simp f (ground (arith, e), refl)
]

sender-left :
    (last : ℕ) (w : WakeState) (opened : ℕ) → left last (with_sender w opened) ≡ left last w
unfolding with_sender
sender-left last w opened = ground arith

sender_kept :
    (w : WakeState) (opened : ℕ)
    → ((with_sender w opened).seen_call ≡ w.seen_call) × ((with_sender w opened).burst ≡ w.burst)
unfolding with_sender
sender_kept w opened = (ground arith, ground arith)

bound-Pays :
    (last : ℕ) (w : WakeState) (opened : ℕ) (b : Option Bound)
    → w.seen_call ≡ last
    → w.burst < reorder_wake_burst_cap
    → Pays last (left last w) (wake_bound w opened b)
unfolding wake_bound
bound-Pays last w opened none e l = (omega arith, tt)
bound-Pays last w opened (some b) e l = elim (Bool-cases (b.family != af_inet || b.port == 0)) [
  | inl f ↦ simp f (omega arith, tt)
  | inr f ↦
      let (seen, burst) = sender_kept w opened in
      simp f (
        subst (λ n. Pays last n (wake_from (with_sender w opened) b)) (sender-left last w opened)
          (from-Pays last (with_sender w opened) b (seen ∙ e) (omega (arith, burst, l))))
]

burst-Pays :
    (last : ℕ) (w : WakeState) (t : WakeRound)
    → w.seen_call ≡ last
    → Pays last (left last w) (within_burst w t)
unfolding within_burst
burst-Pays last w t e = elim (Bool-cases (leb reorder_wake_burst_cap w.burst)) [
  | inl f ↦ simp f (omega arith, tt)
  | inr f ↦ simp f (bound-Pays last w t.opened t.bound e (ground (arith, f)))
]

noticed-left :
    (s : RxState) (w : WakeState)
    → ((noticed s w).seen_call ≡ s.last_recv_call_ms)
      × (left s.last_recv_call_ms (noticed s w) ≤ left s.last_recv_call_ms w)
unfolding noticed
noticed-left s w = elim (Bool-cases (s.last_recv_call_ms != w.seen_call)) [
  | inl f ↦ simp f (refl, ground (arith, f))
  | inr f ↦ simp f (ground (arith, f), omega arith)
]

more-Pays : (last n m : ℕ) (r : Option WakeSend × WakeState) → n ≤ m → Pays last n r → Pays last m r
more-Pays last n m (r, w) l k = (omega (arith, l, k.0), k.1)

round-Pays :
    (ready : Bool) (s : RxState) (w : WakeState) (t : WakeRound)
    → Pays s.last_recv_call_ms (left s.last_recv_call_ms w) (wake_round ready s w t)
unfolding wake_round
round-Pays ready s w t = elim (Bool-cases (not ready || needs_no_wake s t.now)) [
  | inl f ↦ simp f (omega arith, tt)
  | inr f ↦
      let (seen, less) = noticed-left s w in
      simp f (
        more-Pays s.last_recv_call_ms _ _ (within_burst (noticed s w) t) less
          (burst-Pays s.last_recv_call_ms (noticed s w) t seen))
]

abbrev pub poll_count : List WakeOp → ℕ
poll_count [] = 0
poll_count (polls now ∷ os) = suc (poll_count os)
poll_count (changes c sock ∷ os) = poll_count os
poll_count (rounds t ∷ os) = poll_count os

abbrev pub AllWakes : List WakeSend → Type 0
AllWakes [] = Unit
AllWakes (m ∷ ms) = (m.payload ≡ wake_magic) × AllWakes ms

abbrev Spends : ℕ → List WakeSend → Type 0
Spends n ms = (length ms ≤ n) × AllWakes ms

sent-Spends :
    (last n k : ℕ) (r : Option WakeSend × WakeState) (ms : List WakeSend)
    → Pays last n r
    → Spends (left last r.1 + k) ms
    → Spends (n + k) (with_sent r.0 ms)
sent-Spends last n k (none, w) ms p q = (omega (arith, p.0, q.0), q.1)
sent-Spends last n k (some m, w) ms p q = (omega (arith, p.0, q.0), (p.1, q.1))

more-Spends : (n m : ℕ) (ms : List WakeSend) → n ≤ m → Spends n ms → Spends m ms
more-Spends n m ms l k = (omega (arith, l, k.0), k.1)

run-Spends :
    (ready : Bool) (s : RxState) (w : WakeState) (os : List WakeOp)
    → Spends
        (left s.last_recv_call_ms w + reorder_wake_burst_cap * poll_count os)
        (wake_run ready s w os)
unfolding wake_run
run-Spends ready s w [] = (omega arith, tt)
run-Spends ready s w (polls now ∷ os) =
    more-Spends _ _ (wake_run ready (record s { last_recv_call_ms = now }) w os) (ground arith)
      (run-Spends ready (record s { last_recv_call_ms = now }) w os)
run-Spends ready s w (changes c sock ∷ os) =
    run-Spends ready (record s { rx = c; sock = sock }) w os
run-Spends ready s w (rounds t ∷ os) =
    let r = wake_round ready s w t in
    sent-Spends s.last_recv_call_ms (left s.last_recv_call_ms w)
      (reorder_wake_burst_cap * poll_count os) r (wake_run ready s r.1 os) (round-Pays ready s w t)
      (run-Spends ready s r.1 os)

-- The wake thread does not flood the game. Whatever the game and the socket do, and whenever its rounds
-- come, it sends at most eight datagrams for each poll of the game and eight before the first, and
-- each of them is the wake datagram.
pub wakes_bounded :
    (ready : Bool) (s : RxState) (w : WakeState) (os : List WakeOp)
    → (length (wake_run ready s w os) ≤ reorder_wake_burst_cap * (poll_count os + 1))
      × AllWakes (wake_run ready s w os)
wakes_bounded ready s w os =
    let k = run-Spends ready s w os in
    let few : left s.last_recv_call_ms w ≤ reorder_wake_burst_cap = ground arith in
    (omega (arith, few, k.0), k.1)
