-- ===== src/Iocp/Held.antt =====
-- What is held back, counted: by a weight on completions, and the room that is left. A completion
-- that is picked is one that is held.
use battlezone_netcode_patch.Prelude.{
  ℕ, ◌+◌, ◌<◌, ◌≡◌, refl, inl, inr, Bool, true, false, Option, none, some, List, set, get_or,
  length, Bool-cases, if◌then◌else◌, arith,
}
use battlezone_netcode_patch.Prelude.Scan.{fold_from, fold_keeps}
use battlezone_netcode_patch.Prelude.Sums.{sum, sum-set}
use battlezone_netcode_patch.Reorder.{DeliverKind, first, in_order, forced, evicted, ReorderCtx}
use battlezone_netcode_patch.Reorder.Peers.{reorder_get_peer}
use battlezone_netcode_patch.Iocp.{IocpHeld, Completion, IocpState}
use battlezone_netcode_patch.Iocp.Pick.{
  no_held, ReadyScan, unless_found, entry_of, is_older, judge_held, ready_round, picked, ready_scan,
  iocp_pick_ready, oldest_round, iocp_pick_oldest, held_at, handed_back, iocp_release,
  count_release,
}

abbrev pub weight : (Completion → ℕ) → IocpHeld → ℕ
weight f h = if h.used then f (handed_back h) else 0

abbrev pub kept : (Completion → ℕ) → List IocpHeld → ℕ
kept f hs = sum (weight f) hs

abbrev pub vacant : IocpHeld → ℕ
vacant h = if h.used then 0 else 1

abbrev pub room : List IocpHeld → ℕ
room hs = sum vacant hs

-- The entry `i` is in use.
abbrev pub Held : List IocpHeld → ℕ → Type 0
Held hs i = (i < length hs) × ((get_or hs i no_held).used ≡ true)

abbrev pub IsHeld : List IocpHeld → Option ℕ → Type 0
IsHeld hs none = Unit
IsHeld hs (some i) = Held hs i

abbrev IsHeldAt : List IocpHeld → Option (ℕ × ℕ) → Type 0
IsHeldAt hs none = Unit
IsHeldAt hs (some (i, t)) = Held hs i

abbrev pub IsPicked : List IocpHeld → Option (ℕ × DeliverKind) → Type 0
IsPicked hs none = Unit
IsPicked hs (some (i, k)) = Held hs i

abbrev Scans : List IocpHeld → ReadyScan → Type 0
Scans hs a = IsHeld hs a.ready × IsHeldAt hs a.oldest

older-IsHeldAt :
    (hs : List IocpHeld) (i ts : ℕ) (b : Bool) (o : Option (ℕ × ℕ))
    → Held hs i
    → IsHeldAt hs o
    → IsHeldAt hs (if b then some (i, ts) else o)
older-IsHeldAt hs i ts true o h k = h
older-IsHeldAt hs i ts false o h k = k

-- By cases on what the entry is found to be.
judged :
    (hs : List IocpHeld) (i ts : ℕ) (a : ReadyScan) (c : ReorderCtx) (next old : Bool)
    → Held hs i
    → Scans hs a
    → Scans hs (
        if next
        then record a { ready = some i; rx = c }
        else record a { oldest = if old then some (i, ts) else a.oldest; rx = c })
judged hs i ts a c true old h k = (h, k.1)
judged hs i ts a c false old h k = (k.0, older-IsHeldAt hs i ts old a.oldest h k.1)

judge-Scans :
    (hs : List IocpHeld) (now i : ℕ) (h : IocpHeld) (a : ReadyScan) (r : Option ℕ × ReorderCtx)
    → Held hs i
    → Scans hs a
    → Scans hs (judge_held now i h a r)
unfolding judge_held
judge-Scans hs now i h a (p, c) here k = judged hs i h.ts a c _ _ here k

unless-Scans :
    (hs : List IocpHeld) (r : Option ℕ) (a b : ReadyScan)
    → Scans hs a
    → Scans hs b
    → Scans hs (unless_found r a b)
unless-Scans hs (some i) a b k l = k
unless-Scans hs none a b k l = l

round-Scans :
    (hs : List IocpHeld) (now i : ℕ) (a : ReadyScan)
    → i < length hs
    → Scans hs a
    → Scans hs (ready_round now i (get_or hs i no_held) a)
unfolding ready_round
round-Scans hs now i a l k =
    let h = get_or hs i no_held in
    unless-Scans hs a.ready a _ k (elim (Bool-cases h.used) [
      | inl u ↦ simp u (judge-Scans hs now i h a (reorder_get_peer a.rx h.from now) (l, u) k)
      | inr u ↦ simp u k
    ])

scan-Scans : (s : IocpState) (now : ℕ) → Scans s.held (ready_scan s now)
unfolding ready_scan
scan-Scans s now =
    fold_keeps (ready_round now) no_held s.held (Scans s.held)
      (λ i a l k. round-Scans s.held now i a l k)
      (record { ready = none; oldest = none; rx = s.rx }) (tt, tt)

picked-IsPicked :
    (hs : List IocpHeld) (r : Option ℕ) (o : Option (ℕ × ℕ))
    → IsHeld hs r
    → IsHeldAt hs o
    → IsPicked hs (picked r o)
picked-IsPicked hs (some i) o k l = k
picked-IsPicked hs none none k l = tt
picked-IsPicked hs none (some (i, t)) k l = l

pub ready-IsPicked : (s : IocpState) (now : ℕ) → IsPicked s.held (iocp_pick_ready s now).0
unfolding iocp_pick_ready
ready-IsPicked s now =
    let a = ready_scan s now in
    let k = scan-Scans s now in picked-IsPicked s.held a.ready a.oldest k.0 k.1

oldest-IsHeldAt :
    (hs : List IocpHeld) (i : ℕ) (o : Option (ℕ × ℕ))
    → i < length hs
    → IsHeldAt hs o
    → IsHeldAt hs (oldest_round i (get_or hs i no_held) o)
unfolding oldest_round
oldest-IsHeldAt hs i o l k =
    let h = get_or hs i no_held in
    elim (Bool-cases h.used) [
      | inl u ↦ simp u (older-IsHeldAt hs i h.ts (is_older h.ts o) o (l, u) k)
      | inr u ↦ simp u k
    ]

entry-IsHeld : (hs : List IocpHeld) (o : Option (ℕ × ℕ)) → IsHeldAt hs o → IsHeld hs (entry_of o)
entry-IsHeld hs none k = tt
entry-IsHeld hs (some (i, t)) k = k

pub oldest-IsHeld : (s : IocpState) → IsHeld s.held (iocp_pick_oldest s)
unfolding iocp_pick_oldest
oldest-IsHeld s = entry-IsHeld s.held (fold_from oldest_round 0 none s.held) (
    fold_keeps oldest_round no_held s.held (IsHeldAt s.held)
      (λ i o l k. oldest-IsHeldAt s.held i o l k) none tt)

counted_held : (kind : DeliverKind) (s : IocpState) → (count_release kind s).held ≡ s.held
unfolding count_release
counted_held in_order s = refl
counted_held first s = refl
counted_held forced s = refl
counted_held evicted s = refl

-- A release trades what is held for what it hands back.
module _ (f : Completion → ℕ) (s : IocpState) (i now : ℕ) (kind : DeliverKind)
    (h : Held s.held i) where
  off : IocpHeld
  off = record (held_at s i) { used = false }

  write_kept : kept f (set s.held i off) + f (handed_back (held_at s i)) ≡ kept f s.held
  unfolding off
  write_kept = ground (arith, sum-set (weight f) s.held i off no_held h.0, h.1)

  pub release_kept :
      let (out, s') = iocp_release s i now kind in
      kept f (count_release kind s').held + f out ≡ kept f s.held
  unfolding iocp_release off
  release_kept = rw (counted_held kind) write_kept
