-- ===== src/Dampen/History.antt =====
-- The dampener over any sequence of its operations, with the history of the copies that it let
-- through.
use battlezone_netcode_patch.Prelude.{
  ℕ, ◌≡◌, sym, subst, inl, inr, Bool, true, false, not, ◌&&◌, List, [], ◌∷◌, All-get, All-replicate,
  length-replicate, set, arith, Bool-cases, ltb, if◌then◌else◌, inc64,
}
use battlezone_netcode_patch.Reorder.{reorder_seq_min_pay}
use battlezone_netcode_patch.Reorder.Wire.{reorder_is_reliable, reorder_seq_from_payload}
use battlezone_netcode_patch.Dampen.{
  DampenDecision, send, suppress, DampenPeer, DampenStats, DampenCtx, zero_peer, dampen_init,
  dampen_peers,
}
use battlezone_netcode_patch.Dampen.Peer.{
  peer_at, dampen_get_peer, dampen_purge_peer, dampen_set_rtt, dampen_observe_ack,
}
use battlezone_netcode_patch.Dampen.Admit.{admit_seq, admit_peer, dampen_admit}
use battlezone_netcode_patch.Dampen.Sound.{Copy, IsSound}
use battlezone_netcode_patch.Dampen.Suppress.{Redundant, logged, Admitted, admit_seq-Admitted}
use battlezone_netcode_patch.Dampen.Table.{
  observe_ack-IsConsistent, purge_peer-IsConsistent, set_rtt-IsConsistent, IsConsistent,
  fresh-IsSound, put_peer-IsConsistent, later-IsConsistent, get_peer-HasPeer,
}

-- What a decision leaves.
abbrev Kept : List Copy → ℕ → ℕ → ℕ → DampenDecision × DampenCtx → Type 0
Kept h addr seq now (send, c) = IsConsistent (record { addr = addr; seq = seq; at = now } ∷ h) c
Kept h addr seq now (suppress, c) = IsConsistent h c × Redundant h addr seq now

Admitted-Kept :
    (h : List Copy) (c : DampenCtx) (i addr seq now : ℕ)
    (r : DampenDecision × DampenStats × DampenPeer)
    → IsConsistent h c
    → Admitted h addr seq now r
    → Kept h addr seq now (r.0, record c { peers = set c.peers i r.2; st = r.1 })
Admitted-Kept h c i addr seq now (send, st, p) k (e, s) =
    let x : Copy = record { addr = addr; seq = seq; at = now } in
    put_peer-IsConsistent (x ∷ h) c i p (later-IsConsistent h x c k) s
Admitted-Kept h c i addr seq now (suppress, st, p) k (e, s, r) =
    (put_peer-IsConsistent h c i p k s, r)

admit_peer-Kept :
    (h : List Copy) (c : DampenCtx) (addr seq len now : ℕ)
    → IsConsistent h c
    → Kept h addr seq now (admit_peer c addr seq len now)
unfolding admit_peer
admit_peer-Kept h c addr seq len now k =
    let g = dampen_get_peer c addr now in
    let (l, e, k') = get_peer-HasPeer h c addr now k in
    let p = peer_at g.1 g.0 in
    Admitted-Kept h g.1 g.0 addr seq now (admit_seq g.1.st p seq len now) k' (
      subst (λ a. Admitted h a seq now (admit_seq g.1.st p seq len now)) e
        (admit_seq-Admitted h g.1.st p seq len now
          (All-get (IsSound h) g.1.peers g.0 zero_peer k'.1 l)))

-- The datagrams that the dampener counts: long enough for a sequence, and reliable.
abbrev pub carries_seq : List ℕ → ℕ → Bool
carries_seq pay len = not (ltb len reorder_seq_min_pay) && reorder_is_reliable pay

pub data Op : Type 0 where
  admits : ℕ → List ℕ → ℕ → ℕ → Op
  acked : ℕ → ℕ → ℕ → Op
  measured : ℕ → ℕ → Op
  purged : ℕ → Op

unfoldable pub op : List Copy × DampenCtx → Op → List Copy × DampenCtx
op (h, c) (admits addr pay len now) =
    let r = dampen_admit c addr pay len now in
    ((if carries_seq pay len then logged h addr (reorder_seq_from_payload pay) now r.0 else h), r.1)
op (h, c) (acked addr seq now) = (h, dampen_observe_ack c addr seq now)
op (h, c) (measured addr rtt_ms) = (h, dampen_set_rtt c addr rtt_ms)
op (h, c) (purged addr) = (h, dampen_purge_peer c addr)

unfoldable pub run : List Copy × DampenCtx → List Op → List Copy × DampenCtx
run s [] = s
run s (o ∷ os) = run (op s o) os

-- What a call of `dampen_admit` leaves.
abbrev Decided : List Copy → ℕ → List ℕ → ℕ → ℕ → DampenDecision × DampenCtx → Type 0
Decided h addr pay len now (send, c) =
    IsConsistent
      (if carries_seq pay len then logged h addr (reorder_seq_from_payload pay) now send else h) c
Decided h addr pay len now (suppress, c) =
    IsConsistent h c
    × (carries_seq pay len ≡ true)
    × Redundant h addr (reorder_seq_from_payload pay) now

passed-Decided :
    (h : List Copy) (addr : ℕ) (pay : List ℕ) (len now : ℕ) (c : DampenCtx)
    → IsConsistent h c
    → Decided h addr pay len now (send, c)
passed-Decided h addr pay len now c k = elim (Bool-cases (carries_seq pay len)) [
  | inl e ↦ rw e (later-IsConsistent h _ c k)
  | inr e ↦ rw e k
]

Kept-Decided :
    (h : List Copy) (addr : ℕ) (pay : List ℕ) (len now : ℕ) (r : DampenDecision × DampenCtx)
    → carries_seq pay len ≡ true
    → Kept h addr (reorder_seq_from_payload pay) now r
    → Decided h addr pay len now r
Kept-Decided h addr pay len now (send, c) e k = rw e k
Kept-Decided h addr pay len now (suppress, c) e (k, r) = (k, e, r)

admit_counted :
    (c : DampenCtx) (addr : ℕ) (pay : List ℕ) (len now : ℕ)
    → c.enabled ≡ true
    → ltb len reorder_seq_min_pay ≡ false
    → reorder_is_reliable pay ≡ true
    → dampen_admit c addr pay len now
      ≡ admit_peer
          (record c { st = record (c.st) { seen = inc64 c.st.seen } })
          addr
          (reorder_seq_from_payload pay)
          len
          now
unfolding dampen_admit
admit_counted c addr pay len now a b f = simp (a, b, f)

admit-Decided :
    (h : List Copy) (c : DampenCtx) (addr : ℕ) (pay : List ℕ) (len now : ℕ)
    → IsConsistent h c
    → Decided h addr pay len now (dampen_admit c addr pay len now)
unfolding dampen_admit
admit-Decided h c addr pay len now k = elim (Bool-cases c.enabled) [
  | inr a ↦ simp (a, dampen_admit) (passed-Decided h addr pay len now c k)
  | inl a ↦ elim (Bool-cases (ltb len reorder_seq_min_pay)) [
    | inl b ↦ simp (a, b, dampen_admit) k
    | inr b ↦ elim (Bool-cases (reorder_is_reliable pay)) [
      | inr f ↦ simp (a, b, f, dampen_admit) k
      | inl f ↦
          let c' : DampenCtx = record c { st = record (c.st) { seen = inc64 c.st.seen } } in
          subst (Decided h addr pay len now) (sym (admit_counted c addr pay len now a b f)) (
            Kept-Decided h addr pay len now
              (admit_peer c' addr (reorder_seq_from_payload pay) len now) (simp (b, f))
              (admit_peer-Kept h c' addr (reorder_seq_from_payload pay) len now k))
    ]
  ]
]

Decided-Consistent :
    (h : List Copy) (addr : ℕ) (pay : List ℕ) (len now : ℕ) (r : DampenDecision × DampenCtx)
    → Decided h addr pay len now r
    → IsConsistent
        (if carries_seq pay len then logged h addr (reorder_seq_from_payload pay) now r.0 else h)
        r.1
Decided-Consistent h addr pay len now (send, c) k = k
Decided-Consistent h addr pay len now (suppress, c) (k, e, r) = rw e k

abbrev Holds : List Copy × DampenCtx → Type 0
Holds (h, c) = IsConsistent h c

op-Holds : (s : List Copy × DampenCtx) (o : Op) → Holds s → Holds (op s o)
unfolding op
op-Holds (h, c) (admits addr pay len now) k =
    Decided-Consistent h addr pay len now (dampen_admit c addr pay len now)
      (admit-Decided h c addr pay len now k)
op-Holds (h, c) (acked addr seq now) k = observe_ack-IsConsistent h c addr seq now k
op-Holds (h, c) (measured addr rtt_ms) k = set_rtt-IsConsistent h c addr rtt_ms k
op-Holds (h, c) (purged addr) k = purge_peer-IsConsistent h c addr k

run-Holds : (s : List Copy × DampenCtx) (os : List Op) → Holds s → Holds (run s os)
unfolding run
run-Holds s [] k = k
run-Holds s (o ∷ os) k = run-Holds (op s o) os (op-Holds s o k)

init_Holds : (enabled : Bool) (start : ℕ) → Holds ([], dampen_init enabled start)
unfolding dampen_init
init_Holds enabled start = (
  omega (arith, length-replicate dampen_peers zero_peer),
  All-replicate (IsSound []) dampen_peers zero_peer (fresh-IsSound [] 0 0),
)

Decided-Redundant :
    (h : List Copy) (addr : ℕ) (pay : List ℕ) (len now : ℕ) (r : DampenDecision × DampenCtx)
    → Decided h addr pay len now r
    → r.0 ≡ suppress
    → (carries_seq pay len ≡ true) × Redundant h addr (reorder_seq_from_payload pay) now
Decided-Redundant h addr pay len now (send, c) k p = cc
Decided-Redundant h addr pay len now (suppress, c) (k, e, r) p = (e, r)

-- Start the dampener and let any operations follow: datagrams, acknowledgements, measured round
-- trips, disconnects. If it then suppresses a datagram, the datagram is reliable and long enough to
-- carry a sequence, and a copy of the same sequence to the same address did go out less than 400 ms
-- before: a first copy is never suppressed.
pub suppressed_only-Redundant :
    (enabled : Bool) (start : ℕ) (os : List Op) (addr : ℕ) (pay : List ℕ) (len now : ℕ)
    → (dampen_admit (run ([], dampen_init enabled start) os).1 addr pay len now).0 ≡ suppress
    → (carries_seq pay len ≡ true)
      × Redundant (run ([], dampen_init enabled start) os).0 addr (reorder_seq_from_payload pay) now
suppressed_only-Redundant enabled start os addr pay len now e =
    let s = run ([], dampen_init enabled start) os in
    Decided-Redundant s.0 addr pay len now (dampen_admit s.1 addr pay len now)
      (admit-Decided s.0 s.1 addr pay len now
        (run-Holds ([], dampen_init enabled start) os (init_Holds enabled start)))
      e
