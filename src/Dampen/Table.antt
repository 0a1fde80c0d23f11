-- ===== src/Dampen/Table.antt =====
-- The peer table of the dampener: every entry's ring is sound, and the look-up keeps that.
use battlezone_netcode_patch.Prelude.{
  All, All-get, All-map_weaken, All-set, Bool-cases, List, Option-cases, ap, arith, get_or-set_self,
  inc64, inl, inr, length, length-replicate, length-set, not, refl, some, subst, ℕ, ◌<◌, ◌==◌, ◌||◌,
  ◌∙◌, ◌∷◌, ◌≡◌,
}
use battlezone_netcode_patch.Prelude.Scan.{Found, find_index?, find_index?-Found, min_index-lt}
use battlezone_netcode_patch.Dampen.{
  DampenCtx, DampenEntry, DampenPeer, dampen_slots, zero_entry, zero_peer,
}
use battlezone_netcode_patch.Dampen.Peer.{
  dampen_get_peer, dampen_observe_ack, dampen_purge_peer, dampen_set_rtt, evict, find_peer, peer_at,
  put_peer, recent,
}
use battlezone_netcode_patch.Dampen.Sound.{Copy, IsSound, later-IsSound}

abbrev pub IsConsistent : List Copy → DampenCtx → Type 0
IsConsistent h c = (0 < length c.peers) × All (IsSound h) c.peers

pub fresh-IsSound :
    (h : List Copy) (addr now : ℕ) → IsSound h (record zero_peer { addr = addr; last_use_ms = now })
fresh-IsSound h addr now =
    (omega arith, omega arith, omega (arith, length-replicate dampen_slots zero_entry), tt)

pub put_peer-IsConsistent :
    (h : List Copy) (c : DampenCtx) (i : ℕ) (p : DampenPeer)
    → IsConsistent h c
    → IsSound h p
    → IsConsistent h (put_peer c i p)
put_peer-IsConsistent h c i p (l, a) s = (simp length-set l, All-set (IsSound h) c.peers i p a s)

pub later-IsConsistent :
    (h : List Copy) (x : Copy) (c : DampenCtx) → IsConsistent h c → IsConsistent (x ∷ h) c
later-IsConsistent h x c (l, a) =
    (l, All-map_weaken (IsSound h) (IsSound (x ∷ h)) c.peers (λ p s. later-IsSound h x p s) a)

-- The entry that the look-up returns.
abbrev pub HasPeer : List Copy → ℕ → ℕ × DampenCtx → Type 0
HasPeer h addr (i, c) = (i < length c.peers) × ((peer_at c i).addr ≡ addr) × IsConsistent h c

put-HasPeer :
    (h : List Copy) (c : DampenCtx) (i addr : ℕ) (p : DampenPeer)
    → IsConsistent h c
    → i < length c.peers
    → p.addr ≡ addr
    → IsSound h p
    → HasPeer h addr (i, put_peer c i p)
put-HasPeer h c i addr p k l e s = (
  simp length-set l,
  ap (λ (q : DampenPeer). q.addr) (get_or-set_self c.peers i p zero_peer l) ∙ e,
  put_peer-IsConsistent h c i p k s,
)

-- A hit of the look-up.
pub find_peer_hit :
    (c : DampenCtx) (addr i : ℕ)
    → find_peer c addr ≡ some i
    → (i < length c.peers) × ((peer_at c i).addr ≡ addr)
unfolding find_peer
find_peer_hit c addr i f =
    let hit =
      subst (Found (λ (p : DampenPeer). p.addr == addr) zero_peer 0 c.peers) f
        (find_index?-Found (λ (p : DampenPeer). p.addr == addr) zero_peer c.peers) in
    (omega (arith, hit.1), ground (arith, hit.2))

evict-HasPeer :
    (h : List Copy) (c : DampenCtx) (addr now : ℕ)
    → IsConsistent h c
    → HasPeer h addr (evict c addr now)
unfolding evict
evict-HasPeer h c addr now k =
    put-HasPeer h (record c { st = record (c.st) { peers_evicted = inc64 c.st.peers_evicted } }) _
      addr _ k (min_index-lt (λ (p : DampenPeer). p.last_use_ms) c.peers k.0) refl
      (fresh-IsSound h addr now)

pub get_peer-HasPeer :
    (h : List Copy) (c : DampenCtx) (addr now : ℕ)
    → IsConsistent h c
    → HasPeer h addr (dampen_get_peer c addr now)
unfolding dampen_get_peer
get_peer-HasPeer h c addr now k = elim (Option-cases (find_peer c addr)) [
  | inl e ↦ elim (Option-cases (find_peer c 0)) [
    | inl f ↦ rw (e, f, dampen_get_peer) (evict-HasPeer h c addr now k)
    | inr (i, f) ↦
        rw (e, f, dampen_get_peer)
          (put-HasPeer h c i addr (record zero_peer { addr = addr; last_use_ms = now }) k
            (find_peer_hit c 0 i f).0 refl (fresh-IsSound h addr now))
  ]
  | inr (i, e) ↦
      let hit = find_peer_hit c addr i e in
      rw (e, dampen_get_peer)
        (put-HasPeer h c i addr (record (peer_at c i) { last_use_ms = now }) k hit.0 hit.1
          (All-get (IsSound h) c.peers i zero_peer k.1 hit.0))
]

-- A change that keeps the ring of an entry.
retuned-IsConsistent :
    (h : List Copy) (c : DampenCtx) (i rtt_ms : ℕ)
    → IsConsistent h c
    → i < length c.peers
    → IsConsistent h (put_peer c i (record (peer_at c i) { rtt_ewma_ms = rtt_ms }))
retuned-IsConsistent h c i rtt_ms k l =
    put_peer-IsConsistent h c i (record (peer_at c i) { rtt_ewma_ms = rtt_ms }) k
      (All-get (IsSound h) c.peers i zero_peer k.1 l)

pub set_rtt-IsConsistent :
    (h : List Copy) (c : DampenCtx) (addr rtt_ms : ℕ)
    → IsConsistent h c
    → IsConsistent h (dampen_set_rtt c addr rtt_ms)
unfolding dampen_set_rtt
set_rtt-IsConsistent h c addr rtt_ms k = elim (Bool-cases (not c.enabled || rtt_ms == 0)) [
  | inl e ↦ rw (e, dampen_set_rtt) k
  | inr e ↦ elim (Option-cases (find_peer c addr)) [
    | inl f ↦ rw (e, f, dampen_set_rtt) k
    | inr (i, f) ↦
        rw (e, f, dampen_set_rtt) (retuned-IsConsistent h c i rtt_ms k (find_peer_hit c addr i f).0)
  ]
]

pub purge_peer-IsConsistent :
    (h : List Copy) (c : DampenCtx) (addr : ℕ)
    → IsConsistent h c
    → IsConsistent h (dampen_purge_peer c addr)
unfolding dampen_purge_peer
purge_peer-IsConsistent h c addr k = elim (Option-cases (find_peer c addr)) [
  | inl f ↦ rw (f, dampen_purge_peer) k
  | inr (i, f) ↦
      rw (f, dampen_purge_peer) (put_peer-IsConsistent h c i zero_peer k (fresh-IsSound h 0 0))
]

pub observe_ack-IsConsistent :
    (h : List Copy) (c : DampenCtx) (addr seq now : ℕ)
    → IsConsistent h c
    → IsConsistent h (dampen_observe_ack c addr seq now)
unfolding dampen_observe_ack
observe_ack-IsConsistent h c addr seq now k = elim (Bool-cases (not c.enabled)) [
  | inl e ↦ rw (e, dampen_observe_ack) k
  | inr e ↦ elim (Option-cases (find_peer c addr)) [
    | inl f ↦ rw (e, f, dampen_observe_ack) k
    | inr (i, f) ↦
        elim (Option-cases
          (find_index? (λ (x : DampenEntry). x.seq == seq) (recent (peer_at c i)))) [
            | inl g ↦ rw (e, f, g, dampen_observe_ack) k
            | inr (j, g) ↦
                rw (e, f, g, dampen_observe_ack)
                  (retuned-IsConsistent h c i _ k (find_peer_hit c addr i f).0)
          ]
  ]
]
