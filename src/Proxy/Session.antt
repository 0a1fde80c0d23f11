-- ===== src/Proxy/Session.antt =====
-- The end of a session: nothing of the closed socket, and no peer of the session, is remembered.
use battlezone_netcode_patch.Prelude.{
  ℕ, zero, suc, ◌+◌, ◌-◌, ◌≤◌, ◌<◌, ◌≡◌, ◌≢◌, ◌∙◌, ap, sym, refl, subst, inl, inr, Bool, true,
  false, ◌&&◌, none, some, Option-cases, List, [], ◌∷◌, get_or, set, length, get_or-set_self,
  get_or-set_ne, arith, Bool-cases, ltb, ◌==◌, ◌!=◌, if◌then◌else◌,
}
use battlezone_netcode_patch.Prelude.Scan.{Found, find_index?, find_index?-Found}
use battlezone_netcode_patch.Dampen.{DampenCtx, DampenPeer, zero_peer}
use battlezone_netcode_patch.Dampen.Peer.{put_peer, find_peer, dampen_purge_peer}
use battlezone_netcode_patch.Rtt.{RttCtx}
use battlezone_netcode_patch.Rtt.Peer.{rtt_purge_peer}
use battlezone_netcode_patch.Proxy.Close.{addr_at, purge_peers}

-- The entries before `n` are free.
abbrev Freed : ℕ → DampenCtx → Type 0
Freed n d = (k : ℕ) → k < n → addr_at d k ≡ 0

beyond : {A : Type 0} (xs : List A) (i : ℕ) (z : A) → length xs ≤ i → get_or xs i z ≡ z
beyond [] i z h = refl
beyond (x ∷ xs) zero z h = absurd (omega arith)
beyond (x ∷ xs) (suc i) z h = beyond xs i z (omega arith)

itself : (d : DampenCtx) (n : ℕ) → (addr_at d n == addr_at d n) ≢ false
itself d n e = ground arith

-- The first entry with the address of the live entry `n`, where the entries before it are free.
first_is :
    (d : DampenCtx) (n i : ℕ)
    → Freed n d
    → addr_at d n ≢ 0
    → (addr_at d i == addr_at d n) ≡ true
    → ((k : ℕ) → k < i → (addr_at d k == addr_at d n) ≡ false)
    → i ≡ n
first_is d n i h live hit before = elim (Bool-cases (ltb i n)) [
  | inl e ↦ let z = h i (ground arith) in ground arith
  | inr e ↦ elim (Bool-cases (ltb n i)) [
    | inl f ↦ let z = before n (ground arith) in ground arith
    | inr f ↦ ground arith
  ]
]

in_table : (d : DampenCtx) (n : ℕ) → addr_at d n ≢ 0 → n < length d.peers
in_table d n live = elim (Bool-cases (ltb n (length d.peers))) [
  | inl e ↦ ground arith
  | inr e ↦
      let z = ap (λ (p : DampenPeer). p.addr) (beyond d.peers n zero_peer (ground arith)) in
      absurd (live z)
]

vacant_at :
    (d : DampenCtx) (n : ℕ)
    → Freed n d
    → n < length d.peers
    → Freed (n + 1) (put_peer d n zero_peer)
vacant_at d n h l k m = elim (Bool-cases (n == k)) [
  | inl e ↦
      let z : n ≡ k = ground arith in
      subst (λ j. (get_or (set d.peers n zero_peer) j zero_peer).addr ≡ 0) z
        (ap (λ (p : DampenPeer). p.addr) (get_or-set_self d.peers n zero_peer zero_peer l))
  | inr e ↦
      ap (λ (p : DampenPeer). p.addr) (get_or-set_ne d.peers n k zero_peer zero_peer (ground arith))
      ∙ h k (ground arith)
]

purge-Freed :
    (n : ℕ) (d : DampenCtx)
    → Freed n d
    → addr_at d n ≢ 0
    → Freed (n + 1) (dampen_purge_peer d (addr_at d n))
unfolding dampen_purge_peer find_peer
purge-Freed n d h live =
    let same = λ (p : DampenPeer). p.addr == addr_at d n in
    let found = find_index?-Found same zero_peer d.peers in
    elim (Option-cases (find_index? same d.peers)) [
      | inl f ↦
          let none_found = subst (Found same zero_peer 0 d.peers) f found in
          absurd (itself d n (none_found n (in_table d n live)))
      | inr (i, f) ↦
          let (lo, hi, hit, before) = subst (Found same zero_peer 0 d.peers) f found in
          let y : i - 0 ≡ n = first_is d n (i - 0) h live hit before in
          let z : i ≡ n = omega arith in
          let done = vacant_at d n h (in_table d n live) in
          subst (λ o. Freed (n + 1) (elim o [ some j ↦ put_peer d j zero_peer | none ↦ d ])) (sym f)
            (subst (λ j. Freed (n + 1) (put_peer d j zero_peer)) (sym z) done)
    ]

vacant_more : (d : DampenCtx) (n : ℕ) → Freed n d → addr_at d n ≡ 0 → Freed (n + 1) d
vacant_more d n h free k l = elim (Bool-cases (n == k)) [
  | inl e ↦ let z : n ≡ k = ground arith in subst (λ j. addr_at d j ≡ 0) z free
  | inr e ↦ h k (ground arith)
]

step-Freed :
    (i : ℕ) (d : DampenCtx)
    → Freed i d
    → Freed (i + 1) (if addr_at d i != 0 then dampen_purge_peer d (addr_at d i) else d)
step-Freed i d h = elim (Bool-cases (addr_at d i != 0)) [
  | inl e ↦ simp e (purge-Freed i d h (ground arith))
  | inr e ↦ simp e (vacant_more d i h (ground arith))
]

pub purge_peers-Freed :
    (rtt_ready : Bool) (n i : ℕ) (d : DampenCtx) (r : RttCtx)
    → Freed i d
    → Freed (n + i) (purge_peers rtt_ready n i d r).0
unfolding purge_peers
purge_peers-Freed rtt_ready zero i d r h = λ k l. h k (omega arith)
purge_peers-Freed rtt_ready (suc n) i d r h =
    let a = addr_at d i in
    let d' = if a != 0 then dampen_purge_peer d a else d in
    let r' = if a != 0 && rtt_ready then rtt_purge_peer r a else r in
    let ih = purge_peers-Freed rtt_ready n (i + 1) d' r' (step-Freed i d h) in
    λ k l. ih k (omega arith)
