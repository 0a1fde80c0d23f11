-- ===== src/Iocp/Tracked.antt =====
-- What `IocpTrackRecv` notes of a receive is what `IocpFindRecv` finds when it completes.
use battlezone_netcode_patch.Prelude.{
  ℕ, ◌+◌, ◌-◌, ◌<◌, ◌≡◌, ◌≢◌, ◌⊎◌, ◌∙◌, ap, sym, refl, subst, inl, inr, true, false, Option, none,
  some, Option-cases, List, [], ◌∷◌, get_or, set, length, get_or-set_self, get_or-set_ne, arith,
  Bool-cases, ◌==◌, if◌then◌else◌,
}
use battlezone_netcode_patch.Prelude.Scan.{
  Found, find_index?, find_from, find_index?-Found, find-set_miss, find-set_hit,
}
use battlezone_netcode_patch.Iocp.{IocpRecv, IocpState}
use battlezone_netcode_patch.Iocp.Table.{
  no_recv, FirstBuf, track_slot, put_recv, iocp_track_recv, iocp_find_recv, recv_at,
}

-- The search of `IocpTrackRecv` finds the entry of `ov`, or else the first free one.
abbrev or_free : Option ℕ → Option ℕ → Option ℕ → Option ℕ
or_free (some i) j k = some i
or_free none (some j) k = some j
or_free none none k = k

kept_free : (m k k' : Option ℕ) (j : ℕ) → or_free m (some j) k ≡ or_free m (some j) k'
kept_free none k k' j = refl
kept_free (some i) k k' j = refl

free_now : (m : Option ℕ) (j : ℕ) → or_free m (some j) (some j) ≡ or_free m none (some j)
free_now none j = refl
free_now (some i) j = refl

track_slot_lem :
    (ov i : ℕ) (slot : Option ℕ) (rs : List IocpRecv)
    → track_slot ov i slot rs
      ≡ or_free
          (find_from (λ (r : IocpRecv). r.ov == ov) i rs)
          slot
          (find_from (λ (r : IocpRecv). r.ov == 0) i rs)
unfolding track_slot find_from
track_slot_lem ov i none [] = refl
track_slot_lem ov i (some j) [] = refl
track_slot_lem ov i none (r ∷ rs) = elim (Bool-cases (r.ov == ov)) [
  | inl e ↦ simp e refl
  | inr e ↦ elim (Bool-cases (r.ov == 0)) [
    | inl g ↦
        simp (e, g)
          (track_slot_lem ov (i + 1) (some i) rs
            ∙ kept_free _ _ (some i) i
            ∙ free_now (find_from (λ (r : IocpRecv). r.ov == ov) (i + 1) rs) i)
    | inr g ↦ simp (e, g) (track_slot_lem ov (i + 1) none rs)
  ]
]
track_slot_lem ov i (some j) (r ∷ rs) = elim (Bool-cases (r.ov == ov)) [
  | inl e ↦ simp e refl
  | inr e ↦ simp e (track_slot_lem ov (i + 1) (some j) rs ∙ kept_free _ _ _ j)
]

abbrev entry_in : List IocpRecv → Option ℕ → Option IocpRecv
entry_in rs none = none
entry_in rs (some i) = some (get_or rs i no_recv)

-- The entry that `IocpFindRecv` points to.
abbrev pub look_up : IocpState → ℕ → Option IocpRecv
look_up st ov = entry_in st.recvs (iocp_find_recv st ov)

abbrev with_ov : List IocpRecv → ℕ → Option ℕ
with_ov rs ov = find_index? (λ (r : IocpRecv). r.ov == ov) rs

-- A write to entry `j`, which was free or that of `r`'s OVERLAPPED, and no entry before it has that.
module _ (rs : List IocpRecv) (j : ℕ) (r : IocpRecv) (l : j < length rs) where
  own_entry :
      ((k : ℕ) → k < j → ((get_or rs k no_recv).ov == r.ov) ≡ false)
      → entry_in (set rs j r) (with_ov (set rs j r) r.ov) ≡ some r
  own_entry before =
      ap (entry_in (set rs j r))
        (find-set_hit (λ (x : IocpRecv). x.ov == r.ov) no_recv rs j r l (ground arith) before)
      ∙ ap some (get_or-set_self rs j r no_recv l)

  other_entry :
      (ov : ℕ)
      → (r.ov == ov) ≡ false
      → ((get_or rs j no_recv).ov == ov) ≡ false
      → entry_in (set rs j r) (with_ov (set rs j r) ov) ≡ entry_in rs (with_ov rs ov)
  other_entry ov e g =
      let is = λ (x : IocpRecv). x.ov == ov in
      let same = find-set_miss is no_recv rs j r l e g in
      elim (Option-cases (with_ov rs ov)) [
        | inl f ↦ ap (entry_in (set rs j r)) (same ∙ f) ∙ sym (ap (entry_in rs) f)
        | inr (k, f) ↦
            let (lo, hi, hit, before) =
              subst (Found is no_recv 0 rs) f (find_index?-Found is no_recv rs) in
            let z : k - 0 ≡ k = omega arith in
            let hit' = rw z at hit in
            let apart : j ≢ k = λ q. ground (arith, g, hit', q) in
            ap (entry_in (set rs j r)) (same ∙ f)
            ∙ ap some (get_or-set_ne rs j k r no_recv apart)
            ∙ sym (ap (entry_in rs) f)
      ]

-- The entry that `IocpTrackRecv` writes: the first of `ov`, or one that is free where there is none.
abbrev Fits : List IocpRecv → ℕ → ℕ → Type 0
Fits rs ov j =
    (j < length rs)
    × ((k : ℕ) → k < j → ((get_or rs k no_recv).ov == ov) ≡ false)
    × ((get_or rs j no_recv).ov ≡ ov ⊎ (get_or rs j no_recv).ov ≡ 0)

slot-Fits :
    (rs : List IocpRecv) (ov i : ℕ)
    → i < length rs
    → (get_or rs i no_recv).ov ≡ 0
    → (j : ℕ) × (track_slot ov 0 none rs ≡ some j) × Fits rs ov j
unfolding find_index?
slot-Fits rs ov i l free =
    let slot = track_slot_lem ov 0 none rs in
    let is = λ (r : IocpRecv). r.ov == ov in
    let is_free = λ (r : IocpRecv). r.ov == 0 in
    let own = find_index?-Found is no_recv rs in
    let vacant = find_index?-Found is_free no_recv rs in
    elim (Option-cases (with_ov rs ov)) [
      | inr (j, f) ↦
          let (lo, hi, hit, before) = subst (Found is no_recv 0 rs) f own in
          (
            j,
            slot ∙ ap (λ m. or_free m none (with_ov rs 0)) f,
            (omega (arith, hi), λ k m. before k (omega (arith, m)), inl (ground (arith, hit))),
          )
      | inl f ↦
          let absent = subst (Found is no_recv 0 rs) f own in
          elim (Option-cases (with_ov rs 0)) [
            | inr (j, g) ↦
                let (lo, hi, hit, before) = subst (Found is_free no_recv 0 rs) g vacant in
                (
                  j,
                  slot ∙ ap (λ m. or_free m none (with_ov rs 0)) f ∙ ap (or_free none none) g,
                  (
                    omega (arith, hi),
                    λ k m. absent k (omega (arith, m, hi)),
                    inr (ground (arith, hit)),
                  ),
                )
            | inl g ↦
                let z = subst (Found is_free no_recv 0 rs) g vacant i l in
                absurd (ground (arith, z, free))
          ]
    ]

-- The receive that is noted.
abbrev pub posted : ℕ → ℕ → FirstBuf → ℕ → ℕ → IocpRecv
posted ov s b from fromlen = record {
  ov = ov;
  s = s;
  buf = b.buf;
  buflen = b.len;
  from = from;
  fromlen = fromlen;
}

self_test : (ov : ℕ) → (ov == ov) ≡ true
self_test ov = ground arith

written :
    (rs : List IocpRecv) (r : IocpRecv) (ov j : ℕ)
    → ov ≢ 0
    → Fits rs r.ov j
    → entry_in (set rs j r) (with_ov (set rs j r) ov)
      ≡ (if ov == r.ov then some r else entry_in rs (with_ov rs ov))
written rs r ov j some_ov (l, before, own) = elim (Bool-cases (ov == r.ov)) [
  | inl e ↦
      let same : r.ov ≡ ov = ground (arith, e) in
      subst
        (λ o.
          entry_in (set rs j r) (with_ov (set rs j r) o)
          ≡ (if o == r.ov then some r else entry_in rs (with_ov rs o)))
        same (rw (self_test r.ov) (own_entry rs j r l before))
  | inr e ↦ simp e (
      other_entry rs j r l ov (ground (arith, e))
        (elim own [ inl q ↦ ground (arith, e, q) | inr q ↦ ground (arith, some_ov, q) ]))
]

-- A completion finds its receive. After an overlapped receive is noted, the table has for its
-- OVERLAPPED the socket, the buffer and the address pointers it was posted with, and for every other
-- one what it had. (The sections are ready, and some entry of the table is free.)
pub track-look_up :
    (st : IocpState) (ov s : ℕ) (b : FirstBuf) (from fromlen other i : ℕ)
    → st.cs_ready ≡ true
    → ov ≢ 0
    → other ≢ 0
    → i < length st.recvs
    → (recv_at st i).ov ≡ 0
    → look_up (iocp_track_recv st ov s (some b) from fromlen) other
      ≡ (if other == ov then some (posted ov s b from fromlen) else look_up st other)
unfolding iocp_track_recv put_recv iocp_find_recv
track-look_up st ov s b from fromlen other i ready some_ov some_other l free =
    let (j, e, fits) = slot-Fits st.recvs ov i l free in
    let here : (ov == 0) ≡ false = ground (arith, some_ov) in
    simp (ready, here, e) (written st.recvs (posted ov s b from fromlen) other j some_other fits)
