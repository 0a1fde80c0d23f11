-- ===== src/Proxy/Gather.antt =====
-- The loop of `hooked_WSASendTo` that gathers the buffers.
use mathlib.Core.List.{append_assoc, append-nil}
use battlezone_netcode_patch.Prelude.{
  ℕ, zero, suc, ◌+◌, ◌^◌, ◌≤◌, ◌<◌, ◌≡◌, ◌∙◌, ◌⊎◌, ap, sym, refl, subst, inl, inr, true, false,
  Option, none, some, List, [], ◌∷◌, ◌++◌, take, arith, Bool-cases, ltb, ◌==◌, add32,
}
use battlezone_netcode_patch.Reorder.{reorder_max_pkt_bytes}
use battlezone_netcode_patch.Proxy.{WsaBuf}
use battlezone_netcode_patch.Proxy.WsaSendTo.{Flat, gather_one, gather}

gather_one-Bound :
    (flat : List ℕ) (total len : ℕ) (buf : Option (List ℕ)) (rest : List ℕ → ℕ → Flat)
    → ((f : List ℕ) (n : ℕ) → n ≤ reorder_max_pkt_bytes → (rest f n).total ≤ reorder_max_pkt_bytes)
    → total ≤ reorder_max_pkt_bytes
    → (gather_one flat total buf len rest).total ≤ reorder_max_pkt_bytes
gather_one-Bound flat total len none rest ih l = ih flat total l
gather_one-Bound flat total len (some bytes) rest ih l = elim (Bool-cases (len == 0)) [
  | inl e ↦ simp e (ih flat total l)
  | inr e ↦ elim (Bool-cases (ltb reorder_max_pkt_bytes (add32 total len))) [
    | inl f ↦ simp (e, f) l
    | inr f ↦ simp (e, f) (ih (flat ++ take len bytes) (add32 total len) (ground arith))
  ]
]

pub gather-Bound :
    (flat : List ℕ) (total : ℕ) (bs : List WsaBuf)
    → total ≤ reorder_max_pkt_bytes
    → (gather flat total bs).total ≤ reorder_max_pkt_bytes
unfolding gather
gather-Bound flat total [] l = l
gather-Bound flat total (b ∷ bs) l =
    gather_one-Bound flat total b.len b.buf (λ f n. gather f n bs) (λ f n m. gather-Bound f n bs m)
      l

pub take_twice : (n : ℕ) (xs : List ℕ) → take n (take n xs) ≡ take n xs
take_twice zero xs = refl
take_twice (suc n) [] = refl
take_twice (suc n) (x ∷ xs) = ap (λ t. x ∷ t) (take_twice n xs)

-- Gathering a single buffer that fits.
pub regather :
    (n : ℕ) (xs : List ℕ)
    → 0 < n
    → n ≤ reorder_max_pkt_bytes
    → gather [] 0 (record { buf = some xs; len = n } ∷ [])
      ≡ record { bytes = take n xs; total = n; fits = true }
unfolding gather
regather n xs l m =
    let e : (n == 0) ≡ false = ground arith in
    let f : ltb reorder_max_pkt_bytes (add32 0 n) ≡ false = ground arith in
    let g : add32 0 n ≡ n = omega arith in
    simp (e, f) (ap (λ m. record { bytes = take n xs; total = m; fits = true }) g)

-- What a buffer holds: nothing if it is null.
abbrev pub content : Option (List ℕ) → ℕ → List ℕ
content none len = []
content (some bytes) len = take len bytes

abbrev pub contents : List WsaBuf → List ℕ
contents [] = []
contents (b ∷ bs) = content b.buf b.len ++ contents bs

abbrev pub size : Option (List ℕ) → ℕ → ℕ
size none len = 0
size (some bytes) len = len

abbrev pub sizes : List WsaBuf → ℕ
sizes [] = 0
sizes (b ∷ bs) = size b.buf b.len + sizes bs

-- No length is so large that the 32-bit sum wraps around.
abbrev pub Sane : List WsaBuf → Type 0
Sane [] = 0 ≤ 0
Sane (b ∷ bs) = (b.len + reorder_max_pkt_bytes < 2 ^ 32) × Sane bs

-- All of `more` fitted after `total` bytes, or it did not.
abbrev pub Gathers : List ℕ → ℕ → List ℕ → ℕ → Flat → Type 0
Gathers flat total more n f =
    ((total + n ≤ reorder_max_pkt_bytes)
      × (f ≡ record { bytes = flat ++ more; total = total + n; fits = true }))
    ⊎ ((reorder_max_pkt_bytes < total + n) × (f.fits ≡ false))

shift-Gathers :
    (flat x more : List ℕ) (total len n : ℕ) (f : Flat)
    → Gathers (flat ++ x) (total + len) more n f
    → Gathers flat total (x ++ more) (len + n) f
shift-Gathers flat x more total len n f (inl (le, e)) =
    let sum : total + len + n ≡ total + (len + n) = omega arith in
    inl (
      omega arith,
      e ∙ (λ i. record { bytes = append_assoc flat x more i; total = sum i; fits = true }),
    )
shift-Gathers flat x more total len n f (inr (lt, e)) = inr (omega arith, e)

one-Gathers :
    (flat : List ℕ) (total len : ℕ) (buf : Option (List ℕ)) (more : List ℕ) (n : ℕ)
    (rest : List ℕ → ℕ → Flat)
    → total ≤ reorder_max_pkt_bytes
    → len + reorder_max_pkt_bytes < 2 ^ 32
    → ((f : List ℕ) (m : ℕ) → m ≤ reorder_max_pkt_bytes → Gathers f m more n (rest f m))
    → Gathers flat total
        (content buf len ++ more)
        (size buf len + n)
        (gather_one flat total buf len rest)
one-Gathers flat total len none more n rest l h ih =
    subst (λ m. Gathers flat total more m (rest flat total)) (omega arith) (ih flat total l)
one-Gathers flat total zero (some bytes) more n rest l h ih =
    subst (λ m. Gathers flat total more m (rest flat total)) (omega arith) (ih flat total l)
one-Gathers flat total (suc k) (some bytes) more n rest l h ih =
    let len : ℕ = suc k in
    let s : add32 total len ≡ total + len = omega arith in
    let z : (len == 0) ≡ false = ground arith in
    elim (Bool-cases (ltb reorder_max_pkt_bytes (add32 total len))) [
      | inl f ↦ simp (z, f) (inr (ground arith, refl))
      | inr f ↦
          let more_fits : total + len ≤ reorder_max_pkt_bytes = ground arith in
          simp (z, f)
            (simp s (
              shift-Gathers flat (take len bytes) more total len n
                (rest (flat ++ take len bytes) (total + len))
                (ih (flat ++ take len bytes) (total + len) more_fits)))
    ]

gather-Gathers :
    (flat : List ℕ) (total : ℕ) (bs : List WsaBuf)
    → total ≤ reorder_max_pkt_bytes
    → Sane bs
    → Gathers flat total (contents bs) (sizes bs) (gather flat total bs)
unfolding gather
gather-Gathers flat total [] l h =
    let z : total ≡ total + 0 = omega arith in
    inl (omega arith, λ i. record { bytes = sym (append-nil flat) i; total = z i; fits = true })
gather-Gathers flat total (b ∷ bs) l (h, hs) =
    one-Gathers flat total b.len b.buf (contents bs) (sizes bs) (λ f n. gather f n bs) l h
      (λ f m le. gather-Gathers f m bs le hs)

-- The flat copy of the buffers is whole or refused. Where no length is so large that the 32-bit sum
-- wraps around, buffers of at most 2048 bytes together give their contents one after the other, with
-- the sum of their lengths, null buffers left out; and more than 2048 bytes never fit.
pub gather_whole :
    (bs : List WsaBuf)
    → Sane bs
    → ((sizes bs ≤ reorder_max_pkt_bytes)
        × (gather [] 0 bs ≡ record { bytes = contents bs; total = sizes bs; fits = true }))
      ⊎ ((reorder_max_pkt_bytes < sizes bs) × ((gather [] 0 bs).fits ≡ false))
gather_whole bs h =
    let z : 0 + sizes bs ≡ sizes bs = omega arith in
    subst
      (λ n.
        ((n ≤ reorder_max_pkt_bytes)
          × (gather [] 0 bs ≡ record { bytes = contents bs; total = n; fits = true }))
        ⊎ ((reorder_max_pkt_bytes < n) × ((gather [] 0 bs).fits ≡ false)))
      z (gather-Gathers [] 0 bs (omega arith) h)
