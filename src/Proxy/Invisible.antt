-- ===== src/Proxy/Invisible.antt =====
-- The game's receives on a queue of datagrams, as if no wake datagram were in it.
use battlezone_netcode_patch.Prelude.{
  ℕ, zero, suc, ◌≤◌, ◌<◌, ◌≡◌, ◌∙◌, ap, refl, inl, inr, Bool, true, false, Option, none, some, List,
  [], ◌∷◌, length, if◌then◌else◌, arith, Bool-cases,
}
use battlezone_netcode_patch.Prelude.Int.{ℤ, pos, negsuc}
use battlezone_netcode_patch.Proxy.Recv.{wake_magic, same_bytes}
use battlezone_netcode_patch.Proxy.RecvFrom.{
  wake_bytes, Got, FromCall, FromState, is_wake, is_peek, swallow, unless_wake, recv_loop,
  after_recv, on_answer, hooked_recvfrom,
}

-- What recvfrom documents of a non-blocking datagram socket: it fails on an empty queue, and otherwise
-- hands over the datagram at the head, whole where there is room, and removes it unless asked to peek.
pub record DatagramSocket : Type 1 where
  pub K : Type 0
  pub queue : K → List (List ℕ)
  pub recvfrom : K → ℤ → ℕ → Got × K
  pub recv_empty :
      (k : K) (len : ℤ) (flags : ℕ)
      → queue k ≡ []
      → ((recvfrom k len flags).0.rc ≡ negsuc 0) × (queue (recvfrom k len flags).1 ≡ [])
  pub recv_head :
      (k : K) (d : List ℕ) (ds : List (List ℕ)) (len flags : ℕ)
      → queue k ≡ d ∷ ds
      → length d ≤ len
      → ((recvfrom k (pos len) flags).0.rc ≡ pos (length d))
        × ((recvfrom k (pos len) flags).0.bytes ≡ d)
        × (queue (recvfrom k (pos len) flags).1 ≡ (if is_peek flags then d ∷ ds else ds))

-- The queue without the wake datagrams at its head.
abbrev pub past_wakes : List (List ℕ) → List (List ℕ)
past_wakes [] = []
past_wakes (d ∷ ds) = if same_bytes d wake_magic then past_wakes ds else d ∷ ds

abbrev pub AllFitIn : ℕ → List (List ℕ) → Type 0
AllFitIn len [] = Unit
AllFitIn len (d ∷ ds) = (length d ≤ len) × AllFitIn len ds

same_bytes-length : (xs ys : List ℕ) → same_bytes xs ys ≡ true → length xs ≡ length ys
same_bytes-length [] [] e = refl
same_bytes-length [] (y ∷ ys) e = absurd (ground (arith, e))
same_bytes-length (x ∷ xs) [] e = absurd (ground (arith, e))
same_bytes-length (x ∷ xs) (y ∷ ys) e = ap suc (same_bytes-length xs ys (ground (arith, e)))

module _ (S : DatagramSocket) where
  open S use {K, queue, recvfrom, recv_empty, recv_head}

  -- The receive answers what the queue `qs` has at its head, or fails as on an empty one.
  abbrev pub Receives : Bool → List (List ℕ) → Option (Got × K) → Type 0
  Receives peek qs none = ⊥
  Receives peek [] (some (g, k)) = (g.rc ≡ negsuc 0) × (queue k ≡ [])
  Receives peek (d ∷ ds) (some (g, k)) =
      (g.rc ≡ pos (length d)) × (g.bytes ≡ d) × (queue k ≡ (if peek then d ∷ ds else ds))

  -- A wake datagram is recognised.
  seen :
      (a : FromCall) (g : Got) (d : List ℕ)
      → a.has_buf ≡ true
      → g.rc ≡ pos (length d)
      → g.bytes ≡ d
      → is_wake a g ≡ same_bytes d wake_magic
  unfolding is_wake
  seen a g d buf rc bytes = elim (Bool-cases (same_bytes d wake_magic)) [
    | inl e ↦ let l = same_bytes-length d wake_magic e in simp (rc, buf, bytes, e, l) refl
    | inr e ↦ simp (bytes, e) (ground arith)
  ]

  -- After a wake datagram at the head, peeked at or not, the queue is the rest.
  swallowed :
      (a : FromCall) (k : K) (d : List ℕ) (ds : List (List ℕ))
      → length d ≡ wake_bytes
      → queue k ≡ (if is_peek a.flags then d ∷ ds else ds)
      → queue (swallow recvfrom a k) ≡ ds
  unfolding swallow is_peek
  swallowed a k d ds l e = elim (Bool-cases (is_peek a.flags)) [
    | inl f ↦ simp f (
        (recv_head k d ds wake_bytes 0 (e ∙ ap (λ b. if b then d ∷ ds else ds) f)
          (omega (arith, l))).2)
    | inr f ↦ simp f (e ∙ ap (λ b. if b then d ∷ ds else ds) f)
  ]

  goes_by :
      (peek : Bool) (qs : List (List ℕ)) (b c : Bool) (r : Got × K) (rest : Option (Got × K))
      → b ≡ c
      → Receives peek qs (unless_wake c r rest)
      → Receives peek qs (unless_wake b r rest)
  goes_by peek qs b c r rest e k = rw e k

  no_wake : (a : FromCall) (g : Got) → g.rc ≡ negsuc 0 → is_wake a g ≡ false
  unfolding is_wake
  no_wake a g e = rw e refl

  module _ (a : FromCall) (len : ℕ) (buf : a.has_buf ≡ true) (size : a.len ≡ pos len) where
    abbrev answered : K → Got × K
    answered k = recvfrom k a.len a.flags

    head_got :
        (k : K) (d : List ℕ) (ds : List (List ℕ))
        → queue k ≡ d ∷ ds
        → length d ≤ len
        → ((answered k).0.rc ≡ pos (length d))
          × ((answered k).0.bytes ≡ d)
          × (queue (answered k).1 ≡ (if is_peek a.flags then d ∷ ds else ds))
    head_got k d ds e l = rw size (recv_head k d ds len a.flags e l)

    loop-Receives :
        (fuel : ℕ) (k : K) (qs : List (List ℕ))
        → queue k ≡ qs
        → length qs < fuel
        → AllFitIn len qs
        → Receives (is_peek a.flags) (past_wakes qs) (recv_loop recvfrom fuel a k)
    unfolding recv_loop
    loop-Receives zero k qs e l fit = absurd (omega (arith, l))
    loop-Receives (suc n) k [] e l fit =
        let got = recv_empty k a.len a.flags e in
        goes_by (is_peek a.flags) [] (is_wake a (answered k).0) false (answered k) _
          (no_wake a (answered k).0 got.0) got
    loop-Receives (suc n) k (d ∷ ds) e l fit =
        let (rc, bytes, after) = head_got k d ds e fit.0 in
        let same = seen a (answered k).0 d buf rc bytes in
        elim (Bool-cases (same_bytes d wake_magic)) [
          | inl f ↦
              let next = swallow recvfrom a (answered k).1 in
              let rest = swallowed a (answered k).1 d ds (same_bytes-length d wake_magic f) after in
              goes_by (is_peek a.flags) (past_wakes (d ∷ ds)) (is_wake a (answered k).0) true
                (answered k) _ (same ∙ f)
                (rw f (loop-Receives n next ds rest (omega (arith, l)) fit.1))
          | inr f ↦
              goes_by (is_peek a.flags) (past_wakes (d ∷ ds)) (is_wake a (answered k).0) false
                (answered k) _ (same ∙ f) (rw f (rc, bytes, after))
        ]

  -- The same of the hook, whose other state does not matter to the game.
  abbrev pub GameReceives : Bool → List (List ℕ) → Option (Got × FromState × K) → Type 0
  GameReceives peek qs none = ⊥
  GameReceives peek qs (some (g, s, k)) = Receives peek qs (some (g, k))

  hook-GameReceives :
      (peek : Bool) (qs : List (List ℕ)) (s : FromState) (a : FromCall) (log_now rtt_now : ℕ)
      (r : Option (Got × K))
      → Receives peek qs r
      → GameReceives peek qs (on_answer (after_recv s a log_now rtt_now) r)
  unfolding after_recv
  hook-GameReceives peek qs s a log_now rtt_now none k = k
  hook-GameReceives peek qs s a log_now rtt_now (some (g, k')) k = k

-- The game never sees a wake datagram, and a receive does not hang on them. With more fuel than there
-- are datagrams in the queue, the hook answers, and as the real recvfrom would if the queue did not
-- begin with wake datagrams: it fails where nothing else is queued, and hands over the first datagram
-- of another kind whole, which stays in the queue if the caller peeks and leaves it if not. (Every
-- datagram of the queue fits the caller's buffer.)
pub recvfrom_hides_wakes :
    (S : DatagramSocket) (fuel : ℕ) (s : FromState) (a : FromCall) (len log_now rtt_now : ℕ)
    (k : S.K)
    → a.has_buf ≡ true
    → a.len ≡ pos len
    → length (S.queue k) < fuel
    → AllFitIn len (S.queue k)
    → GameReceives S
        (is_peek a.flags)
        (past_wakes (S.queue k))
        (hooked_recvfrom S.recvfrom fuel true s a log_now rtt_now k)
unfolding hooked_recvfrom
recvfrom_hides_wakes S fuel s a len log_now rtt_now k buf size l fit =
    hook-GameReceives S (is_peek a.flags) (past_wakes (S.queue k)) s a log_now rtt_now _
      (loop-Receives S a len buf size fuel k (S.queue k) refl l fit)
