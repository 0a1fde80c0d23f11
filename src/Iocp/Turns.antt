-- ===== src/Iocp/Turns.antt =====
-- One turn of the wait: a completion is handed over or held back, and none is lost.
use battlezone_netcode_patch.Prelude.{
  ℕ, ◌+◌, ◌<◌, ◌≡◌, ◌∙◌, ap, sym, subst, refl, inl, inr, Bool, true, false, not, ◌||◌, Option, none,
  some, List, set, get_or, length, Bool-cases, ◌==◌, inc64, if◌then◌else◌, arith,
}
use battlezone_netcode_patch.Prelude.Int.{leb_ℤ, pos}
use battlezone_netcode_patch.Prelude.Scan.{find_index?-Found, Found}
use battlezone_netcode_patch.Prelude.Sums.{sum-set}
use battlezone_netcode_patch.Reorder.{DeliverKind, forced, SockAddr, ReorderCtx, PeerBuf}
use battlezone_netcode_patch.Reorder.Seq.{seq_cmp, seq_next}
use battlezone_netcode_patch.Reorder.Peers.{peer_at, reorder_get_peer}
use battlezone_netcode_patch.Reorder.Wire.{reorder_seq_from_payload}
use battlezone_netcode_patch.Iocp.{IocpHeld, Completion, Turn, IocpState}
use battlezone_netcode_patch.Iocp.Table.{recv_at, clear_recv, iocp_find_recv}
use battlezone_netcode_patch.Iocp.Pick.{no_held, handed_back, iocp_pick_ready, iocp_pick_oldest}
use battlezone_netcode_patch.Iocp.Wait.{
  Classified, gives, holds, free_held, defer, at_entry, at_source, of_recv, is_unfit, read_recv,
  Turned, early, answers, again, expires, watched, timed_out, asked, note_now, adapt_at,
}
use battlezone_netcode_patch.Iocp.Port.{ready_first, turn}
use battlezone_netcode_patch.Iocp.Held.{
  weight, kept, vacant, room, IsHeld, IsPicked, ready-IsPicked, oldest-IsHeld, release_kept,
}

-- A completion goes into a free entry.
module _ (f : Completion → ℕ) (hs : List IocpHeld) (h : IocpHeld) (j : ℕ) (u : h.used ≡ true)
    (e : free_held hs ≡ some j) where
  into_free : (j < length hs) × ((get_or hs j no_held).used ≡ false)
  into_free =
      let is = λ (h : IocpHeld). not h.used in
      let k = subst (Found is no_held 0 hs) e (find_index?-Found is no_held hs) in
      ground (arith, k.1, k.2)

  pub stored_kept : kept f (set hs j h) ≡ kept f hs + f (handed_back h)
  stored_kept = ground (arith, sum-set (weight f) hs j h no_held into_free.0, into_free.1, u)

  pub stored_room : room (set hs j h) + 1 ≡ room hs
  stored_room = ground (arith, sum-set vacant hs j h no_held into_free.0, into_free.1, u)

-- The table `hs` with the completion `c` in one of its entries.
abbrev pub Stored : List IocpHeld → Completion → List IocpHeld → Type 0
Stored hs c gs = (j : ℕ) × (h : IocpHeld) × (gs ≡ set hs j h) × (h.ov ≡ c.ov)

module _ (f : Completion → ℕ) where
  abbrev Takes : List IocpHeld → Completion → Classified → Type 0
  Takes hs c (gives s) = s.held ≡ hs
  Takes hs c (holds s) =
      (kept f s.held ≡ kept f hs + f c) × (room s.held + 1 ≡ room hs) × Stored hs c s.held

  defer-Takes :
      (s : IocpState) (t : Turn) (seq : ℕ) (src : SockAddr) (i : ℕ) (r : Option ℕ)
      → t.given.rc ≡ true
      → free_held s.held ≡ r
      → Takes s.held t.given (defer s t seq src i r)
  unfolding defer note_now
  defer-Takes s t seq src i none ok e = refl
  defer-Takes s t seq src i (some j) ok e =
      let h : IocpHeld = record {
        used = true;
        bytes = t.given.bytes;
        key = t.given.key;
        ov = t.given.ov;
        seq = seq;
        ts = t.now;
        from = src;
      } in
      (
        stored_kept f s.held h j refl e
            ∙ ap (λ b. kept f s.held + f (record (t.given) { rc = b })) (sym ok),
        stored_room f s.held h j refl e,
        (j, h, refl, refl),
      )

  entry-Takes :
      (s : IocpState) (t : Turn) (seq : ℕ) (src : SockAddr) (p : Option ℕ)
      → t.given.rc ≡ true
      → Takes s.held t.given (at_entry s t seq src p)
  unfolding at_entry note_now adapt_at
  entry-Takes s t seq src none ok = refl
  entry-Takes s t seq src (some i) ok =
      let pb : PeerBuf = peer_at s.rx i in
      elim (Bool-cases (not pb.seq_init || seq == seq_next pb.last_seq)) [
        | inl e ↦ simp e refl
        | inr e ↦ elim (Bool-cases (leb_ℤ (seq_cmp seq pb.last_seq) (pos 0))) [
          | inl g ↦ simp (e, g) refl
          | inr g ↦ simp (e, g) (defer-Takes (adapt_at s i seq t.now) t seq src i _ ok refl)
        ]
      ]

  source-Takes :
      (s : IocpState) (t : Turn) (seq : ℕ) (src : SockAddr) (r : Option ℕ × ReorderCtx)
      → t.given.rc ≡ true
      → Takes s.held t.given (at_source s t seq src r)
  unfolding at_source
  source-Takes s t seq src (p, c) ok = entry-Takes (record s { rx = c }) t seq src p ok

  if-Takes :
      (hs : List IocpHeld) (c : Completion) (b : Bool) (x y : Classified)
      → Takes hs c x
      → Takes hs c y
      → Takes hs c (if b then x else y)
  if-Takes hs c true x y k l = k
  if-Takes hs c false x y k l = l

  recv-Takes :
      (s : IocpState) (t : Turn) (r : Option ℕ)
      → t.given.rc ≡ true
      → Takes s.held t.given (of_recv s t r)
  unfolding of_recv clear_recv read_recv
  recv-Takes s t none ok = refl
  recv-Takes s t (some i) ok =
      let r = recv_at s i in
      let cleared = clear_recv s (some i) in
      let src = t.mem.source r.from in
      if-Takes s.held t.given (is_unfit t r) (gives cleared) (read_recv cleared t r) refl (
        source-Takes (record cleared { completed = inc64 cleared.completed }) t
          (reorder_seq_from_payload (t.mem.payload r.buf)) src
          (reorder_get_peer cleared.rx src t.now) ok)

  -- What a turn owes: the completions that it took from the port, with those held before, are those
  -- that it hands over and those held after it; and each that is held back takes room.
  abbrev pub Balanced : List IocpHeld → Completion → Turned → Type 0
  Balanced hs c (early out s) = kept f s.held + f out ≡ kept f hs
  Balanced hs c (answers out s) = kept f s.held + f out ≡ kept f hs + f c
  Balanced hs c (again s) =
      (kept f s.held ≡ kept f hs + f c) × (room s.held + 1 ≡ room hs) × Stored hs c s.held
  Balanced hs c (expires s) =
      (kept f s.held ≡ kept f hs + f c) × (room s.held + 1 ≡ room hs) × Stored hs c s.held

  within_or_past :
      (hs : List IocpHeld) (c : Completion) (b : Bool) (s : IocpState)
      → Takes hs c (holds s)
      → Balanced hs c (if b then expires s else again s)
  within_or_past hs c true s k = k
  within_or_past hs c false s k = k

  watched-Balanced :
      (hs : List IocpHeld) (entered budget : ℕ) (t : Turn) (r : Classified)
      → Takes hs t.given r
      → Balanced hs t.given (watched entered budget t r)
  unfolding watched
  watched-Balanced hs entered budget t (gives s) k = ap (λ h. kept f h + f t.given) k
  watched-Balanced hs entered budget t (holds s) k = within_or_past hs t.given _ s k

  -- An answer without an OVERLAPPED has no weight.
  module _ (no_ov : (c : Completion) → c.ov ≡ 0 → f c ≡ 0) where
    timed-Balanced :
        (s : IocpState) (t : Turn) (r : Option ℕ)
        → (t.given.ov == 0) ≡ true
        → IsHeld s.held r
        → Balanced s.held t.given (timed_out s t r)
    unfolding timed_out
    timed-Balanced s t none e h = refl
    timed-Balanced s t (some i) e h =
        omega (arith, release_kept f s i t.now forced h, no_ov t.given (ground (arith, e)))

    cleared_keeps :
        (s : IocpState) (t : Turn) (r : Option ℕ)
        → Balanced s.held t.given (answers t.given (clear_recv s r))
    unfolding clear_recv
    cleared_keeps s t none = refl
    cleared_keeps s t (some i) = refl

    -- By cases on the two tests, with what each branch has to show.
    by_cases :
        (hs : List IocpHeld) (c : Completion) (p q : Bool) (x y z : Turned)
        → (p ≡ true → Balanced hs c x)
        → Balanced hs c y
        → (q ≡ false → Balanced hs c z)
        → Balanced hs c (if p then x else if q then y else z)
    by_cases hs c true q x y z k l m = k refl
    by_cases hs c false true x y z k l m = l
    by_cases hs c false false x y z k l m = m refl

    asked-Balanced :
        (entered budget : ℕ) (s : IocpState) (t : Turn)
        → Balanced s.held t.given (asked entered budget s t)
    unfolding asked
    asked-Balanced entered budget s t =
        let r = iocp_find_recv s t.given.ov in
        by_cases s.held t.given (t.given.ov == 0) (not t.given.rc)
          (timed_out s t (iocp_pick_oldest s)) (answers t.given (clear_recv s r))
          (watched entered budget t (of_recv s t r))
          (λ e. timed-Balanced s t (iocp_pick_oldest s) e (oldest-IsHeld s)) (cleared_keeps s t r)
          (λ e.
            watched-Balanced s.held entered budget t (of_recv s t r)
              (recv-Takes s t r (ground (arith, e))))

    first-Balanced :
        (entered budget : ℕ) (s : IocpState) (t : Turn) (r : Option (ℕ × DeliverKind) × ReorderCtx)
        → IsPicked s.held r.0
        → Balanced s.held t.given (ready_first entered budget s t r)
    unfolding ready_first
    first-Balanced entered budget s t (none, c) h =
        asked-Balanced entered budget (record s { rx = c }) t
    first-Balanced entered budget s t (some (i, kind), c) h =
        release_kept f (record s { rx = c }) i t.top kind h

    pub turn-Balanced :
        (entered budget : ℕ) (s : IocpState) (t : Turn)
        → Balanced s.held t.given (turn entered budget s t)
    unfolding turn
    turn-Balanced entered budget s t =
        first-Balanced entered budget s t (iocp_pick_ready s t.top) (ready-IsPicked s t.top)
