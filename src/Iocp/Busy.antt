-- ===== src/Iocp/Busy.antt =====
-- No timeout is reported while a completion is held back.
use battlezone_netcode_patch.Prelude.{
  ℕ, ◌+◌, ◌<◌, ◌≡◌, ◌≢◌, ◌⊎◌, refl, sym, subst, inl, inr, Bool, true, false, not, ◌||◌, Option,
  none, some, List, [], ◌∷◌, set, zero, suc, get_or, length, Bool-cases, ◌==◌, ◌!=◌, if◌then◌else◌,
  arith,
}
use battlezone_netcode_patch.Prelude.Scan.{fold_from}
use battlezone_netcode_patch.Reorder.{DeliverKind, forced, ReorderCtx}
use battlezone_netcode_patch.Iocp.{IocpHeld, Completion, Turn, IocpState}
use battlezone_netcode_patch.Iocp.Table.{clear_recv, iocp_find_recv}
use battlezone_netcode_patch.Iocp.Pick.{
  no_held, oldest_round, entry_of, iocp_pick_oldest, iocp_pick_ready, iocp_release,
}
use battlezone_netcode_patch.Iocp.Wait.{
  Classified, gives, holds, of_recv, Turned, early, answers, again, expires, watched, timed_out,
  asked,
}
use battlezone_netcode_patch.Iocp.Port.{
  Ask, Waited, unhooked, starved, returned, asking, pass_through, iocp_disable, ready_first, turn,
  after_turn, wait_loop, wait_budget, steps_aside, hooked_get_queued_completion_status,
}
use battlezone_netcode_patch.Iocp.Held.{room, Held, IsHeld, IsPicked, ready-IsPicked, oldest-IsHeld}
use battlezone_netcode_patch.Iocp.Bounds.{noted, still_on}
use battlezone_netcode_patch.Iocp.Turns.{Stored, Balanced, turn-Balanced}

-- An entry in use has an OVERLAPPED.
abbrev is_real : IocpHeld → Bool
is_real h = not h.used || h.ov != 0

abbrev pub AllReal : List IocpHeld → Type 0
AllReal [] = Unit
AllReal (h ∷ hs) = (is_real h ≡ true) × AllReal hs

abbrev pub NoneHeld : List IocpHeld → Type 0
NoneHeld [] = Unit
NoneHeld (h ∷ hs) = (h.used ≡ false) × NoneHeld hs

set-AllReal :
    (hs : List IocpHeld) (j : ℕ) (h : IocpHeld)
    → is_real h ≡ true
    → AllReal hs
    → AllReal (set hs j h)
set-AllReal [] j h e k = tt
set-AllReal (x ∷ xs) zero h e k = (e, k.1)
set-AllReal (x ∷ xs) (suc j) h e k = (k.0, set-AllReal xs j h e k.1)

entry_real : (hs : List IocpHeld) (j : ℕ) → AllReal hs → is_real (get_or hs j no_held) ≡ true
entry_real [] j k = refl
entry_real (x ∷ xs) zero k = k.0
entry_real (x ∷ xs) (suc j) k = entry_real xs j k.1

Stored-AllReal :
    (hs gs : List IocpHeld) (c : Completion) → c.ov ≢ 0 → AllReal hs → Stored hs c gs → AllReal gs
Stored-AllReal hs gs c some_ov k (j, h, e, same) =
    subst AllReal (sym e) (set-AllReal hs j h (ground (arith, same, some_ov)) k)

round_none :
    (i : ℕ) (h : IocpHeld) (o : Option (ℕ × ℕ))
    → oldest_round i h o ≡ none
    → (h.used ≡ false) × (o ≡ none)
unfolding oldest_round
round_none i h none e = elim (Bool-cases h.used) [
  | inl u ↦ absurd (ground (arith, e, u))
  | inr u ↦ (u, refl)
]
round_none i h (some (j, t)) e = absurd (ground (arith, e))

none_left :
    (i : ℕ) (o : Option (ℕ × ℕ)) (hs : List IocpHeld)
    → fold_from oldest_round i o hs ≡ none
    → NoneHeld hs × (o ≡ none)
unfolding fold_from
none_left i o [] e = (tt, e)
none_left i o (h ∷ hs) e =
    let (k, r) = none_left (i + 1) (oldest_round i h o) hs e in
    let (u, z) = round_none i h o r in ((u, k), z)

no_entry : (o : Option (ℕ × ℕ)) → entry_of o ≡ none → o ≡ none
no_entry none e = refl
no_entry (some (i, t)) e = absurd (ground (arith, e))

oldest_none : (s : IocpState) → iocp_pick_oldest s ≡ none → NoneHeld s.held
unfolding iocp_pick_oldest
oldest_none s e = (none_left 0 none s.held (no_entry (fold_from oldest_round 0 none s.held) e)).0

-- What a turn hands over is a completion, or nothing is held back.
abbrev Busy : Completion → Turned → Type 0
Busy c (early out s) = out.ov ≢ 0
Busy c (answers out s) = (out.ov ≢ 0) ⊎ NoneHeld s.held
Busy c (again s) = c.ov ≢ 0
Busy c (expires s) = Unit

release_real :
    (s : IocpState) (i now : ℕ) (kind : DeliverKind)
    → AllReal s.held
    → Held s.held i
    → (iocp_release s i now kind).0.ov ≢ 0
unfolding iocp_release
release_real s i now kind real h = let e = entry_real s.held i real in ground (arith, e, h.1)

timed-Busy :
    (s : IocpState) (t : Turn) (r : Option ℕ)
    → AllReal s.held
    → IsHeld s.held r
    → (r ≡ none → NoneHeld s.held)
    → Busy t.given (timed_out s t r)
unfolding timed_out
timed-Busy s t none real h k = inr (k refl)
timed-Busy s t (some i) real h k = inl (release_real s i t.now forced real h)

within_or_past :
    (c : Completion) (b : Bool) (s : IocpState)
    → c.ov ≢ 0
    → Busy c (if b then expires s else again s)
within_or_past c true s k = tt
within_or_past c false s k = k

-- By cases on the two tests.
by_cases :
    (c : Completion) (p q : Bool) (x : Turned) (s : IocpState) (z : Turned)
    → Busy c x
    → (p ≡ false → c.ov ≢ 0)
    → (c.ov ≢ 0 → Busy c z)
    → Busy c (if p then x else if q then answers c s else z)
by_cases c true q x s z k l m = k
by_cases c false true x s z k l m = inl (l refl)
by_cases c false false x s z k l m = m (l refl)

watched-Busy :
    (entered budget : ℕ) (t : Turn) (r : Classified)
    → t.given.ov ≢ 0
    → Busy t.given (watched entered budget t r)
unfolding watched
watched-Busy entered budget t (gives s) some_ov = inl some_ov
watched-Busy entered budget t (holds s) some_ov = within_or_past t.given _ s some_ov

asked-Busy :
    (entered budget : ℕ) (s : IocpState) (t : Turn)
    → AllReal s.held
    → Busy t.given (asked entered budget s t)
unfolding asked
asked-Busy entered budget s t real =
    by_cases t.given (t.given.ov == 0) (not t.given.rc) (timed_out s t (iocp_pick_oldest s))
      (clear_recv s (iocp_find_recv s t.given.ov))
      (watched entered budget t (of_recv s t (iocp_find_recv s t.given.ov)))
      (timed-Busy s t (iocp_pick_oldest s) real (oldest-IsHeld s) (oldest_none s))
      (λ e. ground (arith, e))
      (λ n. watched-Busy entered budget t (of_recv s t (iocp_find_recv s t.given.ov)) n)

first-Busy :
    (entered budget : ℕ) (s : IocpState) (t : Turn) (r : Option (ℕ × DeliverKind) × ReorderCtx)
    → AllReal s.held
    → IsPicked s.held r.0
    → Busy t.given (ready_first entered budget s t r)
unfolding ready_first
first-Busy entered budget s t (none, c) real h =
    asked-Busy entered budget (record s { rx = c }) t real
first-Busy entered budget s t (some (i, kind), c) real h =
    release_real (record s { rx = c }) i t.top kind real h

turn-Busy :
    (entered budget : ℕ) (s : IocpState) (t : Turn)
    → AllReal s.held
    → Busy t.given (turn entered budget s t)
unfolding turn
turn-Busy entered budget s t real =
    first-Busy entered budget s t (iocp_pick_ready s t.top) real (ready-IsPicked s t.top)

-- How a call may end that answers without a completion.
abbrev pub Idles : Waited → Type 0
Idles unhooked = ⊥
Idles starved = ⊥
Idles (returned c rest ws s) = (c.ov ≢ 0) ⊎ (s.disabled ≡ true) ⊎ NoneHeld s.held

asking-Idles : (w : Ask) (r : Waited) → Idles r → Idles (asking w r)
unfolding asking
asking-Idles w unhooked k = absurd k
asking-Idles w starved k = absurd k
asking-Idles w (returned c rest ws s) k = k

disabled-Idles :
    (w : Ask) (s : IocpState) (ts : List Turn)
    → 0 < length ts
    → Idles (pass_through w (iocp_disable s) ts)
unfolding pass_through
disabled-Idles w s [] l = absurd (omega (arith, l))
disabled-Idles w s (t ∷ ts) l = inr (inl refl)

answered-Idles :
    (c : Completion) (s : IocpState)
    → (c.ov ≢ 0) ⊎ NoneHeld s.held
    → (c.ov ≢ 0) ⊎ (s.disabled ≡ true) ⊎ NoneHeld s.held
answered-Idles c s (inl k) = inl k
answered-Idles c s (inr k) = inr (inr k)

after-Idles :
    (hs : List IocpHeld) (w : Ask) (t : Turn) (ts : List Turn) (r : Turned)
    (rest : IocpState → Waited)
    → room hs < length (t ∷ ts)
    → AllReal hs
    → Balanced (λ _. 0) hs t.given r
    → Busy t.given r
    → ((s : IocpState) → room s.held < length ts → AllReal s.held → Idles (rest s))
    → Idles (after_turn w t ts r rest)
unfolding after_turn
after-Idles hs w t ts (early c s) rest l real k b h = inl b
after-Idles hs w t ts (answers c s) rest l real k b h = answered-Idles c s b
after-Idles hs w t ts (again s) rest l real k b h =
    asking-Idles w (rest s)
      (h s (omega (arith, l, k.1)) (Stored-AllReal hs s.held t.given b real k.2))
after-Idles hs w t ts (expires s) rest l real k b h =
    asking-Idles w _ (disabled-Idles _ s ts (omega (arith, l, k.1)))

loop-Idles :
    (entered budget : ℕ) (s : IocpState) (ts : List Turn)
    → room s.held < length ts
    → AllReal s.held
    → Idles (wait_loop entered budget s ts)
unfolding wait_loop
loop-Idles entered budget s [] l real = absurd (omega (arith, l))
loop-Idles entered budget s (t ∷ ts) l real =
    after-Idles s.held _ t ts (turn entered budget s t) _ l real
      (turn-Balanced (λ _. 0) (λ c e. refl) entered budget s t) (turn-Busy entered budget s t real)
      (λ s' m k. loop-Idles entered budget s' ts m k)

enabled-Idles :
    (s : IocpState) (has_outs : Bool) (timeout entered : ℕ) (ts : List Turn) (aside : Waited)
    → steps_aside s has_outs ≡ false
    → AllReal s.held
    → room s.held < length ts
    → Idles (
        if steps_aside s has_outs then aside else wait_loop entered (wait_budget s.rx timeout) s ts)
enabled-Idles s has_outs timeout entered ts aside on real l =
    rw on (loop-Idles entered (wait_budget s.rx timeout) s ts l real)

-- No timeout while a completion is held back. Where reordering of completions is configured and the
-- watchdog has not tripped, every completion held back has its OVERLAPPED, and more answers of the real
-- port are to come than there is room to hold completions back: a call of the hook returns, and hands
-- over a completion, or it leaves nothing held back, or the watchdog has tripped in it.
pub port-Idles :
    (s : IocpState) (has_outs : Bool) (timeout entered : ℕ) (ts : List Turn)
    → s.has_real ≡ true
    → steps_aside s has_outs ≡ false
    → AllReal s.held
    → room s.held < length ts
    → Idles (hooked_get_queued_completion_status s has_outs timeout entered ts)
unfolding hooked_get_queued_completion_status
port-Idles s has_outs timeout entered ts has on real l =
    let aside =
      λ (s' : IocpState). pass_through (record { clock = entered; timeout = timeout }) s' ts in
    let whole = λ (s' : IocpState).
      if steps_aside s' has_outs
      then aside s'
      else wait_loop entered (wait_budget s'.rx timeout) s' ts in
    let s1 : IocpState = record s { gqcs_logged = true } in
    simp has (
      noted s (λ s'. Idles (whole s'))
        (enabled-Idles s has_outs timeout entered ts (aside s) on real l)
        (enabled-Idles s1 has_outs timeout entered ts (aside s1) (still_on s has_outs on) real l))
