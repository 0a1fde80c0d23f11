-- ===== src/Iocp/Bounds.antt =====
-- How often, and until when, the wait asks the real port.
use battlezone_netcode_patch.Prelude.{
  refl, ℕ, ◌+◌, ◌≤◌, ◌<◌, ◌^◌, ◌≡◌, inl, inr, true, false, not, ◌&&◌, List, [], ◌∷◌, length, Bool,
  Bool-cases, if◌then◌else◌, min, max, arith,
}
use battlezone_netcode_patch.Prelude.Sums.{sum-le-length}
use battlezone_netcode_patch.Reorder.{ReorderCtx}
use battlezone_netcode_patch.Iocp.{IocpHeld, Turn, IocpState, iocp_hold_cap}
use battlezone_netcode_patch.Iocp.Wait.{Turned, early, answers, again, expires}
use battlezone_netcode_patch.Iocp.Port.{
  Ask, Waited, unhooked, starved, returned, asking, pass_through, iocp_disable, after_turn, turn,
  remaining, wait_loop, wait_budget, steps_aside, note_scan, hooked_get_queued_completion_status,
}
use battlezone_netcode_patch.Iocp.Held.{vacant, room}
use battlezone_netcode_patch.Iocp.Turns.{Balanced, turn-Balanced}

-- A call of the real port that does not wait past the deadline, or not at all.
abbrev pub InTime : ℕ → Ask → Type 0
InTime deadline w = w.clock + w.timeout ≤ max w.clock deadline

abbrev pub AllInTime : ℕ → List Ask → Type 0
AllInTime deadline [] = Unit
AllInTime deadline (w ∷ ws) = InTime deadline w × AllInTime deadline ws

-- The hook has answered, after at most `n` calls of the real port, each in time.
abbrev pub Answers : ℕ → ℕ → Waited → Type 0
Answers n deadline unhooked = ⊥
Answers n deadline starved = ⊥
Answers n deadline (returned c rest ws s) = (length ws ≤ n) × AllInTime deadline ws

asking-Answers :
    (n m deadline : ℕ) (w : Ask) (r : Waited)
    → n < m
    → InTime deadline w
    → Answers n deadline r
    → Answers m deadline (asking w r)
unfolding asking
asking-Answers n m deadline w unhooked l i k = absurd k
asking-Answers n m deadline w starved l i k = absurd k
asking-Answers n m deadline w (returned c rest ws s) l i k = (omega (arith, l, k.0), (i, k.1))

more_calls : (n m deadline : ℕ) (r : Waited) → n ≤ m → Answers n deadline r → Answers m deadline r
more_calls n m deadline unhooked l k = absurd k
more_calls n m deadline starved l k = absurd k
more_calls n m deadline (returned c rest ws s) l k = (omega (arith, l, k.0), k.1)

pass-Answers :
    (n deadline : ℕ) (w : Ask) (s : IocpState) (ts : List Turn)
    → 0 < n
    → 0 < length ts
    → InTime deadline w
    → Answers n deadline (pass_through w s ts)
unfolding pass_through
pass-Answers n deadline w s [] m l i = absurd (omega (arith, l))
pass-Answers n deadline w s (t ∷ ts) m l i = (omega (arith, m), (i, tt))

now-InTime : (deadline clock : ℕ) → InTime deadline (record { clock = clock; timeout = 0 })
now-InTime deadline clock = omega arith

after-Answers :
    (hs : List IocpHeld) (deadline : ℕ) (w : Ask) (t : Turn) (ts : List Turn) (r : Turned)
    (rest : IocpState → Waited)
    → room hs < length (t ∷ ts)
    → InTime deadline w
    → Balanced (λ _. 0) hs t.given r
    → ((s : IocpState) → room s.held < length ts → Answers (room s.held + 1) deadline (rest s))
    → Answers (room hs + 1) deadline (after_turn w t ts r rest)
unfolding after_turn
after-Answers hs deadline w t ts (early c s) rest l i k h = (omega arith, tt)
after-Answers hs deadline w t ts (answers c s) rest l i k h = (omega arith, (i, tt))
after-Answers hs deadline w t ts (again s) rest l i k h =
    asking-Answers (room s.held + 1) (room hs + 1) deadline w (rest s) (omega (arith, k.1)) i
      (h s (omega (arith, l, k.1)))
after-Answers hs deadline w t ts (expires s) rest l i k h =
    asking-Answers (room s.held + 1) (room hs + 1) deadline w _ (omega (arith, k.1)) i (
      pass-Answers (room s.held + 1) deadline (record { clock = t.done; timeout = 0 })
        (iocp_disable s) ts (omega arith) (omega (arith, l, k.1)) (now-InTime deadline t.done))

rest-InTime :
    (entered budget clock : ℕ)
    → entered + budget < 2 ^ 64
    → InTime (entered + budget) (record { clock = clock; timeout = remaining entered budget clock })
unfolding remaining
rest-InTime entered budget clock l = ground arith

loop-Answers :
    (entered budget : ℕ) (s : IocpState) (ts : List Turn)
    → entered + budget < 2 ^ 64
    → room s.held < length ts
    → Answers (room s.held + 1) (entered + budget) (wait_loop entered budget s ts)
unfolding wait_loop
loop-Answers entered budget s [] b l = absurd (omega (arith, l))
loop-Answers entered budget s (t ∷ ts) b l =
    after-Answers s.held (entered + budget) _ t ts (turn entered budget s t) _ l
      (rest-InTime entered budget t.top b) (turn-Balanced (λ _. 0) (λ c e. refl) entered budget s t)
      (λ s' m. loop-Answers entered budget s' ts b m)

budget_min :
    (c : ReorderCtx) (timeout : ℕ)
    → timeout < 2 ^ 32
    → c.win_max_ms < 2 ^ 32
    → wait_budget c timeout ≡ min timeout c.win_max_ms
unfolding wait_budget
budget_min c timeout h k = ground arith

pub noted :
    (s : IocpState) (P : IocpState → Type 0)
    → P s
    → P (record s { gqcs_logged = true })
    → P (note_scan s)
unfolding note_scan
noted s P h k = elim (Bool-cases (s.scan && not s.gqcs_logged)) [ inl e ↦ rw e k | inr e ↦ rw e h ]

pub still_on :
    (s : IocpState) (has_outs : Bool)
    → steps_aside s has_outs ≡ false
    → steps_aside (record s { gqcs_logged = true }) has_outs ≡ false
unfolding steps_aside
still_on s has_outs on = on

-- The hook that does not step aside.
enabled-Answers :
    (s : IocpState) (has_outs : Bool) (timeout entered : ℕ) (ts : List Turn) (aside : Waited)
    → steps_aside s has_outs ≡ false
    → timeout < 2 ^ 32
    → s.rx.win_max_ms < 2 ^ 32
    → entered + min timeout s.rx.win_max_ms < 2 ^ 64
    → length s.held ≤ iocp_hold_cap
    → iocp_hold_cap < length ts
    → Answers (iocp_hold_cap + 1) (entered + min timeout s.rx.win_max_ms) (
        if steps_aside s has_outs then aside else wait_loop entered (wait_budget s.rx timeout) s ts)
enabled-Answers s has_outs timeout entered ts aside on small win clock size l =
    let few = sum-le-length vacant s.held (λ h. ground arith) in
    let b = budget_min s.rx timeout small win in
    rw on (
      rw b (
        more_calls (room s.held + 1) (iocp_hold_cap + 1) (entered + min timeout s.rx.win_max_ms) _
          (omega (arith, few, size))
          (loop-Answers entered (min timeout s.rx.win_max_ms) s ts clock
            (omega (arith, few, size, l)))))

-- The game gets its answer, in time. Where reordering of completions is configured and the watchdog has
-- not tripped, and five answers of the real port are to come, a call of the hook returns after at most
-- five calls of the real port, and none of them waits past the deadline, the clock on entry and the
-- lesser of the caller's timeout and the widest window. (The table has its four entries, and the clock
-- is not about to wrap around.)
pub port-Answers :
    (s : IocpState) (has_outs : Bool) (timeout entered : ℕ) (ts : List Turn)
    → s.has_real ≡ true
    → steps_aside s has_outs ≡ false
    → timeout < 2 ^ 32
    → s.rx.win_max_ms < 2 ^ 32
    → entered + min timeout s.rx.win_max_ms < 2 ^ 64
    → length s.held ≤ iocp_hold_cap
    → iocp_hold_cap < length ts
    → Answers
        (iocp_hold_cap + 1)
        (entered + min timeout s.rx.win_max_ms)
        (hooked_get_queued_completion_status s has_outs timeout entered ts)
unfolding hooked_get_queued_completion_status
port-Answers s has_outs timeout entered ts real on small win clock size l =
    let aside =
      λ (s' : IocpState). pass_through (record { clock = entered; timeout = timeout }) s' ts in
    let whole = λ (s' : IocpState).
      if steps_aside s' has_outs
      then aside s'
      else wait_loop entered (wait_budget s'.rx timeout) s' ts in
    let s1 : IocpState = record s { gqcs_logged = true } in
    simp real (
      noted s (λ s'. Answers (iocp_hold_cap + 1) (entered + min timeout s.rx.win_max_ms) (whole s'))
        (enabled-Answers s has_outs timeout entered ts (aside s) on small win clock size l)
        (enabled-Answers s1 has_outs timeout entered ts (aside s1) (still_on s has_outs on) small
          win clock size l))
