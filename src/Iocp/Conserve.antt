-- ===== src/Iocp/Conserve.antt =====
-- The whole wait loses no completion, and answers with few calls of the real port.
use battlezone_netcode_patch.Prelude.{
  ℕ, ◌+◌, ◌<◌, ◌≡◌, refl, subst, inl, inr, true, false, not, ◌&&◌, List, [], ◌∷◌, length, Bool,
  Bool-cases, if◌then◌else◌, arith,
}
use battlezone_netcode_patch.Prelude.Sums.{sum}
use battlezone_netcode_patch.Iocp.{IocpHeld, Completion, Turn, IocpState}
use battlezone_netcode_patch.Iocp.Wait.{Turned, early, answers, again, expires}
use battlezone_netcode_patch.Iocp.Port.{
  Ask, Waited, unhooked, starved, returned, asking, pass_through, iocp_disable, after_turn, turn,
  wait_loop, wait_budget, steps_aside, note_scan, hooked_get_queued_completion_status,
}
use battlezone_netcode_patch.Iocp.Held.{kept, room}
use battlezone_netcode_patch.Iocp.Turns.{Balanced, turn-Balanced}

module _ (f : Completion → ℕ) where
  -- The weight of the answers that the port has to give.
  abbrev pub offered : List Turn → ℕ
  offered ts = sum (λ (t : Turn). f t.given) ts

  -- The hook has answered, and every completion is accounted for: those that it holds, the one that it
  -- hands over, and those that are left to take.
  abbrev pub Conserves : List IocpHeld → List Turn → Waited → Type 0
  Conserves hs ts unhooked = ⊥
  Conserves hs ts starved = ⊥
  Conserves hs ts (returned c rest ws s) =
      kept f s.held + f c + offered rest ≡ kept f hs + offered ts

  asking-Conserves :
      (hs gs : List IocpHeld) (t : Turn) (ts : List Turn) (w : Ask) (r : Waited)
      → kept f gs ≡ kept f hs + f t.given
      → Conserves gs ts r
      → Conserves hs (t ∷ ts) (asking w r)
  unfolding asking
  asking-Conserves hs gs t ts w unhooked e k = absurd k
  asking-Conserves hs gs t ts w starved e k = absurd k
  asking-Conserves hs gs t ts w (returned c rest ws s) e k = omega (arith, e, k)

  pass-Conserves :
      (w : Ask) (s : IocpState) (ts : List Turn)
      → 0 < length ts
      → Conserves s.held ts (pass_through w s ts)
  unfolding pass_through
  pass-Conserves w s [] l = absurd (omega (arith, l))
  pass-Conserves w s (t ∷ ts) l = omega arith

  after-Conserves :
      (hs : List IocpHeld) (w : Ask) (t : Turn) (ts : List Turn) (r : Turned)
      (rest : IocpState → Waited)
      → room hs < length (t ∷ ts)
      → Balanced f hs t.given r
      → ((s : IocpState) → room s.held < length ts → Conserves s.held ts (rest s))
      → Conserves hs (t ∷ ts) (after_turn w t ts r rest)
  unfolding after_turn
  after-Conserves hs w t ts (early c s) rest l k h = omega (arith, k)
  after-Conserves hs w t ts (answers c s) rest l k h = omega (arith, k)
  after-Conserves hs w t ts (again s) rest l k h =
      asking-Conserves hs s.held t ts w (rest s) k.0 (h s (omega (arith, l, k.1)))
  after-Conserves hs w t ts (expires s) rest l k h =
      asking-Conserves hs s.held t ts w _ k.0
        (pass-Conserves _ (iocp_disable s) ts (omega (arith, l, k.1)))

  pub loop-Conserves :
      ((c : Completion) → c.ov ≡ 0 → f c ≡ 0)
      → (entered budget : ℕ) (s : IocpState) (ts : List Turn) → room s.held < length ts
      → Conserves s.held ts (wait_loop entered budget s ts)
  unfolding wait_loop
  loop-Conserves no_ov entered budget s [] l = absurd (omega (arith, l))
  loop-Conserves no_ov entered budget s (t ∷ ts) l =
      after-Conserves s.held _ t ts (turn entered budget s t) _ l
        (turn-Balanced f no_ov entered budget s t)
        (λ s' m. loop-Conserves no_ov entered budget s' ts m)

  by_route :
      (b : Bool) (hs : List IocpHeld) (ts : List Turn) (x y : Waited)
      → Conserves hs ts x
      → Conserves hs ts y
      → Conserves hs ts (if b then x else y)
  by_route true hs ts x y k l = k
  by_route false hs ts x y k l = l

note_held : (s : IocpState) → (note_scan s).held ≡ s.held
unfolding note_scan
note_held s = elim (Bool-cases (s.scan && not s.gqcs_logged)) [
  | inl e ↦ rw e refl
  | inr e ↦ rw e refl
]

-- The hook loses, makes up or doubles no completion that has an OVERLAPPED. Whenever there are more
-- answers of the real port to come than there is room to hold completions back, a call of the hook
-- answers the game; and for every weight `f` on answers that is 0 for one without an OVERLAPPED, the
-- answer that it hands over, the completions that it holds back afterwards and the answers still to come
-- weigh as much as those that it held and those to come before it. On the watchdog's path too, what is
-- held back stays in the table of the hook. (The real port is known.)
pub port-Conserves :
    (f : Completion → ℕ) (s : IocpState) (has_outs : Bool) (timeout entered : ℕ) (ts : List Turn)
    → ((c : Completion) → c.ov ≡ 0 → f c ≡ 0)
    → s.has_real ≡ true
    → room s.held < length ts
    → Conserves f s.held ts (hooked_get_queued_completion_status s has_outs timeout entered ts)
unfolding hooked_get_queued_completion_status
port-Conserves f s has_outs timeout entered ts no_ov real l =
    let s' = note_scan s in
    let same = note_held s in
    let l' : room s'.held < length ts = rw same l in
    let aside : Ask = record { clock = entered; timeout = timeout } in
    simp real (
      subst
        (λ hs. Conserves f hs ts (
          if steps_aside s' has_outs
          then pass_through aside s' ts
          else wait_loop entered (wait_budget s'.rx timeout) s' ts))
        same
        (by_route f (steps_aside s' has_outs) s'.held ts (pass_through aside s' ts)
          (wait_loop entered (wait_budget s'.rx timeout) s' ts)
          (pass-Conserves f aside s' ts (omega (arith, l')))
          (loop-Conserves f no_ov entered (wait_budget s'.rx timeout) s' ts l')))
