-- ===== src/Iocp/Port.antt =====
-- `Hooked_GetQueuedCompletionStatus`: the loop over the turns of the wait, and the whole hook.
use battlezone_netcode_patch.Prelude.{
  ℕ, ◌-◌, ◌%◌, ◌^◌, Bool, true, not, ◌&&◌, ◌||◌, Option, none, some, List, [], ◌∷◌, ltb, leb, ◌==◌,
  if◌then◌else◌, add64,
}
use battlezone_netcode_patch.Reorder.{DeliverKind, ReorderCtx}
use battlezone_netcode_patch.Iocp.{Completion, Turn, IocpState, infinite}
use battlezone_netcode_patch.Iocp.Pick.{iocp_pick_ready, iocp_release, count_release}
use battlezone_netcode_patch.Iocp.Wait.{Turned, early, answers, again, expires, asked}

-- A completion that is ready goes out before the real port is asked.
unfoldable pub ready_first :
    ℕ → ℕ → IocpState → Turn → Option (ℕ × DeliverKind) × ReorderCtx → Turned
ready_first entered budget s t (none, c) = asked entered budget (record s { rx = c }) t
ready_first entered budget s t (some (i, kind), c) =
    let (out, s') = iocp_release (record s { rx = c }) i t.top kind in
    early out (count_release kind s')

unfoldable pub turn : ℕ → ℕ → IocpState → Turn → Turned
turn entered budget s t = ready_first entered budget s t (iocp_pick_ready s t.top)

-- A call of the real port: the clock at it, and its timeout.
pub record Ask : Type 0 where
  pub clock : ℕ
  pub timeout : ℕ

-- What the hook answers, with the turns that were not reached and its calls of the real port. It is `unhooked` without the real function, and `starved` when the turns run out.
pub data Waited : Type 0 where
  unhooked starved : Waited
  returned : Completion → List Turn → List Ask → IocpState → Waited

unfoldable pub asking : Ask → Waited → Waited
asking w unhooked = unhooked
asking w starved = starved
asking w (returned c ts ws s) = returned c ts (w ∷ ws) s

-- One call of the real port, whose answer is the game's.
unfoldable pub pass_through : Ask → IocpState → List Turn → Waited
pass_through w s [] = starved
pass_through w s (t ∷ ts) = returned t.given ts (w ∷ []) s

abbrev pub iocp_disable : IocpState → IocpState
iocp_disable s = record s { disabled = true }

unfoldable pub after_turn : Ask → Turn → List Turn → Turned → (IocpState → Waited) → Waited
after_turn w t ts (early c s) rest = returned c (t ∷ ts) [] s
after_turn w t ts (answers c s) rest = returned c ts (w ∷ []) s
after_turn w t ts (again s) rest = asking w (rest s)
after_turn w t ts (expires s) rest =
    asking w (pass_through (record { clock = t.done; timeout = 0 }) (iocp_disable s) ts)

-- The timeout that is left for the real port.
unfoldable pub remaining : ℕ → ℕ → ℕ → ℕ
remaining entered budget now =
    let deadline = add64 entered budget in if leb deadline now then 0 else (deadline - now) % 2 ^ 32

unfoldable pub wait_loop : ℕ → ℕ → IocpState → List Turn → Waited
wait_loop entered budget s [] = starved
wait_loop entered budget s (t ∷ ts) =
    let rest = λ (s' : IocpState). wait_loop entered budget s' ts in
    let w : Ask = record { clock = t.top; timeout = remaining entered budget t.top } in
    after_turn w t ts (turn entered budget s t) rest

unfoldable pub wait_budget : ReorderCtx → ℕ → ℕ
wait_budget c timeout =
    if timeout == infinite
    then c.win_max_ms
    else if ltb timeout c.win_max_ms
    then timeout
    else c.win_max_ms

-- The hook is out of the way: not configured, an out-parameter missing, or the watchdog has tripped.
unfoldable pub steps_aside : IocpState → Bool → Bool
steps_aside s has_outs =
    not s.reorder || not s.cs_ready || not s.reorder_cs_ready || not has_outs || s.disabled

unfoldable pub note_scan : IocpState → IocpState
note_scan s = if s.scan && not s.gqcs_logged then record s { gqcs_logged = true } else s

-- `entered` is the clock on entry, and `has_outs` says that no out-parameter is null.
unfoldable pub hooked_get_queued_completion_status : IocpState → Bool → ℕ → ℕ → List Turn → Waited
hooked_get_queued_completion_status s has_outs timeout entered ts =
    let s' = note_scan s in
    if not s.has_real
    then unhooked
    else if steps_aside s' has_outs
    then pass_through (record { clock = entered; timeout = timeout }) s' ts
    else wait_loop entered (wait_budget s'.rx timeout) s' ts
