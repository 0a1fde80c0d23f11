-- ===== src/Gov/Descent.antt =====
-- The sentinel reached from above: what the poll that arrives there returns, walks down in small and
-- quick steps, and the pause between two rescues.
use battlezone_netcode_patch.Prelude.{
  ℕ, ◌+◌, ◌-◌, ◌^◌, ◌≤◌, ◌<◌, ◌≡◌, ◌≢◌, ◌∙◌, ◌⊎◌, inl, refl, Bool, true, ◌&&◌, List, [], ◌∷◌, arith,
  ltb, leb, ◌==◌, if◌then◌else◌, sub64, length, All,
}
use battlezone_netcode_patch.Gov.{
  GovEvent, bumped, floor_rescue, GovTraceCfg, GovTraceState, gov_trace_step, arrive,
  descent_arrival, sample, classify, verify, settle, periodic,
}
use battlezone_netcode_patch.Gov.Run.{Call, poll, call, run}
use battlezone_netcode_patch.Gov.Verdicts.{total, bump_count}

-- On a poll that finds the sentinel where another value stood before, with no poke awaiting its
-- verdict and both rate limits passed: the event is `floor_rescue` if that value was above the
-- sentinel by no more than the band and had been held for no longer than `descent_ms`, and
-- `bumped` otherwise.
pub sentinel_arrival :
    (c : GovTraceCfg) (s : GovTraceState) (now : ℕ)
    → s.polls ≢ 0
    → s.last_seen ≢ c.cold_start
    → s.armed ≡ 0
    → (s.bumps ≡ 0) ⊎ (c.verify_ms ≤ sub64 now s.bumped_at)
    → (s.floor_rescues ≡ 0) ⊎ (c.descent_ms ≤ sub64 now s.last_rescue_ms)
    → (gov_trace_step c s c.cold_start now).0 ≡ (
        if ltb c.cold_start s.last_seen
          && leb (s.last_seen - c.cold_start) c.descent_band
          && leb (sub64 now s.last_change_ms) c.descent_ms
        then floor_rescue
        else bumped)
unfolding gov_trace_step classify arrive descent_arrival
sentinel_arrival c s now hp hl ha hb hr = ground arith

-- The fields that record the arrival are left alone by all that follows it.
abbrev SameArrival : GovTraceState → GovTraceState → Type 0
SameArrival s t =
    (t.polls ≡ s.polls)
    × (t.prev_distinct ≡ s.prev_distinct)
    × (t.last_change_ms ≡ s.last_change_ms)
    × (t.prev_hold_ms ≡ s.prev_hold_ms)
    × (t.last_seen ≡ s.last_seen)
    × (t.peak ≡ s.peak)

module _ (c : GovTraceCfg) (s : GovTraceState) (live now : ℕ) where
  verify-SameArrival : SameArrival s (verify c s live now).1
  unfolding verify settle periodic
  verify-SameArrival = ground arith

  verify-ne-bumped : bump_count (verify c s live now).0 ≡ 0
  unfolding verify settle periodic
  verify-ne-bumped = ground arith

pub classify-SameArrival :
    (c : GovTraceCfg) (s : GovTraceState) (d : Bool) (live now : ℕ)
    → SameArrival s (classify c s d live now).1
unfolding classify sample
classify-SameArrival c s d live now = ground (arith, verify-SameArrival c (sample s live) live now)

classify_not_bumped :
    (c : GovTraceCfg) (s : GovTraceState) (d : Bool) (live now : ℕ)
    → (d ≡ true) ⊎ (live ≢ c.cold_start)
    → bump_count (classify c s d live now).0 ≡ 0
unfolding classify
classify_not_bumped c s d live now h = ground (arith, verify-ne-bumped c (sample s live) live now)

-- A walk down from the value `v`, reached at time `t`: no value is below the sentinel, no step
-- is larger than the band, and each step is taken no later than `descent_ms` after the value that it
-- leaves was reached.
abbrev pub Walk : GovTraceCfg → ℕ → ℕ → List (ℕ × ℕ) → Type 0
Walk c v t [] = Unit {0}
Walk c v t ((live, now) ∷ r) =
    (c.cold_start ≤ live)
    × (live ≤ v)
    × (v - live ≤ c.descent_band)
    × (live ≡ v ⊎ (sub64 now t ≤ c.descent_ms))
    × Walk c live (if live == v then t else now) r

abbrev pub polls_of : List (ℕ × ℕ) → List Call
polls_of [] = []
polls_of ((live, now) ∷ r) = poll live now ∷ polls_of r

-- Where the walk has come to the sentinel, the state remembers a descent.
record Walking (c : GovTraceCfg) (s : GovTraceState) : Type 0 where
  polled : s.polls ≢ 0
  above : c.cold_start ≤ s.last_seen
  floor :
      (c.cold_start < s.last_seen)
      ⊎ ((c.cold_start < s.prev_distinct)
          × (s.prev_distinct - c.cold_start ≤ c.descent_band)
          × (s.prev_hold_ms ≤ c.descent_ms))

module _ (c : GovTraceCfg) (s : GovTraceState) (live now : ℕ) (w : Walking c s)
    (room : s.polls + 1 < 2 ^ 64) (lo : c.cold_start ≤ live) (down : live ≤ s.last_seen)
    (near : s.last_seen - live ≤ c.descent_band)
    (quick : (live ≡ s.last_seen) ⊎ (sub64 now s.last_change_ms ≤ c.descent_ms)) where
  arrive-Walking : Walking c (arrive s live now)
  unfolding arrive
  arrive-Walking = ground arith

  arrive_descent : (descent_arrival c s (arrive s live now) live ≡ true) ⊎ (live ≢ c.cold_start)
  unfolding arrive descent_arrival
  arrive_descent = ground arith

  arrive_fields :
      let t = arrive s live now in
      (t.polls ≡ s.polls + 1)
      × (t.last_seen ≡ live)
      × (t.last_change_ms ≡ (if live == s.last_seen then s.last_change_ms else now))
  unfolding arrive
  arrive_fields = ground arith

  walk_step :
      let (e, t) = gov_trace_step c s live now in
      (bump_count e ≡ 0)
      × Walking c t
      × (t.polls ≡ s.polls + 1)
      × (t.last_seen ≡ live)
      × (t.last_change_ms ≡ (if live == s.last_seen then s.last_change_ms else now))
  unfolding gov_trace_step
  walk_step =
      let t = arrive s live now in
      let d = descent_arrival c s t live in
      let same = classify-SameArrival c t d live now in
      let f = arrive_fields in
      let kept = arrive-Walking in
      (
        classify_not_bumped c t d live now arrive_descent,
        record {
          polled = rw same.0 kept.polled;
          above = rw same.4 kept.above;
          floor = rw (same.4, same.1, same.3) kept.floor;
        },
        same.0 ∙ f.0,
        same.4 ∙ f.1,
        same.2 ∙ f.2,
      )

Walk-no_bumps :
    (c : GovTraceCfg) (s : GovTraceState) (obs : List (ℕ × ℕ))
    → Walking c s
    → s.polls + length obs < 2 ^ 64
    → Walk c s.last_seen s.last_change_ms obs
    → total bump_count (run c s (polls_of obs)).0 ≡ 0
unfolding run call
Walk-no_bumps c s [] w room h = refl
Walk-no_bumps c s ((live, now) ∷ r) w room h =
    let st = walk_step c s live now w (omega arith) h.0 h.1 h.2 h.3 in
    let rest : Walk c (gov_trace_step c s live now).1.last_seen
        (gov_trace_step c s live now).1.last_change_ms r =
      rw (st.3, st.4) h.4 in
    let later =
      Walk-no_bumps c (gov_trace_step c s live now).1 r st.1 (omega (arith, st.2, room)) rest in
    omega (arith, st.0, later)

-- A collapse in small and quick steps is not counted as a match start. From a state whose last polled
-- value is above the sentinel, let the polled values never rise and never go below the sentinel, let
-- each be at most `descent_band` below the one before, and let each step down come at most `descent_ms`
-- after the value that it leaves was first polled. Then no poll returns `bumped`, however long the
-- last value stays (while the 64-bit count of polls does not overflow).
pub collapse_never_bumps :
    (c : GovTraceCfg) (s : GovTraceState) (obs : List (ℕ × ℕ))
    → s.polls ≢ 0
    → c.cold_start < s.last_seen
    → s.polls + length obs < 2 ^ 64
    → Walk c s.last_seen s.last_change_ms obs
    → total bump_count (run c s (polls_of obs)).0 ≡ 0
collapse_never_bumps c s obs hp hl room h =
    Walk-no_bumps c s obs (record { polled = hp; above = omega arith; floor = inl hl }) room h

abbrev pub rescue_count : GovEvent → ℕ
rescue_count floor_rescue = 1
rescue_count _ = 0

verify_rescue :
    (c : GovTraceCfg) (s : GovTraceState) (live now : ℕ)
    → let (e, t) = verify c s live now in
      (rescue_count e ≡ 0)
      × (t.floor_rescues ≡ s.floor_rescues)
      × (t.last_rescue_ms ≡ s.last_rescue_ms)
unfolding verify settle periodic
verify_rescue c s live now = ground arith

-- Within `descent_ms` of the last rescue there is no other, and a poll that is no rescue leaves
-- the clock of the last one alone.
step_cooldown :
    (c : GovTraceCfg) (s : GovTraceState) (live now : ℕ)
    → s.floor_rescues ≢ 0
    → sub64 now s.last_rescue_ms < c.descent_ms
    → let (e, t) = gov_trace_step c s live now in
      (rescue_count e ≡ 0)
      × (t.floor_rescues ≡ s.floor_rescues)
      × (t.last_rescue_ms ≡ s.last_rescue_ms)
unfolding gov_trace_step classify arrive sample
step_cooldown c s live now h k =
    ground (arith, verify_rescue c (sample (arrive s live now) live) live now)

cooldown_run :
    (c : GovTraceCfg) (s : GovTraceState) (at : ℕ) (obs : List (ℕ × ℕ))
    → s.floor_rescues ≢ 0
    → s.last_rescue_ms ≡ at
    → All (λ o. sub64 o.1 at < c.descent_ms) obs
    → total rescue_count (run c s (polls_of obs)).0 ≡ 0
unfolding run call
cooldown_run c s at [] h e all = refl
cooldown_run c s at ((live, now) ∷ r) h e all =
    let st = step_cooldown c s live now h (rw e all.0) in
    let later = cooldown_run c (gov_trace_step c s live now).1 at r (rw st.1 h) (st.2 ∙ e) all.1 in
    omega (arith, st.0, later)

step_rescues :
    (c : GovTraceCfg) (s : GovTraceState) (live now : ℕ)
    → s.floor_rescues + 1 < 2 ^ 64
    → (gov_trace_step c s live now).0 ≡ floor_rescue
    → let t = (gov_trace_step c s live now).1 in (t.floor_rescues ≢ 0) × (t.last_rescue_ms ≡ now)
unfolding gov_trace_step classify arrive sample
step_rescues c s live now h e =
    ground (arith, verify_rescue c (sample (arrive s live now) live) live now)

-- After a poll at time `at` that returned `floor_rescue`, no poll within `descent_ms` of that time
-- returns it again, whatever is read in between (while the count of rescues does not overflow).
pub rescue_cooldown :
    (c : GovTraceCfg) (s : GovTraceState) (live at : ℕ) (obs : List (ℕ × ℕ))
    → s.floor_rescues + 1 < 2 ^ 64
    → (gov_trace_step c s live at).0 ≡ floor_rescue
    → All (λ o. sub64 o.1 at < c.descent_ms) obs
    → total rescue_count (run c (gov_trace_step c s live at).1 (polls_of obs)).0 ≡ 0
rescue_cooldown c s live at obs h e all =
    let t = step_rescues c s live at h e in cooldown_run c _ at obs t.0 t.1 all
