-- ===== src/Gov/Thread.antt =====
-- The governor thread of dsound_proxy.cpp, `governor_patch_thread`: a round reads the game's send rate,
-- writes it where the detector says so, and hands the measured round trips to the dampener.
use battlezone_netcode_patch.Prelude.{
  ℕ, ◌≡◌, refl, inl, inr, Bool, true, false, ◌&&◌, Option, none, some, List, [], ◌∷◌, take, ◌==◌,
  ◌!=◌, if◌then◌else◌, arith, Bool-cases,
}
use battlezone_netcode_patch.Rtt.{RttPeer, RttCtx, rtt_peers}
use battlezone_netcode_patch.Rtt.Peer.{rtt_trace_due, rtt_window_reset}
use battlezone_netcode_patch.Dampen.{DampenCtx}
use battlezone_netcode_patch.Dampen.Peer.{dampen_set_rtt}
use battlezone_netcode_patch.Gov.{
  GovEvent, bumped, clamped, held, trace, floor_rescue, GovTraceCfg, GovTraceState, gov_trace_step,
  gov_trace_window, classify, verify, settle, periodic, arrive, descent_arrival, sample,
}

-- What the thread keeps and shares.
pub record GovThread : Type 0 where
  pub gts : GovTraceState
  pub rtt : RttCtx
  pub rtt_ready : Bool
  pub dampen : DampenCtx
  pub pace_ready : Bool

-- What is written to the game's word, if anything is, after the event.
abbrev pub act : ℕ → GovEvent × GovTraceState → Option ℕ × GovTraceState
act start (bumped, s) = (some start, s)
act start (floor_rescue, s) = (some start, s)
act start (clamped, s) = (none, s)
act start (held, s) = (none, s)
act start (trace, s) = let (lo, hi, n, s') = gov_trace_window s in (none, s')
act start (GovEvent.none, s) = (none, s)

unfoldable pub poll_word : GovTraceCfg → ℕ → GovTraceState → ℕ → ℕ → Option ℕ × GovTraceState
poll_word c start s live now = act start (gov_trace_step c s live now)

-- The peers with an estimate, in the order of the table.
unfoldable pub estimates : List RttPeer → List (ℕ × ℕ)
estimates [] = []
estimates (p ∷ ps) =
    let rest = estimates ps in
    if p.addr != 0 && p.srtt_init then (p.addr, p.srtt_ms) ∷ rest else rest

unfoldable pub set_rtts : DampenCtx → List (ℕ × ℕ) → DampenCtx
set_rtts d [] = d
set_rtts d ((addr, srtt) ∷ es) = set_rtts (dampen_set_rtt d addr srtt) es

unfoldable pub reset_due : Bool × RttCtx → RttCtx
reset_due (true, r) = rtt_window_reset r
reset_due (false, r) = r

unfoldable pub fed : GovThread → RttCtx → GovThread
fed g r = record g {
  rtt = r;
  dampen =
      if g.dampen.enabled && g.pace_ready
      then set_rtts g.dampen (estimates (take rtt_peers r.peers))
      else g.dampen;
}

unfoldable pub feed_dampen : GovThread → ℕ → GovThread
feed_dampen g now =
    if g.rtt.enabled && g.rtt_ready then fed g (reset_due (rtt_trace_due g.rtt now)) else g

-- One round: the word it finds, the clock at the poll and at the round trips' line.
unfoldable pub gov_round : GovTraceCfg → ℕ → GovThread → ℕ → ℕ → ℕ → Option ℕ × GovThread
gov_round c start g live now rtt_now =
    let (w, s) = poll_word c start g.gts live now in (w, feed_dampen (record g { gts = s }) rtt_now)

abbrev pub OnlyAt : GovTraceCfg → ℕ → ℕ → Option ℕ → Type 0
OnlyAt c start live none = Unit
OnlyAt c start live (some v) = (live ≡ c.cold_start) × (v ≡ start)

-- An event without a write.
abbrev quiet : GovEvent → Bool
quiet bumped = false
quiet floor_rescue = false
quiet _ = true

quiet-act :
    (c : GovTraceCfg) (start live : ℕ) (r : GovEvent × GovTraceState)
    → quiet r.0 ≡ true
    → OnlyAt c start live (act start r).0
quiet-act c start live (bumped, s) e = absurd (ground (arith, e))
quiet-act c start live (floor_rescue, s) e = absurd (ground (arith, e))
quiet-act c start live (clamped, s) e = tt
quiet-act c start live (held, s) e = tt
quiet-act c start live (trace, s) e = tt
quiet-act c start live (GovEvent.none, s) e = tt

sentinel-act :
    (c : GovTraceCfg) (start live : ℕ) (r : GovEvent × GovTraceState)
    → live ≡ c.cold_start
    → OnlyAt c start live (act start r).0
sentinel-act c start live (bumped, s) e = (e, refl)
sentinel-act c start live (floor_rescue, s) e = (e, refl)
sentinel-act c start live (clamped, s) e = tt
sentinel-act c start live (held, s) e = tt
sentinel-act c start live (trace, s) e = tt
sentinel-act c start live (GovEvent.none, s) e = tt

verify-quiet :
    (c : GovTraceCfg) (s : GovTraceState) (live now : ℕ) → quiet (verify c s live now).0 ≡ true
unfolding verify settle periodic
verify-quiet c s live now = ground arith

-- Away from the sentinel no arrival is a descent, and the event is not one that writes.
other-quiet :
    (c : GovTraceCfg) (s t : GovTraceState) (live now : ℕ)
    → (live == c.cold_start) ≡ false
    → quiet (classify c t (descent_arrival c s t live) live now).0 ≡ true
unfolding classify descent_arrival
other-quiet c s t live now e = simp e (verify-quiet c (sample t live) live now)

step-OnlyAt :
    (c : GovTraceCfg) (s : GovTraceState) (start live now : ℕ)
    → OnlyAt c start live (act start (gov_trace_step c s live now)).0
unfolding gov_trace_step
step-OnlyAt c s start live now = elim (Bool-cases (live == c.cold_start)) [
  | inl e ↦ sentinel-act c start live _ (ground (arith, e))
  | inr e ↦ quiet-act c start live _ (other-quiet c s (arrive s live now) live now e)
]

-- The send rate is left to the game but for its cold-start sentinel. Whatever the detector has seen, a
-- round of the governor thread writes the word at the rate's address only where it has just read the
-- sentinel there, and then it writes the configured start value.
pub round-OnlyAt :
    (c : GovTraceCfg) (start : ℕ) (g : GovThread) (live now rtt_now : ℕ)
    → OnlyAt c start live (gov_round c start g live now rtt_now).0
unfolding gov_round poll_word
round-OnlyAt c start g live now rtt_now = step-OnlyAt c g.gts start live now
