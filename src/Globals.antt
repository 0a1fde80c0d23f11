-- ===== src/Globals.antt =====
-- shared/net_globals.h: the network settings that the patch asserts in the game's memory. The memory
-- is a function from addresses to words, and a name is the list of its bytes.
pub mod Gate
pub mod Configure
pub mod Ranges
pub mod Tests
use battlezone_netcode_patch.Prelude.{
  ℕ, ◌+◌, Bool, true, false, ◌||◌, List, [], ◌∷◌, ltb, ◌==◌, ◌!=◌, if◌then◌else◌,
}

pub data NetGlobalState : Type 0 where
  pending applied vetoed : NetGlobalState

pub record NetGlobal : Type 0 where
  pub va : ℕ
  pub ini_key : List ℕ
  pub env : List ℕ
  pub stock : ℕ
  pub lo : ℕ
  pub hi : ℕ
  pub want : ℕ
  pub seen : ℕ
  pub state : NetGlobalState
  pub changed : ℕ

unfoldable pub net_globals_any : List NetGlobal → Bool
net_globals_any [] = false
net_globals_any (g ∷ gs) = let rest = net_globals_any gs in if g.want != 0 then true else rest

-- *va = v.
abbrev pub poke : (ℕ → ℕ) → ℕ → ℕ → ℕ → ℕ
poke mem va v a = if a == va then v else mem a

-- The write at the end of a round, unless the game already holds the value.
unfoldable pub write : (ℕ → ℕ) → NetGlobal → ℕ → ℕ
write mem g = if mem g.va != g.want then poke mem g.va g.want else mem

-- A round of the loop for an entry with a target: what it adds to the result, and the memory and
-- the entry after it.
unfoldable pub apply_state : (ℕ → ℕ) → NetGlobal → NetGlobalState → ℕ × (ℕ → ℕ) × NetGlobal
apply_state mem g vetoed = (0, mem, g)
apply_state mem g applied = (0, write mem g, g)
apply_state mem g pending =
    let live = mem g.va in
    let examined : NetGlobal = record g { seen = live; changed = 1 } in
    if ltb live g.lo || ltb g.hi live
    then (1, mem, record examined { state = vetoed })
    else (1, write mem g, record examined { state = applied })

unfoldable pub apply_one : (ℕ → ℕ) → NetGlobal → ℕ × (ℕ → ℕ) × NetGlobal
apply_one mem g = if g.want == 0 then (0, mem, g) else apply_state mem g g.state

unfoldable pub net_globals_apply : (ℕ → ℕ) → List NetGlobal → ℕ × (ℕ → ℕ) × List NetGlobal
net_globals_apply mem [] = (0, mem, [])
net_globals_apply mem (g ∷ gs) =
    let (k, mem', g') = apply_one mem g in
    let (n, mem'', gs') = net_globals_apply mem' gs in (k + n, mem'', g' ∷ gs')
