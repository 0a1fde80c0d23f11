-- ===== src/Iocp.antt =====
-- Microslop/winmm_proxy/src/netcode_hooks.cpp: the reordering of overlapped receives, whose
-- completions the game takes from a completion port. Held back are completions, never their buffers.
pub mod Table
pub mod Pick
pub mod Wait
pub mod Port
pub mod Held
pub mod Turns
pub mod Conserve
pub mod Bounds
pub mod Busy
pub mod Tracked
mod Tests
use battlezone_netcode_patch.Prelude.{ℕ, Bool, List}
use battlezone_netcode_patch.Reorder.{SockAddr, ReorderCtx}

abbrev pub iocp_recv_track : ℕ
iocp_recv_track = 128

abbrev pub iocp_hold_cap : ℕ
iocp_hold_cap = 4

abbrev pub iocp_watchdog_x : ℕ
iocp_watchdog_x = 5

-- The timeout of a wait without an end.
abbrev pub infinite : ℕ
infinite = 0xffff_ffff

-- An overlapped receive of the game. Pointers are addresses, and the null pointer is 0.
pub record IocpRecv : Type 0 where
  pub ov : ℕ
  pub s : ℕ
  pub buf : ℕ
  pub buflen : ℕ
  pub from : ℕ
  pub fromlen : ℕ

-- A completion that is held back.
pub record IocpHeld : Type 0 where
  pub used : Bool
  pub bytes : ℕ
  pub key : ℕ
  pub ov : ℕ
  pub seq : ℕ
  pub ts : ℕ
  pub from : SockAddr

-- What the game is answered: the result and the three out-parameters.
pub record Completion : Type 0 where
  pub rc : Bool
  pub bytes : ℕ
  pub key : ℕ
  pub ov : ℕ

-- The game's memory, as far as the hook reads it: a packet's bytes, and the family and the address
-- in a `sockaddr`.
pub record Memory : Type 0 where
  pub payload : ℕ → List ℕ
  pub family : ℕ → ℕ
  pub source : ℕ → SockAddr

-- One turn of the wait: the clock at its top, what the real call then answers, the memory and the
-- clock after it, and the clock at the turn's end.
pub record Turn : Type 0 where
  pub top : ℕ
  pub given : Completion
  pub mem : Memory
  pub now : ℕ
  pub done : ℕ

-- The globals.
pub record IocpState : Type 0 where
  pub has_real : Bool
  pub scan : Bool
  pub gqcs_logged : Bool
  pub reorder : Bool
  pub cs_ready : Bool
  pub reorder_cs_ready : Bool
  pub disabled : Bool
  pub rx : ReorderCtx
  pub recvs : List IocpRecv
  pub held : List IocpHeld
  pub posted : ℕ
  pub completed : ℕ
  pub deferred : ℕ
  pub inorder : ℕ
  pub forced_out : ℕ
