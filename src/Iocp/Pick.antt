-- ===== src/Iocp/Pick.antt =====
-- Which completion is released: `IocpPickReady` and `IocpPickOldest`, and `IocpRelease`.
use battlezone_netcode_patch.Prelude.{
  ℕ, Bool, true, false, ◌&&◌, Option, none, some, get_or, set, ltb, leb, if◌then◌else◌, sub64,
  inc64,
}
use battlezone_netcode_patch.Prelude.Scan.{fold_from}
use battlezone_netcode_patch.Reorder.{
  DeliverKind, first, in_order, forced, evicted, PeerBuf, ReorderCtx,
}
use battlezone_netcode_patch.Reorder.Peers.{
  peer_at, put_peer, reorder_get_peer, reorder_is_successor, reorder_hold_window,
}
use battlezone_netcode_patch.Reorder.Slots.{reorder_note_delivery}
use battlezone_netcode_patch.Iocp.{IocpHeld, IocpState, Completion}

abbrev pub no_held : IocpHeld
no_held = record {
  used = false;
  bytes = 0;
  key = 0;
  ov = 0;
  seq = 0;
  ts = 0;
  from = record { addr = 0; port = 0 };
}

abbrev pub peer_of : ReorderCtx → Option ℕ → Option PeerBuf
peer_of c none = none
peer_of c (some i) = some (peer_at c i)

-- The scan so far: the successor it returns with, the oldest that has waited out its window with its
-- arrival, and the peer table, which a look-up changes.
pub record ReadyScan : Type 0 where
  pub ready : Option ℕ
  pub oldest : Option (ℕ × ℕ)
  pub rx : ReorderCtx

abbrev pub is_older : ℕ → Option (ℕ × ℕ) → Bool
is_older ts none = true
is_older ts (some (j, t)) = ltb ts t

unfoldable pub judge_held : ℕ → ℕ → IocpHeld → ReadyScan → Option ℕ × ReorderCtx → ReadyScan
judge_held now i h a (p, c) =
    let pb = peer_of c p in
    let aged = leb (reorder_hold_window c pb) (sub64 now h.ts) && is_older h.ts a.oldest in
    if reorder_is_successor pb h.seq
    then record a { ready = some i; rx = c }
    else record a { oldest = if aged then some (i, h.ts) else a.oldest; rx = c }

-- A turn of the scan, which does nothing more once a successor is found.
abbrev pub unless_found : Option ℕ → ReadyScan → ReadyScan → ReadyScan
unless_found (some i) a b = a
unless_found none a b = b

unfoldable pub ready_round : ℕ → ℕ → IocpHeld → ReadyScan → ReadyScan
ready_round now i h a =
    unless_found a.ready a
      (if h.used then judge_held now i h a (reorder_get_peer a.rx h.from now) else a)

abbrev pub picked : Option ℕ → Option (ℕ × ℕ) → Option (ℕ × DeliverKind)
picked (some i) o = some (i, in_order)
picked none (some (i, t)) = some (i, forced)
picked none none = none

unfoldable pub ready_scan : IocpState → ℕ → ReadyScan
ready_scan s now =
    fold_from (ready_round now) 0 (record { ready = none; oldest = none; rx = s.rx }) s.held

unfoldable pub iocp_pick_ready : IocpState → ℕ → Option (ℕ × DeliverKind) × ReorderCtx
iocp_pick_ready s now = let a = ready_scan s now in (picked a.ready a.oldest, a.rx)

unfoldable pub oldest_round : ℕ → IocpHeld → Option (ℕ × ℕ) → Option (ℕ × ℕ)
oldest_round i h best = if h.used && is_older h.ts best then some (i, h.ts) else best

abbrev pub entry_of : Option (ℕ × ℕ) → Option ℕ
entry_of none = none
entry_of (some (i, t)) = some i

unfoldable pub iocp_pick_oldest : IocpState → Option ℕ
iocp_pick_oldest s = entry_of (fold_from oldest_round 0 none s.held)

abbrev pub held_at : IocpState → ℕ → IocpHeld
held_at s i = get_or s.held i no_held

abbrev pub handed_back : IocpHeld → Completion
handed_back h = record { rc = true; bytes = h.bytes; key = h.key; ov = h.ov }

-- The delivery is noted at the peer, if it has an entry.
unfoldable pub note_at : ℕ → ℕ → ℕ → DeliverKind → Option ℕ × ReorderCtx → ReorderCtx
note_at seq ts now kind (none, c) = c
note_at seq ts now kind (some i, c) =
    put_peer c i (reorder_note_delivery c c.stats (peer_at c i) seq ts now kind)

unfoldable pub iocp_release : IocpState → ℕ → ℕ → DeliverKind → Completion × IocpState
iocp_release s i now kind =
    let h = held_at s i in
    (
      handed_back h,
      record s {
        held = set s.held i (record h { used = false });
        rx = note_at h.seq h.ts now kind (reorder_get_peer s.rx h.from now);
      },
    )

-- `g_iocp_inorder` or `g_iocp_forced` counts the release.
unfoldable pub count_release : DeliverKind → IocpState → IocpState
count_release in_order s = record s { inorder = inc64 s.inorder }
count_release first s = record s { forced_out = inc64 s.forced_out }
count_release forced s = record s { forced_out = inc64 s.forced_out }
count_release evicted s = record s { forced_out = inc64 s.forced_out }
