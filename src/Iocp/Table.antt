-- ===== src/Iocp/Table.antt =====
-- The table of overlapped receives: `IocpTrackRecv` and `IocpFindRecv`.
use battlezone_netcode_patch.Prelude.{
  ℕ, ◌+◌, not, ◌||◌, Option, none, some, List, [], ◌∷◌, set, get_or, ◌==◌, if◌then◌else◌, inc64,
}
use battlezone_netcode_patch.Prelude.Scan.{find_index?}
use battlezone_netcode_patch.Iocp.{IocpRecv, IocpState}

-- All bytes zero: a free entry.
abbrev pub no_recv : IocpRecv
no_recv = record { ov = 0; s = 0; buf = 0; buflen = 0; from = 0; fromlen = 0 }

-- The first buffer that a receive is posted with.
pub record FirstBuf : Type 0 where
  pub buf : ℕ
  pub len : ℕ

-- The search for an entry: that of `ov`, or else the first free one, with `slot` the free one so far.
unfoldable pub track_slot : ℕ → ℕ → Option ℕ → List IocpRecv → Option ℕ
track_slot ov i slot [] = slot
track_slot ov i slot (r ∷ rs) =
    let free : Option ℕ = elim slot [
      | some j ↦ some j
      | none ↦ if r.ov == 0 then some i else none
    ] in
    if r.ov == ov then some i else track_slot ov (i + 1) free rs

unfoldable pub put_recv : IocpState → IocpRecv → Option ℕ → IocpState
put_recv st r none = st
put_recv st r (some i) = record st { recvs = set st.recvs i r }

-- `buffers` is the first of the caller's buffers, if there are any.
unfoldable pub iocp_track_recv : IocpState → ℕ → ℕ → Option FirstBuf → ℕ → ℕ → IocpState
iocp_track_recv st ov s none from fromlen = st
iocp_track_recv st ov s (some b) from fromlen =
    let r : IocpRecv = record {
      ov = ov;
      s = s;
      buf = b.buf;
      buflen = b.len;
      from = from;
      fromlen = fromlen;
    } in
    if not st.cs_ready || ov == 0
    then st
    else put_recv (record st { posted = inc64 st.posted }) r (track_slot ov 0 none st.recvs)

-- `none` is the null pointer.
unfoldable pub iocp_find_recv : IocpState → ℕ → Option ℕ
iocp_find_recv st ov = find_index? (λ (r : IocpRecv). r.ov == ov) st.recvs

abbrev pub recv_at : IocpState → ℕ → IocpRecv
recv_at st i = get_or st.recvs i no_recv

-- The entry is free again: its other fields stay.
unfoldable pub clear_recv : IocpState → Option ℕ → IocpState
clear_recv st none = st
clear_recv st (some i) = record st { recvs = set st.recvs i (record (recv_at st i) { ov = 0 }) }
