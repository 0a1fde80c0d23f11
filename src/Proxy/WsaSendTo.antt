-- ===== src/Proxy/WsaSendTo.antt =====
-- `hooked_WSASendTo` of dsound_proxy.cpp: the same stages on the datagram gathered from the buffers.
use battlezone_netcode_patch.Prelude.{
  ℕ, Bool, true, false, not, ◌&&◌, ◌||◌, Option, none, some, List, [], ◌∷◌, ◌++◌, take, ltb, leb,
  ◌==◌, if◌then◌else◌, add32,
}
use battlezone_netcode_patch.Prelude.Int.{ℤ, pos, negsuc, eqb_ℤ}
use battlezone_netcode_patch.Reorder.{reorder_max_pkt_bytes, reorder_seq_min_pay}
use battlezone_netcode_patch.Proxy.{Sockaddr, WsaBuf, WireCall, by_wsasendto}
use battlezone_netcode_patch.Proxy.Dup.{dup_enqueue}
use battlezone_netcode_patch.Proxy.Send.{TxState, is_peer, dampen_stage, rtt_stage, pace_take}
use battlezone_netcode_patch.Proxy.SendTo.{Ticks, wsanotinitialised, cut, map_some, bytes_of}

abbrev pub wsa_io_pending : ℕ
wsa_io_pending = 997

-- The arguments of WSASendTo. `overlapped` says that one of the two completion pointers is not null.
pub record WsaSendArgs : Type 0 where
  pub sock : ℕ
  pub buffers : Option (List WsaBuf)
  pub flags : ℕ
  pub to : Option Sockaddr
  pub tolen : ℤ
  pub overlapped : Bool

-- The real call's answer: its result and the error code after it.
pub record Answer : Type 0 where
  pub rc : ℤ
  pub wsa : ℕ

-- `bytes_sent` is what the hook itself stores there.
pub record WsaSent : Type 0 where
  pub rc : ℤ
  pub wsa : ℕ
  pub bytes_sent : Option ℕ
  pub out : List WireCall
  pub state : TxState

-- The gathered bytes, their number, and whether all buffers fitted.
pub record Flat : Type 0 where
  pub bytes : List ℕ
  pub total : ℕ
  pub fits : Bool

-- One buffer, with the rest of the loop: a null or empty one is skipped, and one that does not fit
-- ends the loop. The sum is 32 bits wide.
abbrev pub gather_one : List ℕ → ℕ → Option (List ℕ) → ℕ → (List ℕ → ℕ → Flat) → Flat
gather_one flat total none len rest = rest flat total
gather_one flat total (some bytes) len rest =
    if len == 0
    then rest flat total
    else if ltb reorder_max_pkt_bytes (add32 total len)
    then record { bytes = flat; total = total; fits = false }
    else rest (flat ++ take len bytes) (add32 total len)

-- The loop that copies the buffers into `flat`.
unfoldable pub gather : List ℕ → ℕ → List WsaBuf → Flat
gather flat total [] = record { bytes = flat; total = total; fits = true }
gather flat total (b ∷ bs) = gather_one flat total b.buf b.len (λ f n. gather f n bs)

abbrev pub real_wsa_send : WsaSendArgs → WireCall
real_wsa_send a = by_wsasendto (record {
  sock = a.sock;
  buffers = a.buffers;
  flags = a.flags;
  to = map_some (cut a.tolen) (bytes_of a.to);
  tolen = a.tolen;
  overlapped = a.overlapped;
})

abbrev pub buffers_of : Option (List WsaBuf) → List WsaBuf
buffers_of none = []
buffers_of (some bs) = bs

abbrev pub has_buffers : Option (List WsaBuf) → Bool
has_buffers none = false
has_buffers (some []) = false
has_buffers (some (b ∷ bs)) = true

-- The destination, if the call is one that the hook looks at.
unfoldable pub wsa_looked_at : WsaSendArgs → Option Sockaddr
wsa_looked_at a = if not a.overlapped && a.flags == 0 && has_buffers a.buffers then a.to else none

unfoldable pub has_failed : Answer → Bool
has_failed r = not (eqb_ℤ r.rc (pos 0) || (eqb_ℤ r.rc (negsuc 0) && r.wsa == wsa_io_pending))

-- The duplicate: a synchronous call with the gathered bytes.
abbrev pub wsa_again : WsaSendArgs → Flat → Sockaddr → WireCall
wsa_again a f to = by_wsasendto (record {
  sock = a.sock;
  buffers = some (record { buf = some f.bytes; len = f.total } ∷ []);
  flags = 0;
  to = some (cut a.tolen to.bytes);
  tolen = a.tolen;
  overlapped = false;
})

-- The duplicate of a call that went to the real WSASendTo.
unfoldable pub wsa_dup_stage : TxState → WsaSendArgs → Answer → ℕ → List WireCall × TxState
wsa_dup_stage s a r now = elim a.to [
  | none ↦ ([], s)
  | some to ↦
      let f = gather [] 0 (buffers_of a.buffers) in
      let queue = record s {
        dup = dup_enqueue s.dup a.sock (some f.bytes) f.total (some to) a.tolen now;
      } in
      if s.send_dup
        && is_peer to
        && has_buffers a.buffers
        && not (has_failed r)
        && f.fits
        && leb reorder_seq_min_pay f.total
      then (if s.dup.delay_ms == 0 then (wsa_again a f to ∷ [], s) else ([], queue))
      else ([], s)
]

unfoldable pub wsa_send_real : TxState → WsaSendArgs → Answer → ℕ → List WireCall → WsaSent
wsa_send_real s a r now before =
    let (copies, s') = wsa_dup_stage s a r now in
    record {
      rc = r.rc;
      wsa = r.wsa;
      bytes_sent = none;
      out = before ++ real_wsa_send a ∷ copies;
      state = s';
    }

-- The call went no further: success, with `total` bytes.
abbrev pub swallowed : TxState → ℕ → List WireCall → WsaSent
swallowed s total out = record {
  rc = pos 0;
  wsa = 0;
  bytes_sent = some total;
  out = out;
  state = s;
}

unfoldable pub wsa_undampened : TxState → WsaSendArgs → Flat → Sockaddr → Ticks → Answer → WsaSent
wsa_undampened s a f to t r =
    let s' = rtt_stage s f.bytes f.total to t.rtt_ms in
    let (taken, out, s'') = pace_take s' a.sock f.bytes f.total to.bytes a.tolen t.pace_ms in
    if taken then swallowed s'' f.total out else wsa_send_real s'' a r t.dup_ms out

unfoldable pub wsa_send_looked_at :
    TxState → WsaSendArgs → Flat → Sockaddr → Ticks → Answer → WsaSent
wsa_send_looked_at s a f to t r =
    let (dampened, s') = dampen_stage s a.sock f.bytes f.total to t.dampen_ms in
    if dampened then swallowed s' f.total [] else wsa_undampened s' a f to t r

unfoldable pub hooked_wsa_send_to : Bool → TxState → WsaSendArgs → Ticks → Answer → WsaSent
hooked_wsa_send_to has_wsasendto s a t r =
    let f = gather [] 0 (buffers_of a.buffers) in
    if not has_wsasendto
    then record { rc = negsuc 0; wsa = wsanotinitialised; bytes_sent = none; out = []; state = s }
    else elim (wsa_looked_at a) [
      | none ↦ wsa_send_real s a r t.dup_ms []
      | some to ↦
          if f.fits && ltb 0 f.total
          then wsa_send_looked_at s a f to t r
          else wsa_send_real s a r t.dup_ms []
    ]
