-- ===== src/Proxy/EventLog.antt =====
-- The numbers of sockets and the ring of recorded events of dsound_proxy.cpp. The files that a flush
-- writes are the list of the records in the order of the writes.
use battlezone_netcode_patch.Prelude.{
  ℕ, ◌+◌, ◌-◌, ◌%◌, Bool, true, not, ◌&&◌, Option, none, some, List, [], ◌++◌, get_or, set, take,
  replicate, ltb, ◌==◌, if◌then◌else◌, add32, inc64,
}
use battlezone_netcode_patch.Prelude.Int.{ℤ, pos, negsuc, ltb_ℤ, pos_part}
use battlezone_netcode_patch.Prelude.Scan.{find_index?}
use battlezone_netcode_patch.Prelude.Ring.{window}
use battlezone_netcode_patch.Filter.{PeerFilter, peer_filter_accepts}
use battlezone_netcode_patch.Proxy.{Sockaddr, af_inet, invalid_socket}

abbrev pub default_payload_bytes : ℕ
default_payload_bytes = 32

abbrev pub default_ring_records : ℕ
default_ring_records = 65536

abbrev pub min_payload_bytes : ℕ
min_payload_bytes = 8

abbrev pub max_payload_bytes : ℕ
max_payload_bytes = 256

abbrev pub min_ring_records : ℕ
min_ring_records = 1024

abbrev pub max_ring_records : ℕ
max_ring_records = 1000000

unfoldable pub clamp_u32 : ℕ → ℕ → ℕ → ℕ
clamp_u32 v lo hi = if ltb v lo then lo else if ltb hi v then hi else v

pub record SocketTrack : Type 0 where
  pub s : ℕ
  pub id : ℤ

pub record Tracks : Type 0 where
  pub lock_ready : Bool
  pub tracks : List SocketTrack
  pub next_socket_id : ℕ

unfoldable pub find_track : List SocketTrack → ℕ → Option ℕ
find_track ts s = find_index? (λ (t : SocketTrack). t.s == s) ts

abbrev pub no_track : SocketTrack
no_track = record { s = invalid_socket; id = pos 0 }

-- The free entry, if there is one, gets the next number.
abbrev pub take_entry : Tracks → ℕ → Option ℕ → ℤ × Tracks
take_entry t s none = (negsuc 0, t)
take_entry t s (some i) = (
  pos t.next_socket_id,
  record t {
    tracks = set t.tracks i (record { s = s; id = pos t.next_socket_id });
    next_socket_id = t.next_socket_id + 1;
  },
)

unfoldable pub number_socket : Tracks → ℕ → ℤ × Tracks
number_socket t s = take_entry t s (find_track t.tracks invalid_socket)

unfoldable pub get_socket_id : Tracks → ℕ → Bool → ℤ × Tracks
get_socket_id t s create_if_missing =
    if not t.lock_ready then (negsuc 0, t) else elim (find_track t.tracks s) [
      | some i ↦ ((get_or t.tracks i no_track).id, t)
      | none ↦ if create_if_missing then number_socket t s else (negsuc 0, t)
    ]

unfoldable pub forget_socket_id : Tracks → ℕ → Tracks
forget_socket_id t s = if not t.lock_ready then t else elim (find_track t.tracks s) [
  | some i ↦ record t { tracks = set t.tracks i no_track }
  | none ↦ t
]

-- A record: its header without the constants, and the bytes of its slot for the payload.
pub record BufferLogRecord : Type 0 where
  pub event_type : ℕ
  pub sid : ℕ
  pub tick_ms : ℕ
  pub sequence : ℕ
  pub requested_len : ℕ
  pub transferred_len : ℕ
  pub wsa_error : ℕ
  pub src_ipv4 : ℕ
  pub src_port : ℕ
  pub flags : ℕ
  pub payload_len : ℕ
  pub payload : List ℕ

-- The globals `g_buffer_*`; `allocated` says that the ring is not null.
pub record EventLog : Type 0 where
  pub enabled : Bool
  pub lock_ready : Bool
  pub payload_bytes : ℕ
  pub ring_records : ℕ
  pub peer_filter : PeerFilter
  pub allocated : Bool
  pub ring : List BufferLogRecord
  pub head : ℕ
  pub count : ℕ
  pub sequence : ℕ
  pub total_events : ℕ

-- An event as its hook reports it; `src_port` is in host order.
pub record LogEvent : Type 0 where
  pub event_type : ℕ
  pub sock : ℕ
  pub src : Option Sockaddr
  pub src_port : ℕ
  pub flags : ℕ
  pub requested_len : ℕ
  pub transferred_len : ℕ
  pub wsa_error : ℕ
  pub payload : Option (List ℕ)
  pub payload_len : ℕ

abbrev pub zero_record : BufferLogRecord
zero_record = record {
  event_type = 0;
  sid = 0;
  tick_ms = 0;
  sequence = 0;
  requested_len = 0;
  transferred_len = 0;
  wsa_error = 0;
  src_ipv4 = 0;
  src_port = 0;
  flags = 0;
  payload_len = 0;
  payload = [];
}

-- The ring that `init_buffer_log_if_needed` sets up from what the environment asks for.
unfoldable pub init_buffer_log : Bool → PeerFilter → ℕ → ℕ → EventLog
init_buffer_log lock_ready filter want_bytes want_ring =
    let records = clamp_u32 want_ring min_ring_records max_ring_records in
    let bytes = clamp_u32 want_bytes min_payload_bytes max_payload_bytes in
    record {
      enabled = true;
      lock_ready = lock_ready;
      payload_bytes = bytes;
      ring_records = records;
      peer_filter = filter;
      allocated = true;
      ring = replicate records (record zero_record { payload = replicate bytes 0 });
      head = 0;
      count = 0;
      sequence = 0;
      total_events = 0;
    }

-- The IPv4 source, or zeros.
abbrev pub ipv4_of : Option Sockaddr → ℕ → ℕ × ℕ
ipv4_of none port = (0, 0)
ipv4_of (some a) port = if a.family == af_inet then (a.in_addr, port) else (0, 0)

-- The payload in a slot that held `old`: the copy, which a null pointer skips, and zeros behind it.
abbrev pub padded : List ℕ → Option (List ℕ) → ℕ → ℕ → List ℕ
padded old none n width = take n old ++ replicate (width - n) 0
padded old (some bytes) n width = take n bytes ++ replicate (width - n) 0

-- The record of an event, for the ring as it is.
unfoldable pub record_of : EventLog → LogEvent → ℕ → ℕ → BufferLogRecord
record_of l e sid now =
    let n = if ltb l.payload_bytes e.payload_len then l.payload_bytes else e.payload_len in
    let (addr, port) = ipv4_of e.src e.src_port in
    let old : BufferLogRecord = get_or l.ring l.head zero_record in
    record {
      event_type = e.event_type;
      sid = sid;
      tick_ms = now;
      sequence = l.sequence;
      requested_len = e.requested_len;
      transferred_len = e.transferred_len;
      wsa_error = e.wsa_error;
      src_ipv4 = addr;
      src_port = port;
      flags = e.flags;
      payload_len = n;
      payload = padded old.payload e.payload n l.payload_bytes;
    }

-- The record goes into the ring.
unfoldable pub put_record : EventLog → BufferLogRecord → EventLog
put_record l r = record l {
  ring = set l.ring l.head r;
  head = (l.head + 1) % l.ring_records;
  count = if ltb l.count l.ring_records then l.count + 1 else l.count;
  sequence = add32 l.sequence 1;
  total_events = inc64 l.total_events;
}

-- Is the event one that is recorded?
unfoldable pub is_recorded : EventLog → LogEvent → Bool
is_recorded l e =
    l.enabled
    && l.lock_ready
    && l.allocated
    && peer_filter_accepts l.peer_filter (ipv4_of e.src e.src_port).0

unfoldable pub buffer_log_event : EventLog × Tracks → LogEvent → ℕ → EventLog × Tracks
buffer_log_event (l, t) e now =
    let (id, t') = get_socket_id t e.sock true in
    if is_recorded l e
    then (put_record l (record_of l e (if ltb_ℤ id (pos 0) then 0 else pos_part id) now), t')
    else (l, t)

-- Where the oldest record stands.
abbrev pub start_of : EventLog → ℕ
start_of l = (l.head + l.ring_records - l.count) % l.ring_records

-- The records that `flush_buffer_log_files` writes, in order.
unfoldable pub flush_records : EventLog → List BufferLogRecord
flush_records l =
    if l.enabled && l.allocated
    then window zero_record l.ring_records l.ring (start_of l) l.count
    else []
