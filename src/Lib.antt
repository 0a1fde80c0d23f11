-- ===== src/Lib.antt =====
-- The network patch for Battlezone 98 Redux is a pair of proxy libraries
-- (Linux/proton_dsound_proxy and Microslop/winmm_proxy) that hook the game's socket calls. The
-- logic lives in pure state machines under shared/, which both proxies drive under a lock with
-- the clock as an argument; this development models those machines.
--
-- - Prelude and its child modules: Boolean tests, lists with native indices, machine words with
--   their wrap-around written out, integers over the native numbers, scans of arrays, rings of
--   slots in an array, sums.
-- - Gov: shared/gov_trace.h, the detector of the governor's bumps, reverts and collapses.
--   `gov_trace_step` takes the configuration, the state, the live value and the time, and returns
--   the event and the new state; Gov/Run is the sequence of calls of the proxies' governor
--   thread, and Gov/Thread a round of it in dsound_proxy.cpp, with what it writes and hands to
--   the dampener.
-- - Reorder: shared/reorder_core.h, the receive-side buffer. Seq and Wire are the sequence
--   numbers and the header fields, Peers the table, Window the adaptive hold, Slots and Pick the
--   ring of one peer, Session the arrivals and deliveries as `hooked_WSARecvFrom` of
--   Linux/proton_dsound_proxy/src/dsound_proxy.cpp orders them.
-- - Pace: shared/send_pace.h, the token bucket that smooths outbound bursts. Admit is the
--   decision, Queue the ring of delayed datagrams.
-- - Rtt: shared/net_rtt.h, the sampler of round trips. Peer is the table and the outbound side,
--   Sample the inbound one.
-- - Globals: shared/net_globals.h, the settings asserted in the game's memory. Configure has the
--   table and its targets from the environment, with `getenv` and `strtoul` as parameters; Gate
--   and Ranges say what is written.
-- - Filter: shared/buffer_filter.h, the list of peers whose events the buffer log records.
-- - Dampen: shared/send_dampen.h, the suppressor of redundant reliable copies. Peer is the table
--   and the ring of recent sequences, Admit the decision.
-- - Proxy: Linux/proton_dsound_proxy/src/dsound_proxy.cpp, the hooks that compose these machines.
--   Send has the stages (dampener, sampler, pacer) and the pacer thread, SendTo and WsaSendTo the
--   two send hooks, Dup the delayed duplicates (Budget and Seconds count them), Deliver and Recv
--   the receive hook's delivery and drain, Close the close of a socket, EventLog the numbers of
--   sockets and the ring of recorded events, Wake the wake thread, Options the socket options,
--   RecvFrom the plain receive that hides its datagrams. The globals are a record that the hooks
--   take and return, a call of Winsock is a value in the list of calls, and what Winsock and the
--   clock answer are arguments.
-- - Iocp: Microslop/winmm_proxy/src/netcode_hooks.cpp, the reordering of overlapped receives,
--   which only the Windows proxy has. Table is the tracking of posted receives, Pick the choice
--   and the release of a held completion, Wait the classification of a completion, Port the hook
--   on GetQueuedCompletionStatus. What the real port answers, the game's memory and the clock are
--   the turns of the wait, in a list.
--
-- Fixed arrays are lists, of the source's capacity where the source allocates them; a pointer
-- into a table is an index; memset is the zero record; a payload is the list of its bytes.
-- Unsigned words are native numbers with the modulus written out, signed ones integers. The loops
-- run over the arrays by structural recursion. The loops that drain the pacer's queue run on
-- fuel, one more than the number of queued datagrams, which Proxy/Drain shows to be enough; the
-- drain of the receive hook has the source's own limit of rounds. The wait on the completion port
-- runs over the list of turns, of which Iocp/Bounds shows that five are enough. The loop of the
-- plain receive runs on fuel, one more than the datagrams in the queue.
--
-- Not modelled: the printing functions (`*_format_*`, `gov_event_name`), the patching of import
-- tables, the creation of threads, the text of the logs, the scripts and tools, and the Windows
-- proxy's send, receive and close hooks, which have the stages of the Linux ones.
pub mod Prelude
pub mod Gov
pub mod Reorder
pub mod Dampen
pub mod Pace
pub mod Rtt
pub mod Filter
pub mod Globals
pub mod Proxy
pub mod Iocp
