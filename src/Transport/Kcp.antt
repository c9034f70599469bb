-- ===== src/Transport/Kcp.antt =====
-- internal/transport/kcp: the server that accepts sessions, and their closing (server.go, session.go).
-- Sessions are shared by the server's map and by their own goroutines, so they live on a heap, at the value
-- that the counter of sessions had for them. Sockets and Sprintf are parameters. A critical section of the
-- server's mutex is one step. Stop lets the mutex go before it closes the sessions that it found, one after
-- the other, so other calls may come between.
pub mod Sessions
pub mod Accepting
pub mod Calls
pub mod Stopping
pub mod Draining
pub mod Runs
use realtime_room_middleware.Base.{
  ℕ, ◌+◌, ◌*◌, Bool, true, false, not, Option, none, some, List, [], ◌∷◌, String, ltb, is_empty,
  length, if◌then◌else◌,
}
use realtime_room_middleware.Base.Int.{ℤ, pos, negsuc}
use realtime_room_middleware.Base.Map.{Map, lookup, insert, delete, string_key, nat_key}
use realtime_room_middleware.Base.Result.{Result, ok, err}
use realtime_room_middleware.Transport.{RealtimeSession, kcp}

-- ServerConfig, without its logger; durations in nanoseconds.
pub record ServerConfig : Type 0 where
  pub listen_addr : String
  pub max_packet_size : ℤ
  pub read_timeout : ℤ
  pub write_timeout : ℤ
  pub send_queue_size : ℤ

-- `if x <= 0 { return d }; return x`
abbrev positive_or : ℕ → ℤ → ℕ
positive_or d (pos n) = if ltb 0 n then n else d
positive_or d (negsuc n) = d

unfoldable pub max_packet_size : ServerConfig → ℕ
max_packet_size c = positive_or (64 * 1024) c.max_packet_size

unfoldable pub read_timeout : ServerConfig → ℕ
read_timeout c = positive_or (10 * 1000000000) c.read_timeout

unfoldable pub write_timeout : ServerConfig → ℕ
write_timeout c = positive_or (5 * 1000000000) c.write_timeout

unfoldable pub send_queue_size : ServerConfig → ℕ
send_queue_size c = positive_or 256 c.send_queue_size

pub data ServerError : Type 0 where
  listen_addr_required invalid_listen_addr handler_required already_running listen_failed :
      ServerError

-- Validate; `resolves` says that net.ResolveUDPAddr gives no error.
unfoldable pub validate : (String → Bool) → ServerConfig → Option ServerError
validate resolves c =
    if is_empty c.listen_addr
    then some listen_addr_required
    else if not (resolves c.listen_addr)
    then some invalid_listen_addr
    else none

-- KCPServer, with the counter that names the sessions.
pub record KcpServer : Type 0 where
  pub cfg : ServerConfig
  pub listening : Bool
  pub sessions : Map String ℕ
  pub running : Bool
  pub heap : Map ℕ RealtimeSession
  pub session_count : ℕ

-- The server that NewServer makes.
abbrev pub idle_server : ServerConfig → KcpServer
idle_server c = record {
  cfg = c;
  listening = false;
  sessions = [];
  running = false;
  heap = [];
  session_count = 0;
}

-- NewServer
unfoldable pub new_server : (String → Bool) → ServerConfig → Bool → Result ServerError KcpServer
new_server resolves c handler = elim (validate resolves c) [
  | some e ↦ err e
  | none ↦ if not handler then err handler_required else ok (idle_server c)
]

-- Start; `listens` says that the address could be listened on.
unfoldable pub start : Bool → KcpServer → Result ServerError KcpServer
start listens srv =
    if srv.running
    then err already_running
    else if not listens
    then err listen_failed
    else ok (record srv { listening = true; running = true })

-- The values of the session map.
abbrev pub addresses : Map String ℕ → List ℕ
addresses [] = []
addresses ((_, a) ∷ sessions) = a ∷ addresses sessions

-- The session's channel and connection are closed, and the server forgets it.
abbrev pub closed_at : ℕ → RealtimeSession → KcpServer → KcpServer
closed_at a s srv = record srv {
  heap = insert a (record s { closed = true }) srv.heap;
  sessions = delete s.id srv.sessions;
}

-- close, once
unfoldable pub close : ℕ → KcpServer → KcpServer
close a srv = elim (lookup a srv.heap) [
  | none ↦ srv
  | some s ↦ if s.closed then srv else closed_at a s srv
]

-- newSession
unfoldable pub new_session : (ℕ → String) → KcpServer → KcpServer
unfolding send_queue_size
new_session name srv =
    let n = srv.session_count + 1 in
    record srv {
      session_count = n;
      heap =
          insert n
            (record {
              id = name n;
              transport = kcp;
              closed = false;
              send_queue = [];
              send_queue_size = send_queue_size srv.cfg;
            })
            srv.heap;
    }

-- What acceptLoop does with a connection.
unfoldable pub accept : (ℕ → String) → KcpServer → KcpServer
unfolding new_session
accept name srv =
    let made = new_session name srv in
    if made.running
    then record made {
      sessions = insert (name made.session_count) made.session_count made.sessions;
    }
    else close made.session_count made

-- The part of Stop that holds the mutex: the sessions that it found, and the server. A Stop of a server
-- that does not run finds none, and returns.
unfoldable pub begin_stop : KcpServer → List ℕ × KcpServer
begin_stop srv =
    if srv.running then (addresses srv.sessions, record srv { running = false }) else ([], srv)

-- The loop of Stop over the sessions that it found, with nothing in between.
unfoldable pub close_each : List ℕ → KcpServer → KcpServer
close_each [] srv = srv
close_each (a ∷ found) srv = close_each found (close a srv)

-- Stop, with nothing in between.
unfoldable pub stop : KcpServer → KcpServer
unfolding close_each begin_stop
stop srv = let (found, marked) = begin_stop srv in close_each found marked

-- SessionCount
unfoldable pub count_sessions : KcpServer → ℕ
count_sessions srv = length srv.sessions
