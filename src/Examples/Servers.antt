-- ===== src/Examples/Servers.antt =====
-- A KCP server that starts, takes two connections, closes one, and stops.
use realtime_room_middleware.Base.{◌≡◌, refl, List, [], ◌∷◌, true}
use realtime_room_middleware.Base.Int.{pos}
use realtime_room_middleware.Base.Map.{lookup, nat_key, string_key}
use realtime_room_middleware.Transport.Kcp.{ServerConfig, KcpServer, idle_server, begin_stop, close}
use realtime_room_middleware.Transport.Kcp.Calls.{
  ServerCall, call_start, call_accept, call_close, after, run,
}
use realtime_room_middleware.Examples.Marks.{marks}

abbrev cfg : ServerConfig
cfg = record {
  listen_addr = ":9000";
  max_packet_size = pos 0;
  read_timeout = pos 0;
  write_timeout = pos 0;
  send_queue_size = pos 8;
}

abbrev calls : List ServerCall
calls = call_start true ∷ call_accept ∷ call_accept ∷ call_close 1 ∷ []

one_is_left : (run marks calls (idle_server cfg)).sessions ≡ ("xx", 2) ∷ []
unfolding run realtime_room_middleware.Transport.Kcp.close lookup
    realtime_room_middleware.Transport.Kcp.accept realtime_room_middleware.Transport.Kcp.start
    realtime_room_middleware.Base.Map.insert realtime_room_middleware.Base.ℕ_discrete
    realtime_room_middleware.Base.Map.delete realtime_room_middleware.Base.string_discrete marks
one_is_left = refl

-- The server when a Stop has begun, and when the server was started again before the loop of the Stop has
-- closed the session that is left.
abbrev stopping : KcpServer
stopping = (begin_stop (run marks calls (idle_server cfg))).1

abbrev stopped : KcpServer
stopped = close 2 (after marks (call_start true) stopping)
