-- ===== src/Transport/Kcp/Runs.antt =====
-- A KCP server over any starts, connections, closings and stops, the steps of a Stop among them
-- (internal/transport/kcp).
use realtime_room_middleware.Base.{ℕ, ◌≡◌, ◌↔◌, false, some, String}
use realtime_room_middleware.Base.Map.{Map, lookup, string_key, nat_key}
use realtime_room_middleware.Transport.{RealtimeSession}
use realtime_room_middleware.Transport.Kcp.{KcpServer}

-- The map holds an address under an ID exactly if an open session of that ID is there.
abbrev pub IsExact : KcpServer → Type 0
IsExact srv =
    (id : String) (a : ℕ)
    → (lookup id srv.sessions ≡ some a)
      ↔ ((s : RealtimeSession) × ((lookup a srv.heap ≡ some s) × (s.id ≡ id) × (s.closed ≡ false)))
