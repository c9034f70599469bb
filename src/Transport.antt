-- ===== src/Transport.antt =====
-- internal/transport: a realtime session as the room side sees it (session.go), with the Send and Close
-- that the KCP and the WebSocket session both have (kcp/session.go, websocket/session.go). The send
-- channel is a list with a capacity.
pub mod Kcp
use realtime_room_middleware.Base.{ℕ, Bool, List, [], ◌∷◌, ◌++◌, String, length, if◌then◌else◌, ltb}
use realtime_room_middleware.Base.Result.{Result, ok, err}

pub data TransportType : Type 0 where
  kcp websocket : TransportType

pub record RealtimeSession : Type 0 where
  pub id : String
  pub transport : TransportType
  pub closed : Bool
  pub send_queue : List (List ℕ)
  pub send_queue_size : ℕ

-- `net.ErrClosed`, which also stands for a full queue.
pub data SendError : Type 0 where
  err_closed : SendError

-- The send on the channel, or its default case.
unfoldable pub queue_packet : RealtimeSession → List ℕ → Result SendError RealtimeSession
queue_packet s bytes =
    if ltb (length s.send_queue) s.send_queue_size
    then ok (record s { send_queue = s.send_queue ++ bytes ∷ [] })
    else err err_closed

-- Send
unfoldable pub send : RealtimeSession → List ℕ → Result SendError RealtimeSession
unfolding queue_packet
send s bytes = if s.closed then err err_closed else queue_packet s bytes
