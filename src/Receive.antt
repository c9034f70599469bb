-- ===== src/Receive.antt =====
-- internal/app/realtime/receive.go: a raw packet of a transport session, decoded and handed to the
-- packet handler. The session resolver is a parameter; of a transport session, only its id is used.
pub mod Packets
pub mod Queues
use realtime_room_middleware.Base.{ℕ, Option, none, some, List, String}
use realtime_room_middleware.Base.Floats.{Floats}
use realtime_room_middleware.Base.Int.{ℤ}
use realtime_room_middleware.Base.Result.{Result, ok, err}
use realtime_room_middleware.Protocol.{Envelope, ProtocolFault, decode_envelope}
use realtime_room_middleware.Protocol.Formats.{Serials}
use realtime_room_middleware.Handler.{
  PacketContext, HandlerFault, HandlePacketResult, RoomStore, SessionRoomResolver, handle_envelope,
}

-- The player and the user of a session; both are empty before it has joined a room.
abbrev pub SessionResolver : Type 0
SessionResolver = String → String × String

-- ResolveContext
unfoldable pub resolve_context : SessionResolver → String → PacketContext
resolve_context identify session = record {
  session_id = session;
  player_id = (identify session).0;
  user_id = (identify session).1;
}

pub data PacketFault : Type 0 where
  envelope_fault : ProtocolFault → PacketFault
  handle_fault : ℕ → HandlerFault → PacketFault

abbrev packet_fault : Envelope → Option HandlerFault → Option PacketFault
packet_fault env none = none
packet_fault env (some e) = some (handle_fault env.message_type e)

module _ (fl : Floats) where
  open fl use {F32}

  abbrev reported :
      Envelope → HandlePacketResult × RoomStore F32 → Option PacketFault × RoomStore F32
  reported env (result, rooms) = (packet_fault env result.error, rooms)

  -- PacketProcessor.Process: the error, and the rooms.
  unfoldable pub process :
      Serials F32
      → SessionRoomResolver
      → SessionResolver
      → RoomStore F32
      → String
      → List ℕ
      → ℤ
      → ℕ
      → Option PacketFault × RoomStore F32
  unfolding resolve_context
  process s resolve identify rooms session bytes millis now =
      elim (decode_envelope s.envelope bytes) [
        | err e ↦ (some (envelope_fault e), rooms)
        | ok env ↦
            reported env
              (handle_envelope fl s resolve rooms (resolve_context identify session) env millis now)
      ]

  -- ReceiveLoopAdapter.HandlePacket: the error is only logged.
  unfoldable pub handle_packet :
      Serials F32
      → SessionRoomResolver
      → SessionResolver
      → RoomStore F32
      → String
      → List ℕ
      → ℤ
      → ℕ
      → RoomStore F32
  unfolding process
  handle_packet s resolve identify rooms session bytes millis now =
      (process s resolve identify rooms session bytes millis now).1
