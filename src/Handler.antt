-- ===== src/Handler.antt =====
-- internal/game/handler/handler.go: from a decoded envelope to a command in the queue of a room. A
-- `RoomEnqueuer` is a pointer to a room of a store; the resolver that says which room a session is in
-- is a parameter. `millis` and `now` are what the two calls of `time.Now()` give.
pub mod Queued
use realtime_room_middleware.Base.{
  ℕ, Bool, true, false, Option, none, some, List, String, is_empty, if◌then◌else◌, ◌==◌, not,
}
use realtime_room_middleware.Base.Floats.{Floats}
use realtime_room_middleware.Base.Int.{ℤ}
use realtime_room_middleware.Base.Map.{Map, lookup, insert, nat_key}
use realtime_room_middleware.Base.Result.{Result, ok, err}
use realtime_room_middleware.Player
use realtime_room_middleware.Player.{PlayerTransform}
use realtime_room_middleware.Protocol.{
  Envelope, ProtocolFault, is_client_to_server, type_player_input, type_player_transform_update,
}
use realtime_room_middleware.Protocol.Messages.{PlayerInput, PlayerTransformUpdate}
use realtime_room_middleware.Protocol.Wrapping.{decode_message}
use realtime_room_middleware.Protocol.Formats.{Serials, input_format, transform_update_format}
use realtime_room_middleware.Room.{
  Room, RoomCommand, input, player_transform, cmd_player_input, cmd_update_player_transform,
}
use realtime_room_middleware.Room.Lifecycle.{RoomError, enqueue}

pub record PacketContext : Type 0 where
  pub session_id : String
  pub player_id : String
  pub user_id : String

-- An error of the resolver is a text.
pub data HandlerFault : Type 0 where
  not_client_to_server unsupported : ℕ → HandlerFault
  undecodable : ProtocolFault → HandlerFault
  player_id_missing : HandlerFault
  unresolved not_attached : String → HandlerFault
  not_enqueued : RoomError → HandlerFault

pub record HandlePacketResult : Type 0 where
  pub message_type : ℕ
  pub handled : Bool
  pub error : Option HandlerFault

-- The rooms in memory, by address.
abbrev pub RoomStore : Type 0 → Type 0
RoomStore F = Map ℕ (Room F)

-- `none` is the nil enqueuer of a session that is in no room.
abbrev pub SessionRoomResolver : Type 0
SessionRoomResolver = String → Result String (Option ℕ)

-- The result of a command that was submitted.
abbrev submitted : ℕ → Option HandlerFault → HandlePacketResult
submitted t none = record { message_type = t; handled = true; error = none }
submitted t (some e) = record { message_type = t; handled = false; error = some e }

module _ {F : Type 0} where
  unfoldable pub enqueue_in_room :
      RoomStore F → RoomCommand F → ℕ → Room F → Option HandlerFault × RoomStore F
  enqueue_in_room rooms cmd address r = elim (enqueue r cmd) [
    | ok r' ↦ (none, insert address r' rooms)
    | err e ↦ (some (not_enqueued e), rooms)
  ]

  -- The enqueuer that the resolver found; an address without a room is read as nil.
  unfoldable pub enqueue_at :
      RoomStore F → String → RoomCommand F → Option ℕ → Option HandlerFault × RoomStore F
  unfolding enqueue_in_room
  enqueue_at rooms session cmd none = (some (not_attached session), rooms)
  enqueue_at rooms session cmd (some address) = elim (lookup address rooms) [
    | none ↦ (some (not_attached session), rooms)
    | some r ↦ enqueue_in_room rooms cmd address r
  ]

  -- RealtimePacketHandler.enqueue
  unfoldable pub resolve_and_enqueue :
      SessionRoomResolver
      → RoomStore F
      → PacketContext
      → RoomCommand F
      → Option HandlerFault × RoomStore F
  unfolding enqueue_at
  resolve_and_enqueue resolve rooms ctx cmd = elim (resolve ctx.session_id) [
    | err e ↦ (some (unresolved e), rooms)
    | ok found ↦ enqueue_at rooms ctx.session_id cmd found
  ]

  -- What both message handlers do once the message is decoded.
  unfoldable pub submit :
      SessionRoomResolver
      → RoomStore F
      → PacketContext
      → ℕ
      → RoomCommand F
      → HandlePacketResult × RoomStore F
  unfolding resolve_and_enqueue
  submit resolve rooms ctx t cmd =
      if is_empty ctx.player_id
      then (submitted t (some player_id_missing), rooms)
      else let sent = resolve_and_enqueue resolve rooms ctx cmd in (submitted t sent.0, sent.1)

module _ (fl : Floats) where
  open fl use {F32, lit32}

  -- A transform on the ground plane, with the yaw in the place of the rotation's Y.
  abbrev flat : F32 → F32 → F32 → PlayerTransform F32
  flat x z yaw = record {
    position = record { x = x; y = lit32 0; z = z };
    rotation = record { x = lit32 0; y = yaw; z = lit32 0; w = lit32 1 };
    tick = 0;
  }

  -- The command that handlePlayerInput makes of a message.
  unfoldable pub input_command : PacketContext → PlayerInput F32 → ℤ → ℕ → RoomCommand F32
  input_command ctx msg millis now = record {
    kind = cmd_player_input;
    session_id = ctx.session_id;
    player_id = ctx.player_id;
    user_id = ctx.user_id;
    payload = input (record {
      seq = msg.seq;
      transform = flat msg.move_x msg.move_z msg.yaw;
      timestamp = millis;
    });
    timestamp = now;
  }

  -- The command that handlePlayerTransformUpdate makes of a message.
  unfoldable pub transform_command : PacketContext → PlayerTransformUpdate F32 → ℕ → RoomCommand F32
  transform_command ctx msg now = record {
    kind = cmd_update_player_transform;
    session_id = ctx.session_id;
    player_id = ctx.player_id;
    user_id = ctx.user_id;
    payload = player_transform (flat msg.x msg.z msg.yaw);
    timestamp = now;
  }

  -- handlePlayerInput
  unfoldable pub handle_player_input :
      SessionRoomResolver
      → RoomStore F32
      → PacketContext
      → PlayerInput F32
      → ℤ
      → ℕ
      → HandlePacketResult × RoomStore F32
  unfolding submit input_command
  handle_player_input resolve rooms ctx msg millis now =
      submit resolve rooms ctx type_player_input (input_command ctx msg millis now)

  -- handlePlayerTransformUpdate
  unfoldable pub handle_player_transform_update :
      SessionRoomResolver
      → RoomStore F32
      → PacketContext
      → PlayerTransformUpdate F32
      → ℕ
      → HandlePacketResult × RoomStore F32
  unfolding submit transform_command
  handle_player_transform_update resolve rooms ctx msg now =
      submit resolve rooms ctx type_player_transform_update (transform_command ctx msg now)

  abbrev failed : Envelope → HandlerFault → RoomStore F32 → HandlePacketResult × RoomStore F32
  failed env e rooms =
      (record { message_type = env.message_type; handled = false; error = some e }, rooms)

  -- HandleEnvelope
  unfoldable pub handle_envelope :
      Serials F32
      → SessionRoomResolver
      → RoomStore F32
      → PacketContext
      → Envelope
      → ℤ
      → ℕ
      → HandlePacketResult × RoomStore F32
  unfolding handle_player_input handle_player_transform_update is_client_to_server decode_message
  handle_envelope s resolve rooms ctx env millis now =
      if not (is_client_to_server env.message_type)
      then failed env (not_client_to_server env.message_type) rooms
      else if env.message_type == type_player_input
      then elim (decode_message (input_format fl s) env.body) [
        | err e ↦ failed env (undecodable e) rooms
        | ok msg ↦ handle_player_input resolve rooms ctx msg millis now
      ]
      else if env.message_type == type_player_transform_update
      then elim (decode_message (transform_update_format fl s) env.body) [
        | err e ↦ failed env (undecodable e) rooms
        | ok msg ↦ handle_player_transform_update resolve rooms ctx msg now
      ]
      else failed env (unsupported env.message_type) rooms
