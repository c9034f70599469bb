-- ===== src/Receive/Queues.antt =====
-- What stands in the command queues, whatever the clients send (internal/app/realtime/receive.go,
-- internal/game/handler/handler.go), and that the room loop then accepts it
-- (internal/game/player/validate.go).
use realtime_room_middleware.Base.{
  ℕ, ◌<◌, ◌≡◌, inl, inr, sym, subst, false, none, List, String, All-snoc, is_empty, arith,
}
use realtime_room_middleware.Base.Floats.{Floats}
use realtime_room_middleware.Base.Int.{pos}
use realtime_room_middleware.Base.Map.{Each, Each-lookup, Each-insert, nat_key}
use realtime_room_middleware.Player.Validate.{validate_player_transform, validate_player_input}
use realtime_room_middleware.Protocol.{Envelope}
use realtime_room_middleware.Protocol.Messages.{
  PlayerInput, PlayerTransformUpdate, validate_input, validate_transform_update,
}
use realtime_room_middleware.Protocol.Wrapping.Unwrapping.{decode_message_iff}
use realtime_room_middleware.Protocol.Formats.{Serials, input_format, transform_update_format}
use realtime_room_middleware.Room.{Room, RoomCommand}
use realtime_room_middleware.Room.Lifecycle.Runs.{enqueued}
use realtime_room_middleware.Room.Finite.Batches.{IsSound}
use realtime_room_middleware.Room.Finite.{HasLiterals, PayloadIsClean, IsClean}
use realtime_room_middleware.Handler.{
  PacketContext, RoomStore, SessionRoomResolver, input_command, transform_command,
}
use realtime_room_middleware.Handler.Queued.{Enqueues, Translates}
use realtime_room_middleware.Receive.{SessionResolver, resolve_context, handle_packet}
use realtime_room_middleware.Receive.Packets.{process-cases}

module _ (fl : Floats) where
  open fl use {F32, lit32, eq_f32}

  input_command-clean :
      (ctx : PacketContext) (msg : PlayerInput F32) (millis now : ℕ)
      → HasLiterals fl
      → 0 < millis
      → validate_input fl msg ≡ none
      → PayloadIsClean fl (input_command fl ctx msg (pos millis) now).payload
  unfolding input_command validate_input validate_player_input
  input_command-clean ctx msg millis now lits time h =
      ground (arith, lits.zero_finite, lits.one_finite, lits.one_not_zero)

  transform_command-clean :
      (ctx : PacketContext) (msg : PlayerTransformUpdate F32) (now : ℕ)
      → HasLiterals fl
      → validate_transform_update fl msg ≡ none
      → PayloadIsClean fl (transform_command fl ctx msg now).payload
  unfolding transform_command validate_transform_update validate_player_transform
  transform_command-clean ctx msg now lits h =
      ground (arith, lits.zero_finite, lits.one_finite, lits.one_not_zero)

  -- Every room of the store is sound.
  abbrev pub RoomsAreSound : RoomStore F32 → Type 0
  RoomsAreSound rooms = Each (λ _ r. IsSound fl r) rooms

  pub enqueued-IsSound :
      (r : Room F32) (cmd : RoomCommand F32)
      → IsClean fl cmd
      → IsSound fl r
      → IsSound fl (enqueued r cmd)
  enqueued-IsSound r cmd clean h = record {
    players = h.players;
    snapshots = h.snapshots;
    queue = All-snoc (IsClean fl) r.commands cmd h.queue clean;
  }

  Enqueues-sound :
      (resolve : SessionRoomResolver) (rooms rooms' : RoomStore F32) (ctx : PacketContext)
      (cmd : RoomCommand F32)
      → Enqueues resolve rooms ctx cmd rooms'
      → IsClean fl cmd
      → RoomsAreSound rooms
      → RoomsAreSound rooms'
  Enqueues-sound resolve rooms rooms' ctx cmd e clean h =
      let before = Each-lookup (λ _ r. IsSound fl r) e.address e.target rooms h e.found in
      subst RoomsAreSound (sym e.changed) (
        Each-insert (λ _ r. IsSound fl r) e.address (enqueued e.target cmd) rooms h
          (enqueued-IsSound e.target cmd clean before))

  module _ (lits : HasLiterals fl) (s : Serials F32) (resolve : SessionRoomResolver)
      (identify : SessionResolver) where
    Translates-IsClean :
        (ctx : PacketContext) (env : Envelope) (millis now : ℕ) (cmd : RoomCommand F32)
        → is_empty ctx.player_id ≡ false
        → 0 < millis
        → Translates fl s ctx env (pos millis) now cmd
        → IsClean fl cmd
    unfolding input_command transform_command
    Translates-IsClean ctx env millis now cmd named time (inl (msg, _, d, c)) =
        let valid = ((decode_message_iff (input_format fl s) env.body msg).0 d).1 in
        subst (IsClean fl) (sym c) (named, input_command-clean ctx msg millis now lits time valid)
    Translates-IsClean ctx env millis now cmd named time (inr (msg, _, d, c)) =
        let valid = ((decode_message_iff (transform_update_format fl s) env.body msg).0 d).1 in
        subst (IsClean fl) (sym c) (named, transform_command-clean ctx msg now lits valid)

    -- Whatever bytes a client sends, sound rooms stay sound.
    pub handle_packet_sound :
        (rooms : RoomStore F32) (session : String) (bytes : List ℕ) (millis now : ℕ)
        → 0 < millis
        → RoomsAreSound rooms
        → RoomsAreSound (handle_packet fl s resolve identify rooms session bytes (pos millis) now)
    unfolding handle_packet resolve_context
    handle_packet_sound rooms session bytes millis now time h =
        elim (process-cases fl s resolve identify rooms session bytes (pos millis) now) [
          | inr (_, same_rooms) ↦ subst RoomsAreSound (sym same_rooms) h
          | inl (_, (env, cmd, _, t, e)) ↦
              let ctx = resolve_context identify session in
              Enqueues-sound resolve rooms _ ctx cmd e
                (Translates-IsClean ctx env millis now cmd e.named time t) h
        ]
