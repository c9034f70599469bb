-- ===== src/Middleware.antt =====
-- The parts together, from the bytes of a client to the packets for the others: packets arrive on
-- transport sessions (internal/app/realtime/receive.go) while other goroutines call the rooms
-- (internal/game/room), and each tick's batches go to the bridge (internal/game/bridge/bridge.go).
pub mod Encoding
use realtime_room_middleware.Base.{
  ℕ, ◌<◌, ◌≡◌, refl, sym, subst, ap, ◌∙◌, false, Option, none, some, List, [], ◌∷◌, ◌++◌, String,
  inl, inr, Option-cases, arith, if◌then◌else◌, ltb, length, Bool-cases,
}
use realtime_room_middleware.Base.Floats.{Floats}
use realtime_room_middleware.Base.Int.{pos, pos_part}
use realtime_room_middleware.Base.Map.{
  Map, lookup, insert, nat_key, string_key, Each, Each-lookup, Each-insert,
}
use realtime_room_middleware.Base.Result.{Result, ok, err}
use realtime_room_middleware.Delta.{PlayerDelta, DeltaBatch, is_empty_delta}
use realtime_room_middleware.Protocol.Messages.{validate_delta}
use realtime_room_middleware.Protocol.Formats.{Serials}
use realtime_room_middleware.Room.{
  Room, RoomSpec, RoomCommand, RoomStatus, new_room, created, running, draining, closed,
}
use realtime_room_middleware.Room.Tick.{tick}
use realtime_room_middleware.Room.Lifecycle.{
  start, start_from, stop, stop_from, finish_stop, enqueue, enqueue_in, send,
}
use realtime_room_middleware.Room.Lifecycle.Runs.{
  RoomCall, call_start, call_stop, call_finish_stop, call_enqueue, call_tick, or_same, after,
  enqueued,
}
use realtime_room_middleware.Room.Finite.{HasLiterals, IsClean}
use realtime_room_middleware.Room.Finite.Batches.{IsSound, DeltaIsSound, tick-IsSound}
use realtime_room_middleware.Handler.{RoomStore, SessionRoomResolver}
use realtime_room_middleware.Receive.{SessionResolver, handle_packet}
use realtime_room_middleware.Receive.Queues.{RoomsAreSound, enqueued-IsSound, handle_packet_sound}
use realtime_room_middleware.Bridge.{convert_player_delta}
use realtime_room_middleware.Bridge.Delivery.{validate_delta-convert_player_delta}

-- What happens, in order: a packet of a session, with the times that are read, or a call on a room.
pub data Event (F : Type 0) : Type 0 where
  arrives : String → List ℕ → ℕ → ℕ → Event F
  calls : ℕ → RoomCall F → Event F

module _ (fl : Floats) where
  open fl use {F32}

  -- New rooms at their addresses.
  abbrev pub opened : Map ℕ (RoomSpec F32) → RoomStore F32
  opened [] = []
  opened ((address, spec) ∷ specs) = (address, new_room fl spec) ∷ opened specs

  -- A clock past 1970; a command of the server itself names a player and holds finite numbers.
  abbrev pub EventIsProper : Event F32 → Type 0
  EventIsProper (arrives session bytes millis now) = 0 < millis
  EventIsProper (calls address (call_enqueue cmd)) = IsClean fl cmd
  EventIsProper (calls address _) = Unit

  unfoldable pub call_room : RoomStore F32 → ℕ → RoomCall F32 → RoomStore F32
  call_room rooms address c = elim (lookup address rooms) [
    | none ↦ rooms
    | some r ↦ insert address (after fl r c) rooms
  ]

  module _ (s : Serials F32) (resolve : SessionRoomResolver) (identify : SessionResolver) where
    unfoldable pub step : RoomStore F32 → Event F32 → RoomStore F32
    unfolding call_room
    step rooms (arrives session bytes millis now) =
        handle_packet fl s resolve identify rooms session bytes (pos millis) now
    step rooms (calls address c) = call_room rooms address c

    unfoldable pub run : RoomStore F32 → List (Event F32) → RoomStore F32
    unfolding step
    run rooms [] = rooms
    run rooms (e ∷ es) = run (step rooms e) es
