-- ===== src/Room/Lifecycle.antt =====
-- internal/game/room/lifecycle.go, and Enqueue of room.go. Stop waits for the tick loop without the
-- status lock, so it is two steps with other calls between them: `stop`, and `finish_stop`, which is
-- made once the loop has ended.
pub mod Frame
pub mod Runs
pub mod Offers
use realtime_room_middleware.Base.{
  ℕ, Bool, true, false, Option, none, some, List, [], ◌∷◌, ◌++◌, if◌then◌else◌, ltb, length,
}
use realtime_room_middleware.Base.Int.{pos_part}
use realtime_room_middleware.Base.Result.{Result, ok, err}
use realtime_room_middleware.Room.{
  Room, RoomCommand, RoomStatus, created, running, draining, closed,
}

pub data RoomError : Type 0 where
  cannot_start : RoomStatus → RoomError
  not_running : RoomStatus → RoomError
  command_queue_full : RoomError

module _ {F : Type 0} where
  unfoldable pub start_from : Room F → RoomStatus → Result RoomError (Room F)
  start_from r created = ok (record r { status = running })
  start_from r s = err (cannot_start s)

  -- Start
  unfoldable pub start : Room F → Result RoomError (Room F)
  unfolding start_from
  start r = start_from r r.status

  unfoldable pub stop_from : Room F → RoomStatus → Room F
  stop_from r closed = r
  stop_from r created = record r { status = closed }
  stop_from r s = record r { status = draining }

  -- Stop, up to the cancellation of the loop.
  unfoldable pub stop : Room F → Room F
  unfolding stop_from
  stop r = stop_from r r.status

  -- Stop, after the loop has ended.
  unfoldable pub finish_stop : Room F → Room F
  finish_stop r = record r { status = closed }

  -- The send on the command channel.
  unfoldable pub send : Room F → RoomCommand F → Result RoomError (Room F)
  send r cmd =
      if ltb (length r.commands) (pos_part r.config.command_queue_size)
      then ok (record r { commands = r.commands ++ cmd ∷ [] })
      else err command_queue_full

  unfoldable pub enqueue_in : Room F → RoomCommand F → RoomStatus → Result RoomError (Room F)
  unfolding send
  enqueue_in r cmd running = send r cmd
  enqueue_in r cmd s = err (not_running s)

  -- Enqueue
  unfoldable pub enqueue : Room F → RoomCommand F → Result RoomError (Room F)
  unfolding enqueue_in
  enqueue r cmd = enqueue_in r cmd r.status
