-- ===== src/Room/Tick.antt =====
-- tick of internal/game/room/tick.go, one round of the room loop. `now` is the time that a command
-- reads; the commands that the queue holds when it is drained are all handled in this tick.
use realtime_room_middleware.Base.{ℕ, List, [], ◌∷◌, String, if◌then◌else◌}
use realtime_room_middleware.Base.Floats.{Floats}
use realtime_room_middleware.Base.Map.{Map}
use realtime_room_middleware.Base.Word.{inc32}
use realtime_room_middleware.Object.Lock.{release_expired}
use realtime_room_middleware.Delta.{DeltaBatch}
use realtime_room_middleware.Room.{Room, RoomCommand}
use realtime_room_middleware.Room.Commands.{handle_command}
use realtime_room_middleware.Room.Cadence.{
  should_recompute_cluster, recompute_cluster, is_broadcast_tick,
}
use realtime_room_middleware.Room.Broadcast.{broadcast}

-- releaseExpiredLocks
unfoldable pub release_expired_locks : {F : Type 0} → Room F → ℕ → Room F
release_expired_locks r now = record r { locks = (release_expired r.locks now).0 }

module _ (fl : Floats) where
  open fl use {F32}

  unfoldable pub handle_all : Room F32 → List (RoomCommand F32) → ℕ → ℕ → Room F32
  handle_all r [] tick now = r
  handle_all r (cmd ∷ cmds) tick now = handle_all (handle_command fl r cmd tick now) cmds tick now

  -- drainCommands
  unfoldable pub drain_commands : Room F32 → ℕ → ℕ → Room F32
  unfolding handle_all
  drain_commands r tick now = handle_all (record r { commands = [] }) r.commands tick now

  unfoldable pub recompute_if_due : Room F32 → ℕ → Room F32
  unfolding recompute_cluster
  recompute_if_due r tick =
      if should_recompute_cluster fl r tick then recompute_cluster fl r tick else r

  unfoldable pub broadcast_if_due : Room F32 → ℕ → Map String (DeltaBatch F32) × Room F32
  unfolding broadcast
  broadcast_if_due r tick =
      if is_broadcast_tick r.config.tick_rate_hz r.config.broadcast_rate_hz tick
      then broadcast fl r tick
      else ([], r)

  -- tick
  unfoldable pub tick : Room F32 → ℕ → Map String (DeltaBatch F32) × Room F32
  unfolding recompute_if_due broadcast_if_due drain_commands release_expired_locks
  tick r now =
      let t = inc32 r.current_tick in
      let started = release_expired_locks (record r { current_tick = t }) now in
      broadcast_if_due (recompute_if_due (drain_commands started t now) t) t
