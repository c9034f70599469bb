-- ===== src/Room/Commands.antt =====
-- handleCommand of internal/game/room/tick.go: what each command does to the room. `now` is the time
-- that `time.Now()` returns, `tick` the current tick.
use realtime_room_middleware.Base.{
  ℕ, true, ◌&&◌, not, Option, none, some, List, String, is_empty, if◌then◌else◌,
}
use realtime_room_middleware.Base.Floats.{Floats}
use realtime_room_middleware.Base.Map.{Map, lookup, insert, delete, string_key}
use realtime_room_middleware.Base.Result.{Result, ok, err}
use realtime_room_middleware.Base.Word.{inc32, dec32}
use realtime_room_middleware.Object
use realtime_room_middleware.Object.{
  ObjectManager, ObjectTransform, ObjectError, update_custom_state,
}
use realtime_room_middleware.Object.Lock.{
  acquire_lock, refresh_lock, release_lock, release_by_session,
}
use realtime_room_middleware.Player
use realtime_room_middleware.Player.{
  PlayerState, PlayerTransform, PlayerInput, Vector3, active, new_player_state, set_status,
}
use realtime_room_middleware.Player.Validate.{validate_player_input}
use realtime_room_middleware.Delta.{get_or_create, remove_snapshot}
use realtime_room_middleware.Spatial
use realtime_room_middleware.Spatial.{GridSpatialHash, EntityPosition, SpatialError, position_at}
use realtime_room_middleware.Room.{
  Room, RoomCommand, RoomCommandKind, Payload, SessionAttachment, input, player_transform,
  object_command, cmd_join, cmd_leave, cmd_disconnect, cmd_player_input,
  cmd_update_player_transform, cmd_object_lock_acquire, cmd_object_lock_refresh,
  cmd_object_lock_release, cmd_object_update, cmd_unknown, has_user,
}

abbrev pub unindex : String → Map String String → Map String String
unindex user m = if is_empty user then m else delete user m

module _ {F : Type 0} where
  -- A rejected position leaves the index as it was.
  abbrev pub keep_on_error :
      GridSpatialHash F → Result SpatialError (GridSpatialHash F) → GridSpatialHash F
  keep_on_error h (ok h') = h'
  keep_on_error h (err _) = h

  -- The part of CmdLeave and CmdDisconnect for a session that is attached; `pid` is the player that
  -- is removed.
  unfoldable pub remove_attached : Room F → String → SessionAttachment → String → Room F
  remove_attached r session att pid = record r {
    player_count = dec32 r.player_count;
    active_sessions = delete session r.active_sessions;
    user_session_index = unindex att.user_id r.user_session_index;
    players = delete pid r.players;
    spatial = Spatial.remove r.spatial pid;
    snapshot_cache = remove_snapshot r.snapshot_cache session;
    dirty_players = delete pid r.dirty_players;
    membership_dirty = true;
  }

  abbrev pub release_session : Room F → String → Room F
  release_session r session = record r { locks = (release_by_session r.locks session).0 }

  -- CmdLeave: the player is the one that the command names.
  unfoldable pub handle_leave : Room F → RoomCommand F → Room F
  unfolding remove_attached
  handle_leave r cmd = elim (lookup cmd.session_id r.active_sessions) [
    | none ↦ release_session r cmd.session_id
    | some att ↦ release_session (remove_attached r cmd.session_id att cmd.player_id) cmd.session_id
  ]

  -- CmdDisconnect: the player is the one that the session was attached with.
  unfoldable pub handle_disconnect : Room F → RoomCommand F → Room F
  unfolding remove_attached
  handle_disconnect r cmd = elim (lookup cmd.session_id r.active_sessions) [
    | none ↦ release_session r cmd.session_id
    | some att ↦ release_session (remove_attached r cmd.session_id att att.player_id) cmd.session_id
  ]

  -- The three lock commands.
  unfoldable pub handle_lock_acquire : Room F → RoomCommand F → Payload F → Room F
  handle_lock_acquire r cmd (object_command p) = record r {
    locks = (acquire_lock r.locks p.object_id cmd.user_id cmd.session_id cmd.timestamp).0;
  }
  handle_lock_acquire r cmd _ = r

  unfoldable pub handle_lock_refresh : Room F → RoomCommand F → Payload F → Room F
  handle_lock_refresh r cmd (object_command p) = record r {
    locks = (refresh_lock r.locks p.object_id cmd.user_id cmd.timestamp).0;
  }
  handle_lock_refresh r cmd _ = r

  unfoldable pub handle_lock_release : Room F → RoomCommand F → Payload F → Room F
  handle_lock_release r cmd (object_command p) = record r {
    locks = (release_lock r.locks p.object_id cmd.user_id cmd.timestamp).0;
  }
  handle_lock_release r cmd _ = r

  -- An update of a missing object is logged and skipped.
  abbrev pub kept : ObjectManager F → Result ObjectError (ObjectManager F) → ObjectManager F
  kept m (ok m') = m'
  kept m (err _) = m

  abbrev move_object : ObjectManager F → String → Option (ObjectTransform F) → ObjectManager F
  move_object m id none = m
  move_object m id (some t) = kept m (Object.update_transform m id t)

  abbrev restate_object : ObjectManager F → String → Option (List ℕ) → ObjectManager F
  restate_object m id none = m
  restate_object m id (some s) = kept m (update_custom_state m id s)

  -- CmdObjectUpdate
  unfoldable pub handle_object_update : Room F → Payload F → Room F
  handle_object_update r (object_command p) = record r {
    locks = record r.locks {
      objects =
          restate_object (move_object r.locks.objects p.object_id p.transform) p.object_id
            p.custom_state;
    };
  }
  handle_object_update r _ = r

module _ (fl : Floats) where
  open fl use {F32, F64, lit32, to64, to32, sub_f32, mul_f32, add_f32, lt_f32, sqrt}

  -- The state of a room once CmdJoin is accepted.
  unfoldable pub joined : Room F32 → RoomCommand F32 → Room F32
  joined r cmd = record r {
    player_count = inc32 r.player_count;
    active_sessions =
        insert cmd.session_id (record { player_id = cmd.player_id; user_id = cmd.user_id })
          r.active_sessions;
    user_session_index =
        if is_empty cmd.user_id
        then r.user_session_index
        else insert cmd.user_id cmd.session_id r.user_session_index;
    players =
        insert cmd.player_id
          (set_status (new_player_state fl cmd.player_id cmd.user_id cmd.timestamp) active)
          r.players;
    spatial =
        keep_on_error r.spatial
          (Spatial.update fl r.spatial cmd.player_id (position_at (lit32 0) (lit32 0)));
    snapshot_cache = (get_or_create r.snapshot_cache cmd.session_id).1;
    membership_dirty = true;
  }

  -- CmdJoin
  unfoldable pub handle_join : Room F32 → RoomCommand F32 → Room F32
  unfolding joined
  handle_join r cmd =
      if not (is_empty cmd.user_id) && has_user r cmd.user_id then r else joined r cmd

  -- The horizontal distance that a player moves.
  moved_distance : Vector3 F32 → Vector3 F32 → F32
  moved_distance new old =
      let dx = sub_f32 new.x old.x in
      let dz = sub_f32 new.z old.z in to32 (sqrt (to64 (add_f32 (mul_f32 dx dx) (mul_f32 dz dz))))

  -- The part that CmdPlayerInput and CmdUpdatePlayerTransform share.
  unfoldable pub move_player : Room F32 → String → PlayerTransform F32 → ℕ → ℕ → Room F32
  unfolding moved_distance
  move_player r pid t tick now = elim (lookup pid r.players) [
    | none ↦ r
    | some p ↦
        let dist = moved_distance t.position p.transform.position in
        record r {
          players = insert pid (Player.update_transform p t tick now) r.players;
          spatial =
              keep_on_error r.spatial
                (Spatial.update fl r.spatial pid (position_at t.position.x t.position.z));
          dirty_players = insert pid tt r.dirty_players;
          max_movement = if lt_f32 r.max_movement dist then dist else r.max_movement;
        }
  ]

  -- CmdPlayerInput
  unfoldable pub handle_player_input : Room F32 → String → Payload F32 → ℕ → ℕ → Room F32
  unfolding move_player
  handle_player_input r pid (input i) tick now = elim (validate_player_input fl i) [
    | some _ ↦ r
    | none ↦ move_player r pid i.transform tick now
  ]
  handle_player_input r pid _ tick now = r

  -- CmdUpdatePlayerTransform
  unfoldable pub handle_update_transform : Room F32 → String → Payload F32 → ℕ → ℕ → Room F32
  unfolding move_player
  handle_update_transform r pid (player_transform t) tick now = move_player r pid t tick now
  handle_update_transform r pid _ tick now = r

  unfoldable pub dispatch : RoomCommandKind → Room F32 → RoomCommand F32 → ℕ → ℕ → Room F32
  dispatch cmd_join r cmd tick now = handle_join r cmd
  dispatch cmd_leave r cmd tick now = handle_leave r cmd
  dispatch cmd_disconnect r cmd tick now = handle_disconnect r cmd
  dispatch cmd_player_input r cmd tick now =
      handle_player_input r cmd.player_id cmd.payload tick now
  dispatch cmd_update_player_transform r cmd tick now =
      handle_update_transform r cmd.player_id cmd.payload tick now
  dispatch cmd_object_lock_acquire r cmd tick now = handle_lock_acquire r cmd cmd.payload
  dispatch cmd_object_lock_refresh r cmd tick now = handle_lock_refresh r cmd cmd.payload
  dispatch cmd_object_lock_release r cmd tick now = handle_lock_release r cmd cmd.payload
  dispatch cmd_object_update r cmd tick now = handle_object_update r cmd.payload
  dispatch cmd_unknown r cmd tick now = r

  -- handleCommand
  unfoldable pub handle_command : Room F32 → RoomCommand F32 → ℕ → ℕ → Room F32
  unfolding dispatch
  handle_command r cmd tick now = dispatch cmd.kind r cmd tick now
