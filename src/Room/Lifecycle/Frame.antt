-- ===== src/Room/Lifecycle/Frame.antt =====
-- What handleCommand and tick leave alone: the command channel's capacity and the status.
use realtime_room_middleware.Base.{
  ℕ, ◌≡◌, refl, ◌∙◌, not, ◌&&◌, List, [], ◌∷◌, String, is_empty, inl, inr, Option-cases, Bool-cases,
}
use realtime_room_middleware.Base.Floats.{Floats}
use realtime_room_middleware.Base.Map.{lookup, string_key}
use realtime_room_middleware.Base.Result.{Result, ok, err}
use realtime_room_middleware.Base.Word.{inc32}
use realtime_room_middleware.Cluster.{ClusterOutput, ClusterError}
use realtime_room_middleware.Cluster.KMeans.{compute}
use realtime_room_middleware.Player.{PlayerTransform}
use realtime_room_middleware.Player.Validate.{validate_player_input}
use realtime_room_middleware.Room.{
  Room, RoomConfig, RoomStatus, RoomCommand, RoomCommandKind, Payload, input, player_transform,
  object_command, cmd_join, cmd_leave, cmd_disconnect, cmd_player_input,
  cmd_update_player_transform, cmd_object_lock_acquire, cmd_object_lock_refresh,
  cmd_object_lock_release, cmd_object_update, cmd_unknown, has_user,
}
use realtime_room_middleware.Room.Commands.{
  handle_join, joined, handle_leave, handle_disconnect, handle_player_input,
  handle_update_transform, move_player, handle_lock_acquire, handle_lock_refresh,
  handle_lock_release, handle_object_update, handle_command, dispatch,
}
use realtime_room_middleware.Room.Cadence.{
  commit_clusters, recompute_cluster, cluster_players, should_recompute_cluster, is_broadcast_tick,
}
use realtime_room_middleware.Room.Broadcast.{broadcast}
use realtime_room_middleware.Room.Tick.{
  release_expired_locks, handle_all, drain_commands, recompute_if_due, broadcast_if_due, tick,
}

-- The queue, the status and the configuration.
abbrev pub outer : {F : Type 0} → Room F → List (RoomCommand F) × RoomStatus × RoomConfig F
outer r = (r.commands, r.status, r.config)

module _ (fl : Floats) where
  open fl use {F32}

  departure-outer :
      (r : Room F32) (cmd : RoomCommand F32)
      → (outer (handle_leave r cmd) ≡ outer r) × (outer (handle_disconnect r cmd) ≡ outer r)
  unfolding handle_leave handle_disconnect
  departure-outer r cmd = elim (Option-cases (lookup cmd.session_id r.active_sessions)) [
    | inl e ↦ (rw (e, handle_leave) refl, rw (e, handle_disconnect) refl)
    | inr (_, e) ↦ (rw (e, handle_leave) refl, rw (e, handle_disconnect) refl)
  ]

  handle_join-outer :
      (r : Room F32) (cmd : RoomCommand F32) → outer (handle_join fl r cmd) ≡ outer r
  unfolding handle_join joined
  handle_join-outer r cmd =
      elim (Bool-cases (not (is_empty cmd.user_id) && has_user r cmd.user_id)) [
        | inl e ↦ rw (e, handle_join) refl
        | inr e ↦ rw (e, handle_join) refl
      ]

  move_player-outer :
      (r : Room F32) (pid : String) (t : PlayerTransform F32) (k now : ℕ)
      → outer (move_player fl r pid t k now) ≡ outer r
  unfolding move_player
  move_player-outer r pid t k now = elim (Option-cases (lookup pid r.players)) [
    | inl e ↦ rw (e, move_player) refl
    | inr (_, e) ↦ rw (e, move_player) refl
  ]

  handle_player_input-outer :
      (r : Room F32) (pid : String) (p : Payload F32) (k now : ℕ)
      → outer (handle_player_input fl r pid p k now) ≡ outer r
  unfolding handle_player_input
  handle_player_input-outer r pid (input i) k now =
      elim (Option-cases (validate_player_input fl i)) [
        | inl e ↦ rw (e, handle_player_input) (move_player-outer r pid i.transform k now)
        | inr (_, e) ↦ rw (e, handle_player_input) refl
      ]
  handle_player_input-outer r pid _ k now = refl

  handle_update_transform-outer :
      (r : Room F32) (pid : String) (p : Payload F32) (k now : ℕ)
      → outer (handle_update_transform fl r pid p k now) ≡ outer r
  unfolding handle_update_transform
  handle_update_transform-outer r pid (player_transform t) k now = move_player-outer r pid t k now
  handle_update_transform-outer r pid _ k now = refl

  object_commands-outer :
      (r : Room F32) (cmd : RoomCommand F32) (p : Payload F32)
      → (outer (handle_lock_acquire r cmd p) ≡ outer r)
        × (outer (handle_lock_refresh r cmd p) ≡ outer r)
        × (outer (handle_lock_release r cmd p) ≡ outer r)
        × (outer (handle_object_update r p) ≡ outer r)
  unfolding handle_lock_acquire handle_lock_refresh handle_lock_release handle_object_update
  object_commands-outer r cmd (object_command p) = (refl, refl, refl, refl)
  object_commands-outer r cmd _ = (refl, refl, refl, refl)

  dispatch-outer :
      (c : RoomCommandKind) (r : Room F32) (cmd : RoomCommand F32) (k now : ℕ)
      → outer (dispatch fl c r cmd k now) ≡ outer r
  unfolding dispatch
  dispatch-outer cmd_join r cmd k now = handle_join-outer r cmd
  dispatch-outer cmd_leave r cmd k now = (departure-outer r cmd).0
  dispatch-outer cmd_disconnect r cmd k now = (departure-outer r cmd).1
  dispatch-outer cmd_player_input r cmd k now =
      handle_player_input-outer r cmd.player_id cmd.payload k now
  dispatch-outer cmd_update_player_transform r cmd k now =
      handle_update_transform-outer r cmd.player_id cmd.payload k now
  dispatch-outer cmd_object_lock_acquire r cmd k now = (object_commands-outer r cmd cmd.payload).0
  dispatch-outer cmd_object_lock_refresh r cmd k now = (object_commands-outer r cmd cmd.payload).1
  dispatch-outer cmd_object_lock_release r cmd k now = (object_commands-outer r cmd cmd.payload).2
  dispatch-outer cmd_object_update r cmd k now = (object_commands-outer r cmd cmd.payload).3
  dispatch-outer cmd_unknown r cmd k now = refl

  handle_all-outer :
      (r : Room F32) (cmds : List (RoomCommand F32)) (k now : ℕ)
      → outer (handle_all fl r cmds k now) ≡ outer r
  unfolding handle_all handle_command
  handle_all-outer r [] k now = refl
  handle_all-outer r (cmd ∷ cmds) k now =
      handle_all-outer (handle_command fl r cmd k now) cmds k now
      ∙ dispatch-outer cmd.kind r cmd k now

  commit_clusters-outer :
      (r : Room F32) (k : ℕ) (o : Result ClusterError (ClusterOutput F32))
      → outer (commit_clusters fl r k o) ≡ outer r
  unfolding commit_clusters
  commit_clusters-outer r k (err _) = refl
  commit_clusters-outer r k (ok _) = refl

  recompute_if_due-outer : (r : Room F32) (k : ℕ) → outer (recompute_if_due fl r k) ≡ outer r
  unfolding recompute_if_due recompute_cluster
  recompute_if_due-outer r k = elim (Bool-cases (should_recompute_cluster fl r k)) [
    | inl e ↦
        rw (e, recompute_if_due)
          (commit_clusters-outer r k
            (compute fl r.prev_output (cluster_players r.players) r.config.cluster_config))
    | inr e ↦ rw (e, recompute_if_due) refl
  ]

  broadcast_if_due-outer : (r : Room F32) (k : ℕ) → outer (broadcast_if_due fl r k).1 ≡ outer r
  unfolding broadcast_if_due broadcast
  broadcast_if_due-outer r k =
      elim (Bool-cases (is_broadcast_tick r.config.tick_rate_hz r.config.broadcast_rate_hz k)) [
        | inl e ↦ rw (e, broadcast_if_due) refl
        | inr e ↦ rw (e, broadcast_if_due) refl
      ]

  pub tick-outer : (r : Room F32) (now : ℕ) → outer (tick fl r now).1 ≡ ([], r.status, r.config)
  unfolding tick drain_commands release_expired_locks
  tick-outer r now =
      let t = inc32 r.current_tick in
      let started = release_expired_locks (record r { current_tick = t }) now in
      let drained = drain_commands fl started t now in
      broadcast_if_due-outer (recompute_if_due fl drained t) t
      ∙ recompute_if_due-outer drained t
      ∙ handle_all-outer (record started { commands = [] }) r.commands t now
