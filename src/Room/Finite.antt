-- ===== src/Room/Finite.antt =====
-- That the numbers in a room stay finite: the commands that the room loop accepts, and the players that
-- they leave (handleCommand and tick of internal/game/room/tick.go, validate.go of
-- internal/game/player).
pub mod Snapshots
pub mod Batches
use realtime_room_middleware.Base.{
  ℕ, ◌≡◌, refl, ap, sym, subst, ◌∙◌, Bool, true, false, ◌&&◌, not, Option, none, some, List, [],
  ◌∷◌, ◌++◌, String, All, All-snoc, is_empty, inl, inr, arith, Option-cases, Bool-cases,
}
use realtime_room_middleware.Base.Floats.{Floats}
use realtime_room_middleware.Base.Map.{
  Map, lookup, insert, delete, string_key, Each, Each-lookup, Each-insert, Each-delete,
}
use realtime_room_middleware.Base.Result.{Result, ok, err}
use realtime_room_middleware.Base.Word.{inc32}
use realtime_room_middleware.Cluster.{ClusterOutput, ClusterError}
use realtime_room_middleware.Cluster.KMeans.{compute}
use realtime_room_middleware.Player
use realtime_room_middleware.Player.{
  PlayerState, PlayerTransform, active, new_player_state, set_status,
}
use realtime_room_middleware.Player.Validate.{
  not_finite, is_zero, validate_player_transform, validate_player_input,
}
use realtime_room_middleware.Room.{
  Room, RoomCommand, RoomCommandKind, Payload, SessionAttachment, input, player_transform,
  object_command, cmd_join, cmd_leave, cmd_disconnect, cmd_player_input,
  cmd_update_player_transform, cmd_object_lock_acquire, cmd_object_lock_refresh,
  cmd_object_lock_release, cmd_object_update, cmd_unknown, has_user,
}
use realtime_room_middleware.Room.Commands.{
  handle_join, joined, handle_leave, handle_disconnect, handle_player_input,
  handle_update_transform, move_player, handle_lock_acquire, handle_lock_refresh,
  handle_lock_release, handle_object_update, handle_command, dispatch, remove_attached,
}
use realtime_room_middleware.Room.Cadence.{
  commit_clusters, recompute_cluster, cluster_players, should_recompute_cluster, is_broadcast_tick,
}
use realtime_room_middleware.Room.Broadcast.{broadcast}
use realtime_room_middleware.Room.Tick.{
  release_expired_locks, handle_all, drain_commands, recompute_if_due, broadcast_if_due, tick,
}

module _ (fl : Floats) where
  open fl use {F32, lit32, eq_f32}

  -- What IEEE 754 says of the constants 0 and 1.
  pub record HasLiterals : Type 0 where
    pub zero_finite : not_finite fl (lit32 0) ≡ false
    pub one_finite : not_finite fl (lit32 1) ≡ false
    pub one_not_zero : is_zero fl (lit32 1) ≡ false

  -- The room loop's own checks find no fault in the payload.
  abbrev pub PayloadIsClean : Payload F32 → Type 0
  PayloadIsClean (input i) = validate_player_input fl i ≡ none
  PayloadIsClean (player_transform t) = validate_player_transform fl t ≡ none
  PayloadIsClean _ = Unit

  -- A command that names a player, with a payload that the room loop accepts.
  abbrev pub IsClean : RoomCommand F32 → Type 0
  IsClean cmd = (is_empty cmd.player_id ≡ false) × PayloadIsClean cmd.payload

  abbrev pub QueueIsClean : Room F32 → Type 0
  QueueIsClean r = All IsClean r.commands

  -- A player whose transform the checks accept, under a key that is not empty.
  abbrev pub PlayerIsSound : String → PlayerState F32 → Type 0
  PlayerIsSound pid ps = (is_empty pid ≡ false) × (validate_player_transform fl ps.transform ≡ none)

  abbrev pub PlayersAreSound : Map String (PlayerState F32) → Type 0
  PlayersAreSound players = Each PlayerIsSound players

  new_player-IsSound :
      (pid user : String) (now : ℕ)
      → HasLiterals
      → is_empty pid ≡ false
      → PlayerIsSound pid (set_status (new_player_state fl pid user now) active)
  unfolding set_status new_player_state validate_player_transform
  new_player-IsSound pid user now lits named =
      ground (arith, lits.zero_finite, lits.one_finite, lits.one_not_zero)

  handle_join_sound :
      (r : Room F32) (cmd : RoomCommand F32)
      → HasLiterals
      → is_empty cmd.player_id ≡ false
      → PlayersAreSound r.players
      → PlayersAreSound (handle_join fl r cmd).players
  unfolding handle_join joined
  handle_join_sound r cmd lits named h =
      let p = set_status (new_player_state fl cmd.player_id cmd.user_id cmd.timestamp) active in
      elim (Bool-cases (not (is_empty cmd.user_id) && has_user r cmd.user_id)) [
        | inl e ↦ rw (e, handle_join) h
        | inr e ↦
            rw (e, handle_join)
              (Each-insert PlayerIsSound cmd.player_id p r.players h
                (new_player-IsSound cmd.player_id cmd.user_id cmd.timestamp lits named))
      ]

  departure_sound :
      (r : Room F32) (cmd : RoomCommand F32)
      → PlayersAreSound r.players
      → PlayersAreSound (handle_leave r cmd).players
        × PlayersAreSound (handle_disconnect r cmd).players
  unfolding handle_leave handle_disconnect remove_attached
  departure_sound r cmd h = elim (Option-cases (lookup cmd.session_id r.active_sessions)) [
    | inl e ↦ (rw (e, handle_leave) h, rw (e, handle_disconnect) h)
    | inr (att, e) ↦ (
      rw (e, handle_leave) (Each-delete PlayerIsSound cmd.player_id r.players h),
      rw (e, handle_disconnect) (Each-delete PlayerIsSound att.player_id r.players h),
    )
  ]

  update_transform-IsSound :
      (pid : String) (p : PlayerState F32) (t : PlayerTransform F32) (k now : ℕ)
      → PlayerIsSound pid p
      → validate_player_transform fl t ≡ none
      → PlayerIsSound pid (Player.update_transform p t k now)
  unfolding Player.update_transform validate_player_transform
  update_transform-IsSound pid p t k now h v = (h.0, v)

  move_player_sound :
      (r : Room F32) (pid : String) (t : PlayerTransform F32) (k now : ℕ)
      → validate_player_transform fl t ≡ none
      → PlayersAreSound r.players
      → PlayersAreSound (move_player fl r pid t k now).players
  unfolding move_player
  move_player_sound r pid t k now v h = elim (Option-cases (lookup pid r.players)) [
    | inl e ↦ rw (e, move_player) h
    | inr (p, e) ↦
        rw (e, move_player)
          (Each-insert PlayerIsSound pid (Player.update_transform p t k now) r.players h (
            update_transform-IsSound pid p t k now (Each-lookup PlayerIsSound pid p r.players h e)
              v))
  ]

  handle_player_input_sound :
      (r : Room F32) (pid : String) (p : Payload F32) (k now : ℕ)
      → PlayersAreSound r.players
      → PlayersAreSound (handle_player_input fl r pid p k now).players
  unfolding handle_player_input validate_player_input
  handle_player_input_sound r pid (input i) k now h =
      elim (Option-cases (validate_player_input fl i)) [
        | inl e ↦
            let v : validate_player_transform fl i.transform ≡ none = ground arith in
            rw (e, handle_player_input) (move_player_sound r pid i.transform k now v h)
        | inr (_, e) ↦ rw (e, handle_player_input) h
      ]
  handle_player_input_sound r pid _ k now h = h

  handle_update_transform_sound :
      (r : Room F32) (pid : String) (p : Payload F32) (k now : ℕ)
      → PayloadIsClean p
      → PlayersAreSound r.players
      → PlayersAreSound (handle_update_transform fl r pid p k now).players
  unfolding handle_update_transform
  handle_update_transform_sound r pid (player_transform t) k now v h =
      move_player_sound r pid t k now v h
  handle_update_transform_sound r pid _ k now v h = h

  object_commands-players :
      (r : Room F32) (cmd : RoomCommand F32) (p : Payload F32)
      → ((handle_lock_acquire r cmd p).players ≡ r.players)
        × ((handle_lock_refresh r cmd p).players ≡ r.players)
        × ((handle_lock_release r cmd p).players ≡ r.players)
        × ((handle_object_update r p).players ≡ r.players)
  unfolding handle_lock_acquire handle_lock_refresh handle_lock_release handle_object_update
  object_commands-players r cmd (object_command p) = (refl, refl, refl, refl)
  object_commands-players r cmd _ = (refl, refl, refl, refl)

  module _ (lits : HasLiterals) where
    dispatch_sound :
        (c : RoomCommandKind) (r : Room F32) (cmd : RoomCommand F32) (k now : ℕ)
        → IsClean cmd
        → PlayersAreSound r.players
        → PlayersAreSound (dispatch fl c r cmd k now).players
    unfolding dispatch
    dispatch_sound cmd_join r cmd k now c h = handle_join_sound r cmd lits c.0 h
    dispatch_sound cmd_leave r cmd k now c h = (departure_sound r cmd h).0
    dispatch_sound cmd_disconnect r cmd k now c h = (departure_sound r cmd h).1
    dispatch_sound cmd_player_input r cmd k now c h =
        handle_player_input_sound r cmd.player_id cmd.payload k now h
    dispatch_sound cmd_update_player_transform r cmd k now c h =
        handle_update_transform_sound r cmd.player_id cmd.payload k now c.1 h
    dispatch_sound cmd_object_lock_acquire r cmd k now c h =
        subst PlayersAreSound (sym (object_commands-players r cmd cmd.payload).0) h
    dispatch_sound cmd_object_lock_refresh r cmd k now c h =
        subst PlayersAreSound (sym (object_commands-players r cmd cmd.payload).1) h
    dispatch_sound cmd_object_lock_release r cmd k now c h =
        subst PlayersAreSound (sym (object_commands-players r cmd cmd.payload).2) h
    dispatch_sound cmd_object_update r cmd k now c h =
        subst PlayersAreSound (sym (object_commands-players r cmd cmd.payload).3) h
    dispatch_sound cmd_unknown r cmd k now c h = h

    pub handle_all_sound :
        (r : Room F32) (cmds : List (RoomCommand F32)) (k now : ℕ)
        → All IsClean cmds
        → PlayersAreSound r.players
        → PlayersAreSound (handle_all fl r cmds k now).players
    unfolding handle_all handle_command
    handle_all_sound r [] k now c h = h
    handle_all_sound r (cmd ∷ cmds) k now c h =
        handle_all_sound (handle_command fl r cmd k now) cmds k now c.1
          (dispatch_sound cmd.kind r cmd k now c.0 h)

  commit_clusters-players :
      (r : Room F32) (k : ℕ) (o : Result ClusterError (ClusterOutput F32))
      → (commit_clusters fl r k o).players ≡ r.players
  unfolding commit_clusters
  commit_clusters-players r k (err _) = refl
  commit_clusters-players r k (ok _) = refl

  pub recompute_if_due-players :
      (r : Room F32) (k : ℕ) → (recompute_if_due fl r k).players ≡ r.players
  unfolding recompute_if_due recompute_cluster
  recompute_if_due-players r k = elim (Bool-cases (should_recompute_cluster fl r k)) [
    | inl e ↦
        rw (e, recompute_if_due)
          (commit_clusters-players r k
            (compute fl r.prev_output (cluster_players r.players) r.config.cluster_config))
    | inr e ↦ rw (e, recompute_if_due) refl
  ]

  pub broadcast_if_due-players :
      (r : Room F32) (k : ℕ) → (broadcast_if_due fl r k).1.players ≡ r.players
  unfolding broadcast_if_due broadcast
  broadcast_if_due-players r k =
      elim (Bool-cases (is_broadcast_tick r.config.tick_rate_hz r.config.broadcast_rate_hz k)) [
        | inl e ↦ rw (e, broadcast_if_due) refl
        | inr e ↦ rw (e, broadcast_if_due) refl
      ]
