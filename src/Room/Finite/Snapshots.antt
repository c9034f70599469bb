-- ===== src/Room/Finite/Snapshots.antt =====
-- The snapshots that a room keeps name only players with an id (handleCommand of
-- internal/game/room/tick.go, SnapshotCache of internal/game/delta/snapshot.go).
use realtime_room_middleware.Base.{
  ℕ, ◌≡◌, refl, sym, subst, false, ◌&&◌, not, List, [], ◌∷◌, String, is_empty, inl, inr,
  Option-cases, Bool-cases,
}
use realtime_room_middleware.Base.Floats.{Floats}
use realtime_room_middleware.Base.Map.{
  lookup, string_key, Each, Each-lookup, Each-insert, Each-delete,
}
use realtime_room_middleware.Player.{PlayerTransform}
use realtime_room_middleware.Player.Validate.{validate_player_input}
use realtime_room_middleware.Delta.{ClientSnapshot, SnapshotCache, get_or_create}
use realtime_room_middleware.Room.{
  Room, RoomCommand, RoomCommandKind, Payload, input, player_transform, object_command, cmd_join,
  cmd_leave, cmd_disconnect, cmd_player_input, cmd_update_player_transform, cmd_object_lock_acquire,
  cmd_object_lock_refresh, cmd_object_lock_release, cmd_object_update, cmd_unknown, has_user,
}
use realtime_room_middleware.Room.Commands.{
  handle_join, joined, handle_leave, handle_disconnect, handle_player_input,
  handle_update_transform, move_player, handle_lock_acquire, handle_lock_refresh,
  handle_lock_release, handle_object_update, handle_command, dispatch, remove_attached,
}
use realtime_room_middleware.Room.Tick.{handle_all}

abbrev pub Named : String → Type 0
Named pid = is_empty pid ≡ false

abbrev pub SnapshotIsNamed : ClientSnapshot → Type 0
SnapshotIsNamed seen = Each (λ pid _. Named pid) seen

abbrev pub SnapshotsAreNamed : SnapshotCache → Type 0
SnapshotsAreNamed cache = Each (λ _ seen. SnapshotIsNamed seen) cache

pub get_or_create-named :
    (cache : SnapshotCache) (session : String)
    → SnapshotsAreNamed cache
    → SnapshotIsNamed (get_or_create cache session).0
      × SnapshotsAreNamed (get_or_create cache session).1
unfolding get_or_create
get_or_create-named cache session h = elim (Option-cases (lookup session cache)) [
  | inl e ↦
      rw (e, get_or_create) (tt, Each-insert (λ _ seen. SnapshotIsNamed seen) session [] cache h tt)
  | inr (seen, e) ↦
      rw (e, get_or_create) (Each-lookup (λ _ seen. SnapshotIsNamed seen) session seen cache h e, h)
]

module _ {F : Type 0} where
  departure-snapshots :
      (r : Room F) (cmd : RoomCommand F)
      → SnapshotsAreNamed r.snapshot_cache
      → SnapshotsAreNamed (handle_leave r cmd).snapshot_cache
        × SnapshotsAreNamed (handle_disconnect r cmd).snapshot_cache
  unfolding handle_leave handle_disconnect remove_attached
  departure-snapshots r cmd h =
      let gone = Each-delete (λ _ seen. SnapshotIsNamed seen) cmd.session_id r.snapshot_cache h in
      elim (Option-cases (lookup cmd.session_id r.active_sessions)) [
        | inl e ↦ (rw (e, handle_leave) h, rw (e, handle_disconnect) h)
        | inr (att, e) ↦ (rw (e, handle_leave) gone, rw (e, handle_disconnect) gone)
      ]

  object_commands-snapshots :
      (r : Room F) (cmd : RoomCommand F) (p : Payload F)
      → ((handle_lock_acquire r cmd p).snapshot_cache ≡ r.snapshot_cache)
        × ((handle_lock_refresh r cmd p).snapshot_cache ≡ r.snapshot_cache)
        × ((handle_lock_release r cmd p).snapshot_cache ≡ r.snapshot_cache)
        × ((handle_object_update r p).snapshot_cache ≡ r.snapshot_cache)
  unfolding handle_lock_acquire handle_lock_refresh handle_lock_release handle_object_update
  object_commands-snapshots r cmd (object_command p) = (refl, refl, refl, refl)
  object_commands-snapshots r cmd _ = (refl, refl, refl, refl)

module _ (fl : Floats) where
  open fl use {F32}

  handle_join-snapshots :
      (r : Room F32) (cmd : RoomCommand F32)
      → SnapshotsAreNamed r.snapshot_cache
      → SnapshotsAreNamed (handle_join fl r cmd).snapshot_cache
  unfolding handle_join joined
  handle_join-snapshots r cmd h =
      elim (Bool-cases (not (is_empty cmd.user_id) && has_user r cmd.user_id)) [
        | inl e ↦ rw (e, handle_join) h
        | inr e ↦ rw (e, handle_join) (get_or_create-named r.snapshot_cache cmd.session_id h).1
      ]

  move_player-snapshots :
      (r : Room F32) (pid : String) (t : PlayerTransform F32) (k now : ℕ)
      → (move_player fl r pid t k now).snapshot_cache ≡ r.snapshot_cache
  unfolding move_player
  move_player-snapshots r pid t k now = elim (Option-cases (lookup pid r.players)) [
    | inl e ↦ rw (e, move_player) refl
    | inr (_, e) ↦ rw (e, move_player) refl
  ]

  movement-snapshots :
      (r : Room F32) (pid : String) (p : Payload F32) (k now : ℕ)
      → ((handle_player_input fl r pid p k now).snapshot_cache ≡ r.snapshot_cache)
        × ((handle_update_transform fl r pid p k now).snapshot_cache ≡ r.snapshot_cache)
  unfolding handle_player_input handle_update_transform
  movement-snapshots r pid (input i) k now = elim (Option-cases (validate_player_input fl i)) [
    | inl e ↦ (rw (e, handle_player_input) (move_player-snapshots r pid i.transform k now), refl)
    | inr (_, e) ↦ (rw (e, handle_player_input) refl, refl)
  ]
  movement-snapshots r pid (player_transform t) k now = (refl, move_player-snapshots r pid t k now)
  movement-snapshots r pid _ k now = (refl, refl)

  dispatch-snapshots :
      (c : RoomCommandKind) (r : Room F32) (cmd : RoomCommand F32) (k now : ℕ)
      → SnapshotsAreNamed r.snapshot_cache
      → SnapshotsAreNamed (dispatch fl c r cmd k now).snapshot_cache
  unfolding dispatch
  dispatch-snapshots cmd_join r cmd k now h = handle_join-snapshots r cmd h
  dispatch-snapshots cmd_leave r cmd k now h = (departure-snapshots r cmd h).0
  dispatch-snapshots cmd_disconnect r cmd k now h = (departure-snapshots r cmd h).1
  dispatch-snapshots cmd_player_input r cmd k now h =
      subst SnapshotsAreNamed (sym (movement-snapshots r cmd.player_id cmd.payload k now).0) h
  dispatch-snapshots cmd_update_player_transform r cmd k now h =
      subst SnapshotsAreNamed (sym (movement-snapshots r cmd.player_id cmd.payload k now).1) h
  dispatch-snapshots cmd_object_lock_acquire r cmd k now h =
      subst SnapshotsAreNamed (sym (object_commands-snapshots r cmd cmd.payload).0) h
  dispatch-snapshots cmd_object_lock_refresh r cmd k now h =
      subst SnapshotsAreNamed (sym (object_commands-snapshots r cmd cmd.payload).1) h
  dispatch-snapshots cmd_object_lock_release r cmd k now h =
      subst SnapshotsAreNamed (sym (object_commands-snapshots r cmd cmd.payload).2) h
  dispatch-snapshots cmd_object_update r cmd k now h =
      subst SnapshotsAreNamed (sym (object_commands-snapshots r cmd cmd.payload).3) h
  dispatch-snapshots cmd_unknown r cmd k now h = h

  pub handle_all-snapshots :
      (r : Room F32) (cmds : List (RoomCommand F32)) (k now : ℕ)
      → SnapshotsAreNamed r.snapshot_cache
      → SnapshotsAreNamed (handle_all fl r cmds k now).snapshot_cache
  unfolding handle_all handle_command
  handle_all-snapshots r [] k now h = h
  handle_all-snapshots r (cmd ∷ cmds) k now h =
      handle_all-snapshots (handle_command fl r cmd k now) cmds k now
        (dispatch-snapshots cmd.kind r cmd k now h)
