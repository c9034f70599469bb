-- ===== src/Room/Membership/Commands.antt =====
-- The views of who is attached through handleCommand (internal/game/room/tick.go).
use realtime_room_middleware.Base.{
  ℕ, ◌%◌, ◌≡◌, ◌≢◌, refl, sym, subst, false, not, ◌&&◌, none, some, [], String, is_empty,
  if◌then◌else◌, length, string_discrete, arith, inl, inr, Option-cases, Bool-cases,
}
use realtime_room_middleware.Base.Floats.{Floats}
use realtime_room_middleware.Base.Map.{
  Map, lookup, insert, delete, contains, string_key, lookup-insert, lookup-delete, Distinct,
  insert-Distinct, delete-Distinct,
}
use realtime_room_middleware.Base.Word.{inc32, dec32, u32_mod}
use realtime_room_middleware.Delta.{SnapshotCache, get_or_create, remove_snapshot}
use realtime_room_middleware.Player.{PlayerTransform}
use realtime_room_middleware.Player.Validate.{validate_player_input}
use realtime_room_middleware.Room.{
  Room, RoomCommand, RoomCommandKind, Payload, SessionAttachment, input, player_transform,
  object_command, cmd_join, cmd_leave, cmd_disconnect, cmd_player_input,
  cmd_update_player_transform, cmd_object_lock_acquire, cmd_object_lock_refresh,
  cmd_object_lock_release, cmd_object_update, cmd_unknown, has_user,
}
use realtime_room_middleware.Room.Commands.{
  handle_join, joined, handle_leave, handle_disconnect, handle_player_input,
  handle_update_transform, move_player, handle_lock_acquire, handle_lock_refresh,
  handle_lock_release, handle_object_update, handle_command, dispatch, unindex,
}
use realtime_room_middleware.Room.Membership.{
  IndexesUsers, user_of, user_of_entry, attached_as, attach-IndexesUsers,
  attach_unnamed-IndexesUsers, detach-IndexesUsers, detach_unnamed-IndexesUsers, inc32-length,
  dec32-length,
}

-- Only attached sessions have a snapshot.
abbrev pub SnapshotsFor : SnapshotCache → Map String SessionAttachment → Type 0
SnapshotsFor c m = (s : String) → lookup s m ≡ none → lookup s c ≡ none

-- The session, index, counter and snapshot views agree.
abbrev pub Agree : ℕ → Map String String → SnapshotCache → Map String SessionAttachment → Type 0
Agree n idx c m = Distinct m × (n ≡ length m % u32_mod) × IndexesUsers idx m × SnapshotsFor c m

abbrev pub Consistent : {F : Type 0} → Room F → Type 0
Consistent r = Agree r.player_count r.user_session_index r.snapshot_cache r.active_sessions

create-SnapshotsFor :
    (s : String) (att : SessionAttachment) (c : SnapshotCache) (m : Map String SessionAttachment)
    → SnapshotsFor c m
    → SnapshotsFor (get_or_create c s).1 (insert s att m)
unfolding get_or_create
create-SnapshotsFor s att c m h s' e =
    ground (arith, h s', lookup-insert s s' att m, lookup-insert s s' [] c)

remove-SnapshotsFor :
    (s : String) (c : SnapshotCache) (m : Map String SessionAttachment)
    → SnapshotsFor c m
    → SnapshotsFor (remove_snapshot c s) (delete s m)
remove-SnapshotsFor s c m h s' e = ground (arith, h s', lookup-delete s s' m, lookup-delete s s' c)

unindex_unnamed : (user : String) (idx : Map String String) → user ≡ "" → unindex user idx ≡ idx
unindex_unnamed user idx e = ground arith

unindex_named :
    (user : String) (idx : Map String String) → user ≢ "" → unindex user idx ≡ delete user idx
unindex_named user idx n = ground arith

unindex-IndexesUsers :
    (idx : Map String String) (m : Map String SessionAttachment) (s : String)
    → IndexesUsers idx m
    → IndexesUsers (unindex (user_of s m) idx) (delete s m)
unindex-IndexesUsers idx m s h = elim (string_discrete (user_of s m) "") [
  | yes p ↦
      subst (λ i. IndexesUsers i (delete s m)) (sym (unindex_unnamed (user_of s m) idx p))
        (detach_unnamed-IndexesUsers idx m s p h)
  | no n ↦
      subst (λ i. IndexesUsers i (delete s m)) (sym (unindex_named (user_of s m) idx n))
        (detach-IndexesUsers idx m s n h)
]

-- What a session's leaving does to the views.
detach-Agree :
    (n : ℕ) (idx : Map String String) (c : SnapshotCache) (m : Map String SessionAttachment)
    (s : String) (att : SessionAttachment)
    → lookup s m ≡ some att
    → Agree n idx c m
    → Agree (dec32 n) (unindex att.user_id idx) (remove_snapshot c s) (delete s m)
detach-Agree n idx c m s att e (d, count, users, snaps) = (
  delete-Distinct s m d,
  dec32-length n m s att d e count,
  subst (λ o. IndexesUsers (unindex (user_of_entry o) idx) (delete s m)) e
      (unindex-IndexesUsers idx m s users),
  remove-SnapshotsFor s c m snaps,
)

-- The index that CmdJoin leaves.
abbrev index_joined : String → String → Map String String → Map String String
index_joined user s idx = if is_empty user then idx else insert user s idx

index_joined_unnamed :
    (user s : String) (idx : Map String String) → user ≡ "" → index_joined user s idx ≡ idx
index_joined_unnamed user s idx e = ground arith

index_joined_named :
    (user s : String) (idx : Map String String)
    → user ≢ ""
    → index_joined user s idx ≡ insert user s idx
index_joined_named user s idx n = ground arith

index_joined-IndexesUsers :
    (idx : Map String String) (m : Map String SessionAttachment) (s pid user : String)
    → lookup s m ≡ none
    → (user ≢ "" → lookup user idx ≡ none)
    → IndexesUsers idx m
    → IndexesUsers (index_joined user s idx) (insert s (attached_as pid user) m)
index_joined-IndexesUsers idx m s pid user fresh new h = elim (string_discrete user "") [
  | yes p ↦
      subst (λ i. IndexesUsers i (insert s (attached_as pid user) m))
        (sym (index_joined_unnamed user s idx p))
        (subst (λ u. IndexesUsers idx (insert s (attached_as pid u) m)) (sym p)
          (attach_unnamed-IndexesUsers idx m s pid fresh h))
  | no n ↦
      subst (λ i. IndexesUsers i (insert s (attached_as pid user) m))
        (sym (index_joined_named user s idx n))
        (attach-IndexesUsers idx m s pid user fresh n (new n) h)
]

attach-Agree :
    (n : ℕ) (idx : Map String String) (c : SnapshotCache) (m : Map String SessionAttachment)
    (s pid user : String)
    → lookup s m ≡ none
    → (user ≢ "" → lookup user idx ≡ none)
    → Agree n idx c m
    → Agree
        (inc32 n)
        (index_joined user s idx)
        (get_or_create c s).1
        (insert s (attached_as pid user) m)
attach-Agree n idx c m s pid user fresh new (d, count, users, snaps) = (
  insert-Distinct s (attached_as pid user) m d,
  inc32-length n m s (attached_as pid user) fresh count,
  index_joined-IndexesUsers idx m s pid user fresh new users,
  create-SnapshotsFor s (attached_as pid user) c m snaps,
)

module _ {F : Type 0} where
  pub handle_leave-Consistent :
      (r : Room F) (cmd : RoomCommand F) → Consistent r → Consistent (handle_leave r cmd)
  unfolding handle_leave
  handle_leave-Consistent r cmd h = elim (Option-cases (lookup cmd.session_id r.active_sessions)) [
    | inl e ↦ rw (e, handle_leave) h
    | inr (att, e) ↦
        rw (e, handle_leave)
          (detach-Agree r.player_count r.user_session_index r.snapshot_cache r.active_sessions
            cmd.session_id att e h)
  ]

  pub handle_disconnect-Consistent :
      (r : Room F) (cmd : RoomCommand F) → Consistent r → Consistent (handle_disconnect r cmd)
  unfolding handle_disconnect
  handle_disconnect-Consistent r cmd h =
      elim (Option-cases (lookup cmd.session_id r.active_sessions)) [
        | inl e ↦ rw (e, handle_disconnect) h
        | inr (att, e) ↦
            rw (e, handle_disconnect)
              (detach-Agree r.player_count r.user_session_index r.snapshot_cache r.active_sessions
                cmd.session_id att e h)
      ]

  pub handle_lock_acquire-Consistent :
      (r : Room F) (cmd : RoomCommand F) (p : Payload F)
      → Consistent r
      → Consistent (handle_lock_acquire r cmd p)
  unfolding handle_lock_acquire
  handle_lock_acquire-Consistent r cmd (object_command p) h = h
  handle_lock_acquire-Consistent r cmd _ h = h

  pub handle_lock_refresh-Consistent :
      (r : Room F) (cmd : RoomCommand F) (p : Payload F)
      → Consistent r
      → Consistent (handle_lock_refresh r cmd p)
  unfolding handle_lock_refresh
  handle_lock_refresh-Consistent r cmd (object_command p) h = h
  handle_lock_refresh-Consistent r cmd _ h = h

  pub handle_lock_release-Consistent :
      (r : Room F) (cmd : RoomCommand F) (p : Payload F)
      → Consistent r
      → Consistent (handle_lock_release r cmd p)
  unfolding handle_lock_release
  handle_lock_release-Consistent r cmd (object_command p) h = h
  handle_lock_release-Consistent r cmd _ h = h

  pub handle_object_update-Consistent :
      (r : Room F) (p : Payload F) → Consistent r → Consistent (handle_object_update r p)
  unfolding handle_object_update
  handle_object_update-Consistent r (object_command p) h = h
  handle_object_update-Consistent r _ h = h

-- The user of a join that is not rejected is new.
not_rejected :
    (user : String) (idx : Map String String)
    → (not (is_empty user) && contains user idx) ≡ false
    → user ≢ ""
    → lookup user idx ≡ none
not_rejected user idx e n = ground arith

module _ (fl : Floats) where
  open fl use {F32}

  -- A join brings a session that is not attached.
  abbrev pub JoinsFresh : Room F32 → RoomCommand F32 → Type 0
  JoinsFresh r cmd = cmd.kind ≡ cmd_join → lookup cmd.session_id r.active_sessions ≡ none

  handle_join-Consistent :
      (r : Room F32) (cmd : RoomCommand F32)
      → lookup cmd.session_id r.active_sessions ≡ none
      → Consistent r
      → Consistent (handle_join fl r cmd)
  unfolding handle_join joined
  handle_join-Consistent r cmd fresh h =
      elim (Bool-cases (not (is_empty cmd.user_id) && has_user r cmd.user_id)) [
        | inl e ↦ rw (e, handle_join) h
        | inr e ↦
            rw (e, handle_join)
              (attach-Agree r.player_count r.user_session_index r.snapshot_cache r.active_sessions
                cmd.session_id cmd.player_id cmd.user_id fresh
                (not_rejected cmd.user_id r.user_session_index e) h)
      ]

  move_player-Consistent :
      (r : Room F32) (pid : String) (t : PlayerTransform F32) (tick now : ℕ)
      → Consistent r
      → Consistent (move_player fl r pid t tick now)
  unfolding move_player
  move_player-Consistent r pid t tick now h = elim (Option-cases (lookup pid r.players)) [
    | inl e ↦ rw (e, move_player) h
    | inr (ps, e) ↦ rw (e, move_player) h
  ]

  handle_player_input-Consistent :
      (r : Room F32) (pid : String) (p : Payload F32) (tick now : ℕ)
      → Consistent r
      → Consistent (handle_player_input fl r pid p tick now)
  unfolding handle_player_input
  handle_player_input-Consistent r pid (input i) tick now h =
      elim (Option-cases (validate_player_input fl i)) [
        | inl e ↦ rw (e, handle_player_input) (move_player-Consistent r pid i.transform tick now h)
        | inr (_, e) ↦ rw (e, handle_player_input) h
      ]
  handle_player_input-Consistent r pid _ tick now h = h

  handle_update_transform-Consistent :
      (r : Room F32) (pid : String) (p : Payload F32) (tick now : ℕ)
      → Consistent r
      → Consistent (handle_update_transform fl r pid p tick now)
  unfolding handle_update_transform
  handle_update_transform-Consistent r pid (player_transform t) tick now h =
      move_player-Consistent r pid t tick now h
  handle_update_transform-Consistent r pid _ tick now h = h

  dispatch-Consistent :
      (k : RoomCommandKind) (r : Room F32) (cmd : RoomCommand F32) (tick now : ℕ)
      → (k ≡ cmd_join → lookup cmd.session_id r.active_sessions ≡ none)
      → Consistent r
      → Consistent (dispatch fl k r cmd tick now)
  unfolding dispatch
  dispatch-Consistent cmd_join r cmd tick now f h = handle_join-Consistent r cmd (f refl) h
  dispatch-Consistent cmd_leave r cmd tick now f h = handle_leave-Consistent r cmd h
  dispatch-Consistent cmd_disconnect r cmd tick now f h = handle_disconnect-Consistent r cmd h
  dispatch-Consistent cmd_player_input r cmd tick now f h =
      handle_player_input-Consistent r cmd.player_id cmd.payload tick now h
  dispatch-Consistent cmd_update_player_transform r cmd tick now f h =
      handle_update_transform-Consistent r cmd.player_id cmd.payload tick now h
  dispatch-Consistent cmd_object_lock_acquire r cmd tick now f h =
      handle_lock_acquire-Consistent r cmd cmd.payload h
  dispatch-Consistent cmd_object_lock_refresh r cmd tick now f h =
      handle_lock_refresh-Consistent r cmd cmd.payload h
  dispatch-Consistent cmd_object_lock_release r cmd tick now f h =
      handle_lock_release-Consistent r cmd cmd.payload h
  dispatch-Consistent cmd_object_update r cmd tick now f h =
      handle_object_update-Consistent r cmd.payload h
  dispatch-Consistent cmd_unknown r cmd tick now f h = h

  pub handle_command-Consistent :
      (r : Room F32) (cmd : RoomCommand F32) (tick now : ℕ)
      → JoinsFresh r cmd
      → Consistent r
      → Consistent (handle_command fl r cmd tick now)
  unfolding handle_command
  handle_command-Consistent r cmd tick now f h = dispatch-Consistent cmd.kind r cmd tick now f h
