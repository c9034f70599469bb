-- ===== src/Room/Membership/Changes.antt =====
-- What CmdJoin, CmdLeave and CmdDisconnect change (internal/game/room/tick.go), session by session,
-- user by user and object by object.
use realtime_room_middleware.Base.{
  length, ◌≡◌, ◌≢◌, ◌⊎◌, refl, Option, none, some, String, string_discrete, arith, ite, inl, inr,
  Option-cases,
}
use realtime_room_middleware.Base.Floats.{Floats}
use realtime_room_middleware.Base.Map.{
  Map, lookup, string_key, lookup-delete, length-insert_present, lookup-insert,
}
use realtime_room_middleware.Base.Word.{inc32}
use realtime_room_middleware.Object.{get}
use realtime_room_middleware.Object.Lock.Releases.{IsOf, Clears, release_by_session-Clears}
use realtime_room_middleware.Room.{Room, RoomCommand, SessionAttachment}
use realtime_room_middleware.Room.Commands.{
  handle_join, joined, handle_leave, handle_disconnect, unindex,
}
use realtime_room_middleware.Room.Membership.{attached_as, user_of, IndexesUsers}
use realtime_room_middleware.Room.Membership.Commands.{Consistent}

-- An entry that goes away, if the key is the one removed.
abbrev pub gone {ℓ} : {V : Type ℓ} → String → String → Option V → Option V
gone removed k o = ite (string_discrete removed k) none o

-- The entry of a player, after the session with that attachment is gone.
abbrev pub player_gone {ℓ} :
    {V : Type ℓ}
    → Option SessionAttachment
    → (SessionAttachment → String)
    → String
    → Option V
    → Option V
player_gone none pid_of p o = o
player_gone (some att) pid_of p o = gone (pid_of att) p o

no_user :
    (u : String) (idx : Map String String) (m : Map String SessionAttachment)
    → IndexesUsers idx m
    → u ≡ ""
    → lookup u idx ≡ none
no_user u idx m h e = elim (Option-cases (lookup u idx)) [
  | inl f ↦ f
  | inr (s, f) ↦ absurd ((h.0 u s f).1 e)
]

lookup-unindex :
    (user u : String) (idx : Map String String) (m : Map String SessionAttachment)
    → IndexesUsers idx m
    → lookup u (unindex user idx) ≡ gone user u (lookup u idx)
lookup-unindex user u idx m h =
    ground (arith, lookup-delete user u idx, no_user u idx m h, no_user user idx m h)

module _ {F : Type 0} where
  -- After CmdDisconnect, in a room whose views agree, the session has no attachment and no snapshot,
  -- its user and the player that it was attached with are out of the room, and its object locks are
  -- cleared; every other session, user, player and object has the entry that it had.
  pub handle_disconnect-exact :
      (r : Room F) (cmd : RoomCommand F) (s u p id : String)
      → Consistent r
      → (lookup s (handle_disconnect r cmd).active_sessions
          ≡ gone cmd.session_id s (lookup s r.active_sessions))
        × (lookup s (handle_disconnect r cmd).snapshot_cache
            ≡ gone cmd.session_id s (lookup s r.snapshot_cache))
        × (lookup u (handle_disconnect r cmd).user_session_index
            ≡ gone (user_of cmd.session_id r.active_sessions) u (lookup u r.user_session_index))
        × (lookup p (handle_disconnect r cmd).players
            ≡ player_gone
                (lookup cmd.session_id r.active_sessions)
                (λ att. att.player_id)
                p
                (lookup p r.players))
        × Clears
            (IsOf cmd.session_id)
            (get r.locks.objects id)
            (get (handle_disconnect r cmd).locks.objects id)
  unfolding handle_disconnect
  handle_disconnect-exact r cmd s u p id (_, _, users, snaps) =
      elim (Option-cases (lookup cmd.session_id r.active_sessions)) [
        | inl e ↦
            rw (e, handle_disconnect)
              (
                ground arith,
                ground (arith, snaps s),
                ground (arith, no_user u r.user_session_index r.active_sessions users),
                refl,
                release_by_session-Clears r.locks cmd.session_id id,
              )
        | inr (att, e) ↦
            rw (e, handle_disconnect)
              (
                lookup-delete cmd.session_id s r.active_sessions,
                lookup-delete cmd.session_id s r.snapshot_cache,
                lookup-unindex att.user_id u r.user_session_index r.active_sessions users,
                lookup-delete att.player_id p r.players,
                release_by_session-Clears r.locks cmd.session_id id,
              )
      ]

  -- After CmdLeave, in a room whose views agree, the session has no attachment and no snapshot, its
  -- user is out of the room and its object locks are cleared; if the session was attached, the player
  -- that the command names (not the one that the session was attached with) is out of the room; every
  -- other session, user, player and object has the entry that it had.
  pub handle_leave-exact :
      (r : Room F) (cmd : RoomCommand F) (s u p id : String)
      → Consistent r
      → (lookup s (handle_leave r cmd).active_sessions
          ≡ gone cmd.session_id s (lookup s r.active_sessions))
        × (lookup s (handle_leave r cmd).snapshot_cache
            ≡ gone cmd.session_id s (lookup s r.snapshot_cache))
        × (lookup u (handle_leave r cmd).user_session_index
            ≡ gone (user_of cmd.session_id r.active_sessions) u (lookup u r.user_session_index))
        × (lookup p (handle_leave r cmd).players
            ≡ player_gone
                (lookup cmd.session_id r.active_sessions)
                (λ _. cmd.player_id)
                p
                (lookup p r.players))
        × Clears
            (IsOf cmd.session_id)
            (get r.locks.objects id)
            (get (handle_leave r cmd).locks.objects id)
  unfolding handle_leave
  handle_leave-exact r cmd s u p id (_, _, users, snaps) =
      elim (Option-cases (lookup cmd.session_id r.active_sessions)) [
        | inl e ↦
            rw (e, handle_leave)
              (
                ground arith,
                ground (arith, snaps s),
                ground (arith, no_user u r.user_session_index r.active_sessions users),
                refl,
                release_by_session-Clears r.locks cmd.session_id id,
              )
        | inr (att, e) ↦
            rw (e, handle_leave)
              (
                lookup-delete cmd.session_id s r.active_sessions,
                lookup-delete cmd.session_id s r.snapshot_cache,
                lookup-unindex att.user_id u r.user_session_index r.active_sessions users,
                lookup-delete cmd.player_id p r.players,
                release_by_session-Clears r.locks cmd.session_id id,
              )
      ]

module _ (fl : Floats) where
  open fl use {F32}

  -- In a room whose views agree, a CmdJoin of a user that some session is attached as changes nothing.
  pub handle_join-rejects :
      (r : Room F32) (cmd : RoomCommand F32) (s : String)
      → Consistent r
      → cmd.user_id ≢ ""
      → user_of s r.active_sessions ≡ cmd.user_id
      → handle_join fl r cmd ≡ r
  unfolding handle_join
  handle_join-rejects r cmd s (_, _, users, _) n e = ground (arith, users.1 cmd.user_id s)

  -- A CmdJoin without a user, or of a user that is not in the user index, for a session that is attached
  -- already counts one player more, though the session map has as many sessions as before; and unless it
  -- names the user that the session was attached with, the entry of that former user in the user index
  -- is what it was.
  pub handle_join-miscounts :
      (r : Room F32) (cmd : RoomCommand F32) (att : SessionAttachment)
      → lookup cmd.session_id r.active_sessions ≡ some att
      → (cmd.user_id ≡ "") ⊎ (lookup cmd.user_id r.user_session_index ≡ none)
      → ((handle_join fl r cmd).player_count ≡ inc32 r.player_count)
        × (length (handle_join fl r cmd).active_sessions ≡ length r.active_sessions)
        × ((att.user_id ≡ cmd.user_id)
            ⊎ (lookup att.user_id (handle_join fl r cmd).user_session_index
                ≡ lookup att.user_id r.user_session_index))
  unfolding handle_join joined
  handle_join-miscounts r cmd att e accepted = (
    ground arith,
    ground (
      arith,
      length-insert_present cmd.session_id (attached_as cmd.player_id cmd.user_id) att
          r.active_sessions e,
    ),
    elim (string_discrete att.user_id cmd.user_id) [
      | yes p ↦ inl p
      | no p ↦ inr (
          ground (arith, lookup-insert cmd.user_id att.user_id cmd.session_id r.user_session_index))
    ],
  )
