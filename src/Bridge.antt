-- ===== src/Bridge.antt =====
-- internal/game/bridge/bridge.go, and internal/app/realtime/dispatch.go: the batches of a room as packets
-- of the protocol. A `RealtimeSession` is a pointer to a session of a store; the lookup that says which
-- sessions are connected is a parameter.
pub mod Delivery
use realtime_room_middleware.Base.{
  ℕ, Bool, true, false, ◌||◌, Option, none, some, List, [], ◌∷◌, ◌++◌, map, String, if◌then◌else◌,
}
use realtime_room_middleware.Base.Floats.{Floats}
use realtime_room_middleware.Base.Map.{Map, lookup, insert, string_key, nat_key}
use realtime_room_middleware.Base.Result.{Result, ok, err}
use realtime_room_middleware.Player.{PlayerTransform, Quaternion}
use realtime_room_middleware.Delta
use realtime_room_middleware.Delta.{DeltaBatch, is_empty_delta, is_empty_batch}
use realtime_room_middleware.Protocol.{ProtocolFault, type_player_delta, type_full_snapshot}
use realtime_room_middleware.Protocol.Messages.{
  PlayerDelta, PlayerEnterDelta, PlayerUpdateDelta, PlayerLeaveDelta, FullSnapshot, PlayerSnapshot,
}
use realtime_room_middleware.Protocol.Wrapping.{encode_and_wrap}
use realtime_room_middleware.Protocol.Formats.{Serials, delta_format, full_snapshot_format}
use realtime_room_middleware.Transport
use realtime_room_middleware.Transport.{RealtimeSession, TransportType, SendError}

-- The sessions in memory, by address.
abbrev pub SessionStore : Type 0
SessionStore = Map ℕ RealtimeSession

-- `none` is a session that is not connected any more.
abbrev pub SessionLookup : Type 0
SessionLookup = String → Option ℕ

pub data SendFault : Type 0 where
  not_encoded : ProtocolFault → SendFault
  not_sent : SendError → SendFault
  session_not_found : String → SendFault

-- The transport is the empty text (`none`) for a session that was not found.
pub record SendResult : Type 0 where
  pub session_id : String
  pub transport : Option TransportType
  pub error : Option SendFault

pub record PlayerStateView (F : Type 0) : Type 0 where
  pub player_id : String
  pub transform : PlayerTransform F
  pub version : ℕ

abbrev pub current_version : ℕ
current_version = 1

abbrev pub convert_leave : Delta.PlayerLeaveDelta → PlayerLeaveDelta
convert_leave l = record { player_id = l.player_id }

module _ {F : Type 0} where
  -- yawFromRotation
  abbrev pub yaw_from_rotation : Quaternion F → F
  yaw_from_rotation q = q.y

  abbrev pub convert_enter : Delta.PlayerEnterDelta F → PlayerEnterDelta F
  convert_enter e = record {
    player_id = e.player_id;
    x = e.transform.position.x;
    z = e.transform.position.z;
    yaw = yaw_from_rotation e.transform.rotation;
    anim_state = 0;
    version = e.version;
  }

  abbrev pub convert_update : Delta.PlayerUpdateDelta F → PlayerUpdateDelta F
  convert_update u = record {
    player_id = u.player_id;
    x = u.transform.position.x;
    z = u.transform.position.z;
    yaw = yaw_from_rotation u.transform.rotation;
    anim_state = 0;
    version = u.version;
  }

  -- ConvertPlayerDelta
  unfoldable pub convert_player_delta : Option (Delta.PlayerDelta F) → PlayerDelta F
  convert_player_delta none = record { tick = 0; enters = []; updates = []; leaves = [] }
  convert_player_delta (some d) = record {
    tick = d.tick;
    enters = map convert_enter d.enters;
    updates = map convert_update d.updates;
    leaves = map convert_leave d.leaves;
  }

  convert_view : PlayerStateView F → PlayerSnapshot F
  convert_view p = record {
    player_id = p.player_id;
    x = p.transform.position.x;
    z = p.transform.position.z;
    yaw = yaw_from_rotation p.transform.rotation;
    anim_state = 0;
    version = p.version;
  }

  -- ConvertFullSnapshot
  unfoldable pub convert_full_snapshot : ℕ → List (PlayerStateView F) → FullSnapshot F
  unfolding convert_view
  convert_full_snapshot tick players = record { tick = tick; players = map convert_view players }

-- `sess.Send(data)` of a packet that was encoded, or the error of the encoding.
unfoldable pub send_encoded :
    RealtimeSession → Result ProtocolFault (List ℕ) → Result SendFault RealtimeSession
send_encoded sess (err e) = err (not_encoded e)
send_encoded sess (ok bytes) = elim (Transport.send sess bytes) [
  | err e ↦ err (not_sent e)
  | ok sess' ↦ ok sess'
]

module _ (fl : Floats) (s : Serials fl.F32) where
  open fl use {F32}

  -- SendPlayerDelta
  unfoldable pub send_player_delta :
      RealtimeSession → Delta.PlayerDelta F32 → Result SendFault RealtimeSession
  unfolding send_encoded convert_player_delta
  send_player_delta sess pd = send_encoded sess (
      encode_and_wrap (delta_format fl s) s.envelope current_version type_player_delta 0 pd.tick
        (convert_player_delta (some pd)))

  -- SendFullSnapshot
  unfoldable pub send_full_snapshot :
      RealtimeSession → ℕ → List (PlayerStateView F32) → Result SendFault RealtimeSession
  unfolding send_encoded convert_full_snapshot
  send_full_snapshot sess tick players = send_encoded sess (
      encode_and_wrap (full_snapshot_format fl s) s.envelope current_version type_full_snapshot 0
        tick (convert_full_snapshot tick players))

  -- A send to the session at an address, and what it leaves.
  sent_to :
      SessionStore
      → String
      → ℕ
      → RealtimeSession
      → Result SendFault RealtimeSession
      → SendResult × SessionStore
  sent_to sessions id address sess (ok sess') = (
    record { session_id = id; transport = some sess.transport; error = none },
    insert address sess' sessions,
  )
  sent_to sessions id address sess (err e) =
      (record { session_id = id; transport = some sess.transport; error = some e }, sessions)

  not_found : SessionStore → String → SendResult × SessionStore
  not_found sessions id =
      (record { session_id = id; transport = none; error = some (session_not_found id) }, sessions)

  -- The lookup and the send of one round of DispatchBatches; an address without a session is read as
  -- nil.
  unfoldable pub send_delta_to :
      SessionStore → String → Option ℕ → Delta.PlayerDelta F32 → SendResult × SessionStore
  unfolding sent_to not_found send_player_delta
  send_delta_to sessions id none pd = not_found sessions id
  send_delta_to sessions id (some address) pd = elim (lookup address sessions) [
    | none ↦ not_found sessions id
    | some sess ↦ sent_to sessions id address sess (send_player_delta sess pd)
  ]

  -- The delta of a batch that is not skipped.
  unfoldable pub delta_to_send : Option (DeltaBatch F32) → Option (Delta.PlayerDelta F32)
  delta_to_send none = none
  delta_to_send (some b) =
      if is_empty_batch b
      then none
      else elim b.player_delta [ none ↦ none | some d ↦ if is_empty_delta d then none else some d ]

  -- DispatchBatches: the results, and the sessions.
  unfoldable pub dispatch_batches :
      SessionLookup
      → Map String (Option (DeltaBatch F32))
      → SessionStore
      → List SendResult × SessionStore
  unfolding send_delta_to delta_to_send
  dispatch_batches find [] sessions = ([], sessions)
  dispatch_batches find ((id, batch) ∷ batches) sessions = elim (delta_to_send batch) [
    | none ↦ dispatch_batches find batches sessions
    | some d ↦
        let one = send_delta_to sessions id (find id) d in
        let rest = dispatch_batches find batches one.1 in (one.0 ∷ rest.0, rest.1)
  ]

  -- DeltaBroadcaster.BroadcastDelta: the results are discarded.
  unfoldable pub broadcast_delta :
      SessionLookup → Map String (Option (DeltaBatch F32)) → SessionStore → SessionStore
  unfolding dispatch_batches
  broadcast_delta find batches sessions = (dispatch_batches find batches sessions).1

  converted :
      Map String (DeltaBatch F32)
      → Map String (Option (DeltaBatch F32))
      → Map String (Option (DeltaBatch F32))
  converted [] m = m
  converted ((id, b) ∷ batches) m = converted batches (insert id (some b) m)

  -- RoomDeltaBroadcaster.BroadcastDelta; a nil broadcaster or dispatcher is `none`.
  unfoldable pub broadcast_room_delta :
      Option SessionLookup → Map String (DeltaBatch F32) → SessionStore → SessionStore
  unfolding converted broadcast_delta
  broadcast_room_delta none batches sessions = sessions
  broadcast_room_delta (some find) [] sessions = sessions
  broadcast_room_delta (some find) batches sessions =
      broadcast_delta find (converted batches []) sessions
