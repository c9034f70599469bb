-- ===== src/Room/Broadcast.antt =====
-- What a room sends: buildDeltaBatches, VisiblePlayersFor and the nearby-player queries of
-- internal/game/room/room.go, and broadcast of internal/game/room/tick.go.
pub mod Visible
use realtime_room_middleware.Base.{ℕ, none, some, List, [], ◌∷◌, String, if◌then◌else◌}
use realtime_room_middleware.Base.Floats.{Floats}
use realtime_room_middleware.Base.Map.{Map, lookup, insert, string_key, nat_key}
use realtime_room_middleware.Player.{PlayerState, Vector3}
use realtime_room_middleware.Delta.{DeltaBatch, SnapshotCache, get_or_create, build_player_delta}
use realtime_room_middleware.Spatial
use realtime_room_middleware.Spatial.{EntityPosition, position_at, query_radius}
use realtime_room_middleware.Interest.{without, query_visible_players}
use realtime_room_middleware.Cluster.{ClusterOutput, or_nil}
use realtime_room_middleware.Room.{Room, SessionAttachment}

-- The batches built so far, and the snapshots that they leave.
pub record Batches (F : Type 0) : Type 0 where
  pub sent : Map String (DeltaBatch F)
  pub cache : SnapshotCache

module _ {F : Type 0} where
  -- Cluster-based interest: the other members of the viewer's cluster.
  unfoldable pub cluster_visible : ClusterOutput F → String → List String
  unfolding without
  cluster_visible out pid = elim (lookup pid out.assignments) [
    | none ↦ []
    | some c ↦ without pid (or_nil (lookup c out.clusters))
  ]

  -- What the session is told, given the players that it sees.
  unfoldable pub add_batch : Room F → ℕ → Batches F → String → List String → Batches F
  unfolding get_or_create build_player_delta
  add_batch r tick b session visible =
      let found = get_or_create b.cache session in
      let built = build_player_delta tick visible found.0 r.players in
      record {
        sent = insert session (record { tick = tick; player_delta = some built.0 }) b.sent;
        cache = insert session built.1 found.1;
      }

module _ (fl : Floats) where
  open fl use {F32}

  abbrev transform_position : PlayerState F32 → EntityPosition F32
  transform_position ps = position_at ps.transform.position.x ps.transform.position.z

  -- The players that the viewer, with the state `ps`, sees.
  unfoldable pub visible_players : Room F32 → String → PlayerState F32 → List String
  unfolding cluster_visible query_visible_players
  visible_players r pid ps =
      if r.config.cluster_config.enabled
      then cluster_visible r.cluster_output pid
      else query_visible_players fl r.interest_config r.spatial (transform_position ps) pid

  -- VisiblePlayersFor
  unfoldable pub visible_players_for : Room F32 → String → List String
  unfolding cluster_visible query_visible_players
  visible_players_for r pid =
      if r.config.cluster_config.enabled
      then cluster_visible r.cluster_output pid
      else elim (lookup pid r.players) [
        | none ↦ []
        | some ps ↦ query_visible_players fl r.interest_config r.spatial (transform_position ps) pid
      ]

  -- NearbyPlayers
  unfoldable pub nearby_players : Room F32 → String → F32 → List String
  nearby_players r pid radius = elim (Spatial.get r.spatial pid) [
    | none ↦ []
    | some p ↦ without pid (query_radius fl r.spatial p radius)
  ]

  -- NearbyPlayersAt
  abbrev pub nearby_players_at : Room F32 → Vector3 F32 → F32 → List String
  nearby_players_at r v radius = query_radius fl r.spatial (position_at v.x v.z) radius

  -- One round of the loop of buildDeltaBatches.
  unfoldable pub batch_for : Room F32 → ℕ → Batches F32 → String → SessionAttachment → Batches F32
  unfolding visible_players add_batch
  batch_for r tick b session att = elim (lookup att.player_id r.players) [
    | none ↦ b
    | some ps ↦ add_batch r tick b session (visible_players r att.player_id ps)
  ]

  unfoldable pub batch_all : Room F32 → ℕ → Map String SessionAttachment → Batches F32 → Batches F32
  unfolding batch_for
  batch_all r tick [] b = b
  batch_all r tick ((session, att) ∷ rest) b =
      batch_all r tick rest (batch_for r tick b session att)

  -- buildDeltaBatches
  unfoldable pub build_delta_batches : Room F32 → ℕ → Batches F32
  unfolding batch_all
  build_delta_batches r tick =
      batch_all r tick r.active_sessions (record { sent = []; cache = r.snapshot_cache })

  -- broadcast: the batches that a broadcaster is given, and the room after it.
  unfoldable pub broadcast : Room F32 → ℕ → Map String (DeltaBatch F32) × Room F32
  unfolding build_delta_batches
  broadcast r tick =
      let b = build_delta_batches r tick in
      (b.sent, record r { snapshot_cache = b.cache; dirty_players = [] })
