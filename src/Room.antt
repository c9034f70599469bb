-- ===== src/Room.antt =====
-- internal/game/room: one room (types.go, and the state and accessors of room.go). Only the room loop
-- writes this state, a critical section at a time. The command channel is a list with a capacity;
-- times come from the caller. The allocator's `prevOutput` is the field `prev_output`.
pub mod Commands
pub mod Cadence
pub mod Broadcast
pub mod Lifecycle
pub mod Tick
pub mod Membership
pub mod Finite
pub mod Registry
pub mod Manager
use realtime_room_middleware.Base.{
  ℕ, ◌≡◌, Bool, true, false, Option, none, some, List, [], ◌∷◌, String, length, if◌then◌else◌, ◌==◌,
}
use realtime_room_middleware.Base.Floats.{Floats}
use realtime_room_middleware.Base.Int.{ℤ, pos, is_nonpositive}
use realtime_room_middleware.Base.Map.{Map, lookup, insert, delete, contains, string_key}
use realtime_room_middleware.Base.Result.{Result, ok, err}
use realtime_room_middleware.Object.{ObjectTransform, ObjectError, new_object_manager, create}
use realtime_room_middleware.Object.Lock.{
  LockLease, LockManager, default_lock_lease, new_lock_manager,
}
use realtime_room_middleware.Player.{PlayerState, PlayerTransform, PlayerInput}
use realtime_room_middleware.Delta.{SnapshotCache}
use realtime_room_middleware.Spatial.{GridSpatialHash, new_grid_spatial_hash}
use realtime_room_middleware.Interest.{InterestConfig, default_interest_config}
use realtime_room_middleware.Cluster.{ClusterConfig, ClusterOutput, empty_output}

pub record SessionAttachment : Type 0 where
  pub player_id : String
  pub user_id : String

pub data RoomStatus : Type 0 where
  created running draining closed : RoomStatus

pub record RoomConfig (F : Type 0) : Type 0 where
  pub max_players : ℤ
  pub tick_rate_hz : ℤ
  pub broadcast_rate_hz : ℤ
  pub command_queue_size : ℤ
  pub spatial_cell_size_m : F
  pub interest_visual_radius_m : F
  pub object_lock_lease : LockLease
  pub cluster_config : ClusterConfig F

pub data RoomCommandKind : Type 0 where
  cmd_join cmd_leave cmd_disconnect cmd_player_input cmd_update_player_transform : RoomCommandKind
  cmd_object_lock_acquire cmd_object_lock_refresh cmd_object_lock_release : RoomCommandKind
  cmd_object_update cmd_unknown : RoomCommandKind

-- A nil `CustomState` is `none`.
pub record ObjectCommandPayload (F : Type 0) : Type 0 where
  pub object_id : String
  pub transform : Option (ObjectTransform F)
  pub custom_state : Option (List ℕ)

-- `Payload any`: the three types that the room loop asks for, or another.
pub data Payload (F : Type 0) : Type 0 where
  input : PlayerInput F → Payload F
  player_transform : PlayerTransform F → Payload F
  object_command : ObjectCommandPayload F → Payload F
  other : Payload F

pub record RoomCommand (F : Type 0) : Type 0 where
  pub kind : RoomCommandKind
  pub session_id : String
  pub player_id : String
  pub user_id : String
  pub payload : Payload F
  pub timestamp : ℕ

pub record RoomSpec (F : Type 0) : Type 0 where
  pub logical_room_id : String
  pub instance_id : String
  pub config : RoomConfig F

pub record Room (F : Type 0) : Type 0 where
  pub instance_id : String
  pub logical_room_id : String
  pub config : RoomConfig F
  pub commands : List (RoomCommand F)
  pub status : RoomStatus
  pub player_count : ℕ  -- int32
  pub current_tick : ℕ  -- uint32
  pub active_sessions : Map String SessionAttachment
  pub user_session_index : Map String String
  pub players : Map String (PlayerState F)
  pub spatial : GridSpatialHash F
  pub interest_config : InterestConfig F
  pub snapshot_cache : SnapshotCache
  pub dirty_players : Map String (Unit {0})
  pub locks : LockManager F
  pub prev_output : Option (ClusterOutput F)
  pub cluster_output : ClusterOutput F
  pub last_cluster_tick : ℕ  -- uint32
  pub max_movement : F
  pub membership_dirty : Bool

-- ActiveSessions
unfoldable pub session_ids : Map String SessionAttachment → List String
session_ids [] = []
session_ids ((id, _) ∷ m) = id ∷ session_ids m

module _ {F : Type 0} where
  -- HasSession, HasUser
  abbrev pub has_session : Room F → String → Bool
  has_session r id = contains id r.active_sessions

  abbrev pub has_user : Room F → String → Bool
  has_user r id = contains id r.user_session_index

  -- GetPlayerState
  abbrev pub get_player_state : Room F → String → Option (PlayerTransform F × ℕ)
  get_player_state r id = elim (lookup id r.players) [
    | none ↦ none
    | some p ↦ some (p.transform, p.version)
  ]

  -- CreateObject
  unfoldable pub create_object :
      Room F → String → String → ObjectTransform F → Result ObjectError (Room F)
  create_object r id kind t = elim (create r.locks.objects id kind t) [
    | err e ↦ err e
    | ok (m, _) ↦ ok (record r { locks = record r.locks { objects = m } })
  ]

abbrev positive_or : ℤ → ℤ → ℤ
positive_or v default = if is_nonpositive v then default else v

-- `lease.TTL <= 0`; a negative duration is read as 0.
abbrev lease_or_default : LockLease → LockLease
lease_or_default lease = if lease.ttl == 0 then default_lock_lease else lease

module _ (fl : Floats) where
  open fl use {F32, lit32, le_f32}

  -- DefaultClusterConfig
  abbrev pub default_cluster_config : ClusterConfig F32
  default_cluster_config = record {
    enabled = true;
    target_cluster_size = pos 8;
    max_cluster_radius = lit32 30;
    recluster_interval_ticks = pos 10;
    movement_threshold = lit32 2;
    membership_hysteresis = lit32 5;
    max_iterations = pos 20;
    max_players_per_room = pos 200;
  }

  -- DefaultRoomConfig
  abbrev pub default_room_config : RoomConfig F32
  default_room_config = record {
    max_players = pos 200;
    tick_rate_hz = pos 20;
    broadcast_rate_hz = pos 10;
    command_queue_size = pos 256;
    spatial_cell_size_m = lit32 10;
    interest_visual_radius_m = lit32 30;
    object_lock_lease = default_lock_lease;
    cluster_config = default_cluster_config;
  }

  abbrev float_or : F32 → F32 → F32
  float_or v default = if le_f32 v (lit32 0) then default else v

  -- The defaults that newRoom fills in.
  unfoldable pub with_defaults : RoomConfig F32 → RoomConfig F32
  with_defaults cfg = record cfg {
    tick_rate_hz = positive_or cfg.tick_rate_hz default_room_config.tick_rate_hz;
    broadcast_rate_hz = positive_or cfg.broadcast_rate_hz default_room_config.broadcast_rate_hz;
    command_queue_size = positive_or cfg.command_queue_size default_room_config.command_queue_size;
    spatial_cell_size_m = float_or cfg.spatial_cell_size_m default_room_config.spatial_cell_size_m;
    interest_visual_radius_m =
        float_or cfg.interest_visual_radius_m default_room_config.interest_visual_radius_m;
  }

  -- newRoom
  unfoldable pub new_room : RoomSpec F32 → Room F32
  unfolding with_defaults
  new_room spec =
      let cfg = with_defaults spec.config in
      record {
        instance_id = spec.instance_id;
        logical_room_id = spec.logical_room_id;
        config = cfg;
        commands = [];
        status = created;
        player_count = 0;
        current_tick = 0;
        active_sessions = [];
        user_session_index = [];
        players = [];
        spatial =
            new_grid_spatial_hash fl
              (record { cell_size_m = cfg.spatial_cell_size_m; max_world_coord = lit32 0 });
        interest_config = record (default_interest_config fl) {
          visual_radius_m = cfg.interest_visual_radius_m;
        };
        snapshot_cache = [];
        dirty_players = [];
        locks = new_lock_manager new_object_manager (lease_or_default cfg.object_lock_lease);
        prev_output = none;
        cluster_output = empty_output;
        last_cluster_tick = 0;
        max_movement = lit32 0;
        membership_dirty = false;
      }
