-- ===== src/Config.antt =====
-- internal/config/config.go: the configuration of the servers. An `int` is an integer without bounds, a
-- `float32` comes with the `Floats` parameter; reading files, YAML and the environment are parameters.
pub mod Validate
pub mod Load
pub mod Accepted
use realtime_room_middleware.Base.{Bool, List, [], ◌∷◌, String, listed}
use realtime_room_middleware.Base.Int.{ℤ}

pub record DeploymentConfig : Type 0 where
  pub mode : String

pub record GatewayConfig : Type 0 where
  pub http_addr : String

pub record GameConfig : Type 0 where
  pub kcp_addr : String
  pub web_socket_addr : String
  pub tick_rate_hz : ℤ
  pub broadcast_rate_hz : ℤ
  pub max_players_per_room : ℤ

pub record ProtocolConfig : Type 0 where
  pub version : ℤ
  pub serialization : String
  pub transport : String

pub record ResolverConfig : Type 0 where
  pub kind : String  -- Type
  pub single_node_addr : String
  pub single_node_web_socket_url : String
  pub redis_addr : String

pub record RegistryConfig : Type 0 where
  pub kind : String  -- Type
  pub redis_addr : String

pub record SpatialConfig (F : Type 0) : Type 0 where
  pub cell_size_m : F

pub record InterestConfig (F : Type 0) : Type 0 where
  pub visual_radius_m : F
  pub object_radius_m : F
  pub voice_radius_m : F
  pub full_avatar_radius_m : F
  pub low_lod_radius_m : F

pub record VoiceConfig : Type 0 where
  pub allocator : String
  pub max_participants_per_group : ℤ
  pub recompute_interval_ms : ℤ

pub record ObjectLockConfig : Type 0 where
  pub lease_ttl_ms : ℤ
  pub refresh_interval_ms : ℤ
  pub max_locks_per_user : ℤ

pub record MetricsConfig : Type 0 where
  pub kind : String  -- Type

pub record Config (F : Type 0) : Type 0 where
  pub deployment : DeploymentConfig
  pub gateway : GatewayConfig
  pub game : GameConfig
  pub protocol : ProtocolConfig
  pub resolver : ResolverConfig
  pub registry : RegistryConfig
  pub spatial : SpatialConfig F
  pub interest : InterestConfig F
  pub voice : VoiceConfig
  pub object_lock : ObjectLockConfig
  pub metrics : MetricsConfig

abbrev pub mode_dev : String
mode_dev = "dev"

abbrev pub mode_single_vps : String
mode_single_vps = "single-vps"

abbrev pub mode_distributed_k3s : String
mode_distributed_k3s = "distributed-k3s"

abbrev pub resolver_single_node : String
resolver_single_node = "single-node"

abbrev pub resolver_redis : String
resolver_redis = "redis"

abbrev pub registry_memory : String
registry_memory = "memory"

abbrev pub registry_redis : String
registry_redis = "redis"

abbrev pub metrics_log : String
metrics_log = "log"

abbrev pub metrics_prometheus : String
metrics_prometheus = "prometheus"

abbrev pub allocator_proximity : String
allocator_proximity = "proximity"

abbrev pub allocator_kmeans : String
allocator_kmeans = "kmeans"

-- The sets, as tests.
abbrev pub valid_modes : String → Bool
valid_modes m = listed m (mode_dev ∷ mode_single_vps ∷ mode_distributed_k3s ∷ [])

abbrev pub valid_resolver_types : String → Bool
valid_resolver_types t = listed t (resolver_single_node ∷ resolver_redis ∷ [])

abbrev pub valid_registry_types : String → Bool
valid_registry_types t = listed t (registry_memory ∷ registry_redis ∷ [])

abbrev pub valid_metrics_types : String → Bool
valid_metrics_types t = listed t (metrics_log ∷ metrics_prometheus ∷ [])
