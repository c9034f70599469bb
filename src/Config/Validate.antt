-- ===== src/Config/Validate.antt =====
-- The checks of internal/config/config.go. A check returns its first error.
use Prim.Native.Char.{code}
use realtime_room_middleware.Base.{
  Bool, false, not, ◌&&◌, ◌||◌, Option, none, String, is_empty, same, ◌==◌, if◌then◌else◌,
}
use realtime_room_middleware.Base.Floats.{Floats}
use realtime_room_middleware.Base.Int.{is_nonpositive, ltℤ}
use realtime_room_middleware.Player.Validate.{◌orelse◌, fail_if}
use realtime_room_middleware.Config.{
  Config, valid_modes, valid_resolver_types, valid_registry_types, valid_metrics_types, mode_dev,
  mode_single_vps, mode_distributed_k3s, resolver_single_node, resolver_redis, registry_redis,
  allocator_proximity, allocator_kmeans,
}

-- An error, by the setting that it is about.
pub data ConfigFault : Type 0 where
  deployment_mode http_addr_required http_addr_invalid : ConfigFault
  kcp_addr_required kcp_addr_invalid websocket_addr_invalid : ConfigFault
  tick_rate broadcast_rate broadcast_above_tick max_players : ConfigFault
  resolver_type single_node_addr_required resolver_redis_addr_required : ConfigFault
  registry_type registry_redis_addr_required metrics_type : ConfigFault
  cell_size visual_radius object_radius voice_radius full_avatar_radius low_lod_radius : ConfigFault
  voice_allocator participants_per_group recompute_interval : ConfigFault
  lease_ttl refresh_interval locks_per_user : ConfigFault
  redis_resolver_refused redis_registry_refused redis_resolver_required redis_registry_required :
      ConfigFault

-- `strings.HasPrefix(s, ":")`
unfoldable pub has_colon_prefix : String → Bool
has_colon_prefix String.[] = false
has_colon_prefix (String.◌∷◌ c s) = code c == b':'

-- `strings.Contains(s, ":")`
unfoldable pub contains_colon : String → Bool
contains_colon String.[] = false
contains_colon (String.◌∷◌ c s) = (code c == b':') || contains_colon s

-- Not a listen address.
unfoldable pub bad_address : String → Bool
bad_address s = not (has_colon_prefix s) && not (contains_colon s)

module _ {F : Type 0} where
  unfoldable pub validate_deployment : Config F → Option ConfigFault
  validate_deployment cfg = fail_if (not (valid_modes cfg.deployment.mode)) deployment_mode

  unfoldable pub validate_gateway : Config F → Option ConfigFault
  validate_gateway cfg =
      fail_if (is_empty cfg.gateway.http_addr) http_addr_required
      orelse fail_if (bad_address cfg.gateway.http_addr) http_addr_invalid

  unfoldable pub validate_game : Config F → Option ConfigFault
  validate_game cfg =
      fail_if (is_empty cfg.game.kcp_addr) kcp_addr_required
      orelse fail_if (bad_address cfg.game.kcp_addr) kcp_addr_invalid
      orelse fail_if
          (not (is_empty cfg.game.web_socket_addr) && bad_address cfg.game.web_socket_addr)
          websocket_addr_invalid
      orelse fail_if (is_nonpositive cfg.game.tick_rate_hz) tick_rate
      orelse fail_if (is_nonpositive cfg.game.broadcast_rate_hz) broadcast_rate
      orelse fail_if (ltℤ cfg.game.tick_rate_hz cfg.game.broadcast_rate_hz) broadcast_above_tick
      orelse fail_if (is_nonpositive cfg.game.max_players_per_room) max_players

  -- The switch on the type of the resolver.
  unfoldable pub resolver_needs : Config F → Option ConfigFault
  resolver_needs cfg =
      if same cfg.resolver.kind resolver_single_node
      then fail_if
          (not (same cfg.deployment.mode mode_dev) && is_empty cfg.resolver.single_node_addr)
          single_node_addr_required
      else if same cfg.resolver.kind resolver_redis
      then fail_if (is_empty cfg.resolver.redis_addr) resolver_redis_addr_required
      else none

  unfoldable pub validate_resolver : Config F → Option ConfigFault
  unfolding resolver_needs
  validate_resolver cfg =
      fail_if (not (valid_resolver_types cfg.resolver.kind)) resolver_type orelse resolver_needs cfg

  unfoldable pub validate_registry : Config F → Option ConfigFault
  validate_registry cfg =
      fail_if (not (valid_registry_types cfg.registry.kind)) registry_type
      orelse fail_if (same cfg.registry.kind registry_redis && is_empty cfg.registry.redis_addr)
          registry_redis_addr_required

  unfoldable pub validate_metrics : Config F → Option ConfigFault
  validate_metrics cfg = fail_if (not (valid_metrics_types cfg.metrics.kind)) metrics_type

  unfoldable pub validate_voice : Config F → Option ConfigFault
  validate_voice cfg =
      fail_if
        (not (same cfg.voice.allocator allocator_proximity)
          && not (same cfg.voice.allocator allocator_kmeans))
        voice_allocator
      orelse fail_if (is_nonpositive cfg.voice.max_participants_per_group) participants_per_group
      orelse fail_if (is_nonpositive cfg.voice.recompute_interval_ms) recompute_interval

  unfoldable pub validate_object_lock : Config F → Option ConfigFault
  validate_object_lock cfg =
      fail_if (is_nonpositive cfg.object_lock.lease_ttl_ms) lease_ttl
      orelse fail_if (is_nonpositive cfg.object_lock.refresh_interval_ms) refresh_interval
      orelse fail_if (is_nonpositive cfg.object_lock.max_locks_per_user) locks_per_user

  -- ValidateModeConstraints
  unfoldable pub validate_mode_constraints : Config F → Option ConfigFault
  validate_mode_constraints cfg =
      if same cfg.deployment.mode mode_single_vps
      then fail_if (same cfg.resolver.kind resolver_redis) redis_resolver_refused
        orelse fail_if (same cfg.registry.kind registry_redis) redis_registry_refused
      else if same cfg.deployment.mode mode_distributed_k3s
      then fail_if (not (same cfg.resolver.kind resolver_redis)) redis_resolver_required
        orelse fail_if (not (same cfg.registry.kind registry_redis)) redis_registry_required
      else none

module _ (fl : Floats) where
  open fl use {F32, lit32, le_f32}

  -- `v <= 0`
  abbrev pub not_positive : F32 → Bool
  not_positive v = le_f32 v (lit32 0)

  unfoldable pub validate_spatial : Config F32 → Option ConfigFault
  validate_spatial cfg = fail_if (not_positive cfg.spatial.cell_size_m) cell_size

  unfoldable pub validate_interest : Config F32 → Option ConfigFault
  validate_interest cfg =
      fail_if (not_positive cfg.interest.visual_radius_m) visual_radius
      orelse fail_if (not_positive cfg.interest.object_radius_m) object_radius
      orelse fail_if (not_positive cfg.interest.voice_radius_m) voice_radius
      orelse fail_if (not_positive cfg.interest.full_avatar_radius_m) full_avatar_radius
      orelse fail_if (not_positive cfg.interest.low_lod_radius_m) low_lod_radius

  -- Validate
  unfoldable pub validate : Config F32 → Option ConfigFault
  validate cfg =
      validate_deployment cfg
      orelse validate_gateway cfg
      orelse validate_game cfg
      orelse validate_resolver cfg
      orelse validate_registry cfg
      orelse validate_metrics cfg
      orelse validate_spatial cfg
      orelse validate_interest cfg
      orelse validate_voice cfg
      orelse validate_object_lock cfg
