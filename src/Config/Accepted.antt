-- ===== src/Config/Accepted.antt =====
-- Which configurations are accepted (internal/config/config.go).
use text.Mathlib.TextEquality.{eq_iff}
use realtime_room_middleware.Base.{
  ◌≡◌, ◌≢◌, ◌↔◌, ◌⊎◌, refl, true, false, Option, none, some, String, arith, not,
}
use realtime_room_middleware.Base.Floats.{Floats}
use realtime_room_middleware.Base.Int.{ℤ, pos, negsuc, ◌≤ℤ◌, ltℤ, is_nonpositive}
use realtime_room_middleware.Player.Validate.{◌orelse◌}
use realtime_room_middleware.Config.{
  Config, mode_dev, mode_single_vps, mode_distributed_k3s, resolver_single_node, resolver_redis,
  registry_memory, registry_redis, metrics_log, metrics_prometheus, allocator_proximity,
  allocator_kmeans,
}
use realtime_room_middleware.Config.Validate.{
  contains_colon, has_colon_prefix, bad_address, validate_deployment, validate_gateway,
  validate_game, validate_resolver, validate_registry, validate_metrics, validate_voice,
  validate_object_lock, validate_mode_constraints, not_positive, validate_spatial,
  validate_interest, validate,
}

prefix-contains : (s : String) → has_colon_prefix s ≡ true → contains_colon s ≡ true
unfolding has_colon_prefix contains_colon
prefix-contains String.[] h = h
prefix-contains (String.◌∷◌ c s) h = rw h

pub bad_address_lem : (s : String) → bad_address s ≡ not (contains_colon s)
unfolding bad_address
bad_address_lem s = ground (arith, prefix-contains s)

pub contains_colon-empty : contains_colon "" ≡ false
unfolding contains_colon
contains_colon-empty = refl

pub nonpositive_iff : (z : ℤ) → (is_nonpositive z ≡ false) ↔ (pos 1 ≤ℤ z)
nonpositive_iff (pos n) = ground arith
nonpositive_iff (negsuc n) = ground arith

pub ltℤ_iff : (a b : ℤ) → (ltℤ a b ≡ false) ↔ (b ≤ℤ a)
ltℤ_iff (pos m) (pos n) = ground arith
ltℤ_iff (pos m) (negsuc n) = ground arith
ltℤ_iff (negsuc m) (pos n) = ground arith
ltℤ_iff (negsuc m) (negsuc n) = ground arith

redis_ne_single_node : resolver_redis ≢ resolver_single_node
redis_ne_single_node = ground (arith, eq_iff resolver_redis resolver_single_node)

redis_ne_memory : registry_redis ≢ registry_memory
redis_ne_memory = ground (arith, eq_iff registry_redis registry_memory)

dev_ne_single : mode_dev ≢ mode_single_vps
dev_ne_single = ground (arith, eq_iff mode_dev mode_single_vps)

distributed_ne_single : mode_distributed_k3s ≢ mode_single_vps
distributed_ne_single = ground (arith, eq_iff mode_distributed_k3s mode_single_vps)

module _ {F : Type 0} (cfg : Config F) where
  abbrev pub ModeIsKnown : Type 0
  ModeIsKnown =
      (cfg.deployment.mode ≡ mode_dev)
      ⊎ (cfg.deployment.mode ≡ mode_single_vps)
      ⊎ (cfg.deployment.mode ≡ mode_distributed_k3s)

  -- The rates and limits of the game server, and addresses with a colon.
  pub record GameIsValid : Type 0 where
    pub kcp : contains_colon cfg.game.kcp_addr ≡ true
    pub websocket :
        (cfg.game.web_socket_addr ≡ "") ⊎ (contains_colon cfg.game.web_socket_addr ≡ true)
    pub broadcast : pos 1 ≤ℤ cfg.game.broadcast_rate_hz
    pub rates : cfg.game.broadcast_rate_hz ≤ℤ cfg.game.tick_rate_hz
    pub players : pos 1 ≤ℤ cfg.game.max_players_per_room

  -- A single node, with an address outside of dev mode, or redis with an address.
  abbrev pub ResolverIsValid : Type 0
  ResolverIsValid =
      ((cfg.resolver.kind ≡ resolver_single_node)
        × ((cfg.deployment.mode ≡ mode_dev) ⊎ (cfg.resolver.single_node_addr ≢ "")))
      ⊎ ((cfg.resolver.kind ≡ resolver_redis) × (cfg.resolver.redis_addr ≢ ""))

  abbrev pub RegistryIsValid : Type 0
  RegistryIsValid =
      (cfg.registry.kind ≡ registry_memory)
      ⊎ ((cfg.registry.kind ≡ registry_redis) × (cfg.registry.redis_addr ≢ ""))

  abbrev pub MetricsIsValid : Type 0
  MetricsIsValid = (cfg.metrics.kind ≡ metrics_log) ⊎ (cfg.metrics.kind ≡ metrics_prometheus)

  pub record VoiceIsValid : Type 0 where
    pub allocator :
        (cfg.voice.allocator ≡ allocator_proximity) ⊎ (cfg.voice.allocator ≡ allocator_kmeans)
    pub participants : pos 1 ≤ℤ cfg.voice.max_participants_per_group
    pub interval : pos 1 ≤ℤ cfg.voice.recompute_interval_ms

  pub record LocksAreValid : Type 0 where
    pub lease : pos 1 ≤ℤ cfg.object_lock.lease_ttl_ms
    pub refresh : pos 1 ≤ℤ cfg.object_lock.refresh_interval_ms
    pub per_user : pos 1 ≤ℤ cfg.object_lock.max_locks_per_user

  validate_deployment_iff : (validate_deployment cfg ≡ none) ↔ ModeIsKnown
  unfolding validate_deployment
  validate_deployment_iff = ground arith

  validate_gateway_iff :
      (validate_gateway cfg ≡ none) ↔ (contains_colon cfg.gateway.http_addr ≡ true)
  unfolding validate_gateway
  validate_gateway_iff = ground (arith, bad_address_lem cfg.gateway.http_addr, contains_colon-empty)

  validate_game_iff : (validate_game cfg ≡ none) ↔ GameIsValid
  unfolding validate_game
  validate_game_iff = ground (
    arith,
    bad_address_lem cfg.game.kcp_addr,
    bad_address_lem cfg.game.web_socket_addr,
    contains_colon-empty,
    nonpositive_iff cfg.game.tick_rate_hz,
    nonpositive_iff cfg.game.broadcast_rate_hz,
    ltℤ_iff cfg.game.tick_rate_hz cfg.game.broadcast_rate_hz,
    nonpositive_iff cfg.game.max_players_per_room,
  )

  validate_resolver_iff : (validate_resolver cfg ≡ none) ↔ ResolverIsValid
  unfolding validate_resolver
  validate_resolver_iff = ground (arith, redis_ne_single_node)

  validate_registry_iff : (validate_registry cfg ≡ none) ↔ RegistryIsValid
  unfolding validate_registry
  validate_registry_iff = ground (arith, redis_ne_memory)

  validate_metrics_iff : (validate_metrics cfg ≡ none) ↔ MetricsIsValid
  unfolding validate_metrics
  validate_metrics_iff = ground arith

  validate_voice_iff : (validate_voice cfg ≡ none) ↔ VoiceIsValid
  unfolding validate_voice
  validate_voice_iff = ground (
    arith,
    nonpositive_iff cfg.voice.max_participants_per_group,
    nonpositive_iff cfg.voice.recompute_interval_ms,
  )

  validate_object_lock_iff : (validate_object_lock cfg ≡ none) ↔ LocksAreValid
  unfolding validate_object_lock
  validate_object_lock_iff = ground (
    arith,
    nonpositive_iff cfg.object_lock.lease_ttl_ms,
    nonpositive_iff cfg.object_lock.refresh_interval_ms,
    nonpositive_iff cfg.object_lock.max_locks_per_user,
  )

orelse_iff : {E : Type 0} (a b : Option E) → ((a orelse b) ≡ none) ↔ ((a ≡ none) × (b ≡ none))
orelse_iff none b = ground arith
orelse_iff (some e) b = ground arith

module _ (fl : Floats) (cfg : Config fl.F32) where
  -- A value that the program does not find to be 0 or less: a positive number, or NaN.
  abbrev pub Positive : fl.F32 → Type 0
  Positive v = not_positive fl v ≡ false

  pub record InterestIsValid : Type 0 where
    pub visual : Positive cfg.interest.visual_radius_m
    pub object : Positive cfg.interest.object_radius_m
    pub voice : Positive cfg.interest.voice_radius_m
    pub full_avatar : Positive cfg.interest.full_avatar_radius_m
    pub low_lod : Positive cfg.interest.low_lod_radius_m

  pub record IsValid : Type 0 where
    pub mode : ModeIsKnown cfg
    pub gateway : contains_colon cfg.gateway.http_addr ≡ true
    pub game : GameIsValid cfg
    pub resolver : ResolverIsValid cfg
    pub registry : RegistryIsValid cfg
    pub metrics : MetricsIsValid cfg
    pub spatial : Positive cfg.spatial.cell_size_m
    pub interest : InterestIsValid
    pub voice : VoiceIsValid cfg
    pub locks : LocksAreValid cfg

  validate_spatial_iff : (validate_spatial fl cfg ≡ none) ↔ Positive cfg.spatial.cell_size_m
  unfolding validate_spatial
  validate_spatial_iff = ground arith

  validate_interest_iff : (validate_interest fl cfg ≡ none) ↔ InterestIsValid
  unfolding validate_interest
  validate_interest_iff = ground arith

  -- Validate accepts a configuration exactly if: its mode is one of the three; its addresses hold a
  -- colon (the WebSocket address may be empty); 1 <= broadcast rate <= tick rate; the resolver is a
  -- single node, with an address outside of dev mode, or redis with an address; the registry is memory,
  -- or redis with an address; the metrics type and the allocator are known; no distance compares as 0 or
  -- less; and each limit and duration is at least 1.
  pub validate_iff : (validate fl cfg ≡ none) ↔ IsValid
  unfolding validate
  validate_iff = (
    λ h.
        let (a, h1) = (orelse_iff (validate_deployment cfg) _).0 h in
        let (b, h2) = (orelse_iff (validate_gateway cfg) _).0 h1 in
        let (c, h3) = (orelse_iff (validate_game cfg) _).0 h2 in
        let (d, h4) = (orelse_iff (validate_resolver cfg) _).0 h3 in
        let (e, h5) = (orelse_iff (validate_registry cfg) _).0 h4 in
        let (f, h6) = (orelse_iff (validate_metrics cfg) _).0 h5 in
        let (g, h7) = (orelse_iff (validate_spatial fl cfg) _).0 h6 in
        let (i, h8) = (orelse_iff (validate_interest fl cfg) _).0 h7 in
        let (j, k) = (orelse_iff (validate_voice cfg) _).0 h8 in
        record {
          mode = (validate_deployment_iff cfg).0 a;
          gateway = (validate_gateway_iff cfg).0 b;
          game = (validate_game_iff cfg).0 c;
          resolver = (validate_resolver_iff cfg).0 d;
          registry = (validate_registry_iff cfg).0 e;
          metrics = (validate_metrics_iff cfg).0 f;
          spatial = validate_spatial_iff.0 g;
          interest = validate_interest_iff.0 i;
          voice = (validate_voice_iff cfg).0 j;
          locks = (validate_object_lock_iff cfg).0 k;
        },
    λ v.
        rw
          (
            (validate_deployment_iff cfg).1 v.mode,
            (validate_gateway_iff cfg).1 v.gateway,
            (validate_game_iff cfg).1 v.game,
            (validate_resolver_iff cfg).1 v.resolver,
            (validate_registry_iff cfg).1 v.registry,
            (validate_metrics_iff cfg).1 v.metrics,
            validate_spatial_iff.1 v.spatial,
            validate_interest_iff.1 v.interest,
            (validate_voice_iff cfg).1 v.voice,
          )
          ((validate_object_lock_iff cfg).1 v.locks),
  )

  -- A configuration that passes Validate and ValidateModeConstraints is in dev mode; or in single-vps mode,
  -- with a single node at an address that is set, and the registry in memory; or in distributed-k3s
  -- mode, with redis for both and their addresses set.
  pub validate_mode_constraints_lem :
      validate fl cfg ≡ none
      → validate_mode_constraints cfg ≡ none
      → (cfg.deployment.mode ≡ mode_dev)
        ⊎ ((cfg.deployment.mode ≡ mode_single_vps)
            × (cfg.resolver.kind ≡ resolver_single_node)
            × (cfg.resolver.single_node_addr ≢ "")
            × (cfg.registry.kind ≡ registry_memory))
        ⊎ ((cfg.deployment.mode ≡ mode_distributed_k3s)
            × (cfg.resolver.kind ≡ resolver_redis)
            × (cfg.resolver.redis_addr ≢ "")
            × (cfg.registry.kind ≡ registry_redis)
            × (cfg.registry.redis_addr ≢ ""))
  unfolding validate_mode_constraints
  validate_mode_constraints_lem a c =
      let v = validate_iff.0 a in
      ground (
        arith, v.mode, v.resolver, v.registry, redis_ne_single_node, redis_ne_memory,
        distributed_ne_single, dev_ne_single,
      )
