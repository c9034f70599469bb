-- ===== src/Examples/Configs.antt =====
-- A configuration for one server.
use realtime_room_middleware.Base.{◌≡◌, ◌↔◌, none, ℕ}
use realtime_room_middleware.Base.Int.{pos}
use realtime_room_middleware.Config.{
  Config, mode_single_vps, resolver_single_node, registry_memory, metrics_log, allocator_proximity,
}
use realtime_room_middleware.Config.Validate.{validate}
use realtime_room_middleware.Config.Accepted.{IsValid, validate_iff}
use realtime_room_middleware.Examples.Numbers.{whole_numbers}

abbrev one_server : Config ℕ
one_server = record {
  deployment = record { mode = mode_single_vps };
  gateway = record { http_addr = ":8080" };
  game = record {
    kcp_addr = ":9000";
    web_socket_addr = "";
    tick_rate_hz = pos 20;
    broadcast_rate_hz = pos 10;
    max_players_per_room = pos 200;
  };
  protocol = record { version = pos 1; serialization = "msgpack"; transport = "kcp" };
  resolver = record {
    kind = resolver_single_node;
    single_node_addr = "10.0.0.1:9000";
    single_node_web_socket_url = "";
    redis_addr = "";
  };
  registry = record { kind = registry_memory; redis_addr = "" };
  spatial = record { cell_size_m = 10 };
  interest = record {
    visual_radius_m = 30;
    object_radius_m = 20;
    voice_radius_m = 15;
    full_avatar_radius_m = 10;
    low_lod_radius_m = 30;
  };
  voice = record {
    allocator = allocator_proximity;
    max_participants_per_group = pos 8;
    recompute_interval_ms = pos 500;
  };
  object_lock = record {
    lease_ttl_ms = pos 5000;
    refresh_interval_ms = pos 2000;
    max_locks_per_user = pos 2;
  };
  metrics = record { kind = metrics_log };
}

validate_iff_example : (validate whole_numbers one_server ≡ none) ↔ IsValid whole_numbers one_server
validate_iff_example = validate_iff whole_numbers one_server
