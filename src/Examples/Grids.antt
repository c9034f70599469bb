-- ===== src/Examples/Grids.antt =====
-- Runs of the spatial index and of the cluster allocator, over whole numbers.
use realtime_room_middleware.Base.{
  ℕ, ◌*◌, ◌≤◌, ◌<◌, ◌≡◌, ◌↔◌, refl, true, not, ◌&&◌, none, some, List, [], ◌∷◌, listed, same,
  string_discrete, arith,
}
use realtime_room_middleware.Base.Map.{lookup, string_key, nat_key}
use realtime_room_middleware.Base.Result.{ok}
use realtime_room_middleware.Player.{new_player_state}
use realtime_room_middleware.Spatial.{
  GridSpatialHash, SpatialConfig, CellEntry, EntityPosition, new_grid_spatial_hash, update, place,
  query_radius, within, validate_position, to_cell_coord, cell_radius, position_at,
}
use realtime_room_middleware.Spatial.Grid.{
  Agrees, Updated, GridCall, puts, drops, run, after, run-Agrees, update-Updated,
}
use realtime_room_middleware.Spatial.Query.{IsAround, query_radius_iff}
use realtime_room_middleware.Cluster.{ClusterPlayer, ClusterOutput, compute_k, validate_config}
use realtime_room_middleware.Cluster.KMeans.{
  compute, cluster_valid, build_output, zeros, filter_valid_players,
}
use realtime_room_middleware.Cluster.KMeans.Bounds.{compute_k-bounds, Covers, compute-Covers}
use realtime_room_middleware.Cluster.KMeans.Partition.{AgreesAt, Once, compute-AgreesAt}
use realtime_room_middleware.Room.{Room, default_cluster_config, new_room, with_defaults}
use realtime_room_middleware.Room.Broadcast.{visible_players}
use realtime_room_middleware.Room.Broadcast.Visible.{together, visible_players-clusters}
use realtime_room_middleware.Examples.Numbers.{whole_numbers}
use realtime_room_middleware.Examples.Rooms.{empty_room}

abbrev config : SpatialConfig ℕ
config = record { cell_size_m = 10; max_world_coord = 100 }

abbrev grid_calls : List (GridCall ℕ)
grid_calls =
    puts "a" (position_at 1 1)
    ∷ puts "b" (position_at 25 3)
    ∷ puts "a" (position_at 12 1)
    ∷ drops "b"
    ∷ []

abbrev grid : GridSpatialHash ℕ
grid = run whole_numbers (new_grid_spatial_hash whole_numbers config) grid_calls

run-Agrees_example : Agrees grid
run-Agrees_example = run-Agrees whole_numbers config grid_calls

-- A grid of one entity.
abbrev one_entity : GridSpatialHash ℕ
one_entity =
    run whole_numbers (new_grid_spatial_hash whole_numbers config) (puts "a" (position_at 1 1) ∷ [])

one_entity-Agrees : Agrees one_entity
one_entity-Agrees = run-Agrees whole_numbers config (puts "a" (position_at 1 1) ∷ [])

abbrev spot : EntityPosition ℕ
spot = position_at 12 1

spot_valid : validate_position whole_numbers one_entity spot ≡ none
unfolding run after update place validate_position new_grid_spatial_hash lookup
spot_valid = refl

update-Updated_example :
    Updated one_entity "a"
      (record { coord = to_cell_coord whole_numbers spot one_entity.cell_size; pos = spot })
      (update whole_numbers one_entity "a" spot)
update-Updated_example =
    update-Updated whole_numbers one_entity "a" spot one_entity-Agrees spot_valid

query_radius_iff_example : (listed "a" (query_radius whole_numbers one_entity spot 30) ≡ true) ↔ (
    (e : CellEntry ℕ) × (lookup "a" one_entity.entities ≡ some e)
    × (within whole_numbers spot 30 e.pos ≡ true)
    × IsAround
        (to_cell_coord whole_numbers spot one_entity.cell_size)
        (cell_radius whole_numbers one_entity 30)
        e.coord)
query_radius_iff_example =
    query_radius_iff whole_numbers one_entity spot 30 "a" one_entity-Agrees refl spot_valid

compute_k-bounds_example : (0 < compute_k 17 8) × (compute_k 17 8 ≤ 17) × (17 ≤ compute_k 17 8 * 8)
compute_k-bounds_example = compute_k-bounds 17 8 (omega arith) (omega arith)

abbrev two_players : List (ClusterPlayer ℕ)
two_players =
    (record { player_id = "ann"; position = position_at 1 1 })
    ∷ (record { player_id = "bob"; position = position_at 3 2 })
    ∷ []

abbrev output : ClusterOutput ℕ
output = cluster_valid whole_numbers none two_players (default_cluster_config whole_numbers)

output_made :
    compute whole_numbers none two_players (default_cluster_config whole_numbers) ≡ ok output
unfolding compute validate_config build_output filter_valid_players zeros string_discrete
output_made = refl

two_players-Once : Once two_players
unfolding string_discrete
two_players-Once = (refl, (refl, tt))

compute-Covers_example :
    Covers whole_numbers
      (filter_valid_players whole_numbers two_players (default_cluster_config whole_numbers))
      output
      "ann"
compute-Covers_example =
    compute-Covers whole_numbers none two_players (default_cluster_config whole_numbers) output
      "ann" output_made

compute-AgreesAt_example : AgreesAt output "ann" 0
compute-AgreesAt_example =
    compute-AgreesAt whole_numbers none two_players (default_cluster_config whole_numbers) output
      "ann" 0 two_players-Once output_made

abbrev clustered_room : Room ℕ
clustered_room = record empty_room { cluster_output = output }

clusters_on : clustered_room.config.cluster_config.enabled ≡ true
unfolding new_room with_defaults
clusters_on = refl

clustered_room_made :
    compute whole_numbers none two_players clustered_room.config.cluster_config ≡ ok output
unfolding compute validate_config build_output filter_valid_players zeros string_discrete new_room
    with_defaults
clustered_room_made = refl

visible_players-clusters_example :
    listed "bob" (
      visible_players whole_numbers clustered_room "ann"
        (new_player_state whole_numbers "ann" "ann" 0))
    ≡ (not (same "ann" "bob") && together output "ann" "bob")
visible_players-clusters_example =
    visible_players-clusters whole_numbers clustered_room none two_players "ann" "bob"
      (new_player_state whole_numbers "ann" "ann" 0) clusters_on two_players-Once
      clustered_room_made
