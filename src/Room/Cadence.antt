-- ===== src/Room/Cadence.antt =====
-- When a room recomputes its clusters and when it broadcasts: shouldRecomputeCluster,
-- recomputeCluster and isBroadcastTick of internal/game/room/tick.go.
pub mod Rate
use realtime_room_middleware.Base.{
  ℕ, ◌/◌, ◌%◌, Bool, true, false, ◌||◌, ◌&&◌, Option, some, List, [], ◌∷◌, String, if◌then◌else◌,
  ◌==◌, leb,
}
use realtime_room_middleware.Base.Floats.{Floats}
use realtime_room_middleware.Base.Int.{ℤ, to_u32, pos_part, is_nonpositive}
use realtime_room_middleware.Base.Map.{Map}
use realtime_room_middleware.Base.Result.{Result, ok, err}
use realtime_room_middleware.Base.Word.{u32_mod, sub32}
use realtime_room_middleware.Player.{PlayerState}
use realtime_room_middleware.Spatial.{position_at}
use realtime_room_middleware.Cluster.{ClusterConfig, ClusterPlayer, ClusterOutput, ClusterError}
use realtime_room_middleware.Cluster.KMeans.{compute}
use realtime_room_middleware.Room.{Room, RoomConfig}

-- isBroadcastTick. `ratio == 0` is the case of a ratio that is a multiple of 2^32.
unfoldable pub is_broadcast_tick : ℤ → ℤ → ℕ → Bool
is_broadcast_tick tick_rate broadcast_rate tick =
    let ratio = (pos_part tick_rate / pos_part broadcast_rate) % u32_mod in
    if is_nonpositive broadcast_rate || is_nonpositive tick_rate
    then false
    else if leb (pos_part tick_rate) (pos_part broadcast_rate)
    then true
    else if ratio == 0
    then true
    else tick % ratio == 0

module _ {F : Type 0} where
  -- The players that recomputeCluster gives the allocator.
  unfoldable pub cluster_players : Map String (PlayerState F) → List (ClusterPlayer F)
  cluster_players [] = []
  cluster_players ((pid, ps) ∷ m) =
      (record {
        player_id = pid;
        position = position_at ps.transform.position.x ps.transform.position.z;
      })
      ∷ cluster_players m

module _ (fl : Floats) where
  open fl use {F32, lit32, lt_f32}

  -- shouldRecomputeCluster
  unfoldable pub should_recompute_cluster : Room F32 → ℕ → Bool
  should_recompute_cluster r tick =
      let cfg = r.config.cluster_config in
      cfg.enabled
      && (leb (to_u32 cfg.recluster_interval_ticks) (sub32 tick r.last_cluster_tick)
          || lt_f32 cfg.movement_threshold r.max_movement
          || r.membership_dirty)

  -- What recomputeCluster does with the allocator's answer.
  unfoldable pub commit_clusters : Room F32 → ℕ → Result ClusterError (ClusterOutput F32) → Room F32
  commit_clusters r tick (err _) = r
  commit_clusters r tick (ok output) = record r {
    prev_output = some output;
    cluster_output = output;
    last_cluster_tick = tick;
    max_movement = lit32 0;
    membership_dirty = false;
  }

  -- recomputeCluster
  unfoldable pub recompute_cluster : Room F32 → ℕ → Room F32
  unfolding commit_clusters cluster_players
  recompute_cluster r tick =
      commit_clusters r tick
        (compute fl r.prev_output (cluster_players r.players) r.config.cluster_config)
