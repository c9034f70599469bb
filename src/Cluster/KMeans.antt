-- ===== src/Cluster/KMeans.antt =====
-- internal/game/cluster/kmeans.go. `centroids[0]` of no centroids, which panics, is read as index 0:
-- `Compute` always has at least one centroid.
pub mod Bounds
pub mod Partition
use Prim.Native.String.{compare}
use Prim.Native.Nat.{Ordering}
use realtime_room_middleware.Base.{
  ℕ, zero, suc, ◌+◌, Bool, true, false, ◌||◌, not, Option, none, some, List, [], ◌∷◌, ◌++◌, String,
  length, if◌then◌else◌, ◌==◌, is_empty,
}
use realtime_room_middleware.Base.Floats.{Floats}
use realtime_room_middleware.Base.Int.{pos_part}
use realtime_room_middleware.Base.Map.{Map, lookup, insert, string_key, nat_key}
use realtime_room_middleware.Base.Result.{Result, ok, err}
use realtime_room_middleware.Spatial.{EntityPosition}
use realtime_room_middleware.Cluster.{
  ClusterConfig, ClusterPlayer, ClusterOutput, ClusterError, empty_output, validate_config,
  compute_k, take, or_nil,
}

-- `a.PlayerID < b.PlayerID`, byte by byte.
abbrev id_less : String → String → Bool
id_less a b = elim (compare a b) [ Ordering.lt ↦ true | _ ↦ false ]

module _ {F : Type 0} where
  -- sort.Slice by player ID. The IDs are the keys of a map, so the order is unique.
  insert_sorted : ClusterPlayer F → List (ClusterPlayer F) → List (ClusterPlayer F)
  insert_sorted p [] = p ∷ []
  insert_sorted p (q ∷ qs) =
      let rest = q ∷ insert_sorted p qs in
      if id_less p.player_id q.player_id then p ∷ q ∷ qs else rest

  sort_by_id : List (ClusterPlayer F) → List (ClusterPlayer F)
  unfolding insert_sorted
  sort_by_id [] = []
  sort_by_id (p ∷ ps) = insert_sorted p (sort_by_id ps)

  positions : List (ClusterPlayer F) → List (EntityPosition F)
  positions [] = []
  positions (p ∷ ps) = p.position ∷ positions ps

  -- initCentroids
  unfoldable pub init_centroids : List (ClusterPlayer F) → ℕ → List (EntityPosition F)
  unfolding sort_by_id positions
  init_centroids players k = positions (take k (sort_by_id players))

  -- out.Centroids, from the index `c` on
  number : ℕ → List (EntityPosition F) → Map ℕ (EntityPosition F)
  number c [] = []
  number c (q ∷ qs) = insert c q (number (suc c) qs)

  -- The loop of buildOutput over the players.
  fill : List (ClusterPlayer F) → List ℕ → ClusterOutput F → ClusterOutput F
  fill [] _ out = out
  fill (p ∷ ps) [] out = out
  fill (p ∷ ps) (c ∷ cs) out = fill ps cs (record out {
    assignments = insert p.player_id c out.assignments;
    clusters = insert c (or_nil (lookup c out.clusters) ++ p.player_id ∷ []) out.clusters;
  })

  -- buildOutput
  unfoldable pub build_output :
      List (ClusterPlayer F) → List ℕ → List (EntityPosition F) → ℕ → ClusterOutput F
  unfolding fill number
  build_output players assignments centroids k =
      fill players assignments
        (record { assignments = []; clusters = []; centroids = number 0 centroids; k = k })

  at_index : List (EntityPosition F) → ℕ → Option (EntityPosition F)
  at_index [] i = none
  at_index (q ∷ qs) zero = some q
  at_index (q ∷ qs) (suc i) = at_index qs i

  -- `make([]int, n)`
  unfoldable pub zeros : List (ClusterPlayer F) → List ℕ
  zeros [] = []
  zeros (p ∷ ps) = 0 ∷ zeros ps

module _ (fl : Floats) where
  open fl use {
    F32, F64, lit32, to64, to32, of_int, is_nan, is_inf, sub_f32, add_f64, mul_f64, div_f64, lt_f64,
    le_f32, lt_f32, sqrt,
  }

  -- isInvalidPos
  unfoldable pub is_invalid_pos : EntityPosition F32 → Bool
  is_invalid_pos p =
      is_nan (to64 p.x) || is_inf (to64 p.x) || is_nan (to64 p.z) || is_inf (to64 p.z)

  -- filterValidPlayers, with room for `left` more players: the loop stops at MaxPlayersPerRoom.
  filter_valid : ℕ → List (ClusterPlayer F32) → List (ClusterPlayer F32)
  unfolding is_invalid_pos
  filter_valid zero ps = []
  filter_valid (suc left) [] = []
  filter_valid (suc left) (p ∷ ps) =
      let skip = filter_valid (suc left) ps in
      let keep = p ∷ filter_valid left ps in
      if is_empty p.player_id || is_invalid_pos p.position then skip else keep

  unfoldable pub filter_valid_players :
      List (ClusterPlayer F32) → ClusterConfig F32 → List (ClusterPlayer F32)
  unfolding filter_valid
  filter_valid_players players cfg = filter_valid (pos_part cfg.max_players_per_room) players

  -- squaredDist
  unfoldable pub squared_dist : EntityPosition F32 → EntityPosition F32 → F64
  squared_dist a b =
      let dx = to64 (sub_f32 a.x b.x) in
      let dz = to64 (sub_f32 a.z b.z) in add_f64 (mul_f64 dx dx) (mul_f64 dz dz)

  -- euclideanDist
  unfoldable pub euclidean_dist : EntityPosition F32 → EntityPosition F32 → F32
  euclidean_dist a b =
      let dx = to64 (sub_f32 a.x b.x) in
      let dz = to64 (sub_f32 a.z b.z) in to32 (sqrt (add_f64 (mul_f64 dx dx) (mul_f64 dz dz)))

  -- The loop of nearestCentroidIndex: `best` so far, and the index of the next centroid.
  unfoldable pub nearest_from : EntityPosition F32 → ℕ → F64 → ℕ → List (EntityPosition F32) → ℕ
  nearest_from p best best_dist i [] = best
  nearest_from p best best_dist i (q ∷ qs) =
      let closer = lt_f64 (squared_dist p q) best_dist in
      nearest_from p (if closer then i else best) (if closer then squared_dist p q else best_dist)
        (suc i) qs

  -- nearestCentroidIndex
  unfoldable pub nearest_centroid_index : EntityPosition F32 → List (EntityPosition F32) → ℕ
  unfolding nearest_from
  nearest_centroid_index p [] = 0
  nearest_centroid_index p (q ∷ qs) = nearest_from p 0 (squared_dist p q) 1 qs

  -- assignNearest: the new assignments, and whether one changed.
  unfoldable pub assign_nearest :
      List (ClusterPlayer F32) → List (EntityPosition F32) → List ℕ → List ℕ × Bool
  unfolding nearest_centroid_index
  assign_nearest [] centroids assignments = ([], false)
  assign_nearest (p ∷ ps) centroids [] = ([], false)
  assign_nearest (p ∷ ps) centroids (c ∷ cs) =
      let nearest = nearest_centroid_index p.position centroids in
      let rest = assign_nearest ps centroids cs in (nearest ∷ rest.0, not (c == nearest) || rest.1)

  -- sumX, sumZ and count at one cluster.
  record Sum : Type 0 where
    x : F64
    z : F64
    n : ℕ

  sum_cluster : ℕ → List (ClusterPlayer F32) → List ℕ → Sum → Sum
  sum_cluster c [] _ s = s
  sum_cluster c (p ∷ ps) [] s = s
  sum_cluster c (p ∷ ps) (a ∷ as') s = sum_cluster c ps as' (
      if a == c
      then record {
        x = add_f64 s.x (to64 p.position.x);
        z = add_f64 s.z (to64 p.position.z);
        n = s.n + 1;
      }
      else s)

  mean : Sum → EntityPosition F32 → EntityPosition F32
  mean s old =
      if s.n == 0
      then old
      else record { x = to32 (div_f64 s.x (of_int s.n)); z = to32 (div_f64 s.z (of_int s.n)) }

  -- recomputeCentroids, from the cluster `c` on.
  unfoldable pub recompute_from :
      ℕ → List (ClusterPlayer F32) → List ℕ → List (EntityPosition F32) → List (EntityPosition F32)
  unfolding sum_cluster mean
  recompute_from c players assignments [] = []
  recompute_from c players assignments (q ∷ qs) =
      mean (sum_cluster c players assignments (record { x = of_int 0; z = of_int 0; n = 0 })) q
      ∷ recompute_from (suc c) players assignments qs

  -- The iterations of Compute: at most `fuel` of them, until nothing changes.
  unfoldable pub iterate :
      ℕ
      → List (ClusterPlayer F32)
      → List (EntityPosition F32)
      → List ℕ
      → List (EntityPosition F32) × List ℕ
  unfolding assign_nearest recompute_from
  iterate zero players centroids assignments = (centroids, assignments)
  iterate (suc fuel) players centroids assignments =
      let step = assign_nearest players centroids assignments in
      let centroids' = recompute_from 0 players step.0 centroids in
      let rest = iterate fuel players centroids' step.0 in
      if step.1 then rest else (centroids', step.0)

  -- applyHysteresis, for one player.
  settle : ClusterOutput F32 → F32 → List (EntityPosition F32) → ClusterPlayer F32 → ℕ → ℕ
  unfolding nearest_centroid_index at_index
  settle prev hysteresis centroids p c = elim (lookup p.player_id prev.assignments) [
    | none ↦ c
    | some prev_id ↦ elim (lookup prev_id prev.centroids) [
      | none ↦ c
      | some prev_centroid ↦ elim (at_index centroids c) [
        | none ↦ c
        | some new_centroid ↦
            if le_f32 (sub_f32 (euclidean_dist p.position prev_centroid) hysteresis)
              (euclidean_dist p.position new_centroid)
            then nearest_centroid_index prev_centroid centroids
            else c
      ]
    ]
  ]

  -- applyHysteresis
  unfoldable pub apply_hysteresis :
      List (ClusterPlayer F32)
      → List ℕ
      → List (EntityPosition F32)
      → ClusterOutput F32
      → F32
      → List ℕ
  unfolding settle
  apply_hysteresis [] assignments centroids prev hysteresis = []
  apply_hysteresis (p ∷ ps) [] centroids prev hysteresis = []
  apply_hysteresis (p ∷ ps) (c ∷ cs) centroids prev hysteresis =
      settle prev hysteresis centroids p c ∷ apply_hysteresis ps cs centroids prev hysteresis

  -- The hysteresis pass, made when there is a previous output and a margin.
  after_hysteresis :
      Option (ClusterOutput F32)
      → F32
      → List (ClusterPlayer F32)
      → List ℕ
      → List (EntityPosition F32)
      → List ℕ
  unfolding apply_hysteresis
  after_hysteresis none hysteresis players assignments centroids = assignments
  after_hysteresis (some prev) hysteresis players assignments centroids =
      if lt_f32 (lit32 0) hysteresis
      then apply_hysteresis players assignments centroids prev hysteresis
      else assignments

  -- Compute, once some players are valid.
  unfoldable pub cluster_valid :
      Option (ClusterOutput F32) → List (ClusterPlayer F32) → ClusterConfig F32 → ClusterOutput F32
  unfolding iterate after_hysteresis
  cluster_valid prev valid cfg =
      let k = compute_k (length valid) (pos_part cfg.target_cluster_size) in
      let run =
        iterate (pos_part cfg.max_iterations) valid (init_centroids valid k) (zeros valid) in
      build_output valid (after_hysteresis prev cfg.membership_hysteresis valid run.1 run.0) run.0 k

  compute_valid :
      Option (ClusterOutput F32) → List (ClusterPlayer F32) → ClusterConfig F32 → ClusterOutput F32
  unfolding cluster_valid
  compute_valid prev [] cfg = empty_output
  compute_valid prev (p ∷ ps) cfg = cluster_valid prev (p ∷ ps) cfg

  -- Compute: the output, which is also what the allocator retains for the next call.
  unfoldable pub compute :
      Option (ClusterOutput F32)
      → List (ClusterPlayer F32)
      → ClusterConfig F32
      → Result ClusterError (ClusterOutput F32)
  unfolding compute_valid
  compute prev players cfg = elim (validate_config cfg) [
    | some e ↦ err e
    | none ↦ ok (compute_valid prev (filter_valid_players players cfg) cfg)
  ]
