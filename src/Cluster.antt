-- ===== src/Cluster.antt =====
-- internal/game/cluster: K-means groups of players (types.go, allocator.go, kmeans.go). A slice of
-- assignments runs parallel to the slice of players, and `int` indexes are numbers.
pub mod KMeans
use realtime_room_middleware.Base.{
  ℕ, zero, suc, ◌+◌, ◌-◌, ◌*◌, ◌/◌, ◌≡◌, Bool, true, false, ◌||◌, ◌&&◌, not, Option, none, some,
  List, [], ◌∷◌, ◌++◌, String, length, if◌then◌else◌, ◌==◌, ltb, leb, is_empty,
}
use realtime_room_middleware.Base.Floats.{Floats}
use realtime_room_middleware.Base.Int.{ℤ, pos, negsuc, is_nonpositive, pos_part}
use realtime_room_middleware.Base.Map.{Map, lookup, insert, string_key, nat_key}
use realtime_room_middleware.Base.Result.{Result, ok, err}
use realtime_room_middleware.Spatial.{EntityPosition}

pub record ClusterConfig (F : Type 0) : Type 0 where
  pub enabled : Bool
  pub target_cluster_size : ℤ
  pub max_cluster_radius : F
  pub recluster_interval_ticks : ℤ
  pub movement_threshold : F
  pub membership_hysteresis : F
  pub max_iterations : ℤ
  pub max_players_per_room : ℤ

pub record ClusterPlayer (F : Type 0) : Type 0 where
  pub player_id : String
  pub position : EntityPosition F

pub record ClusterOutput (F : Type 0) : Type 0 where
  pub assignments : Map String ℕ
  pub clusters : Map ℕ (List String)
  pub centroids : Map ℕ (EntityPosition F)
  pub k : ℕ

pub data ClusterError : Type 0 where
  target_cluster_size_zero max_iterations_zero max_players_zero : ClusterError

-- emptyOutput
abbrev pub empty_output : {F : Type 0} → ClusterOutput F
empty_output = record { assignments = []; clusters = []; centroids = []; k = 0 }

-- validateConfig
unfoldable pub validate_config : {F : Type 0} → ClusterConfig F → Option ClusterError
validate_config cfg =
    if is_nonpositive cfg.target_cluster_size
    then some target_cluster_size_zero
    else if is_nonpositive cfg.max_iterations
    then some max_iterations_zero
    else if is_nonpositive cfg.max_players_per_room
    then some max_players_zero
    else none

-- computeK
unfoldable pub compute_k : ℕ → ℕ → ℕ
compute_k n target =
    let k = (n + target - 1) / target in
    let k' = if ltb k 1 then 1 else k in if ltb n k' then n else k'

abbrev pub get_or {ℓ} : {A : Type ℓ} → List A → ℕ → A → A
get_or [] i d = d
get_or (x ∷ xs) zero d = x
get_or (x ∷ xs) (suc i) d = get_or xs i d

abbrev pub take {ℓ} : {A : Type ℓ} → ℕ → List A → List A
take zero xs = []
take (suc n) [] = []
take (suc n) (x ∷ xs) = x ∷ take n xs

-- `append(out.Clusters[cid], id)`
abbrev pub or_nil : Option (List String) → List String
or_nil none = []
or_nil (some l) = l
