-- ===== src/Room/Broadcast/Visible.antt =====
-- Whom a viewer sees: the interest part of buildDeltaBatches (internal/game/room/room.go).
use realtime_room_middleware.Base.{
  ℕ, ◌≡◌, Bool, true, false, ◌&&◌, not, Option, none, some, List, [], ◌∷◌, String, listed, same,
  inl, inr, Option-cases, arith,
}
use realtime_room_middleware.Base.Floats.{Floats}
use realtime_room_middleware.Base.Map.{lookup, string_key, nat_key}
use realtime_room_middleware.Base.Result.{ok}
use realtime_room_middleware.Player.{PlayerState}
use realtime_room_middleware.Spatial.{query_radius, position_at}
use realtime_room_middleware.Interest.{without, query_visible_players}
use realtime_room_middleware.Cluster.{ClusterOutput, ClusterPlayer, or_nil}
use realtime_room_middleware.Cluster.KMeans.{compute}
use realtime_room_middleware.Cluster.KMeans.Partition.{is_cluster, AgreesAt, Once, compute-AgreesAt}
use realtime_room_middleware.Room.{Room}
use realtime_room_middleware.Room.Broadcast.{cluster_visible, visible_players}

listed-without :
    (v id : String) (ids : List String)
    → listed id (without v ids) ≡ (not (same v id) && listed id ids)
unfolding without
listed-without v id [] = ground arith
listed-without v id (x ∷ xs) = ground (arith, listed-without v id xs)

module _ {F : Type 0} where
  -- Both players are assigned to one cluster.
  abbrev pub together : ClusterOutput F → String → String → Bool
  together out p q = elim (lookup p out.assignments) [
    | none ↦ false
    | some c ↦ is_cluster c (lookup q out.assignments)
  ]

  listed-cluster_visible :
      (out : ClusterOutput F) (p q : String)
      → ((id : String) (c : ℕ) → AgreesAt out id c)
      → listed q (cluster_visible out p) ≡ (not (same p q) && together out p q)
  unfolding cluster_visible
  listed-cluster_visible out p q h = elim (Option-cases (lookup p out.assignments)) [
    | inl e ↦ ground arith
    | inr (c, e) ↦ ground (arith, h q c, listed-without p q (or_nil (lookup c out.clusters)))
  ]

module _ (fl : Floats) where
  open fl use {F32}

  -- With clusters enabled, and a cluster output that Compute made from players with different IDs, a
  -- viewer sees exactly the other players of its cluster.
  pub visible_players-clusters :
      (r : Room F32) (prev : Option (ClusterOutput F32)) (players : List (ClusterPlayer F32))
      (p q : String) (ps : PlayerState F32)
      → r.config.cluster_config.enabled ≡ true
      → Once players
      → compute fl prev players r.config.cluster_config ≡ ok r.cluster_output
      → listed q (visible_players fl r p ps) ≡ (not (same p q) && together r.cluster_output p q)
  unfolding visible_players
  visible_players-clusters r prev players p q ps on once made =
      rw (on, visible_players)
        (listed-cluster_visible r.cluster_output p q (λ id c.
          compute-AgreesAt fl prev players r.config.cluster_config r.cluster_output id c once made))

  -- With clusters disabled, a viewer sees exactly the entities, other than itself, that QueryRadius
  -- finds within the visual radius of its position.
  pub visible_players-radius :
      (r : Room F32) (p q : String) (ps : PlayerState F32)
      → r.config.cluster_config.enabled ≡ false
      → listed q (visible_players fl r p ps) ≡ (
          not (same p q)
          && listed q (
              query_radius fl r.spatial
                (position_at ps.transform.position.x ps.transform.position.z)
                r.interest_config.visual_radius_m))
  unfolding visible_players query_visible_players
  visible_players-radius r p q ps off =
      rw (off, visible_players)
        (listed-without p q (
          query_radius fl r.spatial (position_at ps.transform.position.x ps.transform.position.z)
            r.interest_config.visual_radius_m))
