-- ===== src/Cluster/KMeans/Partition.antt =====
-- The two maps of an output, players to clusters and clusters to players, agree
-- (internal/game/cluster/kmeans.go).
use realtime_room_middleware.Base.{
  ℕ, zero, suc, ◌≡◌, refl, subst, Bool, true, false, ◌||◌, Option, none, some, List, [], ◌∷◌, ◌++◌,
  String, listed, listed-append, ◌==◌, is_empty, inl, inr, Option-cases, Bool-cases, arith,
}
use realtime_room_middleware.Base.Floats.{Floats}
use realtime_room_middleware.Base.Int.{pos_part}
use realtime_room_middleware.Base.Map.{lookup, insert, string_key, nat_key, lookup-insert}
use realtime_room_middleware.Base.Result.{ok}
use realtime_room_middleware.Spatial.{EntityPosition}
use realtime_room_middleware.Cluster.{
  ClusterConfig, ClusterPlayer, ClusterOutput, validate_config, or_nil,
}
use realtime_room_middleware.Cluster.KMeans.{
  fill, build_output, number, filter_valid, filter_valid_players, is_invalid_pos, cluster_valid,
  compute_valid, compute,
}
use realtime_room_middleware.Cluster.KMeans.Bounds.{has_id}

abbrev pub is_cluster : ℕ → Option ℕ → Bool
is_cluster c none = false
is_cluster c (some c') = c' == c

module _ {F : Type 0} where
  -- No two players of the list have one ID.
  abbrev pub Once : List (ClusterPlayer F) → Type 0
  Once [] = Unit
  Once (p ∷ ps) = (has_id p.player_id ps ≡ false) × Once ps

  -- At one player and one cluster, the two maps of the output agree.
  abbrev pub AgreesAt : ClusterOutput F → String → ℕ → Type 0
  AgreesAt out id c =
      listed id (or_nil (lookup c out.clusters)) ≡ is_cluster c (lookup id out.assignments)

  abbrev put : ClusterPlayer F → ℕ → ClusterOutput F → ClusterOutput F
  put p c out = record out {
    assignments = insert p.player_id c out.assignments;
    clusters = insert c (or_nil (lookup c out.clusters) ++ p.player_id ∷ []) out.clusters;
  }

  put-AgreesAt :
      (p : ClusterPlayer F) (c : ℕ) (out : ClusterOutput F) (id : String) (d : ℕ)
      → (p.player_id ≡ id → lookup id out.assignments ≡ none)
      → AgreesAt out id d
      → AgreesAt (put p c out) id d
  put-AgreesAt p c out id d new h = ground (
    arith,
    lookup-insert p.player_id id c out.assignments,
    lookup-insert c d (or_nil (lookup c out.clusters) ++ p.player_id ∷ []) out.clusters,
    listed-append id (or_nil (lookup c out.clusters)) (p.player_id ∷ []),
  )

  fill-AgreesAt :
      (ps : List (ClusterPlayer F)) (cs : List ℕ) (out : ClusterOutput F) (id : String) (d : ℕ)
      → Once ps
      → (has_id id ps ≡ true → lookup id out.assignments ≡ none)
      → AgreesAt out id d
      → AgreesAt (fill ps cs out) id d
  unfolding fill
  fill-AgreesAt [] cs out id d o new h = h
  fill-AgreesAt (p ∷ ps) [] out id d o new h = h
  fill-AgreesAt (p ∷ ps) (c ∷ cs) out id d (fresh, o) new h =
      fill-AgreesAt ps cs (put p c out) id d o
        (λ e. ground (arith, lookup-insert p.player_id id c out.assignments))
        (put-AgreesAt p c out id d (λ e. ground arith) h)

  build_output-AgreesAt :
      (ps : List (ClusterPlayer F)) (cs : List ℕ) (qs : List (EntityPosition F)) (k : ℕ)
      (id : String) (d : ℕ)
      → Once ps
      → AgreesAt (build_output ps cs qs k) id d
  unfolding build_output lookup
  build_output-AgreesAt ps cs qs k id d o =
      let start : ClusterOutput F = record {
        assignments = [];
        clusters = [];
        centroids = number 0 qs;
        k = k;
      } in
      fill-AgreesAt ps cs start id d o (λ e. refl) refl

module _ (fl : Floats) where
  open fl use {F32}

  has_id-filter_valid :
      (left : ℕ) (ps : List (ClusterPlayer F32)) (id : String)
      → has_id id ps ≡ false
      → has_id id (filter_valid fl left ps) ≡ false
  unfolding filter_valid
  has_id-filter_valid zero ps id h = refl
  has_id-filter_valid (suc left) [] id h = refl
  has_id-filter_valid (suc left) (p ∷ ps) id h =
      ground (arith, has_id-filter_valid (suc left) ps id, has_id-filter_valid left ps id)

  filter_valid-Once :
      (left : ℕ) (ps : List (ClusterPlayer F32)) → Once ps → Once (filter_valid fl left ps)
  unfolding filter_valid
  filter_valid-Once zero ps o = tt
  filter_valid-Once (suc left) [] o = tt
  filter_valid-Once (suc left) (p ∷ ps) (fresh, o) =
      let skip = filter_valid-Once (suc left) ps o in
      let keep = filter_valid-Once left ps o in
      elim (Bool-cases (is_empty p.player_id || is_invalid_pos fl p.position)) [
        | inl e ↦ rw (e, filter_valid) skip
        | inr e ↦ rw (e, filter_valid) (has_id-filter_valid left ps p.player_id fresh, keep)
      ]

  compute_valid-AgreesAt :
      (prev : Option (ClusterOutput F32)) (ps : List (ClusterPlayer F32)) (cfg : ClusterConfig F32)
      (id : String) (d : ℕ)
      → Once ps
      → AgreesAt (compute_valid fl prev ps cfg) id d
  unfolding compute_valid cluster_valid lookup
  compute_valid-AgreesAt prev [] cfg id d o = refl
  compute_valid-AgreesAt prev (p ∷ ps) cfg id d o = build_output-AgreesAt (p ∷ ps) _ _ _ id d o

  -- If no two players have one ID, then in an output of Compute a cluster lists exactly the players
  -- that are assigned to it.
  pub compute-AgreesAt :
      (prev : Option (ClusterOutput F32)) (players : List (ClusterPlayer F32))
      (cfg : ClusterConfig F32) (out : ClusterOutput F32) (id : String) (c : ℕ)
      → Once players
      → compute fl prev players cfg ≡ ok out
      → AgreesAt out id c
  unfolding compute filter_valid_players
  compute-AgreesAt prev players cfg out id c o h = elim (Option-cases (validate_config cfg)) [
    | inl e ↦
        let valid = filter_valid fl (pos_part cfg.max_players_per_room) players in
        let same_out : compute_valid fl prev valid cfg ≡ out = ground arith in
        subst (λ x. AgreesAt x id c) same_out
          (compute_valid-AgreesAt prev valid cfg id c
            (filter_valid-Once (pos_part cfg.max_players_per_room) players o))
    | inr (x, e) ↦ absurd (ground arith)
  ]
