-- ===== src/Cluster/KMeans/Bounds.antt =====
-- K is between 1 and the number of players, and every assignment is below it
-- (internal/game/cluster/kmeans.go).
use native.Mathlib.Nat.{le-div_iff_mul-le, div-lt_iff_lt-mul, lt-mul-div-succ, mul-le-mul_left}
use realtime_room_middleware.Base.{
  ℕ, zero, suc, ◌+◌, ◌-◌, ◌*◌, ◌/◌, ◌≤◌, ◌<◌, ◌≡◌, refl, ap, sym, ◌∙◌, subst, Bool, false, ◌||◌,
  Option, none, some, List, [], ◌∷◌, String, length, All, same, inl, inr, Option-cases, Bool-cases,
  arith,
}
use realtime_room_middleware.Base.Floats.{Floats}
use realtime_room_middleware.Base.Int.{pos_part}
use realtime_room_middleware.Base.Map.{lookup, contains, string_key, nat_key, lookup-insert}
use realtime_room_middleware.Base.Result.{ok}
use realtime_room_middleware.Spatial.{EntityPosition}
use realtime_room_middleware.Cluster.{
  ClusterConfig, ClusterPlayer, ClusterOutput, validate_config, compute_k, take,
}
use realtime_room_middleware.Cluster.KMeans.{
  insert_sorted, sort_by_id, positions, init_centroids, fill, build_output, number, zeros,
  filter_valid_players, squared_dist, nearest_from, nearest_centroid_index, assign_nearest,
  recompute_from, iterate, settle, apply_hysteresis, after_hysteresis, cluster_valid, compute_valid,
  compute,
}

quotient_pos : (n target : ℕ) → 0 < n → 0 < target → 0 < (n + target - 1) / target
quotient_pos n target hn ht =
    (le-div_iff_mul-le {k = target} {x = 1} {y = n + target - 1} ht).1 (omega arith)

quotient_le : (n target : ℕ) → 0 < target → (n + target - 1) / target ≤ n
quotient_le n target ht = omega (
  arith,
  (div-lt_iff_lt-mul {k = target} {x = n + target - 1} {y = n + 1} ht).1
      (omega (arith, mul-le-mul_left n ht)),
)

quotient_room : (n target : ℕ) → 0 < target → n ≤ (n + target - 1) / target * target
quotient_room n target ht = omega (arith, lt-mul-div-succ (n + target - 1) ht)

-- K is at least 1 and at most the number of players, and K clusters of the target size have room for
-- all of them.
pub compute_k-bounds :
    (n target : ℕ)
    → 0 < n
    → 0 < target
    → (0 < compute_k n target) × (compute_k n target ≤ n) × (n ≤ compute_k n target * target)
unfolding compute_k
compute_k-bounds n target hn ht =
    let k = (n + target - 1) / target in
    ground (arith, quotient_pos n target hn ht, quotient_le n target ht, quotient_room n target ht)

abbrev pub Below : ℕ → Option ℕ → Type 0
Below k none = Unit
Below k (some c) = c < k

module _ {F : Type 0} where
  length-insert_sorted :
      (p : ClusterPlayer F) (ps : List (ClusterPlayer F))
      → length (insert_sorted p ps) ≡ suc (length ps)
  unfolding insert_sorted
  length-insert_sorted p [] = refl
  length-insert_sorted p (q ∷ qs) = ground (arith, length-insert_sorted p qs)

  length-sort_by_id : (ps : List (ClusterPlayer F)) → length (sort_by_id ps) ≡ length ps
  unfolding sort_by_id
  length-sort_by_id [] = refl
  length-sort_by_id (p ∷ ps) =
      ground (arith, length-sort_by_id ps, length-insert_sorted p (sort_by_id ps))

  length-positions : (ps : List (ClusterPlayer F)) → length (positions ps) ≡ length ps
  unfolding positions
  length-positions [] = refl
  length-positions (p ∷ ps) = ground (arith, length-positions ps)

  length-take : (k : ℕ) (ps : List (ClusterPlayer F)) → k ≤ length ps → length (take k ps) ≡ k
  length-take zero ps h = refl
  length-take (suc k) [] h = ground arith
  length-take (suc k) (p ∷ ps) h = ground (arith, length-take k ps)

  length-init_centroids :
      (ps : List (ClusterPlayer F)) (k : ℕ) → k ≤ length ps → length (init_centroids ps k) ≡ k
  unfolding init_centroids
  length-init_centroids ps k h = ground (
    arith,
    length-positions (take k (sort_by_id ps)),
    length-take k (sort_by_id ps),
    length-sort_by_id ps,
  )

  -- One assignment for each player, and each below `k`.
  abbrev pub Assigned : ℕ → List (ClusterPlayer F) → List ℕ → Type 0
  Assigned k ps cs = (length cs ≡ length ps) × All (λ c. c < k) cs

  zeros-Assigned : (k : ℕ) (ps : List (ClusterPlayer F)) → 0 < k → Assigned k ps (zeros ps)
  unfolding zeros
  zeros-Assigned k [] h = (refl, tt)
  zeros-Assigned k (p ∷ ps) h =
      let rest = zeros-Assigned k ps h in (omega (arith, rest.0), (h, rest.1))

  abbrev pub has_id : String → List (ClusterPlayer F) → Bool
  has_id id [] = false
  has_id id (p ∷ ps) = same p.player_id id || has_id id ps

  fill-k :
      (ps : List (ClusterPlayer F)) (cs : List ℕ) (out : ClusterOutput F)
      → (fill ps cs out).k ≡ out.k
  unfolding fill
  fill-k [] cs out = refl
  fill-k (p ∷ ps) [] out = refl
  fill-k (p ∷ ps) (c ∷ cs) out = fill-k ps cs _

  fill-Below :
      (k : ℕ) (ps : List (ClusterPlayer F)) (cs : List ℕ) (out : ClusterOutput F) (id : String)
      → All (λ c. c < k) cs
      → Below k (lookup id out.assignments)
      → Below k (lookup id (fill ps cs out).assignments)
  unfolding fill
  fill-Below k [] cs out id a b = b
  fill-Below k (p ∷ ps) [] out id a b = b
  fill-Below k (p ∷ ps) (c ∷ cs) out id (l, a) b =
      fill-Below k ps cs _ id a (ground (arith, lookup-insert p.player_id id c out.assignments))

  contains-fill :
      (ps : List (ClusterPlayer F)) (cs : List ℕ) (out : ClusterOutput F) (id : String)
      → length cs ≡ length ps
      → contains id (fill ps cs out).assignments ≡ (has_id id ps || contains id out.assignments)
  unfolding fill
  contains-fill [] cs out id e = refl
  contains-fill (p ∷ ps) [] out id e = absurd (ground arith)
  contains-fill (p ∷ ps) (c ∷ cs) out id e =
      contains-fill ps cs _ id (omega arith)
      ∙ ground (arith, lookup-insert p.player_id id c out.assignments)

module _ (fl : Floats) where
  open fl use {F32, F64, lit32, lt_f32, lt_f64}

  nearest_from-lt :
      (p : EntityPosition F32) (best : ℕ) (d : F64) (i : ℕ) (qs : List (EntityPosition F32))
      → best < i
      → nearest_from fl p best d i qs < i + length qs
  unfolding nearest_from
  nearest_from-lt p best d i [] h = omega arith
  nearest_from-lt p best d i (q ∷ qs) h = elim (Bool-cases (lt_f64 (squared_dist fl p q) d)) [
    | inl e ↦
        rw (e, nearest_from)
          (omega (arith, nearest_from-lt p i (squared_dist fl p q) (suc i) qs (omega arith)))
    | inr e ↦
        rw (e, nearest_from) (omega (arith, nearest_from-lt p best d (suc i) qs (omega arith)))
  ]

  -- The nearest centroid's index is the index of a centroid.
  nearest_centroid_index-lt :
      (p : EntityPosition F32) (qs : List (EntityPosition F32))
      → 0 < length qs
      → nearest_centroid_index fl p qs < length qs
  unfolding nearest_centroid_index
  nearest_centroid_index-lt p [] h = h
  nearest_centroid_index-lt p (q ∷ qs) h =
      omega (arith, nearest_from-lt p 0 (squared_dist fl p q) 1 qs (omega arith))

  assign_nearest-Assigned :
      (ps : List (ClusterPlayer F32)) (qs : List (EntityPosition F32)) (cs : List ℕ)
      → 0 < length qs
      → length cs ≡ length ps
      → Assigned (length qs) ps (assign_nearest fl ps qs cs).0
  unfolding assign_nearest
  assign_nearest-Assigned [] qs cs h e = (refl, tt)
  assign_nearest-Assigned (p ∷ ps) qs [] h e = absurd (ground arith)
  assign_nearest-Assigned (p ∷ ps) qs (c ∷ cs) h e =
      let rest = assign_nearest-Assigned ps qs cs h (omega arith) in
      (omega (arith, rest.0), (nearest_centroid_index-lt p.position qs h, rest.1))

  length-recompute_from :
      (c : ℕ) (ps : List (ClusterPlayer F32)) (cs : List ℕ) (qs : List (EntityPosition F32))
      → length (recompute_from fl c ps cs qs) ≡ length qs
  unfolding recompute_from
  length-recompute_from c ps cs [] = refl
  length-recompute_from c ps cs (q ∷ qs) = ap suc (length-recompute_from (suc c) ps cs qs)

  -- The rounds keep as many centroids as there were, and assign every player to one of them.
  abbrev Settled : ℕ → List (ClusterPlayer F32) → List (EntityPosition F32) × List ℕ → Type 0
  Settled k ps r = (length r.0 ≡ k) × Assigned k ps r.1

  iterate-Settled :
      (fuel k : ℕ) (ps : List (ClusterPlayer F32)) (qs : List (EntityPosition F32)) (cs : List ℕ)
      → 0 < k
      → length qs ≡ k
      → Assigned k ps cs
      → Settled k ps (iterate fl fuel ps qs cs)
  unfolding iterate
  iterate-Settled zero k ps qs cs h e a = (e, a)
  iterate-Settled (suc fuel) k ps qs cs h e a =
      let step = assign_nearest fl ps qs cs in
      let qs' = recompute_from fl 0 ps step.0 qs in
      let e' : length qs' ≡ k = length-recompute_from 0 ps step.0 qs ∙ e in
      let a' : Assigned k ps step.0 =
        subst (λ n. Assigned n ps step.0) e
          (assign_nearest-Assigned ps qs cs (subst (λ n. 0 < n) (sym e) h) a.0) in
      elim (Bool-cases step.1) [
        | inl changed ↦ rw (changed, iterate) (iterate-Settled fuel k ps qs' step.0 h e' a')
        | inr same ↦ rw (same, iterate) (e', a')
      ]

  settle-lt :
      (prev : ClusterOutput F32) (margin : F32) (qs : List (EntityPosition F32))
      (p : ClusterPlayer F32) (c : ℕ)
      → c < length qs
      → settle fl prev margin qs p c < length qs
  unfolding settle
  settle-lt prev margin qs p c h = elim (Option-cases (lookup p.player_id prev.assignments)) [
    | inl e ↦ rw (e, settle) h
    | inr (id, e) ↦ elim (Option-cases (lookup id prev.centroids)) [
      | inl f ↦ rw (e, settle) (rw f h)
      | inr (q, f) ↦ ground (arith, nearest_centroid_index-lt q qs)
    ]
  ]

  apply_hysteresis-Assigned :
      (ps : List (ClusterPlayer F32)) (cs : List ℕ) (qs : List (EntityPosition F32))
      (prev : ClusterOutput F32) (margin : F32)
      → Assigned (length qs) ps cs
      → Assigned (length qs) ps (apply_hysteresis fl ps cs qs prev margin)
  unfolding apply_hysteresis
  apply_hysteresis-Assigned [] cs qs prev margin a = (refl, tt)
  apply_hysteresis-Assigned (p ∷ ps) [] qs prev margin a = absurd (ground arith)
  apply_hysteresis-Assigned (p ∷ ps) (c ∷ cs) qs prev margin (e, (l, a)) =
      let rest = apply_hysteresis-Assigned ps cs qs prev margin (omega arith, a) in
      (omega (arith, rest.0), (settle-lt prev margin qs p c l, rest.1))

  after_hysteresis-Assigned :
      (prev : Option (ClusterOutput F32)) (margin : F32) (ps : List (ClusterPlayer F32))
      (cs : List ℕ) (qs : List (EntityPosition F32))
      → Assigned (length qs) ps cs
      → Assigned (length qs) ps (after_hysteresis fl prev margin ps cs qs)
  unfolding after_hysteresis
  after_hysteresis-Assigned none margin ps cs qs a = a
  after_hysteresis-Assigned (some prev) margin ps cs qs a =
      elim (Bool-cases (lt_f32 (lit32 0) margin)) [
        | inl e ↦ rw (e, after_hysteresis) (apply_hysteresis-Assigned ps cs qs prev margin a)
        | inr e ↦ rw (e, after_hysteresis) a
      ]

  -- What holds of an output for some players.
  pub record Covers (ps : List (ClusterPlayer F32)) (out : ClusterOutput F32) (id : String)
      : Type 0 where
    pub below : Below out.k (lookup id out.assignments)
    pub covered : contains id out.assignments ≡ has_id id ps
    pub few : out.k ≤ length ps

  build_output-Covers :
      (ps : List (ClusterPlayer F32)) (cs : List ℕ) (qs : List (EntityPosition F32)) (k : ℕ)
      (id : String)
      → Assigned k ps cs
      → k ≤ length ps
      → Covers ps (build_output ps cs qs k) id
  unfolding build_output lookup
  build_output-Covers ps cs qs k id a l =
      let start : ClusterOutput F32 = record {
        assignments = [];
        clusters = [];
        centroids = number 0 qs;
        k = k;
      } in
      record {
        below = rw (fill-k ps cs start) (fill-Below k ps cs start id a.1 tt);
        covered = ground (arith, contains-fill ps cs start id a.0);
        few = omega (arith, fill-k ps cs start);
      }

  cluster_valid-Covers :
      (prev : Option (ClusterOutput F32)) (ps : List (ClusterPlayer F32)) (cfg : ClusterConfig F32)
      (id : String)
      → 0 < length ps
      → 0 < pos_part cfg.target_cluster_size
      → Covers ps (cluster_valid fl prev ps cfg) id
  unfolding cluster_valid
  cluster_valid-Covers prev ps cfg id h t =
      let k = compute_k (length ps) (pos_part cfg.target_cluster_size) in
      let (k_pos, k_le, _) = compute_k-bounds (length ps) (pos_part cfg.target_cluster_size) h t in
      let r = iterate fl (pos_part cfg.max_iterations) ps (init_centroids ps k) (zeros ps) in
      let (e, a) =
        iterate-Settled (pos_part cfg.max_iterations) k ps (init_centroids ps k) (zeros ps) k_pos
          (length-init_centroids ps k k_le) (zeros-Assigned k ps k_pos) in
      build_output-Covers ps (after_hysteresis fl prev cfg.membership_hysteresis ps r.1 r.0) r.0 k
        id
        (subst (λ n. Assigned n ps (after_hysteresis fl prev cfg.membership_hysteresis ps r.1 r.0))
          e
          (after_hysteresis-Assigned prev cfg.membership_hysteresis ps r.1 r.0
            (subst (λ n. Assigned n ps r.1) (sym e) a)))
        k_le

  compute_valid-Covers :
      (prev : Option (ClusterOutput F32)) (ps : List (ClusterPlayer F32)) (cfg : ClusterConfig F32)
      (id : String)
      → 0 < pos_part cfg.target_cluster_size
      → Covers ps (compute_valid fl prev ps cfg) id
  unfolding compute_valid lookup
  compute_valid-Covers prev [] cfg id t = record { below = tt; covered = refl; few = omega arith }
  compute_valid-Covers prev (p ∷ ps) cfg id t =
      cluster_valid-Covers prev (p ∷ ps) cfg id (omega arith) t

  valid_target :
      (cfg : ClusterConfig F32) → validate_config cfg ≡ none → 0 < pos_part cfg.target_cluster_size
  unfolding validate_config
  valid_target cfg e = ground arith

  -- An output of Compute assigns a cluster to exactly the players that pass its filter, each a
  -- cluster below K, and K is at most the number of those players.
  pub compute-Covers :
      (prev : Option (ClusterOutput F32)) (players : List (ClusterPlayer F32))
      (cfg : ClusterConfig F32) (out : ClusterOutput F32) (id : String)
      → compute fl prev players cfg ≡ ok out
      → Covers (filter_valid_players fl players cfg) out id
  unfolding compute
  compute-Covers prev players cfg out id h = elim (Option-cases (validate_config cfg)) [
    | inl e ↦
        subst (λ o. Covers (filter_valid_players fl players cfg) o id) (ground arith)
          (compute_valid-Covers prev (filter_valid_players fl players cfg) cfg id
            (valid_target cfg e))
    | inr (x, e) ↦ absurd (ground arith)
  ]
