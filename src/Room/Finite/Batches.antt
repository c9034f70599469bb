-- ===== src/Room/Finite/Batches.antt =====
-- What a tick sends, from a room whose players and queue are sound (tick of internal/game/room/tick.go,
-- buildDeltaBatches of internal/game/room/room.go).
use realtime_room_middleware.Base.{
  ℕ, ◌≡◌, refl, ap, sym, subst, Option, none, some, List, [], ◌∷◌, String, All, inl, inr,
  Option-cases, Bool-cases,
}
use realtime_room_middleware.Base.Floats.{Floats}
use realtime_room_middleware.Base.Map.{Map, lookup, string_key, Each, Each-mono, Each-insert}
use realtime_room_middleware.Base.Word.{inc32}
use realtime_room_middleware.Player.{PlayerTransform}
use realtime_room_middleware.Player.Validate.{validate_player_transform}
use realtime_room_middleware.Delta.{PlayerDelta, DeltaBatch, get_or_create, build_player_delta}
use realtime_room_middleware.Delta.Entries.{EntriesHold, build_player_delta-holds}
use realtime_room_middleware.Cluster.{ClusterOutput, ClusterError}
use realtime_room_middleware.Cluster.KMeans.{compute}
use realtime_room_middleware.Base.Result.{Result, ok, err}
use realtime_room_middleware.Room.{Room, SessionAttachment}
use realtime_room_middleware.Room.Cadence.{
  commit_clusters, recompute_cluster, cluster_players, should_recompute_cluster, is_broadcast_tick,
}
use realtime_room_middleware.Room.Broadcast.{
  Batches, add_batch, visible_players, batch_for, batch_all, build_delta_batches, broadcast,
}
use realtime_room_middleware.Room.Tick.{
  release_expired_locks, drain_commands, recompute_if_due, broadcast_if_due, tick,
}
use realtime_room_middleware.Room.Finite.{
  HasLiterals, IsClean, QueueIsClean, PlayerIsSound, PlayersAreSound, handle_all_sound,
  recompute_if_due-players, broadcast_if_due-players,
}
use realtime_room_middleware.Room.Finite.Snapshots.{
  Named, SnapshotIsNamed, SnapshotsAreNamed, get_or_create-named, handle_all-snapshots,
}
use realtime_room_middleware.Room.Lifecycle.Frame.{tick-outer}

module _ (fl : Floats) where
  open fl use {F32}

  -- A named player with a transform that the room's checks accept.
  abbrev pub Sound : String → PlayerTransform F32 → Type 0
  Sound pid t = Named pid × (validate_player_transform fl t ≡ none)

  -- A delta that names only such players.
  abbrev pub DeltaIsSound : Option (PlayerDelta F32) → Type 0
  DeltaIsSound none = Unit
  DeltaIsSound (some d) = EntriesHold Sound Named d

  abbrev pub BatchesAreSound : Map String (DeltaBatch F32) → Type 0
  BatchesAreSound sent = Each (λ _ b. DeltaIsSound b.player_delta) sent

  abbrev BatchesHold : Batches F32 → Type 0
  BatchesHold b = BatchesAreSound b.sent × SnapshotsAreNamed b.cache

  add_batch-holds :
      (r : Room F32) (k : ℕ) (b : Batches F32) (session : String) (visible : List String)
      → PlayersAreSound fl r.players
      → BatchesHold b
      → BatchesHold (add_batch r k b session visible)
  unfolding add_batch
  add_batch-holds r k b session visible players h =
      let states =
        Each-mono (PlayerIsSound fl) (λ pid ps. Sound pid ps.transform × Named pid) r.players
          (λ _ _ p. (p, p.0)) players in
      let found = get_or_create-named b.cache session h.1 in
      let seen = (get_or_create b.cache session).0 in
      let built = build_player_delta-holds Sound Named k visible seen r.players states found.0 in
      let delta = build_player_delta k visible seen r.players in
      (
        Each-insert (λ _ b. DeltaIsSound b.player_delta) session
            (record { tick = k; player_delta = some delta.0 }) b.sent h.0 built.0,
        Each-insert (λ _ seen. SnapshotIsNamed seen) session delta.1
            (get_or_create b.cache session).1 found.1 built.1,
      )

  batch_for-holds :
      (r : Room F32) (k : ℕ) (b : Batches F32) (session : String) (att : SessionAttachment)
      → PlayersAreSound fl r.players
      → BatchesHold b
      → BatchesHold (batch_for fl r k b session att)
  unfolding batch_for
  batch_for-holds r k b session att players h =
      elim (Option-cases (lookup att.player_id r.players)) [
        | inl e ↦ rw (e, batch_for) h
        | inr (ps, e) ↦
            rw (e, batch_for)
              (add_batch-holds r k b session (visible_players fl r att.player_id ps) players h)
      ]

  batch_all-holds :
      (r : Room F32) (k : ℕ) (sessions : Map String SessionAttachment) (b : Batches F32)
      → PlayersAreSound fl r.players
      → BatchesHold b
      → BatchesHold (batch_all fl r k sessions b)
  unfolding batch_all
  batch_all-holds r k [] b players h = h
  batch_all-holds r k ((session, att) ∷ rest) b players h =
      batch_all-holds r k rest (batch_for fl r k b session att) players
        (batch_for-holds r k b session att players h)

  broadcast_if_due-holds :
      (r : Room F32) (k : ℕ)
      → PlayersAreSound fl r.players
      → SnapshotsAreNamed r.snapshot_cache
      → BatchesAreSound (broadcast_if_due fl r k).0
        × SnapshotsAreNamed (broadcast_if_due fl r k).1.snapshot_cache
  unfolding broadcast_if_due broadcast build_delta_batches
  broadcast_if_due-holds r k players snapshots =
      elim (Bool-cases (is_broadcast_tick r.config.tick_rate_hz r.config.broadcast_rate_hz k)) [
        | inl e ↦
            rw (e, broadcast_if_due)
              (batch_all-holds r k r.active_sessions
                (record { sent = []; cache = r.snapshot_cache }) players (tt, snapshots))
        | inr e ↦ rw (e, broadcast_if_due) (tt, snapshots)
      ]

  commit_clusters-snapshots :
      (r : Room F32) (k : ℕ) (o : Result ClusterError (ClusterOutput F32))
      → (commit_clusters fl r k o).snapshot_cache ≡ r.snapshot_cache
  unfolding commit_clusters
  commit_clusters-snapshots r k (err _) = refl
  commit_clusters-snapshots r k (ok _) = refl

  recompute_if_due-snapshots :
      (r : Room F32) (k : ℕ) → (recompute_if_due fl r k).snapshot_cache ≡ r.snapshot_cache
  unfolding recompute_if_due recompute_cluster
  recompute_if_due-snapshots r k = elim (Bool-cases (should_recompute_cluster fl r k)) [
    | inl e ↦
        rw (e, recompute_if_due)
          (commit_clusters-snapshots r k
            (compute fl r.prev_output (cluster_players r.players) r.config.cluster_config))
    | inr e ↦ rw (e, recompute_if_due) refl
  ]

  -- A room whose players have ids and finite transforms, whose snapshots name only ids that are not
  -- empty, and whose queue holds commands that lead to such.
  pub record IsSound (r : Room F32) : Type 0 where
    pub players : PlayersAreSound fl r.players
    pub snapshots : SnapshotsAreNamed r.snapshot_cache
    pub queue : QueueIsClean fl r

  -- A tick of a sound room leaves it sound, and every delta that it broadcasts names only players with
  -- an id that is not empty and with finite transforms.
  pub tick-IsSound :
      (r : Room F32) (now : ℕ)
      → HasLiterals fl
      → IsSound r
      → BatchesAreSound (tick fl r now).0 × IsSound (tick fl r now).1
  unfolding tick drain_commands release_expired_locks
  tick-IsSound r now lits h =
      let t = inc32 r.current_tick in
      let started = release_expired_locks (record r { current_tick = t }) now in
      let begun : Room F32 = record started { commands = [] } in
      let drained = drain_commands fl started t now in
      let clustered = recompute_if_due fl drained t in
      let players : PlayersAreSound fl clustered.players =
        subst (PlayersAreSound fl) (sym (recompute_if_due-players fl drained t))
          (handle_all_sound fl lits begun r.commands t now h.queue h.players) in
      let snapshots : SnapshotsAreNamed clustered.snapshot_cache =
        subst SnapshotsAreNamed (sym (recompute_if_due-snapshots drained t))
          (handle_all-snapshots fl begun r.commands t now h.snapshots) in
      let sent = broadcast_if_due-holds clustered t players snapshots in
      let emptied = ap (λ o. o.0) (tick-outer fl r now) in
      (
        sent.0,
        record {
          players =
              subst (PlayersAreSound fl) (sym (broadcast_if_due-players fl clustered t)) players;
          snapshots = sent.1;
          queue = subst (λ q. All (IsClean fl) q) (sym emptied) tt;
        },
      )
