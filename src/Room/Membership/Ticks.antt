-- ===== src/Room/Membership/Ticks.antt =====
-- The views of who is attached through a whole tick (internal/game/room/tick.go), the broadcast and its
-- snapshots included.
use realtime_room_middleware.Base.{
  ℕ, ◌≡◌, ◌≢◌, none, List, [], ◌∷◌, String, arith, inl, inr, Option-cases, Bool-cases,
}
use realtime_room_middleware.Base.Floats.{Floats}
use realtime_room_middleware.Base.Map.{Map, lookup, string_key, lookup-insert}
use realtime_room_middleware.Base.Result.{Result, ok, err}
use realtime_room_middleware.Base.Word.{inc32}
use realtime_room_middleware.Delta.{get_or_create, build_player_delta}
use realtime_room_middleware.Cluster.{ClusterOutput, ClusterError}
use realtime_room_middleware.Cluster.KMeans.{compute}
use realtime_room_middleware.Room.{Room, RoomCommand, SessionAttachment}
use realtime_room_middleware.Room.Commands.{handle_command}
use realtime_room_middleware.Room.Cadence.{
  commit_clusters, recompute_cluster, cluster_players, should_recompute_cluster, is_broadcast_tick,
}
use realtime_room_middleware.Room.Broadcast.{
  Batches, add_batch, batch_for, batch_all, visible_players, build_delta_batches, broadcast,
}
use realtime_room_middleware.Room.Tick.{
  release_expired_locks, handle_all, drain_commands, recompute_if_due, broadcast_if_due, tick,
}
use realtime_room_middleware.Room.Membership.Commands.{
  Consistent, JoinsFresh, handle_command-Consistent,
}

-- A batch writes no snapshot but its session's.
add_batch-others :
    {F : Type 0} (r : Room F) (t : ℕ) (b : Batches F) (session s : String) (visible : List String)
    → session ≢ s
    → lookup s b.cache ≡ none
    → lookup s (add_batch r t b session visible).cache ≡ none
unfolding add_batch get_or_create
add_batch-others r t b session s visible n e =
    let found = get_or_create b.cache session in
    ground (
      arith,
      lookup-insert session s [] b.cache,
      lookup-insert session s (build_player_delta t visible found.0 r.players).1 found.1,
    )

module _ (fl : Floats) where
  open fl use {F32}

  batch_for-others :
      (r : Room F32) (t : ℕ) (b : Batches F32) (session s : String) (att : SessionAttachment)
      → session ≢ s
      → lookup s b.cache ≡ none
      → lookup s (batch_for fl r t b session att).cache ≡ none
  unfolding batch_for
  batch_for-others r t b session s att n e = elim (Option-cases (lookup att.player_id r.players)) [
    | inl f ↦ rw (f, batch_for) e
    | inr (ps, f) ↦
        rw (f, batch_for)
          (add_batch-others r t b session s (visible_players fl r att.player_id ps) n e)
  ]

  absent_tail :
      (k s : String) (v : SessionAttachment) (m : Map String SessionAttachment)
      → lookup s ((k, v) ∷ m) ≡ none
      → (k ≢ s) × (lookup s m ≡ none)
  unfolding lookup
  absent_tail k s v m e = ground arith

  batch_all-others :
      (r : Room F32) (t : ℕ) (m : Map String SessionAttachment) (b : Batches F32) (s : String)
      → lookup s m ≡ none
      → lookup s b.cache ≡ none
      → lookup s (batch_all fl r t m b).cache ≡ none
  unfolding batch_all
  batch_all-others r t [] b s absent e = e
  batch_all-others r t ((session, att) ∷ m) b s absent e =
      let (n, rest) = absent_tail session s att m absent in
      batch_all-others r t m (batch_for fl r t b session att) s rest
        (batch_for-others r t b session s att n e)

  broadcast-Consistent : (r : Room F32) (t : ℕ) → Consistent r → Consistent (broadcast fl r t).1
  unfolding broadcast build_delta_batches
  broadcast-Consistent r t (d, count, users, snaps) = (
    d,
    count,
    users,
    λ s e.
        batch_all-others r t r.active_sessions (record { sent = []; cache = r.snapshot_cache }) s e
          (snaps s e),
  )

  commit_clusters-Consistent :
      (r : Room F32) (t : ℕ) (o : Result ClusterError (ClusterOutput F32))
      → Consistent r
      → Consistent (commit_clusters fl r t o)
  unfolding commit_clusters
  commit_clusters-Consistent r t (err _) h = h
  commit_clusters-Consistent r t (ok _) h = h

  recompute_if_due-Consistent :
      (r : Room F32) (t : ℕ) → Consistent r → Consistent (recompute_if_due fl r t)
  unfolding recompute_if_due recompute_cluster
  recompute_if_due-Consistent r t h = elim (Bool-cases (should_recompute_cluster fl r t)) [
    | inl e ↦
        rw (e, recompute_if_due)
          (commit_clusters-Consistent r t
            (compute fl r.prev_output (cluster_players r.players) r.config.cluster_config) h)
    | inr e ↦ rw (e, recompute_if_due) h
  ]

  broadcast_if_due-Consistent :
      (r : Room F32) (t : ℕ) → Consistent r → Consistent (broadcast_if_due fl r t).1
  unfolding broadcast_if_due
  broadcast_if_due-Consistent r t h =
      elim (Bool-cases (is_broadcast_tick r.config.tick_rate_hz r.config.broadcast_rate_hz t)) [
        | inl e ↦ rw (e, broadcast_if_due) (broadcast-Consistent r t h)
        | inr e ↦ rw (e, broadcast_if_due) h
      ]

  -- Each join of the list brings a session that is not attached when it is handled.
  abbrev pub AllJoinFresh : Room F32 → List (RoomCommand F32) → ℕ → ℕ → Type 0
  AllJoinFresh r [] t now = Unit
  AllJoinFresh r (cmd ∷ cmds) t now =
      JoinsFresh fl r cmd × AllJoinFresh (handle_command fl r cmd t now) cmds t now

  handle_all-Consistent :
      (r : Room F32) (cmds : List (RoomCommand F32)) (t now : ℕ)
      → AllJoinFresh r cmds t now
      → Consistent r
      → Consistent (handle_all fl r cmds t now)
  unfolding handle_all
  handle_all-Consistent r [] t now f h = h
  handle_all-Consistent r (cmd ∷ cmds) t now f h =
      handle_all-Consistent (handle_command fl r cmd t now) cmds t now f.1
        (handle_command-Consistent fl r cmd t now f.0 h)

  -- The room in which a tick handles its commands.
  abbrev pub tick_start : Room F32 → ℕ → Room F32
  tick_start r now =
      record (release_expired_locks (record r { current_tick = inc32 r.current_tick }) now) {
        commands = [];
      }

  -- A tick keeps the session map, the user index, the player counter and the snapshot cache of a room
  -- in agreement, if each join that it handles brings a session that is not attached then.
  pub tick-Consistent :
      (r : Room F32) (now : ℕ)
      → AllJoinFresh (tick_start r now) r.commands (inc32 r.current_tick) now
      → Consistent r
      → Consistent (tick fl r now).1
  unfolding tick drain_commands release_expired_locks
  tick-Consistent r now f h =
      let t = inc32 r.current_tick in
      let started = release_expired_locks (record r { current_tick = t }) now in
      let drained = drain_commands fl started t now in
      broadcast_if_due-Consistent (recompute_if_due fl drained t) t (
        recompute_if_due-Consistent drained t
          (handle_all-Consistent (tick_start r now) r.commands t now f h))
