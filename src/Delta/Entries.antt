-- ===== src/Delta/Entries.antt =====
-- Where the entries of a delta come from (internal/game/delta/builder.go): what holds of every player
-- of the room holds of every player that a delta names, and of the snapshot that it leaves.
use realtime_room_middleware.Base.{
  ℕ, List, [], ◌∷◌, String, All, All-snoc, inl, inr, ◌==◌, Option-cases, Bool-cases,
}
use realtime_room_middleware.Base.Map.{
  Map, lookup, delete, string_key, Each, Each-lookup, Each-insert, Each-delete,
}
use realtime_room_middleware.Player.{PlayerState, PlayerTransform}
use realtime_room_middleware.Delta.{
  PlayerLeaveDelta, PlayerDelta, ClientSnapshot, Progress, entered, updated, enter, update, visit,
  visit_all, departed, forget, build_player_delta, visible_in,
}

module _ {F : Type 0} (P : String → PlayerTransform F → Type 0) (N : String → Type 0) where
  abbrev pub StatesHold : Map String (PlayerState F) → Type 0
  StatesHold states = Each (λ pid ps. P pid ps.transform × N pid) states

  abbrev pub SnapshotHolds : ClientSnapshot → Type 0
  SnapshotHolds seen = Each (λ pid _. N pid) seen

  -- The predicates on the entries of a delta.
  pub record EntriesHold (d : PlayerDelta F) : Type 0 where
    pub enters : All (λ e. P e.player_id e.transform) d.enters
    pub updates : All (λ u. P u.player_id u.transform) d.updates
    pub leaves : All (λ l. N l.player_id) d.leaves

  record ProgressHolds (a : Progress F) : Type 0 where
    enters : All (λ e. P e.player_id e.transform) a.enters
    updates : All (λ u. P u.player_id u.transform) a.updates
    seen : SnapshotHolds a.seen

  visit-holds :
      (states : Map String (PlayerState F)) (a : Progress F) (pid : String)
      → StatesHold states
      → ProgressHolds a
      → ProgressHolds (visit states a pid)
  unfolding visit enter update
  visit-holds states a pid h p = elim (Option-cases (lookup pid states)) [
    | inl e ↦ rw (e, visit) p
    | inr (ps, e) ↦
        let here = Each-lookup (λ pid ps. P pid ps.transform × N pid) pid ps states h e in
        let marked = Each-insert (λ pid _. N pid) pid ps.version a.seen p.seen here.1 in
        elim (Option-cases (lookup pid a.seen)) [
          | inl f ↦
              rw (e, visit, f)
                (record {
                  enters =
                      All-snoc (λ e. P e.player_id e.transform) a.enters (entered pid ps) p.enters
                        here.0;
                  updates = p.updates;
                  seen = marked;
                })
          | inr (last, f) ↦ elim (Bool-cases (ps.version == last)) [
            | inl g ↦ rw (e, visit, f, g) p
            | inr g ↦
                rw (e, visit, f, g)
                  (record {
                    enters = p.enters;
                    updates =
                        All-snoc (λ u. P u.player_id u.transform) a.updates (updated pid ps)
                          p.updates here.0;
                    seen = marked;
                  })
          ]
        ]
  ]

  visit_all-holds :
      (states : Map String (PlayerState F)) (visible : List String) (a : Progress F)
      → StatesHold states
      → ProgressHolds a
      → ProgressHolds (visit_all states visible a)
  unfolding visit_all
  visit_all-holds states [] a h p = p
  visit_all-holds states (pid ∷ pids) a h p =
      visit_all-holds states pids (visit states a pid) h (visit-holds states a pid h p)

  departed-holds :
      (visible : List String) (seen : ClientSnapshot)
      → SnapshotHolds seen
      → All (λ l. N l.player_id) (departed visible seen)
  unfolding departed
  departed-holds visible [] h = tt
  departed-holds visible ((pid, v) ∷ seen) h = elim (Bool-cases (visible_in visible pid)) [
    | inl e ↦ rw (e, departed) (departed-holds visible seen h.1)
    | inr e ↦ rw (e, departed) (h.0, departed-holds visible seen h.1)
  ]

  forget-holds :
      (leaves : List PlayerLeaveDelta) (seen : ClientSnapshot)
      → SnapshotHolds seen
      → SnapshotHolds (forget leaves seen)
  unfolding forget
  forget-holds [] seen h = h
  forget-holds (l ∷ ls) seen h =
      forget-holds ls (delete l.player_id seen) (Each-delete (λ pid _. N pid) l.player_id seen h)

  pub build_player_delta-holds :
      (tick : ℕ) (visible : List String) (snapshot : ClientSnapshot)
      (states : Map String (PlayerState F))
      → StatesHold states
      → SnapshotHolds snapshot
      → let built = build_player_delta tick visible snapshot states in
        EntriesHold built.0 × SnapshotHolds built.1
  unfolding build_player_delta
  build_player_delta-holds tick visible snapshot states h s =
      let start : Progress F = record { enters = []; updates = []; seen = snapshot } in
      let a = visit_all states visible start in
      let p =
        visit_all-holds states visible start h (record { enters = tt; updates = tt; seen = s }) in
      let left = departed-holds visible a.seen p.seen in
      (
        record { enters = p.enters; updates = p.updates; leaves = left },
        forget-holds (departed visible a.seen) a.seen p.seen,
      )
