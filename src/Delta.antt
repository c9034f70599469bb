-- ===== src/Delta.antt =====
-- internal/game/delta: what one viewer is told at a broadcast (types.go, snapshot.go, builder.go).
-- `T` stands for the transform. A snapshot is one Go map, updated in place: the functions return it.
pub mod Replay
pub mod Entries
use realtime_room_middleware.Base.{
  ℕ, ◌≡◌, Bool, true, false, ◌&&◌, ◌||◌, not, Option, none, some, List, [], ◌∷◌, ◌++◌, String,
  length, if◌then◌else◌, ◌==◌, same,
}
use realtime_room_middleware.Base.Map.{Map, lookup, insert, delete, string_key}
use realtime_room_middleware.Player.{PlayerState, PlayerTransform}

pub record PlayerEnterDelta (F : Type 0) : Type 0 where
  pub player_id : String
  pub transform : PlayerTransform F
  pub version : ℕ

pub record PlayerUpdateDelta (F : Type 0) : Type 0 where
  pub player_id : String
  pub transform : PlayerTransform F
  pub version : ℕ

pub record PlayerLeaveDelta : Type 0 where
  pub player_id : String

pub record PlayerDelta (F : Type 0) : Type 0 where
  pub tick : ℕ
  pub enters : List (PlayerEnterDelta F)
  pub updates : List (PlayerUpdateDelta F)
  pub leaves : List PlayerLeaveDelta

abbrev pub no_entries {ℓ} : {A : Type ℓ} → List A → Bool
no_entries [] = true
no_entries (_ ∷ _) = false

-- PlayerDelta.IsEmpty
unfoldable pub is_empty_delta : {F : Type 0} → PlayerDelta F → Bool
is_empty_delta d = no_entries d.enters && no_entries d.updates && no_entries d.leaves

-- The batch of a session; `object_delta` is nil until objects are broadcast.
pub record DeltaBatch (F : Type 0) : Type 0 where
  pub tick : ℕ
  pub player_delta : Option (PlayerDelta F)

-- DeltaBatch.IsEmpty
unfoldable pub is_empty_batch : {F : Type 0} → DeltaBatch F → Bool
unfolding is_empty_delta
is_empty_batch b = elim b.player_delta [ none ↦ true | some d ↦ is_empty_delta d ]

-- ClientSnapshot: the version of each player that the client was last sent.
abbrev pub ClientSnapshot : Type 0
ClientSnapshot = Map String ℕ

abbrev pub SnapshotCache : Type 0
SnapshotCache = Map String ClientSnapshot

abbrev pub or_empty : Option ClientSnapshot → ClientSnapshot
or_empty none = []
or_empty (some s) = s

-- GetOrCreate: the snapshot, and the cache that now has it.
unfoldable pub get_or_create : SnapshotCache → String → ClientSnapshot × SnapshotCache
get_or_create c session = elim (lookup session c) [
  | some s ↦ (s, c)
  | none ↦ ([], insert session [] c)
]

-- SnapshotCache.Remove
abbrev pub remove_snapshot : SnapshotCache → String → SnapshotCache
remove_snapshot c session = delete session c

-- The set `nowVisible`, as a test.
unfoldable pub visible_in : List String → String → Bool
visible_in [] pid = false
visible_in (v ∷ vs) pid = same v pid || visible_in vs pid

-- Where the loop over the visible players has got to.
pub record Progress (F : Type 0) : Type 0 where
  pub enters : List (PlayerEnterDelta F)
  pub updates : List (PlayerUpdateDelta F)
  pub seen : ClientSnapshot

module _ {F : Type 0} where
  abbrev pub entered : String → PlayerState F → PlayerEnterDelta F
  entered pid ps = record { player_id = pid; transform = ps.transform; version = ps.version }

  abbrev pub updated : String → PlayerState F → PlayerUpdateDelta F
  updated pid ps = record { player_id = pid; transform = ps.transform; version = ps.version }

  enter : Progress F → String → PlayerState F → Progress F
  enter a pid ps = record a {
    enters = a.enters ++ entered pid ps ∷ [];
    seen = insert pid ps.version a.seen;
  }

  update : Progress F → String → PlayerState F → Progress F
  update a pid ps = record a {
    updates = a.updates ++ updated pid ps ∷ [];
    seen = insert pid ps.version a.seen;
  }

  -- One round of the first loop.
  visit : Map String (PlayerState F) → Progress F → String → Progress F
  unfolding enter update
  visit states a pid = elim (lookup pid states) [
    | none ↦ a
    | some ps ↦ elim (lookup pid a.seen) [
      | none ↦ enter a pid ps
      | some last ↦ if ps.version == last then a else update a pid ps
    ]
  ]

  visit_all : Map String (PlayerState F) → List String → Progress F → Progress F
  unfolding visit
  visit_all states [] a = a
  visit_all states (pid ∷ pids) a = visit_all states pids (visit states a pid)

-- The snapshot entries that are not visible any more.
departed : List String → ClientSnapshot → List PlayerLeaveDelta
departed visible [] = []
departed visible ((pid, _) ∷ seen) =
    let rest = departed visible seen in
    if visible_in visible pid then rest else record { player_id = pid } ∷ rest

forget : List PlayerLeaveDelta → ClientSnapshot → ClientSnapshot
forget [] seen = seen
forget (l ∷ ls) seen = forget ls (delete l.player_id seen)

-- BuildPlayerDelta: the delta, and the snapshot that it leaves.
unfoldable pub build_player_delta :
    {F : Type 0}
    → ℕ
    → List String
    → ClientSnapshot
    → Map String (PlayerState F)
    → PlayerDelta F × ClientSnapshot
unfolding visit_all departed forget visible_in
build_player_delta tick visible snapshot states =
    let a = visit_all states visible (record { enters = []; updates = []; seen = snapshot }) in
    let leaves = departed visible a.seen in
    (
      record { tick = tick; enters = a.enters; updates = a.updates; leaves = leaves },
      forget leaves a.seen,
    )
