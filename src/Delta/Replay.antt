-- ===== src/Delta/Replay.antt =====
-- A client that applies each delta that it is sent sees exactly the players in its interest set.
use realtime_room_middleware.Base.{
  ℕ, ◌≡◌, Bool, true, false, ◌||◌, Option, none, some, List, [], ◌∷◌, String, if◌then◌else◌, same,
}
use realtime_room_middleware.Base.Map.{Map, insert, delete, string_key}
use realtime_room_middleware.Player.{PlayerState, PlayerTransform}
use realtime_room_middleware.Delta.{
  PlayerDelta, PlayerEnterDelta, PlayerUpdateDelta, PlayerLeaveDelta, ClientSnapshot, Progress,
}

-- What a client shows of a player: its transform and version.
abbrev pub Shown : Type 0 → Type 0
Shown F = PlayerTransform F × ℕ

abbrev pub Client : Type 0 → Type 0
Client F = Map String (Shown F)

abbrev told_to_leave : String → List PlayerLeaveDelta → Bool
told_to_leave pid [] = false
told_to_leave pid (l ∷ ls) = same l.player_id pid || told_to_leave pid ls

module _ {F : Type 0} where
  abbrev pub apply_enters : List (PlayerEnterDelta F) → Client F → Client F
  apply_enters [] c = c
  apply_enters (e ∷ es) c = apply_enters es (insert e.player_id (e.transform, e.version) c)

  abbrev pub apply_updates : List (PlayerUpdateDelta F) → Client F → Client F
  apply_updates [] c = c
  apply_updates (u ∷ us) c = apply_updates us (insert u.player_id (u.transform, u.version) c)

  abbrev pub apply_leaves : List PlayerLeaveDelta → Client F → Client F
  apply_leaves [] c = c
  apply_leaves (l ∷ ls) c = apply_leaves ls (delete l.player_id c)

  -- A client that applies a delta.
  abbrev pub replay : PlayerDelta F → Client F → Client F
  replay d c = apply_leaves d.leaves (apply_updates d.updates (apply_enters d.enters c))

  abbrev or_else : Option (Shown F) → Option (Shown F) → Option (Shown F)
  or_else (some x) _ = some x
  or_else none y = y

  abbrev latest : String → List (PlayerUpdateDelta F) → Option (Shown F)
  latest pid [] = none
  latest pid (u ∷ us) =
      or_else (latest pid us) (if same u.player_id pid then some (u.transform, u.version) else none)

  -- What the client shows once it has applied the entries gathered so far.
  abbrev shown : Progress F → Client F → Client F
  shown a c = apply_updates a.updates (apply_enters a.enters c)

  abbrev version_of : Option (Shown F) → Option ℕ
  version_of none = none
  version_of (some x) = some x.1

  -- If a client shows the version that a player has now, it shows the transform that it has now.
  abbrev pub Faithful : Option (Shown F) → Option (PlayerState F) → Type 0
  Faithful (some x) (some ps) = x.1 ≡ ps.version → x.0 ≡ ps.transform
  Faithful (some x) none = Unit
  Faithful none _ = Unit

  -- The client and the snapshot agree on one player, whose version names one transform.
  pub record InStep (o : Option (Shown F)) (last : Option ℕ) (now : Option (PlayerState F))
      : Type 0 where
    pub agrees : version_of o ≡ last
    pub faithful : Faithful o now

  -- What a visit leaves at one player.
  abbrev current : Bool → Option (PlayerState F) → Option (Shown F) → Option (Shown F)
  current true (some ps) old = some (ps.transform, ps.version)
  current true none old = old
  current false _ old = old

  -- What a client should show of a player once it has applied a delta.
  abbrev pub target : Bool → Option (PlayerState F) → Option (Shown F) → Option (Shown F)
  target true (some ps) old = some (ps.transform, ps.version)
  target true none old = old
  target false _ old = none

  abbrev start : ClientSnapshot → Progress F
  start snapshot = record { enters = []; updates = []; seen = snapshot }
