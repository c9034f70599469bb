-- ===== src/Object/Lock/Expiry.antt =====
-- The two sweeps over a room's objects: expired leases, and the locks of one session.
use realtime_room_middleware.Base.{
  ℕ, ◌≤◌, ◌≡◌, ◌≢◌, refl, Bool, true, List, [], ◌∷◌, String, arith, string_discrete, Option, none,
  some, if◌then◌else◌,
}
use realtime_room_middleware.Base.Map.{Map, lookup, string_key}
use realtime_room_middleware.Object.{ObjectState, get, list}
use realtime_room_middleware.Object.Lock.{
  LockManager, drop_count, sweep, cleared, release_expired, release_by_session, is_expired,
  is_of_session, is_locked,
}

module _ {F : Type 0} where
  -- The object that a sweep leaves in place of `o`.
  abbrev pub swept : (ObjectState F → Bool) → Option (ObjectState F) → Option (ObjectState F)
  swept test none = none
  swept test (some o) = some (if test o then cleared o else o)

  -- The IDs of the objects that a sweep hits.
  abbrev pub hits : (ObjectState F → Bool) → List (ObjectState F) → List String
  hits test [] = []
  hits test (o ∷ os) = let rest = hits test os in if test o then o.id ∷ rest else rest

  pub lookup-sweep :
      (test : ObjectState F → Bool) (m : Map String (ObjectState F)) (counts : Map String ℕ)
      (id : String)
      → lookup id (sweep test m counts).objects ≡ swept test (lookup id m)
  unfolding sweep lookup
  lookup-sweep test [] counts id = refl
  lookup-sweep test ((j, o) ∷ m) counts id = ground (
    arith,
    lookup-sweep test m (if test o then drop_count o.lock.locked_by counts else counts) id,
  )

  pub released-sweep :
      (test : ObjectState F → Bool) (m : Map String (ObjectState F)) (counts : Map String ℕ)
      → (sweep test m counts).released ≡ hits test (list m)
  unfolding sweep list
  released-sweep test [] counts = refl
  released-sweep test ((j, o) ∷ m) counts =
      ground (
        arith,
        released-sweep test m (if test o then drop_count o.lock.locked_by counts else counts),
      )

  -- The two sweeps, by the code's own tests.
  pub release_expired-swept :
      (lm : LockManager F) (now : ℕ) (id : String)
      → get (release_expired lm now).0.objects id ≡ swept (is_expired now) (get lm.objects id)
  unfolding release_expired
  release_expired-swept lm now id =
      lookup-sweep (is_expired now) lm.objects.objects lm.user_lock_count id

  pub release_by_session-swept :
      (lm : LockManager F) (session id : String)
      → (get (release_by_session lm session).0.objects id
          ≡ swept (is_of_session session) (get lm.objects id))
        × ((release_by_session lm session).1
            ≡ hits (is_of_session session) (list lm.objects.objects))
  unfolding release_by_session
  release_by_session-swept lm session id = (
    lookup-sweep (is_of_session session) lm.objects.objects lm.user_lock_count id,
    released-sweep (is_of_session session) lm.objects.objects lm.user_lock_count,
  )

  -- Afterwards every lock that is left is active, at that time and at any earlier one.
  pub release_expired-active :
      (lm : LockManager F) (now t : ℕ) (id : String) (o : ObjectState F)
      → get (release_expired lm now).0.objects id ≡ some o
      → t ≤ now
      → o.lock.locked_by ≢ ""
      → is_locked o.lock t ≡ true
  unfolding is_locked is_expired
  release_expired-active lm now t id o e l ne = ground (arith, release_expired-swept lm now id)

  pub release_by_session-none_left :
      (lm : LockManager F) (session id : String) (o : ObjectState F)
      → get (release_by_session lm session).0.objects id ≡ some o
      → o.lock.session_id ≡ session
      → o.lock.locked_by ≡ ""
  unfolding is_of_session
  release_by_session-none_left lm session id o e s = elim (string_discrete o.lock.locked_by "") [
    | yes p ↦ p
    | no p ↦ absurd (ground (arith, (release_by_session-swept lm session id).0))
  ]
