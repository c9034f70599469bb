-- ===== src/Object/Lock/Releases.antt =====
-- Which locks the two sweeps clear, said without their tests (internal/game/object/lock.go, ReleaseExpired
-- and ReleaseBySession).
use realtime_room_middleware.Base.{
  ℕ, ◌-◌, ◌≤◌, ◌≡◌, ◌≢◌, ◌⊎◌, ◌↔◌, inl, inr, refl, sym, subst, Bool, true, false, List, [], ◌∷◌,
  String, arith, Option, none, some, Bool-cases,
}
use realtime_room_middleware.Base.Map.{Map, string_key, sum_by}
use realtime_room_middleware.Base.Word.{inc32}
use realtime_room_middleware.Object.{ObjectState, get, list, unlocked}
use realtime_room_middleware.Object.Lock.{
  LockManager, count_of, drop_count, sweep, cleared, release_expired, release_by_session,
  is_expired, is_of_session,
}
use realtime_room_middleware.Object.Lock.Counts.{held, count_of-drop_count}
use realtime_room_middleware.Object.Lock.Expiry.{swept, hits, lookup-sweep, released-sweep}

module _ {F : Type 0} where
  -- A lock that stands and whose time is over.
  abbrev pub HasRunOut : ℕ → ObjectState F → Type 0
  HasRunOut now o = (o.lock.locked_by ≢ "") × (o.lock.lock_until ≤ now)

  -- A lock that stands and was taken by the session.
  abbrev pub IsOf : String → ObjectState F → Type 0
  IsOf session o = (o.lock.locked_by ≢ "") × (o.lock.session_id ≡ session)

  -- The object without its lock, one version later.
  pub record Freed (o o' : ObjectState F) : Type 0 where
    pub free : o'.lock ≡ unlocked
    pub later : o'.version ≡ inc32 o.version
    pub same_id : o'.id ≡ o.id
    pub same_kind : o'.kind ≡ o.kind
    pub same_transform : o'.transform ≡ o.transform
    pub same_custom_state : o'.custom_state ≡ o.custom_state
    pub same_status : o'.status ≡ o.status

  -- An object that has the property is freed, any other one is left as it was.
  abbrev pub Clears :
      (ObjectState F → Type 0) → Option (ObjectState F) → Option (ObjectState F) → Type 0
  Clears P none after = after ≡ none
  Clears P (some o) after =
      (P o × ((o' : ObjectState F) × ((after ≡ some o') × Freed o o')))
      ⊎ ((P o → ⊥) × (after ≡ some o))

  -- The texts are the IDs of the objects that have the property, in their order.
  pub data Lists (P : ObjectState F → Type 0) : List (ObjectState F) → List String → Type 0 where
    no_object : Lists P [] []
    hit :
        {o : ObjectState F} {os : List (ObjectState F)} {ids : List String}
        → P o
        → Lists P os ids
        → Lists P (o ∷ os) (o.id ∷ ids)
    miss :
        {o : ObjectState F} {os : List (ObjectState F)} {ids : List String}
        → (P o → ⊥)
        → Lists P os ids
        → Lists P (o ∷ os) ids

  freed : (o : ObjectState F) → Freed o (cleared o)
  freed o = record {
    free = refl;
    later = refl;
    same_id = refl;
    same_kind = refl;
    same_transform = refl;
    same_custom_state = refl;
    same_status = refl;
  }

  HasRunOut-iff : (now : ℕ) (o : ObjectState F) → (is_expired now o ≡ true) ↔ HasRunOut now o
  unfolding is_expired
  HasRunOut-iff now o = ground arith

  IsOf-iff :
      (session : String) (o : ObjectState F) → (is_of_session session o ≡ true) ↔ IsOf session o
  unfolding is_of_session
  IsOf-iff session o = ground arith

  module _ (test : ObjectState F → Bool) (P : ObjectState F → Type 0)
      (decides : (o : ObjectState F) → (test o ≡ true) ↔ P o) where
    refutes : (o : ObjectState F) → test o ≡ false → P o → ⊥
    refutes o e p = ground (arith, (decides o).1 p)

    swept-Clears : (before : Option (ObjectState F)) → Clears P before (swept test before)
    swept-Clears none = refl
    swept-Clears (some o) = elim (Bool-cases (test o)) [
      | inl yes_hit ↦ inl ((decides o).0 yes_hit, (cleared o, (rw yes_hit refl, freed o)))
      | inr no_hit ↦ inr (refutes o no_hit, rw no_hit refl)
    ]

    hits-Lists : (os : List (ObjectState F)) → Lists P os (hits test os)
    hits-Lists [] = no_object
    hits-Lists (o ∷ os) = elim (Bool-cases (test o)) [
      | inl yes_hit ↦ rw yes_hit (hit ((decides o).0 yes_hit) (hits-Lists os))
      | inr no_hit ↦ rw no_hit (miss (refutes o no_hit) (hits-Lists os))
    ]

  -- A sweep takes from a user's count as many as it takes from the locks that name the user.
  sweep-counts :
      (u : String)
      → u ≢ ""
      → (test : ObjectState F → Bool)
      → ((o : ObjectState F) → test o ≡ true → o.lock.locked_by ≢ "")
      → (m : Map String (ObjectState F)) (counts : Map String ℕ)
      → (held u (sweep test m counts).objects ≤ held u m)
        × (count_of u (sweep test m counts).counts
            ≡ count_of u counts - (held u m - held u (sweep test m counts).objects))
  unfolding sweep sum_by
  sweep-counts u ne test locked [] counts = ground arith
  sweep-counts u ne test locked ((id, o) ∷ m) counts = elim (Bool-cases (test o)) [
    | inl yes_hit ↦ rw yes_hit (
        ground (
          arith,
          count_of-drop_count o.lock.locked_by u counts (locked o yes_hit),
          sweep-counts u ne test locked m (drop_count o.lock.locked_by counts),
        ))
    | inr no_hit ↦ rw no_hit (ground (arith, sweep-counts u ne test locked m counts))
  ]

  -- ReleaseExpired frees exactly the objects whose lock stands and has run out, at that time or before:
  -- they lose the lock, get the next version and are the same else, and every other object is as it was.
  -- The returned IDs are those of the freed objects, in the order of the objects; and the count of each
  -- user with a non-empty ID goes down, at most to 0, by the number of the user's locks that were cleared.
  pub release_expired-exact :
      (lm : LockManager F) (now : ℕ) (id u : String)
      → u ≢ ""
      → let (lm', ids) = release_expired lm now in
        Clears (HasRunOut now) (get lm.objects id) (get lm'.objects id)
        × Lists (HasRunOut now) (list lm.objects.objects) ids
        × (count_of u lm'.user_lock_count
            ≡ count_of u lm.user_lock_count
              - (held u lm.objects.objects - held u lm'.objects.objects))
  unfolding release_expired
  release_expired-exact lm now id u ne =
      let decides = HasRunOut-iff now in
      (
        subst (Clears (HasRunOut now) (get lm.objects id))
            (sym (lookup-sweep (is_expired now) lm.objects.objects lm.user_lock_count id))
            (swept-Clears (is_expired now) (HasRunOut now) decides (get lm.objects id)),
        subst (Lists (HasRunOut now) (list lm.objects.objects))
            (sym (released-sweep (is_expired now) lm.objects.objects lm.user_lock_count))
            (hits-Lists (is_expired now) (HasRunOut now) decides (list lm.objects.objects)),
        (sweep-counts u ne (is_expired now) (λ o h. ((decides o).0 h).0) lm.objects.objects
            lm.user_lock_count).1,
      )

  pub release_by_session-Clears :
      (lm : LockManager F) (session id : String)
      → Clears (IsOf session) (get lm.objects id) (get (release_by_session lm session).0.objects id)
  unfolding release_by_session
  release_by_session-Clears lm session id =
      subst (Clears (IsOf session) (get lm.objects id))
        (sym (lookup-sweep (is_of_session session) lm.objects.objects lm.user_lock_count id))
        (swept-Clears (is_of_session session) (IsOf session) (IsOf-iff session) (get lm.objects id))

  -- ReleaseBySession frees exactly the objects whose lock stands and was taken by the session: they lose
  -- the lock, get the next version and are the same else, and every other object is as it was. The
  -- returned IDs are those of the freed objects, in the order of the objects; and the count of each user
  -- with a non-empty ID goes down, at most to 0, by the number of the user's locks that were cleared.
  pub release_by_session-exact :
      (lm : LockManager F) (session : String) (id u : String)
      → u ≢ ""
      → let (lm', ids) = release_by_session lm session in
        Clears (IsOf session) (get lm.objects id) (get lm'.objects id)
        × Lists (IsOf session) (list lm.objects.objects) ids
        × (count_of u lm'.user_lock_count
            ≡ count_of u lm.user_lock_count
              - (held u lm.objects.objects - held u lm'.objects.objects))
  unfolding release_by_session
  release_by_session-exact lm session id u ne =
      let decides = IsOf-iff session in
      (
        release_by_session-Clears lm session id,
        subst (Lists (IsOf session) (list lm.objects.objects))
            (sym (released-sweep (is_of_session session) lm.objects.objects lm.user_lock_count))
            (hits-Lists (is_of_session session) (IsOf session) decides (list lm.objects.objects)),
        (sweep-counts u ne (is_of_session session) (λ o h. ((decides o).0 h).0) lm.objects.objects
            lm.user_lock_count).1,
      )
