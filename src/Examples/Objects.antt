-- ===== src/Examples/Objects.antt =====
-- Runs of the lock manager.
use realtime_room_middleware.Base.{
  ℕ, ◌+◌, ◌-◌, ◌≤◌, ◌<◌, ◌≡◌, ◌≢◌, refl, [], ◌∷◌, string_discrete, arith, some, true,
}
use realtime_room_middleware.Base.Map.{lookup, insert, string_key, sum_by}
use realtime_room_middleware.Object.{
  ObjectTransform, ObjectState, fresh_object, new_object_manager, get, list, unlocked,
}
use realtime_room_middleware.Object.Lock.{
  LockLease, LockManager, new_lock_manager, acquire_lock, refresh_lock, release_lock,
  release_expired, release_by_session, sweep, granted, rejected, locked_by_another, not_locked_by,
  leased, count_of, is_locked, is_expired,
}
use realtime_room_middleware.Object.Lock.Counts.{held}
use realtime_room_middleware.Object.Lock.Calls.{creates, acquires, run}
use realtime_room_middleware.Object.Lock.Limit.{run-held-le}
use realtime_room_middleware.Object.Lock.Owner.{acquire_lock-excludes, release_lock-acquire_lock}
use realtime_room_middleware.Object.Lock.Releases.{
  HasRunOut, IsOf, Clears, Lists, release_expired-exact, release_by_session-exact,
}
use realtime_room_middleware.Object.Lock.Agreement.{
  Agrees, acquire_lock-Agrees, acquire_lock-drifts,
}
use realtime_room_middleware.Examples.Texts.{ann_named, bob_not_ann}

abbrev still : ObjectTransform ℕ
still = record {
  position = record { x = 0; y = 0; z = 0 };
  rotation = record { x = 0; y = 0; z = 0; w = 1 };
}

abbrev one_lock : LockLease
one_lock = record { ttl = 10; max_locks_per_user = 1 }

abbrev door : ObjectState ℕ
door = fresh_object "door" "door" still

abbrev door_free : LockManager ℕ
door_free = record {
  objects = record { objects = ("door", door) ∷ [] };
  lease = one_lock;
  user_lock_count = [];
}

-- The door, locked by ann until 15.
abbrev door_locked : LockManager ℕ
door_locked = record {
  objects = record { objects = ("door", leased 10 door "ann" "s1" 5) ∷ [] };
  lease = one_lock;
  user_lock_count = ("ann", 1) ∷ [];
}

ann_granted : (acquire_lock door_free "door" "ann" "s1" 5).1 ≡ granted
unfolding acquire_lock lookup string_discrete
ann_granted = refl

ann_locks : (acquire_lock door_free "door" "ann" "s1" 5).0 ≡ door_locked
unfolding acquire_lock lookup insert string_discrete
ann_locks = refl

run-held-le_example :
    held {F = ℕ} "ann"
      (run (new_lock_manager new_object_manager one_lock) (
        creates "door" "door" still
        ∷ creates "lamp" "lamp" still
        ∷ acquires "door" "ann" "s1" 5
        ∷ acquires "lamp" "ann" "s1" 6
        ∷ [])).objects.objects
    ≤ 1
run-held-le_example =
    run-held-le one_lock
      (creates "door" "door" still
        ∷ creates "lamp" "lamp" still
        ∷ acquires "door" "ann" "s1" 5
        ∷ acquires "lamp" "ann" "s1" 6
        ∷ [])
      "ann" ann_named

acquire_lock-excludes_example :
    let lm' = (acquire_lock door_free "door" "ann" "s1" 5).0 in
    (acquire_lock lm' "door" "bob" "s2" 14 ≡ (lm', rejected locked_by_another))
    × (refresh_lock lm' "door" "bob" 14 ≡ (lm', rejected not_locked_by))
    × (release_lock lm' "door" "bob" 14 ≡ (lm', rejected not_locked_by))
acquire_lock-excludes_example =
    acquire_lock-excludes door_free "door" "ann" "bob" "s1" "s2" 5 14 ann_granted ann_named
      bob_not_ann (omega arith)

free_door_found : get door_free.objects "door" ≡ some door
unfolding lookup string_discrete
free_door_found = refl

release_lock-acquire_lock_example :
    let r = release_lock (acquire_lock door_free "door" "ann" "s1" 5).0 "door" "ann" 14 in
    (r.1 ≡ granted)
    × ((o' : ObjectState ℕ) × (get r.0.objects "door" ≡ some o') × (o'.lock ≡ unlocked))
    × (count_of "bob" r.0.user_lock_count ≡ count_of "bob" door_free.user_lock_count)
release_lock-acquire_lock_example =
    release_lock-acquire_lock door_free "door" "ann" "s1" 5 14 door "bob" free_door_found refl
      ann_named ann_granted (omega arith)

release_expired-exact_example :
    let (lm', ids) = release_expired door_locked 15 in
    Clears (HasRunOut 15) (get door_locked.objects "door") (get lm'.objects "door")
    × Lists (HasRunOut 15) (list door_locked.objects.objects) ids
    × (count_of "ann" lm'.user_lock_count
        ≡ count_of "ann" door_locked.user_lock_count
          - (held "ann" door_locked.objects.objects - held "ann" lm'.objects.objects))
release_expired-exact_example = release_expired-exact door_locked 15 "door" "ann" ann_named

locked_door_kept :
    get (release_expired door_locked 14).0.objects "door" ≡ some (leased 10 door "ann" "s1" 5)
unfolding release_expired sweep lookup string_discrete is_expired
locked_door_kept = refl

release_by_session-exact_example :
    let (lm', ids) = release_by_session door_locked "s1" in
    Clears (IsOf "s1") (get door_locked.objects "door") (get lm'.objects "door")
    × Lists (IsOf "s1") (list door_locked.objects.objects) ids
    × (count_of "ann" lm'.user_lock_count
        ≡ count_of "ann" door_locked.user_lock_count
          - (held "ann" door_locked.objects.objects - held "ann" lm'.objects.objects))
release_by_session-exact_example = release_by_session-exact door_locked "s1" "door" "ann" ann_named

door_free-Agrees : Agrees door_free
unfolding sum_by lookup
door_free-Agrees u ne = ground arith

door_locked-Agrees : Agrees door_locked
unfolding sum_by lookup
door_locked-Agrees u ne = ground arith

free_door_not_stale :
    (o : ObjectState ℕ)
    → get door_free.objects "door" ≡ some o
    → o.lock.locked_by ≢ ""
    → is_locked o.lock 5 ≡ true
free_door_not_stale o e n = ground (arith, free_door_found)

acquire_lock-Agrees_example : Agrees (acquire_lock door_free "door" "ann" "s1" 5).0
acquire_lock-Agrees_example =
    acquire_lock-Agrees door_free "door" "ann" "s1" 5 free_door_not_stale door_free-Agrees

locked_door_found : get door_locked.objects "door" ≡ some (leased 10 door "ann" "s1" 5)
unfolding lookup string_discrete
locked_door_found = refl

bob_under_limit : count_of "bob" door_locked.user_lock_count < 1
unfolding lookup string_discrete
bob_under_limit = omega arith

acquire_lock-drifts_example :
    let lm' = (acquire_lock door_locked "door" "bob" "s2" 20).0 in
    count_of "ann" lm'.user_lock_count ≡ held "ann" lm'.objects.objects + 1
acquire_lock-drifts_example =
    acquire_lock-drifts door_locked "door" "bob" "ann" "s2" 20 (leased 10 door "ann" "s1" 5)
      door_locked-Agrees locked_door_found refl refl ann_named (omega arith) bob_not_ann
      bob_under_limit
