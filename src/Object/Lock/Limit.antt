-- ===== src/Object/Lock/Limit.antt =====
-- The limit of locks per user, over every sequence of calls on the lock manager and its objects.
use realtime_room_middleware.Base.{
  ℕ, ◌-◌, ◌≤◌, ◌≡◌, ◌≢◌, refl, ap, ◌∙◌, Bool, true, List, [], ◌∷◌, String, arith, some,
  Option-cases, inl, inr, if◌then◌else◌,
}
use realtime_room_middleware.Base.Map.{
  Map, lookup, string_key, sum_by, sum_by-insert_absent, sum_by-delete,
}
use realtime_room_middleware.Object.{
  ObjectState, ObjectTransform, get, put, create, update_transform, touched, update_custom_state,
  mark_inactive, remove, fresh_object, inactive, new_object_manager,
}
use realtime_room_middleware.Object.Lock.{
  LockManager, LockLease, count_of, drop_count, sweep, acquire_lock, refresh_lock, release_lock,
  release_expired, release_by_session, is_expired, is_of_session, new_lock_manager,
}
use realtime_room_middleware.Object.Lock.Calls.{
  ObjectCall, creates, moves, restates, deactivates, removes, acquires, refreshes, releases,
  expires, leaves, after, run,
}
use realtime_room_middleware.Object.Lock.Counts.{
  held, holds, held-insert, sweep-le, acquire_lock-held, acquire_lock-capped, refresh_lock-held,
  release_lock-held, count_of-insert, count_of-delete,
}

drop_count-le : (k u : String) (m : Map String ℕ) → count_of u (drop_count k m) ≤ count_of u m
unfolding drop_count
drop_count-le k u m =
    ground (arith, count_of-insert k u (count_of k m - 1) m, count_of-delete k u m)

module _ {F : Type 0} where
  -- No count is below the number of locks that the user holds, and none is above the limit.
  pub record Limited (lm : LockManager F) : Type 0 where
    pub counted : (u : String) → u ≢ "" → held u lm.objects.objects ≤ count_of u lm.user_lock_count
    pub capped : (u : String) → count_of u lm.user_lock_count ≤ lm.lease.max_locks_per_user

  sweep-capped :
      (u : String) (test : ObjectState F → Bool) (m : Map String (ObjectState F))
      (counts : Map String ℕ)
      → count_of u (sweep test m counts).counts ≤ count_of u counts
  unfolding sweep
  sweep-capped u test [] counts = omega arith
  sweep-capped u test ((id, o) ∷ m) counts = ground (
    arith,
    drop_count-le o.lock.locked_by u counts,
    sweep-capped u test m (if test o then drop_count o.lock.locked_by counts else counts),
  )

  pub is_expired-locked :
      (now : ℕ) (o : ObjectState F) → is_expired now o ≡ true → o.lock.locked_by ≢ ""
  unfolding is_expired
  is_expired-locked now o h e = ground arith

  pub is_of_session-locked :
      (session : String) (o : ObjectState F)
      → is_of_session session o ≡ true
      → o.lock.locked_by ≢ ""
  unfolding is_of_session
  is_of_session-locked session o h e = ground arith

  -- A write that keeps the lock keeps what every user holds.
  put-held :
      (lm : LockManager F) (u id : String) (o o' : ObjectState F)
      → get lm.objects id ≡ some o
      → o'.lock ≡ o.lock
      → held u (put lm.objects id o').objects ≡ held u lm.objects.objects
  put-held lm u id o o' e k = ground (arith, held-insert u id o o' lm.objects.objects e)

  creates-held :
      (lm : LockManager F) (id kind : String) (t : ObjectTransform F) (u : String)
      → u ≢ ""
      → held u (after lm (creates id kind t)).objects.objects ≡ held u lm.objects.objects
  unfolding after create
  creates-held lm id kind t u ne = elim (Option-cases (get lm.objects id)) [
    | inl e ↦
        rw (e, create)
          (ground (
            arith,
            sum_by-insert_absent (holds u) id (fresh_object id kind t) lm.objects.objects e,
          ))
    | inr (o, e) ↦ rw (e, create)
  ]

  moves-held :
      (lm : LockManager F) (id : String) (t : ObjectTransform F) (u : String)
      → held u (after lm (moves id t)).objects.objects ≡ held u lm.objects.objects
  unfolding after update_transform
  moves-held lm id t u = elim (Option-cases (get lm.objects id)) [
    | inl e ↦ rw (e, update_transform)
    | inr (o, e) ↦ rw (e, update_transform) (put-held lm u id o _ e refl)
  ]

  restates-held :
      (lm : LockManager F) (id : String) (s : List ℕ) (u : String)
      → held u (after lm (restates id s)).objects.objects ≡ held u lm.objects.objects
  unfolding after update_custom_state
  restates-held lm id s u = elim (Option-cases (get lm.objects id)) [
    | inl e ↦ rw (e, update_custom_state)
    | inr (o, e) ↦ rw (e, update_custom_state) (put-held lm u id o _ e refl)
  ]

  deactivates-held :
      (lm : LockManager F) (id : String) (u : String)
      → held u (after lm (deactivates id)).objects.objects ≡ held u lm.objects.objects
  unfolding after mark_inactive
  deactivates-held lm id u = elim (Option-cases (get lm.objects id)) [
    | inl e ↦ rw (e, mark_inactive)
    | inr (o, e) ↦
        ground (arith, put-held lm u id o (touched (record o { status = inactive })) e refl)
  ]

  after-counted :
      (lm : LockManager F) (c : ObjectCall F) (u : String)
      → u ≢ ""
      → held u lm.objects.objects ≤ count_of u lm.user_lock_count
      → held u (after lm c).objects.objects ≤ count_of u (after lm c).user_lock_count
  unfolding after release_expired release_by_session refresh_lock remove create update_transform
      update_custom_state mark_inactive
  after-counted lm (creates id kind t) u ne h = ground (arith, creates-held lm id kind t u ne)
  after-counted lm (moves id t) u ne h = ground (arith, moves-held lm id t u)
  after-counted lm (restates id s) u ne h = ground (arith, restates-held lm id s u)
  after-counted lm (deactivates id) u ne h = ground (arith, deactivates-held lm id u)
  after-counted lm (removes id) u ne h =
      omega (arith, sum_by-delete (holds u) id lm.objects.objects)
  after-counted lm (acquires id user session now) u ne h =
      acquire_lock-held lm id user session now u ne h
  after-counted lm (refreshes id user now) u ne h =
      ground (arith, refresh_lock-held lm id user now u)
  after-counted lm (releases id user now) u ne h = release_lock-held lm id user now u ne h
  after-counted lm (expires now) u ne h = omega (
    arith,
    sweep-le u ne (is_expired now) (is_expired-locked now) lm.objects.objects lm.user_lock_count 0
        (omega arith),
  )
  after-counted lm (leaves session) u ne h = omega (
    arith,
    sweep-le u ne (is_of_session session) (is_of_session-locked session) lm.objects.objects
        lm.user_lock_count 0 (omega arith),
  )

  release_lock-count :
      (lm : LockManager F) (id user : String) (now : ℕ) (u : String)
      → count_of u (release_lock lm id user now).0.user_lock_count ≤ count_of u lm.user_lock_count
  unfolding release_lock
  release_lock-count lm id user now u = elim (Option-cases (get lm.objects id)) [
    | inl e ↦ rw (e, release_lock) (omega arith)
    | inr (o, e) ↦ ground (arith, drop_count-le o.lock.locked_by u lm.user_lock_count)
  ]

  after-capped :
      (lm : LockManager F) (c : ObjectCall F) (u : String)
      → count_of u lm.user_lock_count ≤ lm.lease.max_locks_per_user
      → count_of u (after lm c).user_lock_count ≤ lm.lease.max_locks_per_user
  unfolding after release_expired release_by_session refresh_lock remove create update_transform
      update_custom_state mark_inactive
  after-capped lm (creates id kind t) u h = ground arith
  after-capped lm (moves id t) u h = ground arith
  after-capped lm (restates id s) u h = ground arith
  after-capped lm (deactivates id) u h = ground arith
  after-capped lm (removes id) u h = h
  after-capped lm (acquires id user session now) u h =
      acquire_lock-capped lm id user session now u h
  after-capped lm (refreshes id user now) u h = ground arith
  after-capped lm (releases id user now) u h = omega (arith, release_lock-count lm id user now u)
  after-capped lm (expires now) u h =
      omega (arith, sweep-capped u (is_expired now) lm.objects.objects lm.user_lock_count)
  after-capped lm (leaves session) u h =
      omega (arith, sweep-capped u (is_of_session session) lm.objects.objects lm.user_lock_count)

  after-lease : (lm : LockManager F) (c : ObjectCall F) → (after lm c).lease ≡ lm.lease
  unfolding after release_expired release_by_session refresh_lock remove create update_transform
      update_custom_state mark_inactive release_lock acquire_lock
  after-lease lm (creates id kind t) = ground arith
  after-lease lm c = ground arith

  pub after-Limited : (lm : LockManager F) (c : ObjectCall F) → Limited lm → Limited (after lm c)
  after-Limited lm c h = record {
    counted = λ u ne. after-counted lm c u ne (h.counted u ne);
    capped = λ u. rw (after-lease lm c) (after-capped lm c u (h.capped u));
  }

  run-Limited_from :
      (lm : LockManager F) (cs : List (ObjectCall F)) → Limited lm → Limited (run lm cs)
  unfolding run
  run-Limited_from lm [] h = h
  run-Limited_from lm (c ∷ cs) h = run-Limited_from (after lm c) cs (after-Limited lm c h)

  run-lease : (lm : LockManager F) (cs : List (ObjectCall F)) → (run lm cs).lease ≡ lm.lease
  unfolding run
  run-lease lm [] = refl
  run-lease lm (c ∷ cs) = run-lease (after lm c) cs ∙ after-lease lm c

-- Whatever calls are made, in any order and at any times, on a new lock manager over no objects, a
-- user with a non-empty ID is named by the locks of at most `MaxLocksPerUser` objects.
pub run-held-le :
    {F : Type 0} (lease : LockLease) (cs : List (ObjectCall F)) (u : String)
    → u ≢ ""
    → held u (run (new_lock_manager new_object_manager lease) cs).objects.objects
      ≤ lease.max_locks_per_user
unfolding new_lock_manager new_object_manager sum_by lookup
run-held-le {F} lease cs u ne = omega (arith, h.counted u ne, h.capped u, same_lease)
  where
    start : LockManager F
    start = new_lock_manager new_object_manager lease

    h : Limited (run start cs)
    h =
        run-Limited_from start cs
          (record { counted = λ v _. omega arith; capped = λ v. omega arith })

    same_lease : (run start cs).lease.max_locks_per_user ≡ lease.max_locks_per_user
    same_lease = ap (λ (l : LockLease). l.max_locks_per_user) (run-lease start cs)
