-- ===== src/Object/Lock/Agreement.antt =====
-- When the count of a user's locks is exact, and the one call that makes it drift.
use realtime_room_middleware.Base.{
  ℕ, ◌+◌, ◌≤◌, ◌<◌, ◌≡◌, ◌≢◌, true, String, arith, some, Option-cases, inl, inr,
}
use realtime_room_middleware.Base.Map.{string_key}
use realtime_room_middleware.Object.{ObjectState, get, active}
use realtime_room_middleware.Object.Lock.{
  LockManager, count_of, acquire_lock, refresh_lock, release_lock, release_expired,
  release_by_session, is_expired, is_of_session, leased, is_locked, cleared,
}
use realtime_room_middleware.Object.Lock.Counts.{
  held, held-insert, sweep-eq, count_of-insert, count_of-drop_count, refresh_lock-held,
}
use realtime_room_middleware.Object.Lock.Limit.{is_expired-locked, is_of_session-locked}

module _ {F : Type 0} where
  -- The count of each user with a non-empty ID is the number of objects that the user's locks stand on.
  abbrev pub Agrees : LockManager F → Type 0
  Agrees lm = (u : String) → u ≢ "" → held u lm.objects.objects ≡ count_of u lm.user_lock_count

  pub release_expired-Agrees :
      (lm : LockManager F) (now : ℕ) → Agrees lm → Agrees (release_expired lm now).0
  unfolding release_expired
  release_expired-Agrees lm now h u ne = omega (
    arith,
    h u ne,
    sweep-eq u ne (is_expired now) (is_expired-locked now) lm.objects.objects lm.user_lock_count 0
        (omega (arith, h u ne)),
  )

  pub release_by_session-Agrees :
      (lm : LockManager F) (session : String) → Agrees lm → Agrees (release_by_session lm session).0
  unfolding release_by_session
  release_by_session-Agrees lm session h u ne = omega (
    arith,
    h u ne,
    sweep-eq u ne (is_of_session session) (is_of_session-locked session) lm.objects.objects
        lm.user_lock_count 0 (omega (arith, h u ne)),
  )

  pub refresh_lock-Agrees :
      (lm : LockManager F) (id user : String) (now : ℕ)
      → Agrees lm
      → Agrees (refresh_lock lm id user now).0
  unfolding refresh_lock
  refresh_lock-Agrees lm id user now h u ne =
      ground (arith, h u ne, refresh_lock-held lm id user now u)

  pub release_lock-Agrees :
      (lm : LockManager F) (id user : String) (now : ℕ)
      → Agrees lm
      → Agrees (release_lock lm id user now).0
  unfolding release_lock
  release_lock-Agrees lm id user now h u ne = elim (Option-cases (get lm.objects id)) [
    | inl e ↦ rw (e, release_lock) (h u ne)
    | inr (o, e) ↦ ground (
      arith,
      h u ne,
      count_of-drop_count o.lock.locked_by u lm.user_lock_count,
      held-insert u id o (cleared o) lm.objects.objects e,
    )
  ]

  acquire_lock-agrees_at :
      (lm : LockManager F) (id user session : String) (now : ℕ) (u : String)
      → u ≢ ""
      → ((o : ObjectState F)
          → get lm.objects id ≡ some o
          → o.lock.locked_by ≢ ""
          → is_locked o.lock now ≡ true)
      → held u lm.objects.objects ≡ count_of u lm.user_lock_count
      → let lm' = (acquire_lock lm id user session now).0 in
        held u lm'.objects.objects ≡ count_of u lm'.user_lock_count
  unfolding acquire_lock
  acquire_lock-agrees_at lm id user session now u ne fresh h =
      elim (Option-cases (get lm.objects id)) [
        | inl e ↦ rw (e, acquire_lock) h
        | inr (o, e) ↦ ground (
          arith,
          fresh o e,
          count_of-insert user u (count_of user lm.user_lock_count + 1) lm.user_lock_count,
          held-insert u id o (leased lm.lease.ttl o user session now) lm.objects.objects e,
          held-insert u id o (leased lm.lease.ttl o o.lock.locked_by session now) lm.objects.objects
              e,
        )
      ]

  -- If the count of each user with a non-empty ID is the number of the user's locks, it is so too after
  -- an acquire that meets no lock that has run out but still stands.
  pub acquire_lock-Agrees :
      (lm : LockManager F) (id user session : String) (now : ℕ)
      → ((o : ObjectState F)
          → get lm.objects id ≡ some o
          → o.lock.locked_by ≢ ""
          → is_locked o.lock now ≡ true)
      → Agrees lm
      → Agrees (acquire_lock lm id user session now).0
  acquire_lock-Agrees lm id user session now fresh h u ne =
      acquire_lock-agrees_at lm id user session now u ne fresh (h u ne)

  -- Where these counts are exact, an acquire that takes over a lock which has run out, before
  -- ReleaseExpired has cleared it, leaves the count of the former owner, whose ID is not empty, one above
  -- the locks that name it.
  pub acquire_lock-drifts :
      (lm : LockManager F) (id user former session : String) (now : ℕ) (o : ObjectState F)
      → Agrees lm
      → get lm.objects id ≡ some o
      → o.status ≡ active
      → o.lock.locked_by ≡ former
      → former ≢ ""
      → o.lock.lock_until ≤ now
      → user ≢ former
      → count_of user lm.user_lock_count < lm.lease.max_locks_per_user
      → let lm' = (acquire_lock lm id user session now).0 in
        count_of former lm'.user_lock_count ≡ held former lm'.objects.objects + 1
  unfolding acquire_lock
  acquire_lock-drifts lm id user former session now o h e a b ne l ne' room = ground (
    arith,
    h former ne,
    count_of-insert user former (count_of user lm.user_lock_count + 1) lm.user_lock_count,
    held-insert former id o (leased lm.lease.ttl o user session now) lm.objects.objects e,
  )
