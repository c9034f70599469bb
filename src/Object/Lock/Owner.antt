-- ===== src/Object/Lock/Owner.antt =====
-- What a granted lock keeps from other users, and what its release gives back.
use realtime_room_middleware.Base.{
  ℕ, ◌+◌, ◌-◌, ◌<◌, ◌≡◌, ◌≢◌, refl, String, arith, string_discrete, some, Option-cases, inl, inr,
  ite,
}
use realtime_room_middleware.Base.Map.{string_key, lookup-insert}
use realtime_room_middleware.Object.{ObjectState, get, unlocked, active}
use realtime_room_middleware.Object.Lock.{
  LockManager, count_of, acquire_lock, refresh_lock, release_lock, granted, rejected, leased,
  locked_by_another, not_locked_by, cleared,
}
use realtime_room_middleware.Object.Lock.Counts.{count_of-insert, count_of-drop_count}

module _ {F : Type 0} where
  -- A granted lock is recorded on its object, under the caller, and on no other object.
  pub acquire_lock-records :
      (lm : LockManager F) (id user session : String) (now : ℕ)
      → (acquire_lock lm id user session now).1 ≡ granted
      → let lm' = (acquire_lock lm id user session now).0 in
        (o : ObjectState F) × (get lm.objects id ≡ some o)
        × (o.status ≡ active)
        × (get lm'.objects id ≡ some (leased lm.lease.ttl o user session now))
        × (lm'.lease ≡ lm.lease)
  unfolding acquire_lock
  acquire_lock-records lm id user session now h = elim (Option-cases (get lm.objects id)) [
    | inl e ↦ absurd (ground arith)
    | inr (o, e) ↦ (
      o,
      e,
      ground arith,
      ground (
        arith,
        lookup-insert id id (leased lm.lease.ttl o user session now) lm.objects.objects,
        lookup-insert id id (leased lm.lease.ttl o o.lock.locked_by session now) lm.objects.objects,
      ),
      ground arith,
    )
  ]

  pub acquire_lock-others :
      (lm : LockManager F) (id user session : String) (now : ℕ) (j : String)
      → j ≢ id
      → get (acquire_lock lm id user session now).0.objects j ≡ get lm.objects j
  unfolding acquire_lock
  acquire_lock-others lm id user session now j ne = elim (Option-cases (get lm.objects id)) [
    | inl e ↦ rw (e, acquire_lock)
    | inr (o, e) ↦ ground (
      arith,
      lookup-insert id j (leased lm.lease.ttl o user session now) lm.objects.objects,
      lookup-insert id j (leased lm.lease.ttl o o.lock.locked_by session now) lm.objects.objects,
    )
  ]

  -- While the lock lasts, nobody else can take, extend or release it.
  held_excludes :
      (lm : LockManager F) (id user other session : String) (t : ℕ) (o : ObjectState F)
      → get lm.objects id ≡ some o
      → o.status ≡ active
      → o.lock.locked_by ≡ user
      → t < o.lock.lock_until
      → user ≢ ""
      → other ≢ user
      → (acquire_lock lm id other session t ≡ (lm, rejected locked_by_another))
        × (refresh_lock lm id other t ≡ (lm, rejected not_locked_by))
        × (release_lock lm id other t ≡ (lm, rejected not_locked_by))
  unfolding acquire_lock refresh_lock release_lock
  held_excludes lm id user other session t o e a b l ne ne' =
      (ground arith, ground arith, ground arith)

  -- After a user with a non-empty ID was granted a lock at `now`, every call of another user on the
  -- object before `now + TTL` (acquire, refresh or release) is rejected and changes nothing.
  pub acquire_lock-excludes :
      (lm : LockManager F) (id user other session session' : String) (now t : ℕ)
      → (acquire_lock lm id user session now).1 ≡ granted
      → user ≢ ""
      → other ≢ user
      → t < now + lm.lease.ttl
      → let lm' = (acquire_lock lm id user session now).0 in
        (acquire_lock lm' id other session' t ≡ (lm', rejected locked_by_another))
        × (refresh_lock lm' id other t ≡ (lm', rejected not_locked_by))
        × (release_lock lm' id other t ≡ (lm', rejected not_locked_by))
  acquire_lock-excludes lm id user other session session' now t h ne ne' l =
      let (o, found, is_active, recorded, _) = acquire_lock-records lm id user session now h in
      held_excludes (acquire_lock lm id user session now).0 id user other session' t
        (leased lm.lease.ttl o user session now) recorded is_active refl l ne ne'

  acquire_lock-counts :
      (lm : LockManager F) (id user session : String) (now : ℕ) (o : ObjectState F) (v : String)
      → get lm.objects id ≡ some o
      → o.lock.locked_by ≡ ""
      → (acquire_lock lm id user session now).1 ≡ granted
      → count_of v (acquire_lock lm id user session now).0.user_lock_count
        ≡ ite
            (string_discrete user v)
            (count_of v lm.user_lock_count + 1)
            (count_of v lm.user_lock_count)
  unfolding acquire_lock
  acquire_lock-counts lm id user session now o v e free h =
      ground
        (arith, count_of-insert user v (count_of user lm.user_lock_count + 1) lm.user_lock_count)

  release_lock-own :
      (lm : LockManager F) (id user : String) (t : ℕ) (o : ObjectState F) (v : String)
      → get lm.objects id ≡ some o
      → o.lock.locked_by ≡ user
      → t < o.lock.lock_until
      → user ≢ ""
      → let r = release_lock lm id user t in
        (r.1 ≡ granted)
        × (get r.0.objects id ≡ some (cleared o))
        × (count_of v r.0.user_lock_count
            ≡ ite
                (string_discrete user v)
                (count_of v lm.user_lock_count - 1)
                (count_of v lm.user_lock_count))
  unfolding release_lock
  release_lock-own lm id user t o v e b l ne = ground (
    arith,
    lookup-insert id id (cleared o) lm.objects.objects,
    count_of-drop_count o.lock.locked_by v lm.user_lock_count,
  )

  -- A user with a non-empty ID who is granted a lock on a free object can release it before it expires;
  -- the object is then unlocked, and every user's count is what it was before.
  pub release_lock-acquire_lock :
      (lm : LockManager F) (id user session : String) (now t : ℕ) (o : ObjectState F) (v : String)
      → get lm.objects id ≡ some o
      → o.lock.locked_by ≡ ""
      → user ≢ ""
      → (acquire_lock lm id user session now).1 ≡ granted
      → t < now + lm.lease.ttl
      → let r = release_lock (acquire_lock lm id user session now).0 id user t in
        (r.1 ≡ granted)
        × ((o' : ObjectState F) × (get r.0.objects id ≡ some o') × (o'.lock ≡ unlocked))
        × (count_of v r.0.user_lock_count ≡ count_of v lm.user_lock_count)
  release_lock-acquire_lock lm id user session now t o v e free ne h l =
      let (x, found, _, recorded, _) = acquire_lock-records lm id user session now h in
      let x' : ObjectState F = leased lm.lease.ttl x user session now in
      let (yes_granted, unlocked_now, count) =
        release_lock-own (acquire_lock lm id user session now).0 id user t x' v recorded refl l
          ne in
      (
        yes_granted,
        (cleared x', unlocked_now, refl),
        ground (arith, count, acquire_lock-counts lm id user session now o v e free h),
      )
