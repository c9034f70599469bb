-- ===== src/Object/Lock.antt =====
-- internal/game/object/lock.go: leases on objects, with a count of locks for each user.
-- The manager's `*ObjectManager` is the `objects` field, which the room shares.
pub mod Counts
pub mod Calls
pub mod Limit
pub mod Owner
pub mod Expiry
pub mod Releases
pub mod Agreement
use realtime_room_middleware.Base.{
  ℕ, suc, ◌+◌, ◌-◌, ◌≡◌, Bool, true, false, ◌&&◌, not, Option, none, some, List, [], ◌∷◌, ◌++◌,
  String, ltb, leb, ◌==◌, if◌then◌else◌, is_empty, same,
}
use realtime_room_middleware.Base.Map.{Map, lookup, insert, delete, string_key}
use realtime_room_middleware.Base.Word.{inc32}
use realtime_room_middleware.Object.{
  ObjectManager, ObjectState, ObjectStatus, active, inactive, LockState, unlocked, get, put,
  touched, new_object_manager,
}

pub record LockLease : Type 0 where
  pub ttl : ℕ
  pub max_locks_per_user : ℕ

-- 10 seconds and 3 locks.
abbrev pub default_lock_lease : LockLease
default_lock_lease = record { ttl = 10000000000; max_locks_per_user = 3 }

pub data Reason : Type 0 where
  not_found is_inactive locked_by_another at_limit not_locked_by : Reason

pub data LockResult : Type 0 where
  granted : LockResult
  rejected : Reason → LockResult

pub record LockManager (F : Type 0) : Type 0 where
  pub objects : ObjectManager F
  pub lease : LockLease
  pub user_lock_count : Map String ℕ

-- A missing entry of a Go map of numbers reads as 0.
abbrev pub count_of : String → Map String ℕ → ℕ
count_of u m = elim (lookup u m) [ none ↦ 0 | some n ↦ n ]

unfoldable pub is_locked : LockState → ℕ → Bool
is_locked ls now = not (is_empty ls.locked_by) && ltb now ls.lock_until

unfoldable pub is_owned_by : LockState → String → ℕ → Bool
unfolding is_locked
is_owned_by ls user now = is_locked ls now && same ls.locked_by user

-- The count that `clearLock` leaves: one less, and no entry at 0.
unfoldable pub drop_count : String → Map String ℕ → Map String ℕ
drop_count user counts =
    if not (is_empty user) && ltb 0 (count_of user counts)
    then if count_of user counts == 1
      then delete user counts
      else insert user (count_of user counts - 1) counts
    else counts

pub record Sweep (F : Type 0) : Type 0 where
  pub objects : Map String (ObjectState F)
  pub counts : Map String ℕ
  pub released : List String

module _ {F : Type 0} where
  unfoldable pub new_lock_manager : ObjectManager F → LockLease → LockManager F
  new_lock_manager objects lease = record { objects = objects; lease = lease; user_lock_count = [] }

  -- UserLockCount
  abbrev pub user_lock_count_of : LockManager F → String → ℕ
  user_lock_count_of lm user = count_of user lm.user_lock_count

  abbrev put_object : LockManager F → String → ObjectState F → LockManager F
  put_object lm id o = record lm { objects = put lm.objects id o }

  -- The object under a new lease, and under its own lease again.
  abbrev pub leased : ℕ → ObjectState F → String → String → ℕ → ObjectState F
  leased ttl o user session now = touched (record o {
    lock = record { locked_by = user; session_id = session; lock_until = now + ttl };
  })

  abbrev pub extended : ℕ → ObjectState F → ℕ → ObjectState F
  extended ttl o now = record o {
    lock = record {
      locked_by = o.lock.locked_by;
      session_id = o.lock.session_id;
      lock_until = now + ttl;
    };
  }

  lock_fresh :
      LockManager F → String → ObjectState F → String → String → ℕ → LockManager F × LockResult
  lock_fresh lm id o user session now =
      if leb lm.lease.max_locks_per_user (user_lock_count_of lm user)
      then (lm, rejected at_limit)
      else (
        record lm {
          objects = put lm.objects id (leased lm.lease.ttl o user session now);
          user_lock_count = insert user (user_lock_count_of lm user + 1) lm.user_lock_count;
        },
        granted,
      )

  lock_again :
      LockManager F → String → ObjectState F → String → String → ℕ → LockManager F × LockResult
  lock_again lm id o user session now =
      if same o.lock.locked_by user
      then (put_object lm id (leased lm.lease.ttl o o.lock.locked_by session now), granted)
      else (lm, rejected locked_by_another)

  lock_active :
      ObjectStatus
      → LockManager F
      → String
      → ObjectState F
      → String
      → String
      → ℕ
      → LockManager F × LockResult
  unfolding lock_again lock_fresh is_locked
  lock_active inactive lm id o user session now = (lm, rejected is_inactive)
  lock_active active lm id o user session now =
      if is_locked o.lock now
      then lock_again lm id o user session now
      else lock_fresh lm id o user session now

  -- AcquireLock
  unfoldable pub acquire_lock :
      LockManager F → String → String → String → ℕ → LockManager F × LockResult
  unfolding lock_active
  acquire_lock lm id user session now = elim (get lm.objects id) [
    | none ↦ (lm, rejected not_found)
    | some o ↦ lock_active o.status lm id o user session now
  ]

  -- RefreshLock
  unfoldable pub refresh_lock : LockManager F → String → String → ℕ → LockManager F × LockResult
  unfolding is_owned_by
  refresh_lock lm id user now = elim (get lm.objects id) [
    | none ↦ (lm, rejected not_found)
    | some o ↦
        if is_owned_by o.lock user now
        then (put_object lm id (extended lm.lease.ttl o now), granted)
        else (lm, rejected not_locked_by)
  ]

  -- clearLock, on the object.
  abbrev pub cleared : ObjectState F → ObjectState F
  cleared o = touched (record o { lock = unlocked })

  -- ReleaseLock
  unfoldable pub release_lock : LockManager F → String → String → ℕ → LockManager F × LockResult
  unfolding is_owned_by drop_count
  release_lock lm id user now = elim (get lm.objects id) [
    | none ↦ (lm, rejected not_found)
    | some o ↦
        if is_owned_by o.lock user now
        then (
          record lm {
            objects = put lm.objects id (cleared o);
            user_lock_count = drop_count o.lock.locked_by lm.user_lock_count;
          },
          granted,
        )
        else (lm, rejected not_locked_by)
  ]

  -- The loop of ReleaseExpired and ReleaseBySession over the objects.
  unfoldable pub sweep :
      (ObjectState F → Bool) → Map String (ObjectState F) → Map String ℕ → Sweep F
  unfolding drop_count
  sweep test [] counts = record { objects = []; counts = counts; released = [] }
  sweep test ((id, o) ∷ m) counts =
      let hit = test o in
      let rest = sweep test m (if hit then drop_count o.lock.locked_by counts else counts) in
      record {
        objects = (id, if hit then cleared o else o) ∷ rest.objects;
        counts = rest.counts;
        released = if hit then o.id ∷ rest.released else rest.released;
      }

  unfoldable pub is_expired : ℕ → ObjectState F → Bool
  is_expired now o = not (is_empty o.lock.locked_by) && leb o.lock.lock_until now

  unfoldable pub is_of_session : String → ObjectState F → Bool
  is_of_session session o = same o.lock.session_id session && not (is_empty o.lock.locked_by)

  after_sweep : LockManager F → Sweep F → LockManager F × List String
  after_sweep lm s = (
    record lm { objects = record { objects = s.objects }; user_lock_count = s.counts },
    s.released,
  )

  -- ReleaseExpired
  unfoldable pub release_expired : LockManager F → ℕ → LockManager F × List String
  unfolding after_sweep
  release_expired lm now =
      after_sweep lm (sweep (is_expired now) lm.objects.objects lm.user_lock_count)

  -- ReleaseBySession
  unfoldable pub release_by_session : LockManager F → String → LockManager F × List String
  unfolding after_sweep
  release_by_session lm session =
      after_sweep lm (sweep (is_of_session session) lm.objects.objects lm.user_lock_count)
