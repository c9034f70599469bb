-- ===== src/Object/Lock/Calls.antt =====
-- Sequences of calls on the lock manager and on the objects behind it.
use realtime_room_middleware.Base.{ℕ, List, [], ◌∷◌, String}
use realtime_room_middleware.Base.Map.{string_key}
use realtime_room_middleware.Base.Result.{Result, ok, err}
use realtime_room_middleware.Object.{
  ObjectManager, ObjectState, ObjectError, ObjectTransform, create, update_transform,
  update_custom_state, mark_inactive, remove,
}
use realtime_room_middleware.Object.Lock.{
  LockManager, acquire_lock, refresh_lock, release_lock, release_expired, release_by_session,
}

-- A call on the lock manager, or on the object manager behind it.
pub data ObjectCall (F : Type 0) : Type 0 where
  creates : String → String → ObjectTransform F → ObjectCall F
  moves : String → ObjectTransform F → ObjectCall F
  restates : String → List ℕ → ObjectCall F
  deactivates removes : String → ObjectCall F
  acquires : String → String → String → ℕ → ObjectCall F
  refreshes releases : String → String → ℕ → ObjectCall F
  expires : ℕ → ObjectCall F
  leaves : String → ObjectCall F

module _ {F : Type 0} where
  abbrev pub with_objects : LockManager F → Result ObjectError (ObjectManager F) → LockManager F
  with_objects lm (ok m) = record lm { objects = m }
  with_objects lm (err _) = lm

  abbrev pub created :
      LockManager F → Result ObjectError (ObjectManager F × ObjectState F) → LockManager F
  created lm (ok (m, _)) = record lm { objects = m }
  created lm (err _) = lm

  -- A call that returns an error leaves the state as it was.
  unfoldable pub after : LockManager F → ObjectCall F → LockManager F
  after lm (creates id kind t) = created lm (create lm.objects id kind t)
  after lm (moves id t) = with_objects lm (update_transform lm.objects id t)
  after lm (restates id s) = with_objects lm (update_custom_state lm.objects id s)
  after lm (deactivates id) = with_objects lm (mark_inactive lm.objects id)
  after lm (removes id) = record lm { objects = remove lm.objects id }
  after lm (acquires id user session now) = (acquire_lock lm id user session now).0
  after lm (refreshes id user now) = (refresh_lock lm id user now).0
  after lm (releases id user now) = (release_lock lm id user now).0
  after lm (expires now) = (release_expired lm now).0
  after lm (leaves session) = (release_by_session lm session).0

  unfoldable pub run : LockManager F → List (ObjectCall F) → LockManager F
  run lm [] = lm
  run lm (c ∷ cs) = run (after lm c) cs
