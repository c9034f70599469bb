-- ===== src/Object.antt =====
-- internal/game/object: the objects of one room (types.go, manager.go). `F` stands for `float32`,
-- which the package only stores. A Go pointer to an object is the entry under its key: `Create` is
-- the only allocation, and no two keys share an object.
pub mod Lock
use realtime_room_middleware.Base.{
  ℕ, ◌+◌, ◌≡◌, Bool, true, false, Option, none, some, List, [], ◌∷◌, String, length,
}
use realtime_room_middleware.Base.Map.{Map, lookup, insert, delete, string_key}
use realtime_room_middleware.Base.Word.{inc32}
use realtime_room_middleware.Base.Result.{Result, ok, err}

pub data ObjectStatus : Type 0 where
  active inactive : ObjectStatus

pub record Vec3 (F : Type 0) : Type 0 where
  pub x : F
  pub y : F
  pub z : F

pub record Quat (F : Type 0) : Type 0 where
  pub x : F
  pub y : F
  pub z : F
  pub w : F

pub record ObjectTransform (F : Type 0) : Type 0 where
  pub position : Vec3 F
  pub rotation : Quat F

-- Times are nanoseconds; the zero `time.Time` is 0.
pub record LockState : Type 0 where
  pub locked_by : String
  pub session_id : String
  pub lock_until : ℕ

-- `LockState{}`
abbrev pub unlocked : LockState
unlocked = record { locked_by = ""; session_id = ""; lock_until = 0 }

pub record ObjectState (F : Type 0) : Type 0 where
  pub id : String
  pub kind : String
  pub transform : ObjectTransform F
  pub custom_state : List ℕ
  pub status : ObjectStatus
  pub lock : LockState
  pub version : ℕ  -- uint32

pub record ObjectManager (F : Type 0) : Type 0 where
  pub objects : Map String (ObjectState F)

pub data ObjectError : Type 0 where
  object_exists object_not_found : String → ObjectError

unfoldable pub new_object_manager : {F : Type 0} → ObjectManager F
new_object_manager = record { objects = [] }

abbrev is_active : ObjectStatus → Bool
is_active active = true
is_active inactive = false

module _ {F : Type 0} where
  abbrev pub fresh_object : String → String → ObjectTransform F → ObjectState F
  fresh_object id kind transform = record {
    id = id;
    kind = kind;
    transform = transform;
    custom_state = [];
    status = active;
    lock = unlocked;
    version = 0;
  }

  abbrev pub put : ObjectManager F → String → ObjectState F → ObjectManager F
  put m id o = record { objects = insert id o m.objects }

  -- Create
  unfoldable pub create :
      ObjectManager F
      → String
      → String
      → ObjectTransform F
      → Result ObjectError (ObjectManager F × ObjectState F)
  create m id kind transform = elim (lookup id m.objects) [
    | some _ ↦ err (object_exists id)
    | none ↦ ok (put m id (fresh_object id kind transform), fresh_object id kind transform)
  ]

  -- Get
  abbrev pub get : ObjectManager F → String → Option (ObjectState F)
  get m id = lookup id m.objects

  abbrev pub touched : ObjectState F → ObjectState F
  touched o = record o { version = inc32 o.version }

  -- UpdateTransform
  unfoldable pub update_transform :
      ObjectManager F → String → ObjectTransform F → Result ObjectError (ObjectManager F)
  update_transform m id transform = elim (get m id) [
    | none ↦ err (object_not_found id)
    | some o ↦ ok (put m id (touched (record o { transform = transform })))
  ]

  -- UpdateCustomState
  unfoldable pub update_custom_state :
      ObjectManager F → String → List ℕ → Result ObjectError (ObjectManager F)
  update_custom_state m id state = elim (get m id) [
    | none ↦ err (object_not_found id)
    | some o ↦ ok (put m id (touched (record o { custom_state = state })))
  ]

  abbrev pub deactivate : ObjectManager F → String → ObjectState F → ObjectStatus → ObjectManager F
  deactivate m id o inactive = m
  deactivate m id o active = put m id (touched (record o { status = inactive }))

  -- MarkInactive
  unfoldable pub mark_inactive : ObjectManager F → String → Result ObjectError (ObjectManager F)
  mark_inactive m id = elim (get m id) [
    | none ↦ err (object_not_found id)
    | some o ↦ ok (deactivate m id o o.status)
  ]

  -- Remove
  unfoldable pub remove : ObjectManager F → String → ObjectManager F
  remove m id = record { objects = delete id m.objects }

  -- List
  unfoldable pub list : Map String (ObjectState F) → List (ObjectState F)
  list [] = []
  list ((_, o) ∷ m) = o ∷ list m

  -- ActiveObjects
  unfoldable pub active_objects : Map String (ObjectState F) → List (ObjectState F)
  active_objects [] = []
  active_objects ((_, o) ∷ m) =
      let rest = active_objects m in elim (is_active o.status) [ true ↦ o ∷ rest | false ↦ rest ]

  -- Count
  abbrev pub object_count : ObjectManager F → ℕ
  object_count m = length m.objects
