-- ===== src/Player.antt =====
-- internal/game/player: the state of a player in a room (player.go, types.go, doc.go) and the checks
-- on what a client sends (validate.go).
pub mod Validate
use realtime_room_middleware.Base.{ℕ, String}
use realtime_room_middleware.Base.Floats.{Floats}
use realtime_room_middleware.Base.Int.{ℤ}
use realtime_room_middleware.Base.Word.{inc32}

pub record Vector3 (F : Type 0) : Type 0 where
  pub x : F
  pub y : F
  pub z : F

pub record Quaternion (F : Type 0) : Type 0 where
  pub x : F
  pub y : F
  pub z : F
  pub w : F

pub record PlayerTransform (F : Type 0) : Type 0 where
  pub position : Vector3 F
  pub rotation : Quaternion F
  pub tick : ℕ  -- uint32

pub record PlayerInput (F : Type 0) : Type 0 where
  pub seq : ℕ  -- uint32
  pub transform : PlayerTransform F
  pub timestamp : ℤ

pub data PlayerStatus : Type 0 where
  joining active leaving gone : PlayerStatus

pub record PlayerState (F : Type 0) : Type 0 where
  pub id : String
  pub user_id : String
  pub status : PlayerStatus
  pub joined_at : ℕ
  pub transform : PlayerTransform F
  pub version : ℕ  -- uint32
  pub last_seen : ℕ

module _ (fl : Floats) where
  open fl use {F32, lit32}

  -- `Vector3{}`
  abbrev pub origin : Vector3 F32
  origin = record { x = lit32 0; y = lit32 0; z = lit32 0 }

  abbrev pub identity_quaternion : Quaternion F32
  identity_quaternion = record { x = lit32 0; y = lit32 0; z = lit32 0; w = lit32 1 }

  -- NewPlayerState
  unfoldable pub new_player_state : String → String → ℕ → PlayerState F32
  new_player_state id user now = record {
    id = id;
    user_id = user;
    status = joining;
    joined_at = now;
    transform = record { position = origin; rotation = identity_quaternion; tick = 0 };
    version = 0;
    last_seen = now;
  }

module _ {F : Type 0} where
  -- UpdateTransform, at the time `now`
  unfoldable pub update_transform : PlayerState F → PlayerTransform F → ℕ → ℕ → PlayerState F
  update_transform p t tick now = record p {
    transform = record t { tick = tick };
    version = inc32 p.version;
    last_seen = now;
  }

  -- SetStatus, MarkStatus
  unfoldable pub set_status : PlayerState F → PlayerStatus → PlayerState F
  set_status p status = record p { status = status }
