-- ===== src/Protocol/Messages.antt =====
-- internal/protocol/messages.go: the bodies of the packets and their checks. A field that two entries
-- of a Go map would name is not told apart in an error: the order of that map is not fixed.
use realtime_room_middleware.Base.{
  ℕ, Bool, ◌&&◌, Option, none, some, List, [], ◌∷◌, String, is_empty, suc,
}
use realtime_room_middleware.Base.Floats.{Floats}
use realtime_room_middleware.Base.Int.{ℤ}
use realtime_room_middleware.Delta.{no_entries}
use realtime_room_middleware.Player.Validate.{not_finite, ◌orelse◌, fail_if}
use realtime_room_middleware.Protocol.{
  MessageFault, player_id_required, must_be_finite, must_not_be_empty, at_player, at_enter,
  at_update, at_leave,
}

pub record Hello : Type 0 where
  pub version : ℕ

pub record JoinRoom : Type 0 where
  pub room_instance_id : String
  pub session_token : String
  pub user_id : String

pub record Ping : Type 0 where
  pub timestamp : ℤ

pub record PlayerInput (F : Type 0) : Type 0 where
  pub seq : ℕ
  pub move_x : F
  pub move_z : F
  pub yaw : F
  pub anim_state : ℕ

pub record PlayerTransformUpdate (F : Type 0) : Type 0 where
  pub seq : ℕ
  pub x : F
  pub z : F
  pub yaw : F
  pub anim_state : ℕ

pub record Welcome : Type 0 where
  pub version : ℕ
  pub server_id : String
  pub timestamp : ℤ

pub record JoinAccepted : Type 0 where
  pub room_instance_id : String
  pub logical_room_id : String
  pub player_id : String
  pub tick : ℕ

pub record ServerError : Type 0 where
  pub code : ℕ
  pub message : String

pub record Pong : Type 0 where
  pub timestamp : ℤ
  pub server_tick : ℕ

-- PlayerSnapshot, PlayerEnterDelta and PlayerUpdateDelta have the same fields.
pub record PlayerSnapshot (F : Type 0) : Type 0 where
  pub player_id : String
  pub x : F
  pub z : F
  pub yaw : F
  pub anim_state : ℕ
  pub version : ℕ

pub record FullSnapshot (F : Type 0) : Type 0 where
  pub tick : ℕ
  pub players : List (PlayerSnapshot F)

pub record PlayerEnterDelta (F : Type 0) : Type 0 where
  pub player_id : String
  pub x : F
  pub z : F
  pub yaw : F
  pub anim_state : ℕ
  pub version : ℕ

pub record PlayerUpdateDelta (F : Type 0) : Type 0 where
  pub player_id : String
  pub x : F
  pub z : F
  pub yaw : F
  pub anim_state : ℕ
  pub version : ℕ

pub record PlayerLeaveDelta : Type 0 where
  pub player_id : String

pub record PlayerDelta (F : Type 0) : Type 0 where
  pub tick : ℕ
  pub enters : List (PlayerEnterDelta F)
  pub updates : List (PlayerUpdateDelta F)
  pub leaves : List PlayerLeaveDelta

-- PlayerDelta.IsEmpty
unfoldable pub is_empty_message : {F : Type 0} → PlayerDelta F → Bool
is_empty_message d = no_entries d.enters && no_entries d.updates && no_entries d.leaves

-- `for i := range entries { if err := entries[i].Validate(); err != nil { return ... } }`
unfoldable pub first_fault :
    {A : Type 0}
    → (ℕ → MessageFault → MessageFault)
    → (A → Option MessageFault)
    → ℕ
    → List A
    → Option MessageFault
first_fault at validate i [] = none
first_fault at validate i (x ∷ xs) = elim (validate x) [
  | some e ↦ some (at i e)
  | none ↦ first_fault at validate (suc i) xs
]

-- PlayerLeaveDelta.Validate
unfoldable pub validate_leave : PlayerLeaveDelta → Option MessageFault
validate_leave m = fail_if (is_empty m.player_id) player_id_required

module _ (fl : Floats) where
  open fl use {F32}

  -- validateFiniteFields
  unfoldable pub validate_finite_fields : List F32 → Option MessageFault
  validate_finite_fields [] = none
  validate_finite_fields (v ∷ vs) =
      fail_if (not_finite fl v) must_be_finite orelse validate_finite_fields vs

  -- validateFiniteTransform
  unfoldable pub validate_finite_transform : F32 → F32 → F32 → Option MessageFault
  unfolding validate_finite_fields
  validate_finite_transform x z yaw = validate_finite_fields (x ∷ z ∷ yaw ∷ [])

  -- PlayerInput.Validate
  unfoldable pub validate_input : PlayerInput F32 → Option MessageFault
  unfolding validate_finite_fields
  validate_input m = validate_finite_fields (m.move_x ∷ m.move_z ∷ m.yaw ∷ [])

  -- PlayerTransformUpdate.Validate
  unfoldable pub validate_transform_update : PlayerTransformUpdate F32 → Option MessageFault
  unfolding validate_finite_transform
  validate_transform_update m = validate_finite_transform m.x m.z m.yaw

  -- PlayerSnapshot.Validate
  unfoldable pub validate_snapshot : PlayerSnapshot F32 → Option MessageFault
  unfolding validate_finite_transform
  validate_snapshot m =
      fail_if (is_empty m.player_id) player_id_required
      orelse validate_finite_transform m.x m.z m.yaw

  -- PlayerEnterDelta.Validate
  unfoldable pub validate_enter : PlayerEnterDelta F32 → Option MessageFault
  unfolding validate_finite_transform
  validate_enter m =
      fail_if (is_empty m.player_id) player_id_required
      orelse validate_finite_transform m.x m.z m.yaw

  -- PlayerUpdateDelta.Validate
  unfoldable pub validate_update : PlayerUpdateDelta F32 → Option MessageFault
  unfolding validate_finite_transform
  validate_update m =
      fail_if (is_empty m.player_id) player_id_required
      orelse validate_finite_transform m.x m.z m.yaw

  -- FullSnapshot.Validate
  unfoldable pub validate_full_snapshot : FullSnapshot F32 → Option MessageFault
  unfolding first_fault validate_snapshot
  validate_full_snapshot m = first_fault at_player validate_snapshot 0 m.players

  -- PlayerDelta.Validate
  unfoldable pub validate_delta : PlayerDelta F32 → Option MessageFault
  unfolding first_fault validate_enter validate_update validate_leave is_empty_message
  validate_delta m =
      fail_if (is_empty_message m) must_not_be_empty
      orelse first_fault at_enter validate_enter 0 m.enters
      orelse first_fault at_update validate_update 0 m.updates
      orelse first_fault at_leave validate_leave 0 m.leaves
