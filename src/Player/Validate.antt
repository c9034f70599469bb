-- ===== src/Player/Validate.antt =====
-- internal/game/player/validate.go. An error is named by the first check that fails.
use Prim.Native.String.{len}
use realtime_room_middleware.Base.{
  String, is_empty, ltb, ◌≡◌, ◌↔◌, ◌⊎◌, refl, ℕ, ◌<◌, Bool, true, false, ◌&&◌, ◌||◌, Option, none,
  some, arith,
}
use realtime_room_middleware.Base.Floats.{Floats}
use realtime_room_middleware.Base.Int.{ℤ, pos, negsuc, is_nonpositive}
use realtime_room_middleware.Player.{Vector3, Quaternion, PlayerTransform, PlayerInput}

pub data Axis : Type 0 where
  x_axis y_axis z_axis w_axis : Axis

pub data PlayerError : Type 0 where
  position_not_finite rotation_not_finite : Axis → PlayerError
  zero_quaternion bad_timestamp : PlayerError

-- The first error of two checks, in order.
infixr 30 ◌orelse◌
abbrev pub ◌orelse◌ {ℓ} : {E : Type ℓ} → Option E → Option E → Option E
none orelse e = e
some e orelse _ = some e

abbrev pub fail_if {ℓ} : {E : Type ℓ} → Bool → E → Option E
fail_if true e = some e
fail_if false e = none

pub data IdError : Type 0 where
  empty_id id_too_long : IdError

-- ValidatePlayerID; `len` counts bytes, as Go's does.
unfoldable pub validate_player_id : String → Option IdError
validate_player_id id = fail_if (is_empty id) empty_id orelse fail_if (ltb 256 (len id)) id_too_long

-- ValidateUserID
unfoldable pub validate_user_id : String → Option IdError
validate_user_id id = fail_if (is_empty id) empty_id orelse fail_if (ltb 256 (len id)) id_too_long

module _ (fl : Floats) where
  open fl use {F32, to64, is_nan, is_inf, eq_f32, lit32}

  unfoldable pub not_finite : F32 → Bool
  not_finite v = is_nan (to64 v) || is_inf (to64 v)

  -- ValidateVector3
  unfoldable pub validate_vector3 : Vector3 F32 → Option PlayerError
  validate_vector3 v =
      fail_if (not_finite v.x) (position_not_finite x_axis)
      orelse fail_if (not_finite v.y) (position_not_finite y_axis)
      orelse fail_if (not_finite v.z) (position_not_finite z_axis)

  unfoldable pub is_zero : F32 → Bool
  is_zero v = eq_f32 v (lit32 0)

  -- ValidateQuaternion
  unfoldable pub validate_quaternion : Quaternion F32 → Option PlayerError
  validate_quaternion q =
      fail_if (not_finite q.x) (rotation_not_finite x_axis)
      orelse fail_if (not_finite q.y) (rotation_not_finite y_axis)
      orelse fail_if (not_finite q.z) (rotation_not_finite z_axis)
      orelse fail_if (not_finite q.w) (rotation_not_finite w_axis)
      orelse fail_if (is_zero q.x && is_zero q.y && is_zero q.z && is_zero q.w) zero_quaternion

  -- ValidatePlayerTransform
  unfoldable pub validate_player_transform : PlayerTransform F32 → Option PlayerError
  unfolding validate_vector3 validate_quaternion
  validate_player_transform t = validate_vector3 t.position orelse validate_quaternion t.rotation

  -- ValidatePlayerInput
  unfoldable pub validate_player_input : PlayerInput F32 → Option PlayerError
  unfolding validate_player_transform
  validate_player_input input =
      validate_player_transform input.transform
      orelse fail_if (is_nonpositive input.timestamp) bad_timestamp

  -- Neither NaN nor an infinity, as a float64.
  abbrev pub IsFinite : F32 → Type 0
  IsFinite v = (is_nan (to64 v) ≡ false) × (is_inf (to64 v) ≡ false)

  abbrev pub IsNonzero : F32 → Type 0
  IsNonzero v = eq_f32 v (lit32 0) ≡ false

  -- An input with seven finite numbers, a rotation with a component that is not 0, and a positive timestamp.
  pub record IsAcceptable (i : PlayerInput F32) : Type 0 where
    pub x_finite : IsFinite i.transform.position.x
    pub y_finite : IsFinite i.transform.position.y
    pub z_finite : IsFinite i.transform.position.z
    pub qx_finite : IsFinite i.transform.rotation.x
    pub qy_finite : IsFinite i.transform.rotation.y
    pub qz_finite : IsFinite i.transform.rotation.z
    pub qw_finite : IsFinite i.transform.rotation.w
    pub rotates :
        IsNonzero i.transform.rotation.x
        ⊎ (IsNonzero i.transform.rotation.y
            ⊎ (IsNonzero i.transform.rotation.z ⊎ IsNonzero i.transform.rotation.w))
    pub timed : (n : ℕ) × ((i.timestamp ≡ pos n) × (0 < n))

  IsFinite-iff : (v : F32) → (not_finite v ≡ false) ↔ IsFinite v
  unfolding not_finite
  IsFinite-iff v = ground arith

  vector3_iff :
      (v : Vector3 F32) → (validate_vector3 v ≡ none) ↔ (IsFinite v.x × IsFinite v.y × IsFinite v.z)
  unfolding validate_vector3
  vector3_iff v = ground (arith, IsFinite-iff v.x, IsFinite-iff v.y, IsFinite-iff v.z)

  quaternion_iff :
      (q : Quaternion F32)
      → (validate_quaternion q ≡ none) ↔ (
          IsFinite q.x
          × IsFinite q.y
          × IsFinite q.z
          × IsFinite q.w
          × (IsNonzero q.x ⊎ (IsNonzero q.y ⊎ (IsNonzero q.z ⊎ IsNonzero q.w))))
  unfolding validate_quaternion is_zero
  quaternion_iff q =
      ground (arith, IsFinite-iff q.x, IsFinite-iff q.y, IsFinite-iff q.z, IsFinite-iff q.w)

  timed_iff : (t : ℤ) → (is_nonpositive t ≡ false) ↔ ((n : ℕ) × ((t ≡ pos n) × (0 < n)))
  timed_iff (pos n) = (λ h. (n, (refl, ground arith)), λ (m, (e, l)). ground arith)
  timed_iff (negsuc n) = (λ h. absurd (ground arith), λ (m, (e, l)). absurd (ground arith))

  validate_player_input-none :
      (i : PlayerInput F32)
      → validate_player_input i ≡ none
      → (validate_vector3 i.transform.position ≡ none)
        × (validate_quaternion i.transform.rotation ≡ none)
        × (is_nonpositive i.timestamp ≡ false)
  unfolding validate_player_input validate_player_transform
  validate_player_input-none i h = ground arith

  -- ValidatePlayerInput returns no error exactly for inputs with seven numbers that are neither NaN nor
  -- infinite, a rotation with a component that is not 0, and a timestamp of at least 1.
  pub validate_player_input_iff :
      (i : PlayerInput F32) → (validate_player_input i ≡ none) ↔ IsAcceptable i
  unfolding validate_player_input validate_player_transform
  validate_player_input_iff i = (
    λ h.
        let (v, q, t) = validate_player_input-none i h in
        let (x, y, z) = (vector3_iff i.transform.position).0 v in
        let (qx, qy, qz, qw, turns) = (quaternion_iff i.transform.rotation).0 q in
        record {
          x_finite = x;
          y_finite = y;
          z_finite = z;
          qx_finite = qx;
          qy_finite = qy;
          qz_finite = qz;
          qw_finite = qw;
          rotates = turns;
          timed = (timed_iff i.timestamp).0 t;
        },
    λ a.
        let v = (vector3_iff i.transform.position).1 (a.x_finite, a.y_finite, a.z_finite) in
        let q =
          (quaternion_iff i.transform.rotation).1
            (a.qx_finite, a.qy_finite, a.qz_finite, a.qw_finite, a.rotates) in
        let t = (timed_iff i.timestamp).1 a.timed in ground arith,
  )
