-- ===== src/Base/Floats.antt =====
-- `float32`, `float64` and the functions of package math, which the models take as a parameter:
-- nothing is assumed of them but what a theorem states as a hypothesis.
use Prim.Native.Nat.{ℕ}
use mathlib.Core.Bool.{Bool}
use realtime_room_middleware.Base.Int.{ℤ}

pub record Floats : Type 1 where
  pub F32 : Type 0
  pub F64 : Type 0
  pub lit32 : ℕ → F32  -- a constant
  pub to64 : F32 → F64  -- float64(x)
  pub to32 : F64 → F32  -- float32(x)
  pub of_int : ℕ → F64  -- float64(n) of an int
  pub sub_f32 : F32 → F32 → F32
  pub mul_f32 : F32 → F32 → F32
  pub add_f32 : F32 → F32 → F32
  pub div_f32 : F32 → F32 → F32
  pub eq_f32 : F32 → F32 → Bool
  pub lt_f32 : F32 → F32 → Bool
  pub le_f32 : F32 → F32 → Bool
  pub add_f64 : F64 → F64 → F64
  pub mul_f64 : F64 → F64 → F64
  pub div_f64 : F64 → F64 → F64
  pub lt_f64 : F64 → F64 → Bool
  pub le_f64 : F64 → F64 → Bool
  pub is_nan : F64 → Bool
  pub is_inf : F64 → Bool  -- math.IsInf(x, 0)
  pub abs : F64 → F64
  pub sqrt : F64 → F64
  pub floor : F64 → F64
  pub ceil : F64 → F64
  pub int_of : F64 → ℤ  -- int(x)
