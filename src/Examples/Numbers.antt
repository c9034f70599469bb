-- ===== src/Examples/Numbers.antt =====
-- One reading of the floating-point parameter, for concrete runs: whole numbers, in which 1000000
-- stands for NaN and 2000000 for an infinity.
use realtime_room_middleware.Base.{ℕ, ◌+◌, ◌-◌, ◌*◌, ◌/◌, ltb, leb, ◌==◌, if◌then◌else◌}
use realtime_room_middleware.Base.Floats.{Floats}
use realtime_room_middleware.Base.Int.{pos}

abbrev pub whole_numbers : Floats
whole_numbers = record {
  F32 = ℕ;
  F64 = ℕ;
  lit32 = λ n. n;
  to64 = λ x. x;
  to32 = λ x. x;
  of_int = λ n. n;
  sub_f32 = λ x y. if leb y x then x - y else y - x;
  mul_f32 = λ x y. x * y;
  add_f32 = λ x y. x + y;
  div_f32 = λ x y. x / y;
  eq_f32 = λ x y. x == y;
  lt_f32 = λ x y. ltb x y;
  le_f32 = λ x y. leb x y;
  add_f64 = λ x y. x + y;
  mul_f64 = λ x y. x * y;
  div_f64 = λ x y. x / y;
  lt_f64 = λ x y. ltb x y;
  le_f64 = λ x y. leb x y;
  is_nan = λ x. x == 1000000;
  is_inf = λ x. x == 2000000;
  abs = λ x. x;
  sqrt = λ x. x;
  floor = λ x. x;
  ceil = λ x. x;
  int_of = λ x. pos x;
}
