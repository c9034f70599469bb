-- ===== src/Base/Int.antt =====
-- Go's `int` and `int64`, as unbounded integers: `negsuc n` is -(n + 1).
use Prim.Native.Nat.{ℕ, zero, suc, ◌+◌, ◌-◌, ◌%◌, ◌≤◌}
use mathlib.Core.List.{List, [], ◌∷◌}
use mathlib.Core.Bool.{Bool, true, false}
use realtime_room_middleware.Base.Tests.{leb, ltb, if◌then◌else◌}
use realtime_room_middleware.Base.Word.{u32_mod}

pub data ℤ : Type 0 where
  pos : ℕ → ℤ
  negsuc : ℕ → ℤ

-- `x <= 0`
abbrev pub is_nonpositive : ℤ → Bool
is_nonpositive (pos n) = leb n 0
is_nonpositive (negsuc _) = true

-- `x < y`
abbrev pub ltℤ : ℤ → ℤ → Bool
ltℤ (pos m) (pos n) = ltb m n
ltℤ (pos _) (negsuc _) = false
ltℤ (negsuc _) (pos _) = true
ltℤ (negsuc m) (negsuc n) = ltb n m

-- `uint32(x)`
abbrev pub to_u32 : ℤ → ℕ
to_u32 (pos n) = n % u32_mod
to_u32 (negsuc n) = u32_mod - suc (n % u32_mod)

-- Sums and differences of `int`s, which do not wrap here.
abbrev pub pos_part : ℤ → ℕ
pos_part (pos n) = n
pos_part (negsuc n) = 0

abbrev pub neg_part : ℤ → ℕ
neg_part (pos n) = 0
neg_part (negsuc n) = suc n

abbrev pub sub_ℕ : ℕ → ℕ → ℤ
sub_ℕ a b = if leb b a then pos (a - b) else negsuc (b - a - 1)

infixl 65 ◌+ℤ◌ ◌-ℤ◌
unfoldable pub ◌+ℤ◌ : ℤ → ℤ → ℤ
a +ℤ b = sub_ℕ (pos_part a + pos_part b) (neg_part a + neg_part b)

unfoldable pub ◌-ℤ◌ : ℤ → ℤ → ℤ
a -ℤ b = sub_ℕ (pos_part a + neg_part b) (neg_part a + pos_part b)

infix 50 ◌≤ℤ◌
abbrev pub ◌≤ℤ◌ : ℤ → ℤ → Type 0
a ≤ℤ b = pos_part a + neg_part b ≤ pos_part b + neg_part a

-- The `n` integers from `lo` on, in order.
unfoldable pub int_range : ℤ → ℕ → List ℤ
int_range lo zero = []
int_range lo (suc n) = lo ∷ int_range (lo +ℤ pos 1) n

-- The values of `for c := lo; c <= hi; c++`.
unfoldable pub ints_between : ℤ → ℤ → List ℤ
unfolding int_range ◌-ℤ◌ ◌+ℤ◌
ints_between lo hi = int_range lo (pos_part (hi -ℤ lo +ℤ pos 1))
