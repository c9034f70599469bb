-- ===== src/Examples/Marks.antt =====
-- Texts that differ for different numbers: as many marks as the number says.
use Prim.Native.Nat.{zero, suc}
use Prim.Native.String.{String, [], ◌∷◌}
use realtime_room_middleware.Base.{ℕ, ◌≡◌, refl, Bool, true, false, ap, arith}

unfoldable pub marks : ℕ → String
marks zero = []
marks (suc n) = "x" ∷ marks n

abbrev rest : String → String
rest [] = []
rest (c ∷ s) = s

abbrev starts : String → Bool
starts [] = false
starts (c ∷ s) = true

pub marks_inj : (a b : ℕ) → marks a ≡ marks b → a ≡ b
unfolding marks
marks_inj zero zero h = refl
marks_inj zero (suc b) h = ground (arith, ap starts h)
marks_inj (suc a) zero h = ground (arith, ap starts h)
marks_inj (suc a) (suc b) h = ground (arith, marks_inj a b (ap rest h))
