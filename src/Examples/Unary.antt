-- ===== src/Examples/Unary.antt =====
-- Numbers written in unary.
use Prim.Native.Nat.{suc, zero, ℕ}
use Prim.Native.String.{String, [], ◌∷◌}
use mathlib.Core.Path.{ap, refl, ◌≡◌}

abbrev pub ones : ℕ → String
ones zero = []
ones (suc n) = "1" ∷ ones n

abbrev pub width : String → ℕ
width [] = zero
width (c ∷ s) = suc (width s)

pub width-ones : (n : ℕ) → width (ones n) ≡ n
width-ones zero = refl
width-ones (suc n) = ap suc (width-ones n)
