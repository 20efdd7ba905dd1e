-- ===== src/Shared/Ints.antt =====
-- Integers over the native numbers.
use Prim.Native.Nat.{ℕ, ◌^◌}
use mathlib.Core.Bool.{Bool, true, false, ◌&&◌}
use mathlib.Core.Path.{◌≡◌}
use native.Mathlib.Omega.{arith}
use rmodel.Shared.Tests.{ltb, nat_eq}

-- `negsuc n` is -(n + 1).
pub data ℤ : Type 0 where
  pos negsuc : ℕ → ℤ

-- `n < bound`, for a bound that is not negative.
abbrev pub below : ℕ → ℤ → Bool
below bound (pos n) = ltb n bound
below bound (negsuc n) = true

-- `-bound <= n`.
abbrev pub not_under : ℕ → ℤ → Bool
not_under bound (pos n) = true
not_under bound (negsuc n) = ltb n bound

abbrev pub int_eq : ℤ → ℤ → Bool
int_eq (pos a) (pos b) = nat_eq a b
int_eq (negsuc a) (negsuc b) = nat_eq a b
int_eq _ _ = false

pub int_eq_refl : (n : ℤ) → int_eq n n ≡ true
int_eq_refl (pos n) = ground arith
int_eq_refl (negsuc n) = ground arith

-- The range of an int64.
abbrev pub is_int64 : ℤ → Bool
is_int64 n = not_under (2 ^ 63) n && below (2 ^ 63) n
