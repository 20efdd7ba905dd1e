-- ===== src/Shared/Sets.antt =====
-- Slices of strings read as sets.
use Prim.Native.String.{String}
use text.Mathlib.Text.{◌==◌}
use mathlib.Core.Path.{◌≡◌, refl}
use mathlib.Core.Bool.{Bool, true, false, ◌||◌}
use mathlib.Core.List.{List, [], ◌∷◌, ◌++◌}
use native.Mathlib.Omega.{arith}

abbrev pub elem : String → List String → Bool
elem x [] = false
elem x (y ∷ ys) = (y == x) || elem x ys

-- Inclusion of sets.
abbrev pub Subset : List String → List String → Type 0
Subset xs ys = (x : String) → elem x xs ≡ true → elem x ys ≡ true

pub elem-append : (x : String) (xs ys : List String) → elem x (xs ++ ys) ≡ (elem x xs || elem x ys)
elem-append x [] ys = refl
elem-append x (y ∷ xs) ys = ground (arith, elem-append x xs ys)

pub Subset-refl : (xs : List String) → Subset xs xs
Subset-refl xs x h = h

pub Subset-trans : (xs ys zs : List String) → Subset xs ys → Subset ys zs → Subset xs zs
Subset-trans xs ys zs p q x h = q x (p x h)
