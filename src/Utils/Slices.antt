-- ===== src/Utils/Slices.antt =====
-- What `SlicesContains` and `SlicesContainEqual` of internal/utils/common.go decide.
use rmodel.Shared.{
  Bool, List, String, [], ap, arith, eq_iff, eq_refl, false, if◌then◌else◌, refl, suc, sym, true, ℕ,
  ◌++◌, ◌+◌, ◌-◌, ◌==◌, ◌||◌, ◌↔◌, ◌∙◌, ◌∷◌, ◌≡◌, ◌≤◌,
}
use rmodel.Shared.Maps.{Map, insert, lookup, lookup-insert}
use rmodel.Shared.Sets.{Subset, elem}
use rmodel.Utils.{
  all_marked, count_all, count_or_zero, is_marked, mark_all, slices_contains, uncount_all,
}

is_marked-mark_all :
    (x : String) (s : List String) (m : Map Bool)
    → is_marked (lookup x (mark_all s m)) ≡ (elem x s || is_marked (lookup x m))
unfolding mark_all
is_marked-mark_all x [] m = refl
is_marked-mark_all x (y ∷ s) m =
    ground (arith, is_marked-mark_all x s (insert y true m), lookup-insert y x true m)

all_marked-elem :
    (m : Map Bool) (sub : List String) (x : String)
    → all_marked m sub ≡ true
    → elem x sub ≡ true
    → is_marked (lookup x m) ≡ true
unfolding all_marked
all_marked-elem m [] x h e = cc
all_marked-elem m (y ∷ sub) x h e = ground (arith, all_marked-elem m sub x, eq_iff y x)

all_marked_of_elem :
    (m : Map Bool) (sub : List String)
    → ((x : String) → elem x sub ≡ true → is_marked (lookup x m) ≡ true)
    → all_marked m sub ≡ true
unfolding all_marked
all_marked_of_elem m [] h = refl
all_marked_of_elem m (y ∷ sub) h =
    let rest : all_marked m sub ≡ true =
      all_marked_of_elem m sub (λ x e. h x (ground (arith, e))) in
    ground (arith, h y, eq_refl y, rest)

is_marked-slices : (x : String) (s : List String) → is_marked (lookup x (mark_all s [])) ≡ elem x s
unfolding lookup
is_marked-slices x s = ground (arith, is_marked-mark_all x s [])

-- `SlicesContains(s, sub)` holds exactly when every element of `sub` is an element of `s`.
pub slices_contains_iff : (s sub : List String) → (slices_contains s sub ≡ true) ↔ Subset sub s
unfolding slices_contains
slices_contains_iff s sub = (
  λ h x e. sym (is_marked-slices x s) ∙ all_marked-elem (mark_all s []) sub x h e,
  λ h. all_marked_of_elem (mark_all s []) sub (λ x e. is_marked-slices x s ∙ h x e),
)

-- How often a text stands in a slice.
abbrev pub count : String → List String → ℕ
count x [] = 0
count x (y ∷ ys) = let rest = count x ys in if y == x then suc rest else rest

pub tally-count_all :
    (x : String) (s : List String) (m : Map ℕ)
    → count_or_zero (lookup x (count_all s m)) ≡ count x s + count_or_zero (lookup x m)
unfolding count_all
tally-count_all x [] m = omega arith
tally-count_all x (y ∷ s) m = ground (
  arith,
  tally-count_all x s (insert y (count_or_zero (lookup y m) + 1) m),
  lookup-insert y x (count_or_zero (lookup y m) + 1) m,
  eq_iff y x,
)

-- The second loop answers true exactly when no text stands in the slice oftener than it was
-- counted.
pub uncount_all_le :
    (x : String) (s : List String) (m : Map ℕ)
    → uncount_all m s ≡ true
    → count x s ≤ count_or_zero (lookup x m)
unfolding uncount_all
uncount_all_le x [] m h = omega arith
uncount_all_le x (y ∷ s) m h = ground (
  arith,
  uncount_all_le x s (insert y (count_or_zero (lookup y m) - 1) m),
  lookup-insert y x (count_or_zero (lookup y m) - 1) m,
  eq_iff y x,
)

pub uncount_all_of_le :
    (s : List String) (m : Map ℕ)
    → ((x : String) → count x s ≤ count_or_zero (lookup x m))
    → uncount_all m s ≡ true
unfolding uncount_all
uncount_all_of_le [] m h = refl
uncount_all_of_le (y ∷ s) m h =
    let rest : uncount_all (insert y (count_or_zero (lookup y m) - 1) m) s ≡ true =
      uncount_all_of_le s (insert y (count_or_zero (lookup y m) - 1) m) (λ x.
        ground (arith, h x, lookup-insert y x (count_or_zero (lookup y m) - 1) m, eq_iff y x)) in
    ground (arith, h y, eq_refl y, rest)

-- The first of a list that fails a test.
abbrev pub IsFirst : (String → Bool) → String → List String → Type 0
IsFirst p x xs =
    (before : List String) × (after : List String) × (xs ≡ before ++ x ∷ after)
    × ((y : String) → elem y before ≡ true → p y ≡ true)
    × (p x ≡ false)

pub IsFirst-skip :
    (p : String → Bool) (x y : String) (xs : List String)
    → p y ≡ true
    → IsFirst p x xs
    → IsFirst p x (y ∷ xs)
IsFirst-skip p x y xs h (before, after, e, passed, fails) = (
  y ∷ before,
  after,
  ap (λ zs. y ∷ zs) e,
  λ z m. ground (arith, passed z, eq_iff y z, h, m),
  fails,
)
