-- ===== src/Utils/Counts.antt =====
-- Slices as multisets, for `SlicesContainEqual` of internal/utils/common.go.
use rmodel.Shared.{
  List, String, [], arith, eq_iff, eq_refl, if◌then◌else◌, length, refl, suc, sym, true, ◌+◌, ◌-◌,
  ◌==◌, ◌↔◌, ◌∷◌, ◌≡◌, ◌≤◌,
}
use rmodel.Shared.Maps.{lookup}
use rmodel.Utils.{count_all, count_or_zero, slices_contain_equal}
use rmodel.Utils.Slices.{count, tally-count_all, uncount_all_le, uncount_all_of_le}

remove_one : String → List String → List String
remove_one y [] = []
remove_one y (x ∷ xs) = if x == y then xs else x ∷ remove_one y xs

count-remove_one :
    (x y : String) (xs : List String)
    → count x (remove_one y xs) ≡ (if y == x then count x xs - 1 else count x xs)
unfolding remove_one
count-remove_one x y [] = ground arith
count-remove_one x y (z ∷ xs) =
    ground (arith, count-remove_one x y xs, eq_iff z y, eq_iff y x, eq_iff z x)

length-remove_one :
    (y : String) (xs : List String) → 1 ≤ count y xs → length (remove_one y xs) + 1 ≡ length xs
unfolding remove_one
length-remove_one y [] h = omega arith
length-remove_one y (x ∷ xs) h = ground (arith, length-remove_one y xs, eq_iff x y)

count-head : (y : String) (xs : List String) → count y (y ∷ xs) ≡ suc (count y xs)
count-head y xs = ground (arith, eq_refl y)

counts_eq :
    (s1 s2 : List String)
    → length s1 ≡ length s2
    → ((x : String) → count x s2 ≤ count x s1)
    → (x : String) → count x s2 ≡ count x s1
counts_eq [] [] l h x = refl
counts_eq (z ∷ s1) [] l h x = absurd (omega arith)
counts_eq s1 (y ∷ s2) l h x =
    let here : 1 ≤ count y s1 = omega (arith, h y, count-head y s2) in
    let rest : count x s2 ≡ count x (remove_one y s1) =
      counts_eq (remove_one y s1) s2 (omega (arith, length-remove_one y s1 here))
        (λ w. ground (arith, h w, count-remove_one w y s1)) x in
    ground (arith, count-remove_one x y s1, h y, eq_iff y x, here)

length_of_counts :
    (s1 s2 : List String) → ((x : String) → count x s1 ≡ count x s2) → length s1 ≡ length s2
length_of_counts [] [] h = refl
length_of_counts (z ∷ s1) [] h = absurd (omega (arith, h z, count-head z s1))
length_of_counts s1 (y ∷ s2) h =
    let here : 1 ≤ count y s1 = omega (arith, h y, count-head y s2) in
    let rest : length (remove_one y s1) ≡ length s2 =
      length_of_counts (remove_one y s1) s2 (λ w. ground (arith, h w, count-remove_one w y s1)) in
    omega (arith, length-remove_one y s1 here)

tally-count_all_nil :
    (x : String) (s : List String) → count_or_zero (lookup x (count_all s [])) ≡ count x s
unfolding lookup
tally-count_all_nil x s = omega (arith, tally-count_all x s [])

-- `SlicesContainEqual(s1, s2)` holds exactly when every text stands in both slices equally often.
pub slices_contain_equal_iff :
    (s1 s2 : List String)
    → (slices_contain_equal s1 s2 ≡ true) ↔ ((x : String) → count x s1 ≡ count x s2)
unfolding slices_contain_equal
slices_contain_equal_iff s1 s2 = (
  λ h x. sym (
      counts_eq s1 s2 (ground arith)
        (λ w.
          omega
            (arith, uncount_all_le w s2 (count_all s1 []) (ground arith), tally-count_all_nil w s1))
        x),
  λ h. ground (
    arith,
    length_of_counts s1 s2 h,
    uncount_all_of_le s2 (count_all s1 []) (λ w. omega (arith, h w, tally-count_all_nil w s1)),
  ),
)
