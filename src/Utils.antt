-- ===== src/Utils.antt =====
-- internal/utils/common.go: slices compared as sets and as multisets, and label maps.
pub mod Slices
pub mod Counts
pub mod Labels
pub mod Copies
use rmodel.Shared.{
  Bool, List, Option, String, [], false, if◌then◌else◌, is_some, length, ltb, nat_eq, none, not,
  some, true, ℕ, ◌&&◌, ◌+◌, ◌-◌, ◌||◌, ◌∷◌,
}
use rmodel.Shared.Maps.{Map, insert, lookup}

-- The first loop of `SlicesContains`: `mapS[str] = true`.
unfoldable pub mark_all : List String → Map Bool → Map Bool
mark_all [] m = m
mark_all (str ∷ s) m = mark_all s (insert str true m)

-- `mapS[substr]`, which is false where the key is missing.
abbrev pub is_marked : Option Bool → Bool
is_marked none = false
is_marked (some b) = b

-- The second loop.
unfoldable pub all_marked : Map Bool → List String → Bool
all_marked m [] = true
all_marked m (substr ∷ sub) = is_marked (lookup substr m) && all_marked m sub

unfoldable pub slices_contains : List String → List String → Bool
slices_contains s sub = all_marked (mark_all s []) sub

-- `mapS[str]`, which is 0 where the key is missing.
abbrev pub count_or_zero : Option ℕ → ℕ
count_or_zero none = 0
count_or_zero (some n) = n

-- The first loop of `SlicesContainEqual`: `mapS[str]++`.
unfoldable pub count_all : List String → Map ℕ → Map ℕ
count_all [] m = m
count_all (str ∷ s) m = count_all s (insert str (count_or_zero (lookup str m) + 1) m)

-- The second loop: a missing key or a count below 1 ends it, else `mapS[str]--`.
unfoldable pub uncount_all : Map ℕ → List String → Bool
uncount_all m [] = true
uncount_all m (str ∷ s) =
    let n = count_or_zero (lookup str m) in
    let rest = uncount_all (insert str (n - 1) m) s in
    if not (is_some (lookup str m)) || ltb n 1 then false else rest

unfoldable pub slices_contain_equal : List String → List String → Bool
slices_contain_equal s1 s2 =
    if nat_eq (length s1) (length s2) then uncount_all (count_all s1 []) s2 else false

abbrev pub Labels : Type 0
Labels = Map String

-- `for key, value := range labels { newMap[key] = value }`
unfoldable pub copy_into {ℓ} : {V : Type ℓ} → Map V → Map V → Map V
copy_into [] new_map = new_map
copy_into ((key, value) ∷ labels) new_map = copy_into labels (insert key value new_map)

unfoldable pub labels_deep_copy : Labels → Labels
labels_deep_copy labels = copy_into labels []

unfoldable pub merge_from : List Labels → Labels → Labels
merge_from [] ret = ret
merge_from (label ∷ labels) ret = merge_from labels (copy_into label ret)

unfoldable pub merge_labels : List Labels → Labels
merge_labels labels = merge_from labels []
