-- ===== src/Utils/Labels.antt =====
-- What the label maps of internal/utils/common.go hold after a copy and after a merge.
use rmodel.Shared.{
  All, List, Option, String, [], ap, arith, eq_iff, none, refl, some, ◌∙◌, ◌∷◌, ◌≡◌,
}
use rmodel.Shared.Maps.{Distinct, Map, insert, insert-Distinct, lookup, lookup-insert}
use rmodel.Utils.{Labels, copy_into, merge_from, merge_labels}

-- The value that the later map gives, if it gives one.
abbrev pub or_else {ℓ} : {A : Type ℓ} → Option A → Option A → Option A
or_else none b = b
or_else (some a) b = some a

-- The value in the last map that has the key.
abbrev pub last_of : String → List Labels → Option String
last_of j [] = none
last_of j (label ∷ labels) = or_else (last_of j labels) (lookup j label)

or_else_assoc : {A : Type 0} (x y z : Option A) → or_else x (or_else y z) ≡ or_else (or_else x y) z
or_else_assoc none y z = refl
or_else_assoc (some a) y z = refl

or_else-none : {A : Type 0} (x : Option A) → or_else x none ≡ x
or_else-none none = refl
or_else-none (some a) = refl

pub copy_into-Distinct {ℓ} :
    {V : Type ℓ} (m acc : Map V) → Distinct acc → Distinct (copy_into m acc)
unfolding copy_into
copy_into-Distinct [] acc d = d
copy_into-Distinct ((k, v) ∷ m) acc d =
    copy_into-Distinct m (insert k v acc) (insert-Distinct k v acc d)

pub lookup-copy_into {ℓ} :
    {V : Type ℓ} (j : String) (m acc : Map V)
    → Distinct m
    → lookup j (copy_into m acc) ≡ or_else (lookup j m) (lookup j acc)
unfolding copy_into lookup
lookup-copy_into j [] acc d = refl
lookup-copy_into j ((k, v) ∷ m) acc d =
    ground (arith, eq_iff k j, lookup-insert k j v acc, lookup-copy_into j m (insert k v acc) d.1)

merge_from-lookup :
    (j : String) (labels : List Labels) (acc : Labels)
    → All Distinct labels
    → lookup j (merge_from labels acc) ≡ or_else (last_of j labels) (lookup j acc)
unfolding merge_from
merge_from-lookup j [] acc d = refl
merge_from-lookup j (label ∷ labels) acc d =
    merge_from-lookup j labels (copy_into label acc) d.1
    ∙ ap (or_else (last_of j labels)) (lookup-copy_into j label acc d.0)
    ∙ or_else_assoc (last_of j labels) (lookup j label) (lookup j acc)

-- `MergeLabels` gives each key the value that the last map with that key gives it, and holds no
-- other key.
pub merge_labels_lem :
    (j : String) (labels : List Labels)
    → All Distinct labels
    → lookup j (merge_labels labels) ≡ last_of j labels
unfolding merge_labels lookup
merge_labels_lem j labels d = merge_from-lookup j labels [] d ∙ or_else-none (last_of j labels)
