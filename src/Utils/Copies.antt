-- ===== src/Utils/Copies.antt =====
-- Go's loop `for k, v := range m { cp[k] = f(v) }` over a map with distinct keys: the copy holds the
-- same keys, with the images of their values.
use rmodel.Shared.{
  All, Bool-cases, List, String, [], ap, arith, eq_iff, false, inl, inr, none, option_map, refl,
  sym, ◌++◌, ◌==◌, ◌∙◌, ◌∷◌, ◌≡◌,
}
use rmodel.Shared.Maps.{Distinct, Map, insert, lookup}
use rmodel.Utils.{copy_into}

abbrev pub map_values {ℓ κ} : {A : Type ℓ} {B : Type κ} → (A → B) → Map A → Map B
map_values f [] = []
map_values f ((k, v) ∷ m) = (k, f v) ∷ map_values f m

-- No key of the second map stands in the first.
abbrev pub Fresh {ℓ κ} : {A : Type ℓ} {B : Type κ} → Map A → Map B → Type ℓ
Fresh acc [] = Unit
Fresh acc ((k, v) ∷ m) = (lookup k acc ≡ none) × Fresh acc m

pub insert_fresh {ℓ} :
    {A : Type ℓ} (k : String) (v : A) (m : Map A)
    → lookup k m ≡ none
    → insert k v m ≡ m ++ (k, v) ∷ []
unfolding insert lookup
insert_fresh k v [] h = refl
insert_fresh k v ((j, w) ∷ m) h = ground (arith, insert_fresh k v m, eq_iff j k)

lookup-after {ℓ} :
    {A : Type ℓ} (j k : String) (v : A) (m : Map A)
    → lookup j m ≡ none
    → (k == j) ≡ false
    → lookup j (m ++ (k, v) ∷ []) ≡ none
unfolding lookup
lookup-after j k v [] h e = ground (arith, e)
lookup-after j k v ((i, w) ∷ m) h e = ground (arith, lookup-after j k v m, e, h)

pub Fresh-step {ℓ κ} :
    {A : Type ℓ} {B : Type κ} (k : String) (v : A) (acc : Map A) (m : Map B)
    → lookup k m ≡ none
    → Fresh acc m
    → Fresh (acc ++ (k, v) ∷ []) m
unfolding lookup
Fresh-step k v acc [] h f = tt
Fresh-step k v acc ((j, w) ∷ m) h f = elim (Bool-cases (j == k)) [
  | inl e ↦ cc (sym h, e)
  | inr e ↦ (
    lookup-after j k v acc f.0 (ground (arith, e, eq_iff j k, eq_iff k j)),
    Fresh-step k v acc m (ground (arith, h, e)) f.1,
  )
]

pub append_nil {ℓ} : {A : Type ℓ} (xs : List A) → xs ++ [] ≡ xs
append_nil [] = refl
append_nil (x ∷ xs) = ap (λ r. x ∷ r) (append_nil xs)

pub append_one {ℓ} : {A : Type ℓ} (xs ys : List A) (x : A) → (xs ++ x ∷ []) ++ ys ≡ xs ++ x ∷ ys
append_one [] ys x = refl
append_one (y ∷ xs) ys x = ap (λ r. y ∷ r) (append_one xs ys x)

pub Fresh-nil {ℓ κ} : (A : Type ℓ) {B : Type κ} (m : Map B) → Fresh {A = A} [] m
unfolding lookup
Fresh-nil A [] = tt
Fresh-nil A ((k, v) ∷ m) = (refl, Fresh-nil A m)

pub copy_into-append {ℓ} :
    {V : Type ℓ} (m acc : Map V) → Distinct m → Fresh acc m → copy_into m acc ≡ acc ++ m
unfolding copy_into
copy_into-append [] acc d f = sym (append_nil acc)
copy_into-append ((k, v) ∷ m) acc d f =
    ap (copy_into m) (insert_fresh k v acc f.0)
    ∙ copy_into-append m (acc ++ (k, v) ∷ []) d.1 (Fresh-step k v acc m d.0 f.1)
    ∙ append_one acc m (k, v)

-- `LabelsDeepCopy` of a map whose keys are distinct, as those of a map are, is an equal map.
pub copy_into_all {ℓ} : {V : Type ℓ} (m : Map V) → Distinct m → copy_into m [] ≡ m
copy_into_all m d = copy_into-append m [] d (Fresh-nil _ m)

pub lookup-map_values {ℓ κ} :
    {A : Type ℓ} {B : Type κ} (f : A → B) (k : String) (m : Map A)
    → lookup k (map_values f m) ≡ option_map f (lookup k m)
unfolding lookup
lookup-map_values f k [] = refl
lookup-map_values f k ((j, v) ∷ m) = elim (Bool-cases (j == k)) [
  | inl e ↦ simp (e, lookup) refl
  | inr e ↦ simp (e, lookup) (lookup-map_values f k m)
]

pub map_values-Distinct {ℓ κ} :
    {A : Type ℓ} {B : Type κ} (f : A → B) (m : Map A) → Distinct m → Distinct (map_values f m)
map_values-Distinct f [] d = tt
map_values-Distinct f ((k, v) ∷ m) d =
    (lookup-map_values f k m ∙ ap (option_map f) d.0, map_values-Distinct f m d.1)

-- Functions that agree on the values of a map give the same map.
pub map_values-ext {ℓ κ} :
    {A : Type ℓ} {B : Type κ} (f g : A → B) (m : Map A)
    → All (λ e. f e.1 ≡ g e.1) m
    → map_values f m ≡ map_values g m
map_values-ext f g [] h = refl
map_values-ext f g ((k, v) ∷ m) h =
    ap (λ w. (k, w) ∷ map_values f m) h.0 ∙ ap (λ r. (k, g v) ∷ r) (map_values-ext f g m h.1)
