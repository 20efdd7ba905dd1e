-- ===== src/Shared/Maps.antt =====
-- Go's `map[string]V` as an association list. A `range` loop runs in the order of the list; the
-- theorems hold for every list, hence for every order that the runtime may choose.
use Prim.Native.String.{String}
use text.Mathlib.Text.{◌==◌}
use text.Mathlib.TextEquality.{eq_iff}
use text.Mathlib.TextPositions.{eq_refl}
use mathlib.Core.Path.{◌≡◌, refl, ap, ◌∙◌}
use mathlib.Core.Option.{Option, none, some}
use mathlib.Core.List.{List, [], ◌∷◌}
use native.Mathlib.Omega.{arith}
use mathlib.Core.Logic.{◌⊎◌, inl, inr}
use rmodel.Shared.Tests.{All, Bool-cases, if◌then◌else◌}

abbrev pub Map {ℓ} : Type ℓ → Type ℓ
Map V = List (String × V)

module _ {ℓ} {V : Type ℓ} where
  -- `delete(m, key)`.
  unfoldable pub delete : String → Map V → Map V
  delete key [] = []
  delete key ((k, v) ∷ rest) = if k == key then delete key rest else (k, v) ∷ delete key rest

  -- `m[key] = val`.
  unfoldable pub insert : String → V → Map V → Map V
  insert key val [] = (key, val) ∷ []
  insert key val ((k, v) ∷ rest) =
      if k == key then (key, val) ∷ rest else (k, v) ∷ insert key val rest

  -- `m[key]` with its `ok`.
  unfoldable pub lookup : String → Map V → Option V
  lookup key [] = none
  lookup key ((k, v) ∷ rest) = if k == key then some v else lookup key rest

  -- No key stands twice.
  abbrev pub Distinct : Map V → Type ℓ
  Distinct [] = Unit
  Distinct ((k, v) ∷ rest) = (lookup k rest ≡ none) × Distinct rest

  pub lookup-delete :
      (gone key : String) (m : Map V)
      → lookup key (delete gone m) ≡ (if gone == key then none else lookup key m)
  unfolding lookup delete
  lookup-delete gone key [] = ground arith
  lookup-delete gone key ((k, v) ∷ rest) =
      ground (arith, lookup-delete gone key rest, eq_iff gone key, eq_iff k gone, eq_iff k key)

  pub lookup-insert :
      (new key : String) (val : V) (m : Map V)
      → lookup key (insert new val m) ≡ (if new == key then some val else lookup key m)
  unfolding lookup insert
  lookup-insert new key val [] = refl
  lookup-insert new key val ((k, v) ∷ rest) =
      ground (arith, lookup-insert new key val rest, eq_iff new key, eq_iff k new, eq_iff k key)

  pub lookup-inserted :
      (key : String) (val : V) (m : Map V) → lookup key (insert key val m) ≡ some val
  lookup-inserted key val m =
      lookup-insert key key val m ∙ ap (λ t. if t then some val else lookup key m) (eq_refl key)

  pub delete-Distinct : (gone : String) (m : Map V) → Distinct m → Distinct (delete gone m)
  unfolding lookup delete
  delete-Distinct gone [] d = tt
  delete-Distinct gone ((k, v) ∷ rest) d = ground (
    arith,
    delete-Distinct gone rest d.1,
    lookup-delete gone k rest,
    eq_iff k gone,
    eq_iff gone k,
  )

  pub insert-Distinct :
      (new : String) (val : V) (m : Map V) → Distinct m → Distinct (insert new val m)
  unfolding lookup insert
  insert-Distinct new val [] d = (refl, tt)
  insert-Distinct new val ((k, v) ∷ rest) d = ground (
    arith,
    insert-Distinct new val rest d.1,
    lookup-insert new k val rest,
    eq_iff k new,
    eq_iff new k,
  )

  -- What stands in a map after `m[new] = val` is the new value at its key, or stood there before.
  pub insert_cases :
      (new key : String) (val v : V) (m : Map V)
      → lookup key (insert new val m) ≡ some v
      → (lookup key m ≡ some v) ⊎ ((new ≡ key) × (val ≡ v))
  insert_cases new key val v m h = ground (arith, lookup-insert new key val m, eq_iff new key)

  -- What holds of every lookup holds of every entry, where no key stands twice.
  pub entries_hold :
      (P : String → V → Type 0) (m : Map V)
      → Distinct m
      → ((key : String) (v : V) → lookup key m ≡ some v → P key v)
      → All (λ e. P e.0 e.1) m
  unfolding lookup
  entries_hold P [] d h = tt
  entries_hold P ((k, v) ∷ rest) d h = (
    h k v (simp (eq_refl k, lookup) refl),
    entries_hold P rest d.1 (λ key v' e. h key v' (ground (arith, e, eq_iff k key, d.0))),
  )

  pub insert-All :
      (P : V → Type 0) (new : String) (val : V) (m : Map V)
      → P val
      → All (λ e. P e.1) m
      → All (λ e. P e.1) (insert new val m)
  unfolding insert
  insert-All P new val [] p h = (p, tt)
  insert-All P new val ((k, v) ∷ rest) p h = elim (Bool-cases (k == new)) [
    | inl e ↦ simp (e, insert) (p, h.1)
    | inr e ↦ simp (e, insert) (h.0, insert-All P new val rest p h.1)
  ]
