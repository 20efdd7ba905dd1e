-- ===== src/Blueprint/Neuron/Prune.antt =====
-- neuron.go: what the loop of `AddTriggerGroup` over the existing groups leaves under each key.
use rmodel.Blueprint.Neuron.{TriggerGroups}
use rmodel.Blueprint.Neuron.Groups.{prune_groups}
use rmodel.Shared.{
  Bool-cases, List, String, [], arith, eq_iff, eq_refl, false, if◌then◌else◌, inl, inr, none, refl,
  some, true, ◌∷◌, ◌≡◌, ◌⊎◌,
}
use rmodel.Shared.Maps.{Distinct, delete, delete-Distinct, lookup, lookup-delete}
use rmodel.Utils.{slices_contains}

-- The entries of a list still stand in the map.
abbrev pub Entries : TriggerGroups → TriggerGroups → Type 0
Entries [] m = Unit {0}
Entries ((k, g) ∷ rest) m = (lookup k m ≡ some g) × Entries rest m

Entries-delete :
    (k : String) (rest m : TriggerGroups)
    → lookup k rest ≡ none
    → Entries rest m
    → Entries rest (delete k m)
unfolding lookup
Entries-delete k [] m h e = tt
Entries-delete k ((j, g) ∷ rest) m h e =
    ground (arith, Entries-delete k rest m, lookup-delete k j m, eq_iff k j, eq_iff j k)

Entries-cons :
    (k : String) (g : List String) (rest m : TriggerGroups)
    → lookup k rest ≡ none
    → Entries rest m
    → Entries rest ((k, g) ∷ m)
unfolding lookup
Entries-cons k g [] m h e = tt
Entries-cons k g ((j, w) ∷ rest) m h e =
    ground (arith, Entries-cons k g rest m, eq_iff k j, eq_iff j k)

pub Entries-refl : (m : TriggerGroups) → Distinct m → Entries m m
unfolding lookup
Entries-refl [] d = tt
Entries-refl ((k, g) ∷ m) d =
    ground (arith, eq_refl k, Entries-cons k g m m d.0 (Entries-refl m d.1))

module _ (new_group : List String) where
  -- A key that the loop does not visit keeps its group.
  prune_miss :
      (j : String) (rest m : TriggerGroups)
      → lookup j rest ≡ none
      → lookup j (prune_groups new_group rest m).kept ≡ lookup j m
  unfolding lookup prune_groups
  prune_miss j [] m h = refl
  prune_miss j ((k, g) ∷ rest) m h =
      ground (
        arith,
        prune_miss j rest m,
        prune_miss j rest (delete k m),
        lookup-delete k j m,
        eq_iff k j,
      )

  -- Where no group holds the new one, the groups that it holds are gone, and no other.
  pub prune_not_included :
      (j : String) (g : List String) (rest m : TriggerGroups)
      → Distinct rest
      → Entries rest m
      → (prune_groups new_group rest m).included ≡ false
      → lookup j rest ≡ some g
      → (slices_contains g new_group ≡ false)
        × (lookup j (prune_groups new_group rest m).kept
            ≡ (if slices_contains new_group g then none else some g))
  unfolding lookup prune_groups
  prune_not_included j g [] m d e n h = cc
  prune_not_included j g ((k, w) ∷ rest) m d e n h = ground (
    arith,
    eq_iff k j,
    lookup-delete k j m,
    prune_not_included j g rest m d.1,
    prune_not_included j g rest (delete k m) d.1,
    Entries-delete k rest m d.0,
    prune_miss k rest m d.0,
    prune_miss k rest (delete k m) d.0,
    lookup-delete k k m,
    eq_refl k,
  )

  Entries-next :
      (k : String) (w : List String) (rest m : TriggerGroups)
      → lookup k rest ≡ none
      → Entries rest m
      → Entries rest (if slices_contains new_group w then delete k m else m)
  Entries-next k w rest m h e = elim (Bool-cases (slices_contains new_group w)) [
    | inl t ↦ rw t (Entries-delete k rest m h e)
    | inr f ↦ rw f e
  ]

  -- Where the loop returns early, some group holds the new one, and it is still there.
  pub prune_included :
      (rest m : TriggerGroups)
      → Distinct rest
      → Entries rest m
      → (prune_groups new_group rest m).included ≡ true
      → (k : String) × (g : List String) × (lookup k rest ≡ some g)
        × (slices_contains g new_group ≡ true)
        × (lookup k (prune_groups new_group rest m).kept ≡ some g)
  unfolding lookup prune_groups
  prune_included [] m d e h = cc
  prune_included ((k, w) ∷ rest) m d e h = elim (Bool-cases (slices_contains w new_group)) [
    | inl holds ↦ (k, w, ground (arith, eq_refl k), holds, ground arith)
    | inr fails ↦
        let next = if slices_contains new_group w then delete k m else m in
        let found = prune_included rest next d.1 (Entries-next k w rest m d.0 e.1) (ground arith) in
        (
          found.0,
          found.1,
          ground (arith, eq_iff k found.0, found.2),
          found.3,
          ground (arith, found.4),
        )
  ]

  -- Whatever the outcome, a key keeps its group, or had a group that the new one holds.
  pub prune_either :
      (j : String) (rest m : TriggerGroups)
      → Entries rest m
      → Distinct rest
      → (lookup j (prune_groups new_group rest m).kept ≡ lookup j m)
        ⊎ ((g : List String) × (lookup j m ≡ some g)
            × (slices_contains new_group g ≡ true)
            × (lookup j (prune_groups new_group rest m).kept ≡ none))
  unfolding lookup prune_groups
  prune_either j [] m e d = inl refl
  prune_either j ((k, w) ∷ rest) m e d =
      let next = if slices_contains new_group w then delete k m else m in
      ground (
        arith,
        prune_either j rest next (Entries-next k w rest m d.0 e.1) d.1,
        prune_miss k rest next d.0,
        lookup-delete k j m,
        eq_iff k j,
        eq_refl k,
      )

pub prune-Distinct :
    (new_group : List String) (rest m : TriggerGroups)
    → Distinct m
    → Distinct (prune_groups new_group rest m).kept
unfolding prune_groups
prune-Distinct new_group [] m d = d
prune-Distinct new_group ((k, w) ∷ rest) m d = ground (
  arith,
  prune-Distinct new_group rest m d,
  prune-Distinct new_group rest (delete k m) (delete-Distinct k m d),
)
