-- ===== src/Blueprint/Neuron/Triggers.antt =====
-- neuron.go: what `AddTriggerGroup` does to the trigger groups of a neuron.
use rmodel.Blueprint.Link.{Link}
use rmodel.Blueprint.Neuron.{Neuron, TriggerGroups, has_in_link}
use rmodel.Blueprint.Neuron.Groups.{
  Pruned, add_trigger_group, link_ids, missing_in_link, prune_groups, store_group,
}
use rmodel.Blueprint.Neuron.Prune.{
  Entries, Entries-refl, prune_either, prune_included, prune_not_included,
}
use rmodel.Errors.{in_link_not_found}
use rmodel.Shared.{
  Bool-cases, List, Option-cases, String, [], ap, arith, eq_iff, eq_refl, false, if◌then◌else◌, inl,
  inr, none, refl, some, sym, true, ◌↔◌, ◌∷◌, ◌≡◌, ◌≢◌, ◌⊎◌,
}
use rmodel.Shared.Maps.{Distinct, insert, lookup, lookup-insert}
use rmodel.Shared.Sets.{elem}
use rmodel.Utils.{slices_contains}
use rmodel.Utils.Slices.{IsFirst, IsFirst-skip, slices_contains_iff}

-- No group holds another one, and none is empty.
pub record IsAntichain (m : TriggerGroups) : Type 0 where
  pub distinct : Distinct m
  pub filled : (k : String) (g : List String) → lookup k m ≡ some g → g ≢ []
  pub apart :
      (j k : String) (g h : List String)
      → lookup j m ≡ some g
      → lookup k m ≡ some h
      → slices_contains h g ≡ true
      → j ≡ k

-- Some group holds the new one, and the groups are the same.
abbrev pub Included : List String → TriggerGroups → TriggerGroups → Type 0
Included new_group m m' =
    (k : String) × (g : List String) × (lookup k m ≡ some g)
    × (slices_contains g new_group ≡ true)
    × ((j : String) → lookup j m' ≡ lookup j m)

-- No group holds the new one, which stands under its key; of the others exactly those that it
-- holds are gone.
abbrev pub Replaces : String → List String → TriggerGroups → TriggerGroups → Type 0
Replaces key new_group m m' =
    ((k : String) (g : List String) → lookup k m ≡ some g → slices_contains g new_group ≡ false)
    × (lookup key m' ≡ some new_group)
    × ((j : String) → key ≢ j → lookup j m ≡ none → lookup j m' ≡ none)
    × ((j : String) (g : List String)
        → key ≢ j
        → lookup j m ≡ some g
        → lookup j m' ≡ (if slices_contains new_group g then none else some g))

abbrev pub AddsGroup : String → List String → TriggerGroups → TriggerGroups → Type 0
AddsGroup key new_group m m' = Included new_group m m' ⊎ Replaces key new_group m m'

slices_contains_trans :
    (xs ys zs : List String)
    → slices_contains ys xs ≡ true
    → slices_contains zs ys ≡ true
    → slices_contains zs xs ≡ true
slices_contains_trans xs ys zs p q =
    (slices_contains_iff zs xs).1
      (λ x h. (slices_contains_iff zs ys).0 q x ((slices_contains_iff ys xs).0 p x h))

abbrev pruned : List String → Neuron → Pruned
pruned new_group n = prune_groups new_group n.trigger_groups n.trigger_groups

module _ (key : String) (new_group : List String) (n : Neuron)
    (a : IsAntichain n.trigger_groups) where
  entries : Entries n.trigger_groups n.trigger_groups
  entries = Entries-refl n.trigger_groups a.distinct

  unchanged :
      (k : String) (g : List String)
      → lookup k n.trigger_groups ≡ some g
      → slices_contains g new_group ≡ true
      → lookup k (pruned new_group n).kept ≡ some g
      → (j : String) → lookup j (pruned new_group n).kept ≡ lookup j n.trigger_groups
  unchanged k g hit holds kept j =
      elim (prune_either new_group j n.trigger_groups n.trigger_groups entries a.distinct) [
        | inl same ↦ same
        | inr (h, had, sub, gone) ↦
            let same = a.apart j k h g had hit (slices_contains_trans h new_group g sub holds) in
            absurd (cc (gone, kept, same))
      ]

  store_included :
      (pruned new_group n).included ≡ true
      → AddsGroup key new_group n.trigger_groups
          (store_group key new_group n (pruned new_group n)).trigger_groups
  unfolding store_group
  store_included e =
      let found = prune_included new_group n.trigger_groups n.trigger_groups a.distinct entries e in
      inl (
        found.0,
        found.1,
        found.2,
        found.3,
        λ j. rw e (unchanged found.0 found.1 found.2 found.3 found.4 j),
      )

  store_not_included :
      (pruned new_group n).included ≡ false
      → AddsGroup key new_group n.trigger_groups
          (store_group key new_group n (pruned new_group n)).trigger_groups
  unfolding store_group
  store_not_included e = inr (
    λ k g h. (out k g h).0,
    rw e (rw (lookup-insert key key new_group (pruned new_group n).kept, eq_refl key)),
    λ j ne h. rw e (rw (others j ne) (missed j h)),
    λ j g ne h. rw e (rw (others j ne) (out j g h).1),
  )
    where
      out :
          (j : String) (g : List String)
          → lookup j n.trigger_groups ≡ some g
          → (slices_contains g new_group ≡ false)
            × (lookup j (pruned new_group n).kept
                ≡ (if slices_contains new_group g then none else some g))
      out j g h =
          prune_not_included new_group j g n.trigger_groups n.trigger_groups a.distinct entries e h

      missed :
          (j : String)
          → lookup j n.trigger_groups ≡ none
          → lookup j (pruned new_group n).kept ≡ none
      missed j h =
          ground
            (arith, prune_either new_group j n.trigger_groups n.trigger_groups entries a.distinct)

      others :
          (j : String)
          → key ≢ j
          → lookup j (insert key new_group (pruned new_group n).kept)
            ≡ lookup j (pruned new_group n).kept
      others j ne =
          ground (arith, lookup-insert key j new_group (pruned new_group n).kept, eq_iff key j)

  pub store_AddsGroup :
      AddsGroup key new_group n.trigger_groups
        (store_group key new_group n (pruned new_group n)).trigger_groups
  store_AddsGroup = elim (Bool-cases (pruned new_group n).included) [
    | inl e ↦ store_included e
    | inr e ↦ store_not_included e
  ]

-- The guard of `AddTriggerGroup` passes exactly when every link is an in-link of the neuron.
missing_in_link_iff :
    (n : Neuron) (links : List Link)
    → (missing_in_link n links ≡ none)
      ↔ ((x : String) → elem x (link_ids links) ≡ true → has_in_link n x ≡ true)
unfolding missing_in_link link_ids
missing_in_link_iff n [] = (λ _ x h. cc, λ _. refl)
missing_in_link_iff n (l ∷ links) = (
  λ h x e. ground (arith, (missing_in_link_iff n links).0 (ground arith) x, eq_iff l.id x),
  λ h. ground (
    arith,
    h l.id,
    eq_refl l.id,
    (missing_in_link_iff n links).1 (λ x e. h x (ground (arith, e))),
  ),
)

missing_in_link-some :
    (x : String) (n : Neuron) (links : List Link)
    → missing_in_link n links ≡ some x
    → IsFirst (has_in_link n) x (link_ids links)
unfolding missing_in_link link_ids
missing_in_link-some x n [] e = cc
missing_in_link-some x n (l ∷ links) e = elim (Bool-cases (has_in_link n l.id)) [
  | inl h ↦
      IsFirst-skip (has_in_link n) x l.id (link_ids links) h
        (missing_in_link-some x n links (ground (arith, e, h)))
  | inr h ↦
      let same : x ≡ l.id = ground (arith, e, h) in
      ([], link_ids links, ap (λ y. y ∷ link_ids links) (sym same), λ y m. cc m, rw same h)
]

-- For a neuron whose trigger groups form an antichain: `AddTriggerGroup` with at least one link
-- either reports the first link that is no in-link and changes nothing, or, all of them being
-- in-links, leaves the groups unchanged where one of them already includes the new group, and
-- otherwise stores the new group under its key, removes exactly the groups under other keys that
-- the new group includes, and keeps the rest.
pub add_trigger_group_lem :
    (key : String) (n : Neuron) (l : Link) (links : List Link)
    → IsAntichain n.trigger_groups
    → ((x : String) × IsFirst (has_in_link n) x (link_ids (l ∷ links))
        × (add_trigger_group key n (l ∷ links) ≡ (n, some (in_link_not_found x n.id))))
      ⊎ (((x : String) → elem x (link_ids (l ∷ links)) ≡ true → has_in_link n x ≡ true)
          × ((add_trigger_group key n (l ∷ links)).1 ≡ none)
          × AddsGroup key
              (link_ids (l ∷ links))
              n.trigger_groups
              (add_trigger_group key n (l ∷ links)).0.trigger_groups)
unfolding add_trigger_group
add_trigger_group_lem key n l links a = elim (Option-cases (missing_in_link n (l ∷ links))) [
  | inl e ↦ inr (
    (missing_in_link_iff n (l ∷ links)).0 e,
    rw (e, add_trigger_group),
    rw (e, add_trigger_group) (store_AddsGroup key (link_ids (l ∷ links)) n a),
  )
  | inr (x, e) ↦ inl (x, missing_in_link-some x n (l ∷ links) e, rw (e, add_trigger_group))
]
