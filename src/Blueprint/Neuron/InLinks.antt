-- ===== src/Blueprint/Neuron/InLinks.antt =====
-- neuron.go: `AddTriggerGroup` keeps the antichain of groups and the in-links.
use rmodel.Blueprint.Link.{Link}
use rmodel.Blueprint.Neuron.{Neuron, TriggerGroups, has_in_link, in_some_group}
use rmodel.Blueprint.Neuron.Groups.{
  add_in_link, add_trigger_group, link_ids, prune_groups, store_group,
}
use rmodel.Blueprint.Neuron.Prune.{prune-Distinct}
use rmodel.Blueprint.Neuron.Triggers.{AddsGroup, IsAntichain, Replaces, add_trigger_group_lem}
use rmodel.Lite.Codec.{stored}
use rmodel.Shared.{
  Bool-cases, Bool-ext, List, Option-cases, String, [], arith, eq_cases, eq_iff, eq_refl, false,
  inl, inr, none, refl, some, sym, true, ◌∙◌, ◌∷◌, ◌≡◌, ◌≢◌, ◌⊎◌,
}
use rmodel.Shared.Maps.{Distinct, insert, insert-Distinct, lookup, lookup-insert}
use rmodel.Shared.Sets.{elem}
use rmodel.Utils.{slices_contains}
use rmodel.Utils.Slices.{slices_contains_iff}

-- A link is in some group exactly when it stands under some key.
pub in_some_group-lookup :
    (x : String) (m : TriggerGroups)
    → in_some_group x m ≡ true
    → Distinct m
    → (k : String) × (g : List String) × (lookup k m ≡ some g) × (elem x g ≡ true)
unfolding in_some_group lookup
in_some_group-lookup x [] h d = cc
in_some_group-lookup x ((k, g) ∷ m) h d = elim (Bool-cases (elem x g)) [
  | inl here ↦ (k, g, ground (arith, eq_refl k), here)
  | inr miss ↦
      let found = in_some_group-lookup x m (ground arith) d.1 in
      (found.0, found.1, ground (arith, eq_iff k found.0, found.2), found.3)
]

pub lookup-in_some_group :
    (x k : String) (g : List String) (m : TriggerGroups)
    → lookup k m ≡ some g
    → elem x g ≡ true
    → in_some_group x m ≡ true
unfolding lookup in_some_group
lookup-in_some_group x k g [] h e = cc
lookup-in_some_group x k g ((j, w) ∷ m) h e =
    ground (arith, lookup-in_some_group x k g m, eq_iff j k)

module _ (key : String) (new_group : List String) (m m' : TriggerGroups) where
  -- A group of the new map is the new one, or an old one that the new one does not hold.
  Replaces-origin :
      Replaces key new_group m m'
      → (j : String) (g : List String) → lookup j m' ≡ some g
      → ((lookup j m ≡ some g) × (slices_contains new_group g ≡ false))
        ⊎ ((key ≡ j) × (g ≡ new_group))
  Replaces-origin (out, stored, missed, kept) j g e = elim (eq_cases key j) [
    | inl (_, p) ↦ inr (p, cc)
    | inr (_, p) ↦ elim (Option-cases (lookup j m)) [
      | inl no_group ↦ absurd (cc (missed j p no_group))
      | inr (h, had) ↦ inl (ground (arith, kept j h p had))
    ]
  ]

  AddsGroup-origin :
      AddsGroup key new_group m m'
      → (j : String) (g : List String) → lookup j m' ≡ some g
      → (lookup j m ≡ some g) ⊎ (g ≡ new_group)
  AddsGroup-origin (inl (k, h, hit, holds, same)) j g e = inl (sym (same j) ∙ e)
  AddsGroup-origin (inr r) j g e = elim (Replaces-origin r j g e) [
    | inl (old, _) ↦ inl old
    | inr (_, p) ↦ inr p
  ]

  AddsGroup-in_link :
      Distinct m
      → Distinct m'
      → lookup key m ≡ none
      → AddsGroup key new_group m m'
      → ((x : String) → elem x new_group ≡ true → in_some_group x m ≡ true)
      → (x : String) → in_some_group x m' ≡ in_some_group x m
  AddsGroup-in_link d d' fresh adds listed x =
      Bool-ext (in_some_group x m') (in_some_group x m)
        (λ h.
          let (k, g, hit, here) = in_some_group-lookup x m' h d' in
          elim (AddsGroup-origin adds k g hit) [
            | inl old ↦ lookup-in_some_group x k g m old here
            | inr e ↦ listed x (rw (← e) here)
          ])
        (λ h. let (k, g, hit, here) = in_some_group-lookup x m h d in survives adds k g hit here)
    where
      survives :
          AddsGroup key new_group m m'
          → (k : String) (g : List String) → lookup k m ≡ some g
          → elem x g ≡ true
          → in_some_group x m' ≡ true
      survives (inl (_, _, _, _, same)) k g hit here =
          lookup-in_some_group x k g m' (same k ∙ hit) here
      survives (inr (out, stored, missed, kept)) k g hit here =
          let ne : key ≢ k = λ e. cc in
          elim (Bool-cases (slices_contains new_group g)) [
            | inl sub ↦
                lookup-in_some_group x key new_group m' stored
                  ((slices_contains_iff new_group g).0 sub x here)
            | inr loose ↦ lookup-in_some_group x k g m' (kept k g ne hit ∙ rw loose) here
          ]

  AddsGroup-IsAntichain :
      new_group ≢ [] → Distinct m' → AddsGroup key new_group m m' → IsAntichain m → IsAntichain m'
  AddsGroup-IsAntichain ne d' (inl (_, _, _, _, same)) a = record {
    distinct = d';
    filled = λ k g h. a.filled k g (sym (same k) ∙ h);
    apart = λ j k g h p q s. a.apart j k g h (sym (same j) ∙ p) (sym (same k) ∙ q) s;
  }
  AddsGroup-IsAntichain ne d' (inr r) a = record {
    distinct = d';
    filled = λ k g h. elim (Replaces-origin r k g h) [
      | inl (old, _) ↦ a.filled k g old
      | inr (_, e) ↦ rw e ne
    ];
    apart = λ j k g h p q s. elim (Replaces-origin r j g p) [
      | inl (old, loose) ↦ elim (Replaces-origin r k h q) [
        | inl (old', _) ↦ a.apart j k g h old old' s
        | inr (_, e) ↦ absurd (cc (s, loose, e))
      ]
      | inr (at, e) ↦ elim (Replaces-origin r k h q) [
        | inl (old', _) ↦ absurd (cc (s, r.0 k h old', e))
        | inr (at', _) ↦ sym at ∙ at'
      ]
    ];
  }

link_ids-ne-nil : (l : Link) (links : List Link) → link_ids (l ∷ links) ≢ []
unfolding link_ids
link_ids-ne-nil l links e = cc

add_trigger_group-Distinct :
    (key : String) (n : Neuron) (links : List Link)
    → Distinct n.trigger_groups
    → Distinct (add_trigger_group key n links).0.trigger_groups
unfolding add_trigger_group store_group
add_trigger_group-Distinct key n [] d = d
add_trigger_group-Distinct key n (l ∷ links) d =
    let ids = link_ids (l ∷ links) in
    let p = prune_groups ids n.trigger_groups n.trigger_groups in
    let kept : Distinct p.kept = prune-Distinct ids n.trigger_groups n.trigger_groups d in
    ground (arith, kept, insert-Distinct key ids p.kept kept)

-- `AddTriggerGroup` keeps the trigger groups an antichain of distinct, non-empty groups, whatever
-- links it is given, and also where it reports an error.
pub add_trigger_group-IsAntichain :
    (key : String) (n : Neuron) (links : List Link)
    → IsAntichain n.trigger_groups
    → IsAntichain (add_trigger_group key n links).0.trigger_groups
add_trigger_group-IsAntichain key n [] a = unfold add_trigger_group in a
add_trigger_group-IsAntichain key n (l ∷ links) a = elim (add_trigger_group_lem key n l links a) [
  | inl (x, _, e) ↦ rw e a
  | inr (_, _, adds) ↦
      AddsGroup-IsAntichain key (link_ids (l ∷ links)) n.trigger_groups
        (add_trigger_group key n (l ∷ links)).0.trigger_groups (link_ids-ne-nil l links)
        (add_trigger_group-Distinct key n (l ∷ links) a.distinct) adds a
]

-- `AddTriggerGroup` neither loses nor makes up an in-link: for a neuron whose trigger groups form an
-- antichain, and under a key that no group has yet,
-- `hasInLink` answers the same before and after, for every link.
pub add_trigger_group-has_in_link :
    (key : String) (n : Neuron) (links : List Link)
    → IsAntichain n.trigger_groups
    → lookup key n.trigger_groups ≡ none
    → (x : String) → has_in_link (add_trigger_group key n links).0 x ≡ has_in_link n x
add_trigger_group-has_in_link key n [] a fresh x = unfold add_trigger_group in refl
add_trigger_group-has_in_link key n (l ∷ links) a fresh x =
    elim (add_trigger_group_lem key n l links a) [
      | inl (y, _, e) ↦ rw e
      | inr (listed, _, adds) ↦
          unfold has_in_link in
          AddsGroup-in_link key (link_ids (l ∷ links)) n.trigger_groups
            (add_trigger_group key n (l ∷ links)).0.trigger_groups a.distinct
            (add_trigger_group-Distinct key n (l ∷ links) a.distinct) fresh adds
            (unfold has_in_link in listed) x
    ]

-- A non-empty group inside that of one link has the link.
only_link :
    (link_id : String) (g : List String)
    → g ≢ []
    → slices_contains (link_id ∷ []) g ≡ true
    → elem link_id g ≡ true
only_link link_id [] ne h = absurd (ne refl)
only_link link_id (x ∷ g) ne h =
    let inside = (slices_contains_iff (link_id ∷ []) (x ∷ g)).0 h x (ground (arith, eq_refl x)) in
    ground (arith, inside, eq_iff link_id x, eq_iff x link_id)

-- `addInLink` with a link that is in no group yet keeps the trigger groups an antichain.
pub add_in_link-IsAntichain :
    (key : String) (n : Neuron) (link_id : String)
    → IsAntichain n.trigger_groups
    → has_in_link n link_id ≡ false
    → IsAntichain (add_in_link key n link_id).trigger_groups
unfolding add_in_link has_in_link
add_in_link-IsAntichain key n link_id a fresh = record {
  distinct = insert-Distinct key (link_id ∷ []) n.trigger_groups a.distinct;
  filled =
      λ k g h. elim (origin k g h) [ inl (_, e) ↦ rw e (λ p. cc) | inr old ↦ a.filled k g old ];
  apart = λ j k g h p q s. elim (origin j g p) [
    | inl (at, e) ↦ elim (origin k h q) [
      | inl (at', _) ↦ sym at ∙ at'
      | inr old ↦
          let inside =
            (slices_contains_iff h g).0 s link_id (rw e (ground (arith, eq_refl link_id))) in
          absurd (cc (fresh, lookup-in_some_group link_id k h n.trigger_groups old inside))
    ]
    | inr old ↦ elim (origin k h q) [
      | inl (_, e) ↦
          let inside = only_link link_id g (a.filled j g old) (rw e at s) in
          absurd (cc (fresh, lookup-in_some_group link_id j g n.trigger_groups old inside))
      | inr old' ↦ a.apart j k g h old old' s
    ]
  ];
}
  where
    origin :
        (k : String) (g : List String)
        → lookup k (insert key (link_id ∷ []) n.trigger_groups) ≡ some g
        → ((key ≡ k) × (g ≡ link_id ∷ [])) ⊎ (lookup k n.trigger_groups ≡ some g)
    origin k g h = ground (arith, lookup-insert key k (link_id ∷ []) n.trigger_groups, eq_iff key k)

-- `AddTriggerGroup` leaves the id and the cast groups alone.
pub add_trigger_group_frame :
    (key : String) (n : Neuron) (links : List Link)
    → ((add_trigger_group key n links).0.id ≡ n.id)
      × ((add_trigger_group key n links).0.cast_groups ≡ n.cast_groups)
unfolding add_trigger_group store_group
add_trigger_group_frame key n [] = (refl, refl)
add_trigger_group_frame key n (l ∷ links) = ground arith
