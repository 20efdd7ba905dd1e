-- ===== src/Blueprint/Graph/Cloned.antt =====
-- brainprint.go and neuron.go: `Clone` of a well formed blueprint is well formed.
use rmodel.Blueprint.Brainprint.{Brainprint}
use rmodel.Blueprint.Brainprint.Edit.{clone}
use rmodel.Blueprint.Graph.{IsGraph, dest_is, src_is}
use rmodel.Blueprint.Graph.Copies.{copy_groups-map, copy_links-map, copy_neurons-map}
use rmodel.Blueprint.Graph.Neurons.{Regroups}
use rmodel.Blueprint.Link.{Link}
use rmodel.Blueprint.Neuron.{
  CastGroups, LinkSet, Neuron, cast_groups_deep_copy, has_in_link, has_out_link, in_some_set, keys,
  or_empty, trigger_groups_deep_copy,
}
use rmodel.Blueprint.Neuron.Casts.{elem-keys}
use rmodel.Blueprint.Neuron.Triggers.{IsAntichain}
use rmodel.Core.{entry_link_from}
use rmodel.Shared.{
  Option, Option-cases, String, [], ap, arith, eq_iff, inl, inr, is_some, none, option_map, refl,
  some, some-injective, subst, sym, ◌==◌, ◌||◌, ◌∙◌, ◌∷◌, ◌≡◌,
}
use rmodel.Shared.Maps.{Distinct, Map, insert, lookup, lookup-insert}
use rmodel.Shared.Sets.{elem}
use rmodel.Utils.{Labels, copy_into, labels_deep_copy}
use rmodel.Utils.Copies.{
  Fresh-nil, copy_into_all, lookup-map_values, map_values, map_values-Distinct,
}
use rmodel.Blueprint.Neuron
use rmodel.Blueprint.Link

lookup-copy_into {ℓ} :
    {V : Type ℓ} (x : String) (m acc : Map V)
    → is_some (lookup x (copy_into m acc)) ≡ (is_some (lookup x m) || is_some (lookup x acc))
unfolding copy_into lookup
lookup-copy_into x [] acc = refl
lookup-copy_into x ((k, v) ∷ m) acc =
    ground (arith, lookup-copy_into x m (insert k v acc), lookup-insert k x v acc, eq_iff k x)

elem-copied : (x : String) (s : LinkSet) → elem x (keys (copy_into s [])) ≡ elem x (keys s)
unfolding lookup
elem-copied x s =
    ground (arith, elem-keys x (copy_into s []), elem-keys x s, lookup-copy_into x s [])

in_some_set-copied :
    (x : String) (cgs : CastGroups)
    → in_some_set x (map_values (λ s. copy_into s []) cgs) ≡ in_some_set x cgs
unfolding in_some_set
in_some_set-copied x [] = refl
in_some_set-copied x ((k, s) ∷ cgs) = ground (arith, elem-copied x s, in_some_set-copied x cgs)

deep_copy-Regroups :
    (n : Neuron)
    → IsAntichain n.trigger_groups
    → Distinct (or_empty n.cast_groups)
    → Regroups n (Neuron.deep_copy n)
unfolding Neuron.deep_copy trigger_groups_deep_copy cast_groups_deep_copy has_in_link has_out_link
deep_copy-Regroups n a d =
    let same = copy_into_all n.trigger_groups a.distinct in
    let casts =
      copy_groups-map (or_empty n.cast_groups) [] d (Fresh-nil LinkSet (or_empty n.cast_groups)) in
    record {
      same_id = refl;
      ins = λ x. rw same refl;
      outs = λ x. rw casts (in_some_set-copied x (or_empty n.cast_groups));
      antichain = rw same a;
      distinct = rw casts (map_values-Distinct (λ s. copy_into s []) (or_empty n.cast_groups) d);
    }

-- A value of the copy is the copy of a value.
mapped_from {ℓ κ} :
    {A : Type ℓ} {B : Type κ} (f : A → B) (k : String) (b : B) (m : Map A)
    → lookup k (map_values f m) ≡ some b
    → (a : A) × (lookup k m ≡ some a) × (f a ≡ b)
mapped_from f k b m e = elim (Option-cases (lookup k m)) [
  | inl o ↦ absurd (cc (lookup-map_values f k m, ap (option_map f) o, e))
  | inr (a, o) ↦
      (a, o, some-injective (f a) b (cc (lookup-map_values f k m, ap (option_map f) o, e)))
]

is_some-option_map {ℓ κ} :
    {A : Type ℓ} {B : Type κ} (f : A → B) (o : Option A) → is_some (option_map f o) ≡ is_some o
is_some-option_map f none = refl
is_some-option_map f (some a) = refl

is_some-mapped {ℓ κ} :
    {A : Type ℓ} {B : Type κ} (f : A → B) (k : String) (m : Map A)
    → is_some (lookup k (map_values f m)) ≡ is_some (lookup k m)
is_some-mapped f k m = ap is_some (lookup-map_values f k m) ∙ is_some-option_map f (lookup k m)

dest_is-copied :
    (k : String) (o : Option Link) → dest_is k (option_map Link.deep_copy o) ≡ dest_is k o
unfolding Link.deep_copy
dest_is-copied k none = refl
dest_is-copied k (some l) = refl

src_is-copied : (k : String) (o : Option Link) → src_is k (option_map Link.deep_copy o) ≡ src_is k o
unfolding Link.deep_copy
src_is-copied k none = refl
src_is-copied k (some l) = refl

-- The copied maps, with the labels of the copy.
abbrev copied : Brainprint → Labels → Brainprint
copied b labels = record b {
  labels = labels;
  neurons = map_values Neuron.deep_copy b.neurons;
  links = map_values Link.deep_copy b.links;
}

copied-IsGraph : (b : Brainprint) (labels : Labels) → IsGraph b → IsGraph (copied b labels)
unfolding Link.deep_copy Neuron.deep_copy
copied-IsGraph b labels g = record {
  neurons_distinct = map_values-Distinct Neuron.deep_copy b.neurons g.neurons_distinct;
  links_distinct = map_values-Distinct Link.deep_copy b.links g.links_distinct;
  no_entry_neuron =
      lookup-map_values Neuron.deep_copy entry_link_from b.neurons
      ∙ ap (option_map Neuron.deep_copy) g.no_entry_neuron;
  neuron_ids = λ k n' e.
      let (n, here, q) = mapped_from Neuron.deep_copy k n' b.neurons e in
      sym (ap (λ z. z.id) q) ∙ g.neuron_ids k n here;
  link_keys = λ k l' e.
      let (l, here, q) = mapped_from Link.deep_copy k l' b.links e in
      sym (ap (λ z. z.id) q) ∙ g.link_keys k l here;
  antichains = λ k n' e.
      let (n, here, q) = mapped_from Neuron.deep_copy k n' b.neurons e in
      subst (λ z. IsAntichain z.trigger_groups) q (again k n here).antichain;
  casts_distinct = λ k n' e.
      let (n, here, q) = mapped_from Neuron.deep_copy k n' b.neurons e in
      subst (λ z. Distinct (or_empty z.cast_groups)) q (again k n here).distinct;
  in_links = λ k n' e x.
      let (n, here, q) = mapped_from Neuron.deep_copy k n' b.neurons e in
      ap (λ z. has_in_link z x) (sym q)
      ∙ (again k n here).ins x
      ∙ g.in_links k n here x
      ∙ sym (
          ap (dest_is k) (lookup-map_values Link.deep_copy x b.links)
          ∙ dest_is-copied k (lookup x b.links));
  out_links = λ k n' e x.
      let (n, here, q) = mapped_from Neuron.deep_copy k n' b.neurons e in
      ap (λ z. has_out_link z x) (sym q)
      ∙ (again k n here).outs x
      ∙ g.out_links k n here x
      ∙ sym (
          ap (src_is k) (lookup-map_values Link.deep_copy x b.links)
          ∙ src_is-copied k (lookup x b.links));
  dest_exists = λ x l' e.
      let (l, here, q) = mapped_from Link.deep_copy x l' b.links e in
      is_some-mapped Neuron.deep_copy l'.dest b.neurons
      ∙ ap (λ z. is_some (lookup z.dest b.neurons)) (sym q)
      ∙ g.dest_exists x l here;
  src_exists = λ x l' e.
      let (l, here, q) = mapped_from Link.deep_copy x l' b.links e in
      ap (λ t. l'.src == entry_link_from || t) (is_some-mapped Neuron.deep_copy l'.src b.neurons)
      ∙ ap (λ z. z.src == entry_link_from || is_some (lookup z.src b.neurons)) (sym q)
      ∙ g.src_exists x l here;
}
  where
    again :
        (k : String) (n : Neuron) → lookup k b.neurons ≡ some n → Regroups n (Neuron.deep_copy n)
    again k n here = deep_copy-Regroups n (g.antichains k n here) (g.casts_distinct k n here)

pub clone-IsGraph : (b : Brainprint) → IsGraph b → IsGraph (clone b)
unfolding clone
clone-IsGraph b g =
    rw
      (
        copy_neurons-map b.neurons [] g.neurons_distinct (Fresh-nil Neuron b.neurons),
        copy_links-map b.links [] g.links_distinct (Fresh-nil Link b.links),
      )
      (copied-IsGraph b (labels_deep_copy b.labels) g)
