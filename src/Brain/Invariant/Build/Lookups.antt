-- ===== src/Brain/Invariant/Build/Lookups.antt =====
-- brain_local.go and neuron.go of brainlocal: what the loops of `BuildBrain` leave under a key.
use rmodel.Blueprint.Brainprint.{values}
use rmodel.Blueprint.Link.{Link}
use rmodel.Blueprint.Neuron.{CastGroups, LinkSet, Neuron, format_into, keys}
use rmodel.Brain.{BrainLink, BrainNeuron, Groups, Pointer, no_count}
use rmodel.Brain.Invariant.Build.Groups.{Exist}
use rmodel.Brain.Life.{
  build_links, build_neurons, new_brain_link, new_brain_neuron, point_groups, pointer_to,
}
use rmodel.Core.{link_init}
use rmodel.Shared.{
  All, Bool, Bool-cases, List, Option, String, [], ap, arith, eq_iff, if◌then◌else◌, inl, inr,
  is_some, map, none, option_map, refl, some, sym, true, ◌++◌, ◌==◌, ◌∙◌, ◌∷◌, ◌≡◌,
}
use rmodel.Shared.Maps.{Distinct, Map, insert, lookup, lookup-insert, lookup-inserted}
use rmodel.Utils.Copies.{Fresh, Fresh-step, append_nil, append_one, insert_fresh, map_values}

abbrev pub or_else {ℓ} : {A : Type ℓ} → Option A → Option A → Option A
or_else none o = o
or_else (some a) o = some a

pub or_none {ℓ} : {A : Type ℓ} (o : Option A) → or_else o none ≡ o
or_none none = refl
or_none (some a) = refl

-- A link of a brain that is not yet started.
abbrev pub link_of : Link → BrainLink
link_of l = record { id = l.id; from = l.src; to = l.dest; state = link_init; count = no_count }

pub lookup-build_links :
    (m : Map Link) (acc : Map BrainLink) (k : String)
    → Distinct m
    → All (λ e. e.1.id ≡ e.0) m
    → lookup k (build_links (values m) acc)
      ≡ or_else (option_map link_of (lookup k m)) (lookup k acc)
unfolding build_links new_brain_link lookup
lookup-build_links [] acc k d h = refl
lookup-build_links ((j, l) ∷ m) acc k d h =
    let rest = lookup-build_links m (insert l.id (link_of l) acc) k d.1 h.1 in
    elim (Bool-cases (j == k)) [
      | inl e ↦
          let same : j ≡ k = ground (arith, e, eq_iff j k) in
          let gone : lookup k m ≡ none = ap (λ i. lookup i m) (sym same) ∙ d.0 in
          rest
          ∙ ap (λ o. or_else (option_map link_of o) (lookup k (insert l.id (link_of l) acc))) gone
          ∙ ap (λ i. lookup i (insert l.id (link_of l) acc)) (sym same ∙ sym h.0)
          ∙ lookup-inserted l.id (link_of l) acc
          ∙ simp (e, lookup) refl
      | inr e ↦
          ground
            (arith, rest, e, lookup-insert l.id k (link_of l) acc, h.0, eq_iff l.id k, eq_iff j k)
    ]

map-pointer_to :
    (ids : String → Bool) (links : Map BrainLink) (g : List String)
    → ((k : String) → is_some (lookup k links) ≡ ids k)
    → All (λ x. ids x ≡ true) g
    → map (pointer_to links) g ≡ map some g
unfolding pointer_to
map-pointer_to ids links [] there h = refl
map-pointer_to ids links (x ∷ g) there h =
    ap (λ p. p ∷ map (pointer_to links) g) (ap (λ c. if c then some x else none) (there x ∙ h.0))
    ∙ ap (λ ps. some x ∷ ps) (map-pointer_to ids links g there h.1)

pub lookup-point_groups :
    (ids : String → Bool) (links : Map BrainLink) (groups : Map (List String)) (acc : Groups)
    (name : String)
    → ((k : String) → is_some (lookup k links) ≡ ids k)
    → Distinct groups
    → Exist ids groups
    → lookup name (point_groups links groups acc)
      ≡ or_else (option_map (map some) (lookup name groups)) (lookup name acc)
unfolding point_groups lookup
lookup-point_groups ids links [] acc name there d h = refl
lookup-point_groups ids links ((j, g) ∷ groups) acc name there d h =
    let ps = map (pointer_to links) g in
    let rest = lookup-point_groups ids links groups (insert j ps acc) name there d.1 h.1 in
    elim (Bool-cases (j == name)) [
      | inl e ↦
          let same : j ≡ name = ground (arith, e, eq_iff j name) in
          let gone : lookup name groups ≡ none = ap (λ i. lookup i groups) (sym same) ∙ d.0 in
          rest
          ∙ ap (λ o. or_else (option_map (map some) o) (lookup name (insert j ps acc))) gone
          ∙ ap (λ i. lookup i (insert j ps acc)) (sym same)
          ∙ lookup-inserted j ps acc
          ∙ ap some (map-pointer_to ids links g there h.0)
          ∙ simp (e, lookup) refl
      | inr e ↦
          let beside : lookup name (insert j ps acc) ≡ lookup name acc =
            ground (arith, e, lookup-insert j name ps acc) in
          rest
          ∙ ap (or_else (option_map (map some) (lookup name groups))) beside
          ∙ simp (e, lookup) refl
    ]

pub format_into-map :
    (m : CastGroups) (acc : Map (List String))
    → Distinct m
    → Fresh acc m
    → format_into m acc ≡ acc ++ map_values keys m
unfolding format_into
format_into-map [] acc d f = sym (append_nil acc)
format_into-map ((k, s) ∷ m) acc d f =
    ap (format_into m) (insert_fresh k (keys s) acc f.0)
    ∙ format_into-map m (acc ++ (k, keys s) ∷ []) d.1 (Fresh-step k (keys s) acc m d.0 f.1)
    ∙ append_one acc (map_values keys m) (k, keys s)

pub mapped_keys :
    (o : Option LinkSet)
    → option_map (map {B = Pointer} some) (option_map keys o)
      ≡ option_map (λ s. map some (keys s)) o
mapped_keys none = refl
mapped_keys (some s) = refl

pub lookup-build_neurons :
    (links : Map BrainLink) (m : Map Neuron) (acc : Map BrainNeuron) (k : String)
    → Distinct m
    → All (λ e. e.1.id ≡ e.0) m
    → lookup k (build_neurons links (values m) acc)
      ≡ or_else (option_map (λ n. new_brain_neuron n links) (lookup k m)) (lookup k acc)
unfolding build_neurons new_brain_neuron lookup
lookup-build_neurons links [] acc k d h = refl
lookup-build_neurons links ((j, n) ∷ m) acc k d h =
    let made = new_brain_neuron n links in
    let rest = lookup-build_neurons links m (insert n.id made acc) k d.1 h.1 in
    elim (Bool-cases (j == k)) [
      | inl e ↦
          let same : j ≡ k = ground (arith, e, eq_iff j k) in
          let gone : lookup k m ≡ none = ap (λ i. lookup i m) (sym same) ∙ d.0 in
          rest
          ∙ ap
              (λ o.
                or_else (option_map (λ x. new_brain_neuron x links) o)
                  (lookup k (insert n.id made acc)))
              gone
          ∙ ap (λ i. lookup i (insert n.id made acc)) (sym same ∙ sym h.0)
          ∙ lookup-inserted n.id made acc
          ∙ simp (e, lookup) refl
      | inr e ↦
          let beside : lookup k (insert n.id made acc) ≡ lookup k acc =
            ground (arith, e, lookup-insert n.id k made acc, h.0, eq_iff n.id k, eq_iff j k) in
          rest
          ∙ ap (or_else (option_map (λ x. new_brain_neuron x links) (lookup k m))) beside
          ∙ simp (e, lookup) refl
    ]
