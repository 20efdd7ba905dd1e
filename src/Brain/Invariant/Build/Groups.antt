-- ===== src/Brain/Invariant/Build/Groups.antt =====
-- neuron.go of brainlocal: `newNeuron` turns the link ids of the groups into pointers, and no
-- pointer is nil where the links exist.
use rmodel.Blueprint.Neuron.{
  CastGroups, Neuron, TriggerGroups, format, format_into, has_in_link, has_out_link, in_some_group,
  in_some_set, keys, list_cast_groups, list_trigger_groups, or_empty, trigger_groups_deep_copy,
}
use rmodel.Brain.{BrainLink, BrainNeuron, Groups}
use rmodel.Brain.Invariant.{Points, PointsAll}
use rmodel.Brain.Life.{build_neurons, new_brain_neuron, point_groups, pointer_to}
use rmodel.Shared.{
  All, Bool, List, String, [], arith, eq_refl, inl, inr, is_some, map, refl, some, subst, true, ◌∷◌,
  ◌≡◌,
}
use rmodel.Shared.Maps.{Map, insert, insert-All, insert_cases, lookup}
use rmodel.Shared.Sets.{elem}
use rmodel.Utils.{copy_into}

-- The links of the groups exist.
abbrev pub Exist : (String → Bool) → Map (List String) → Type 0
Exist ids groups = All (λ g. All (λ x. ids x ≡ true) g.1) groups

list-All :
    (ids : String → Bool) (g : List String)
    → ((x : String) → elem x g ≡ true → ids x ≡ true)
    → All (λ x. ids x ≡ true) g
list-All ids [] h = tt
list-All ids (y ∷ g) h =
    (h y (simp (eq_refl y, elem) refl), list-All ids g (λ x e. h x (ground (arith, e))))

pub in_some_group-Exist :
    (ids : String → Bool) (tgs : TriggerGroups)
    → ((x : String) → in_some_group x tgs ≡ true → ids x ≡ true)
    → Exist ids tgs
unfolding in_some_group
in_some_group-Exist ids [] h = tt
in_some_group-Exist ids ((key, g) ∷ tgs) h = (
  list-All ids g (λ x e. h x (ground (arith, e))),
  in_some_group-Exist ids tgs (λ x e. h x (ground (arith, e))),
)

copy_into-Exist :
    (ids : String → Bool) (tgs acc : TriggerGroups)
    → Exist ids tgs
    → Exist ids acc
    → Exist ids (copy_into tgs acc)
unfolding copy_into
copy_into-Exist ids [] acc h k = k
copy_into-Exist ids ((key, g) ∷ tgs) acc h k =
    copy_into-Exist ids tgs (insert key g acc) h.1
      (insert-All (All (λ x. ids x ≡ true)) key g acc h.0 k)

pub format_into-Exist :
    (ids : String → Bool) (cgs : CastGroups) (acc : Map (List String))
    → ((x : String) → in_some_set x cgs ≡ true → ids x ≡ true)
    → Exist ids acc
    → Exist ids (format_into cgs acc)
unfolding format_into in_some_set
format_into-Exist ids [] acc h k = k
format_into-Exist ids ((key, g) ∷ cgs) acc h k =
    format_into-Exist ids cgs (insert key (keys g) acc) (λ x e. h x (ground (arith, e)))
      (insert-All (All (λ x. ids x ≡ true)) key (keys g) acc
        (list-All ids (keys g) (λ x e. h x (ground (arith, e)))) k)

-- What a neuron of the brain has to be.
abbrev pub IsSound : (String → Bool) → String → BrainNeuron → Type 0
IsSound ids k n = (n.id ≡ k) × PointsAll ids n.trigger_groups × PointsAll ids n.cast_groups

module _ (ids : String → Bool) (links : Map BrainLink)
    (there : (k : String) → is_some (lookup k links) ≡ ids k) where
  map-Points :
      (g : List String) → All (λ x. ids x ≡ true) g → All (Points ids) (map (pointer_to links) g)
  unfolding pointer_to
  map-Points [] h = tt
  map-Points (x ∷ g) h = (simp (pointer_to, there x, h.0) refl, map-Points g h.1)

  point_groups-PointsAll :
      (groups : Map (List String)) (acc : Groups)
      → Exist ids groups
      → PointsAll ids acc
      → PointsAll ids (point_groups links groups acc)
  unfolding point_groups
  point_groups-PointsAll [] acc h k = k
  point_groups-PointsAll ((name, g) ∷ groups) acc h k =
      point_groups-PointsAll groups (insert name (map (pointer_to links) g) acc) h.1
        (insert-All (All (Points ids)) name (map (pointer_to links) g) acc (map-Points g h.0) k)

  pub build_neurons-IsSound :
      (ns : List Neuron) (acc : Map BrainNeuron)
      → All (λ n. IsSound ids (new_brain_neuron n links).id (new_brain_neuron n links)) ns
      → ((k : String) (n : BrainNeuron) → lookup k acc ≡ some n → IsSound ids k n)
      → (k : String) (n : BrainNeuron) → lookup k (build_neurons links ns acc) ≡ some n
      → IsSound ids k n
  unfolding build_neurons
  build_neurons-IsSound [] acc h w = w
  build_neurons-IsSound (m ∷ ns) acc h w =
      build_neurons-IsSound ns (insert (new_brain_neuron m links).id (new_brain_neuron m links) acc)
        h.1
        (λ k n e.
          elim (insert_cases (new_brain_neuron m links).id k (new_brain_neuron m links) n acc e) [
            | inl q ↦ w k n q
            | inr (q, r) ↦
                subst (λ j. IsSound ids j n) q
                  (subst (IsSound ids (new_brain_neuron m links).id) r h.0)
          ])

  pub new_brain_neuron-IsSound :
      (n : Neuron)
      → ((x : String) → has_in_link n x ≡ true → ids x ≡ true)
      → ((x : String) → has_out_link n x ≡ true → ids x ≡ true)
      → IsSound ids (new_brain_neuron n links).id (new_brain_neuron n links)
  unfolding new_brain_neuron list_trigger_groups list_cast_groups has_in_link has_out_link
      trigger_groups_deep_copy format
  new_brain_neuron-IsSound n h k = (
    refl,
    point_groups-PointsAll (list_trigger_groups n) []
        (copy_into-Exist ids n.trigger_groups [] (in_some_group-Exist ids n.trigger_groups h) tt)
        tt,
    point_groups-PointsAll (list_cast_groups n) []
        (format_into-Exist ids (or_empty n.cast_groups) [] k tt) tt,
  )
