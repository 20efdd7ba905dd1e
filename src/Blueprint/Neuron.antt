-- ===== src/Blueprint/Neuron.antt =====
-- neuron.go: the neuron of a blueprint, its trigger groups and its cast groups. The receiver is
-- returned as the new record. A `map[string]struct{}` is a map into `Unit`.
pub mod Groups
pub mod Prune
pub mod Triggers
pub mod InLinks
pub mod Casts
pub mod OutLinks
use rmodel.Core.{Processor, Selector, default_selector, empty_processor, end_neuron_id}
use rmodel.Shared.{
  Bool, List, Option, String, [], false, inl, inr, none, refl, some, ◌||◌, ◌∷◌, ◌≡◌, ◌⊎◌,
}
use rmodel.Shared.Maps.{Map, insert}
use rmodel.Shared.Sets.{elem}
use rmodel.Utils.{Labels, copy_into, labels_deep_copy}

-- What a call on a neuron does: it returns, or it panics by a write into a nil map.
pub data Outcome {ℓ} (A : Type ℓ) : Type ℓ where
  returns : A → Outcome A
  panics : Outcome A

abbrev pub TriggerGroups : Type 0
TriggerGroups = Map (List String)

abbrev pub LinkSet : Type 0
LinkSet = Map (Unit {0})

abbrev pub CastGroups : Type 0
CastGroups = Map LinkSet

-- `cast_groups` is `none` where the map is nil, as it is in the END neuron; so is `selector`.
pub record Neuron : Type 0 where
  pub id : String
  pub labels : Labels
  pub processor : Processor
  pub trigger_groups : TriggerGroups
  pub cast_groups : Option CastGroups
  pub selector : Option Selector

unfoldable pub new_neuron : String → Processor → Neuron
new_neuron id p = record {
  id = id;
  labels = [];
  processor = p;
  trigger_groups = [];
  cast_groups = some [];
  selector = some default_selector;
}

unfoldable pub new_end_neuron : Neuron
new_end_neuron = record {
  id = end_neuron_id;
  labels = [];
  processor = empty_processor;
  trigger_groups = [];
  cast_groups = none;
  selector = none;
}

-- A nil map reads as the empty one.
abbrev pub or_empty {ℓ} : {V : Type ℓ} → Option (Map V) → Map V
or_empty none = []
or_empty (some m) = m

-- The keys of a set, in its order.
abbrev pub keys {ℓ} : {V : Type ℓ} → Map V → List String
keys [] = []
keys ((k, v) ∷ m) = k ∷ keys m

unfoldable pub copy_groups : CastGroups → CastGroups → CastGroups
copy_groups [] new_map = new_map
copy_groups ((key, value) ∷ cgs) new_map = copy_groups cgs (insert key (copy_into value []) new_map)

unfoldable pub cast_groups_deep_copy : Option CastGroups → CastGroups
cast_groups_deep_copy cgs = copy_groups (or_empty cgs) []

unfoldable pub format_into : CastGroups → Map (List String) → Map (List String)
format_into [] new_map = new_map
format_into ((key, value) ∷ cgs) new_map = format_into cgs (insert key (keys value) new_map)

-- `castGroups.format`.
unfoldable pub format : Option CastGroups → Map (List String)
format cgs = format_into (or_empty cgs) []

-- `copy(newSlice, value)` copies the whole slice, and a slice is a value here.
unfoldable pub trigger_groups_deep_copy : TriggerGroups → TriggerGroups
trigger_groups_deep_copy tgs = copy_into tgs []

-- `deepCopy` shares the processor and the selector, which have no state here.
unfoldable pub deep_copy : Neuron → Neuron
deep_copy n = record {
  id = n.id;
  labels = labels_deep_copy n.labels;
  processor = n.processor;
  trigger_groups = trigger_groups_deep_copy n.trigger_groups;
  cast_groups = some (cast_groups_deep_copy n.cast_groups);
  selector = n.selector;
}

-- The loops of `ListInLinkIDs` collect the links in a set.
unfoldable pub add_links : List String → LinkSet → LinkSet
add_links [] link_map = link_map
add_links (l ∷ group) link_map = add_links group (insert l tt link_map)

unfoldable pub collect_in : TriggerGroups → LinkSet → LinkSet
collect_in [] link_map = link_map
collect_in ((key, group) ∷ tgs) link_map = collect_in tgs (add_links group link_map)

unfoldable pub list_in_link_ids : Neuron → List String
list_in_link_ids n = keys (collect_in n.trigger_groups [])

unfoldable pub collect_out : CastGroups → LinkSet → LinkSet
collect_out [] link_map = link_map
collect_out ((key, group) ∷ cgs) link_map = collect_out cgs (add_links (keys group) link_map)

unfoldable pub list_out_link_ids : Neuron → List String
list_out_link_ids n = keys (collect_out (or_empty n.cast_groups) [])

unfoldable pub list_trigger_groups : Neuron → Map (List String)
list_trigger_groups n = trigger_groups_deep_copy n.trigger_groups

unfoldable pub list_cast_groups : Neuron → Map (List String)
list_cast_groups n = format n.cast_groups

-- `hasInLink`: the inner loop is `elem`.
unfoldable pub in_some_group : String → TriggerGroups → Bool
in_some_group link_id [] = false
in_some_group link_id ((key, group) ∷ tgs) = elem link_id group || in_some_group link_id tgs

unfoldable pub has_in_link : Neuron → String → Bool
has_in_link n link_id = in_some_group link_id n.trigger_groups

unfoldable pub in_some_set : String → CastGroups → Bool
in_some_set link_id [] = false
in_some_set link_id ((key, group) ∷ cgs) = elem link_id (keys group) || in_some_set link_id cgs

unfoldable pub has_out_link : Neuron → String → Bool
has_out_link n link_id = in_some_set link_id (or_empty n.cast_groups)

pub Outcome-cases {ℓ} : {A : Type ℓ} (o : Outcome A) → (o ≡ panics) ⊎ ((a : A) × (o ≡ returns a))
Outcome-cases (returns a) = inr (a, refl)
Outcome-cases panics = inl refl
