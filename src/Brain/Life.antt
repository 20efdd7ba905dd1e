-- ===== src/Brain/Life.antt =====
-- brain_local.go of brainlocal: building a brain and triggering its links.
use rmodel.Blueprint.Brainprint.{Brainprint, list_links, list_neurons}
use rmodel.Blueprint.Link.{Link}
use rmodel.Blueprint.Neuron.{Neuron, list_cast_groups, list_trigger_groups}
use rmodel.Brain.{Brain, BrainLink, BrainNeuron, Groups, Memory, Pointer, no_count}
use rmodel.Brain.Cast.{ready_link, set_link_state}
use rmodel.Brain.Power.{ensure_maintainer_start, is_ready, refresh_state}
use rmodel.Brain.Step.{Go, continue_with, modify, pure, returned, ◌>>◌}
use rmodel.Core.{brain_shutdown, entry_link_from, link_init, neuron_inactive}
use rmodel.Errors.{Error}
use rmodel.Shared.{
  Bool, List, Option, String, [], if◌then◌else◌, is_some, map, none, pos, some, ℕ, ℤ, ◌==◌, ◌∷◌,
}
use rmodel.Shared.Maps.{Map, insert, lookup}
use rmodel.Utils.{labels_deep_copy}

-- `newLink`.
unfoldable pub new_brain_link : Link → BrainLink
new_brain_link l = record {
  id = l.id;
  from = l.src;
  to = l.dest;
  state = link_init;
  count = no_count;
}

unfoldable pub is_entry : BrainLink → Bool
is_entry l = l.from == entry_link_from

-- `linkMap[linkID]`, which is the nil pointer where the id is missing.
unfoldable pub pointer_to : Map BrainLink → String → Pointer
pointer_to link_map link_id = if is_some (lookup link_id link_map) then some link_id else none

unfoldable pub point_groups : Map BrainLink → Map (List String) → Groups → Groups
unfolding pointer_to
point_groups link_map [] groups = groups
point_groups link_map ((name, links) ∷ rest) groups =
    point_groups link_map rest (insert name (map (pointer_to link_map) links) groups)

-- `newNeuron`.
unfoldable pub new_brain_neuron : Neuron → Map BrainLink → BrainNeuron
unfolding point_groups
new_brain_neuron n link_map = record {
  id = n.id;
  labels = labels_deep_copy n.labels;
  processor = n.processor;
  selector = n.selector;
  trigger_groups = point_groups link_map (list_trigger_groups n) [];
  cast_groups = point_groups link_map (list_cast_groups n) [];
  state = neuron_inactive;
  count = no_count;
}

-- `for _, l := range blueprint.ListLinks()`
unfoldable pub build_links : List Link → Map BrainLink → Map BrainLink
unfolding new_brain_link
build_links [] links = links
build_links (l ∷ ls) links = let lk = new_brain_link l in build_links ls (insert lk.id lk links)

unfoldable pub build_neurons : Map BrainLink → List Neuron → Map BrainNeuron → Map BrainNeuron
unfolding new_brain_neuron
build_neurons links [] neurons = neurons
build_neurons links (n ∷ ns) neurons =
    let neu = new_brain_neuron n links in build_neurons links ns (insert neu.id neu neurons)

abbrev default_n_queue_len : ℤ
default_n_queue_len = pos 10

abbrev default_n_worker_num : ℕ
default_n_worker_num = 4

-- An option configures the brain (options.go); the logger has no state here.
unfoldable pub with_neuron_worker_num : {M : Type 0} → ℕ → Brain M → Brain M
with_neuron_worker_num worker_num brain = record brain { n_worker_num = worker_num }

unfoldable pub with_neuron_queue_len : {M : Type 0} → ℤ → Brain M → Brain M
with_neuron_queue_len n_queue_len brain = record brain { n_queue_len = n_queue_len }

unfoldable pub with_id : {M : Type 0} → String → Brain M → Brain M
with_id brain_id brain = record brain { id = brain_id }

unfoldable pub apply_options : {M : Type 0} → List (Brain M → Brain M) → Brain M → Brain M
apply_options [] b = b
apply_options (opt ∷ opts) b = apply_options opts (opt b)

-- `BuildBrain`, with the id that `utils.GenID` draws and the memory in its initial setting.
unfoldable pub build_brain :
    {M : Type 0} → String → M → Brainprint → List (Brain M → Brain M) → Brain M
unfolding build_links build_neurons apply_options
build_brain id memory blueprint with_opts =
    let links = build_links (list_links blueprint) [] in
    apply_options with_opts (record {
      id = id;
      labels = labels_deep_copy blueprint.labels;
      neurons = build_neurons links (list_neurons blueprint) [];
      links = links;
      state = brain_shutdown;
      memory = memory;
      b_queue = none;
      n_queue = none;
      n_queue_len = default_n_queue_len;
      n_worker_num = default_n_worker_num;
      delayed = [];
    })

-- `trigLink`; the wait group is the return of the call.
unfoldable pub trig_link : {M : Type 0} → BrainLink → Go (Brain M) (Unit {0})
unfolding ready_link set_link_state
trig_link l = if is_ready l.state then pure tt else ready_link l

-- The goroutines of `trigLinks`, in the order in which they are started.
unfoldable pub trig_each : {M : Type 0} → List String → Go (Brain M) (Unit {0})
unfolding trig_link
trig_each [] b = returned tt b
trig_each (id ∷ ids) b = elim (lookup id b.links) [
  | none ↦ trig_each ids b
  | some l ↦ continue_with (trig_link l b) (λ _. trig_each ids)
]

-- The ids of `TrigLinks`: an empty id is passed over.
unfoldable pub non_empty_ids : List Link → List String
non_empty_ids [] = []
non_empty_ids (l ∷ links) = if l.id == "" then non_empty_ids links else l.id ∷ non_empty_ids links

-- The ids of the entry links, which `Entry` collects.
unfoldable pub entry_ids : Map BrainLink → List String
unfolding is_entry
entry_ids [] = []
entry_ids ((k, l) ∷ links) = if is_entry l then l.id ∷ entry_ids links else entry_ids links

module _ {M : Type 0} ⦃mem : Memory M⦄ where
  -- The part of `trigLinks` behind the initialisation of the memory.
  unfoldable pub start_and_trig : List String → Go (Brain M) (Option Error)
  unfolding trig_each ensure_maintainer_start
  start_and_trig ids = do ensure_maintainer_start; trig_each ids; refresh_state; pure none

  -- `ensureMemoryInit` ends the call where it fails.
  unfoldable pub with_memory : M × Option Error → List String → Go (Brain M) (Option Error)
  with_memory (m, some e) ids = modify (λ b. record b { memory = m }) >> pure (some e)
  with_memory (m, none) ids = modify (λ b. record b { memory = m }) >> start_and_trig ids

  unfoldable pub trig_ids : List String → Go (Brain M) (Option Error)
  unfolding with_memory start_and_trig
  trig_ids [] b = returned none b
  trig_ids (id ∷ ids) b = with_memory (mem.ensure_init b.memory) (id ∷ ids) b

  unfoldable pub trig_links : List Link → Go (Brain M) (Option Error)
  unfolding trig_ids non_empty_ids
  trig_links links = trig_ids (non_empty_ids links)

  unfoldable pub entry : Go (Brain M) (Option Error)
  unfolding trig_ids entry_ids
  entry b = trig_ids (entry_ids b.links) b
