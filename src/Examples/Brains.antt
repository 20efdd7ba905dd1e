-- ===== src/Examples/Brains.antt =====
-- A brain that is built from the sample blueprint, and the theorems on the running brain at it.
use rmodel.Blueprint.Brainprint.{list_links, list_neurons}
use rmodel.Blueprint.Neuron.{
  format, format_into, list_cast_groups, list_trigger_groups, trigger_groups_deep_copy,
}
use rmodel.Brain.{
  Brain, BrainLink, BrainNeuron, Event, Groups, Memory, link_ready_event, no_count,
  try_activate_event,
}
use rmodel.Brain.Life.{build_brain, start_and_trig, with_neuron_queue_len}
use rmodel.Brain.Maintain.{
  handle_link_event, handle_neuron_event, maintain, some_group_ready, try_activate_neuron,
}
use rmodel.Brain.Power.{count_if, refresh_state}
use rmodel.Brain.Queue.{publish_event, publish_event_activate_neuron}
use rmodel.Brain.Runner.{begin_neuron}
use rmodel.Brain.Step.{returned}
use rmodel.Core.{
  LinkState, NeuronState, Processor, Selector, brain_running, default_cast_group_name,
  default_selector, empty_processor, end_neuron_id, entry_link_from, func_processor, link_init,
  link_ready, link_wait, neuron_activated, neuron_inactive, nil_value,
}
use rmodel.Examples.Sample.{complete}
use rmodel.Shared.{List, Option, String, [], false, none, pos, refl, some, ℕ, ◌∷◌, ◌≡◌}
use rmodel.Shared.Maps.{insert, lookup}
use rmodel.Utils.{copy_into, labels_deep_copy}

instance unfoldable pub no_memory : Memory (Unit {0})
no_memory = record {
  ensure_init = λ m. (m, none);
  set_memory = λ kvs m. returned none m;
  get_memory = λ m k. nil_value;
  exist_memory = λ m k. false;
  delete_memory = λ k m. m;
  clear_memory = λ m. m;
  close = λ m. returned tt m;
}

abbrev pub built : Brain (Unit {0})
built = build_brain "b1" tt complete (with_neuron_queue_len (pos 4) ∷ [])

abbrev pub brain_neuron :
    String → Processor → Groups → Groups → Option Selector → NeuronState → ℕ → BrainNeuron
brain_neuron id p triggers casts selector state runs = record {
  id = id;
  labels = [];
  processor = p;
  trigger_groups = triggers;
  cast_groups = casts;
  selector = selector;
  state = state;
  count = record { process = runs; succeed = 0; failed = 0 };
}

abbrev pub brain_link : String → String → String → LinkState → BrainLink
brain_link id from to state = record {
  id = id;
  from = from;
  to = to;
  state = state;
  count = no_count;
}

abbrev pub group_of : String → String → Groups
group_of name link = (name, some link ∷ []) ∷ []

abbrev pub n1 : NeuronState → ℕ → BrainNeuron
n1 state runs =
    brain_neuron "n1" (func_processor "llm") (group_of "g2" "l2")
      (group_of default_cast_group_name "l1") (some default_selector) state runs

-- The brain, where the links l1 and l2, and the neuron n1, are in the given states.
abbrev pub brain_at :
    LinkState → LinkState → NeuronState → ℕ → List Event → List String → Brain (Unit {0})
brain_at state1 state2 state runs events ids = record {
  id = "b1";
  labels = [];
  neurons =
      ("n1", n1 state runs)
      ∷ (
        "n2",
        brain_neuron "n2" (func_processor "tools") (group_of "g1" "l1")
            (group_of default_cast_group_name "l3") (some default_selector) neuron_inactive 0,
      )
      ∷ (
        end_neuron_id,
        brain_neuron end_neuron_id empty_processor (group_of "g3" "l3") [] none neuron_inactive 0,
      )
      ∷ [];
  links =
      ("l1", brain_link "l1" "n1" "n2" state1)
      ∷ ("l2", brain_link "l2" entry_link_from "n1" state2)
      ∷ ("l3", brain_link "l3" "n2" end_neuron_id link_init)
      ∷ [];
  state = brain_running;
  memory = tt;
  b_queue = some (record { items = events; cap = 10; is_closed = false });
  n_queue = some (record { items = ids; cap = 4; is_closed = false });
  n_queue_len = pos 4;
  n_worker_num = 4;
  delayed = [];
}

abbrev pub triggered : Brain (Unit {0})
triggered = brain_at link_init link_ready neuron_inactive 0 (link_ready_event "l2" ∷ []) []

abbrev pub asked : Brain (Unit {0})
asked = brain_at link_init link_ready neuron_inactive 0 (try_activate_event "n1" ∷ []) []

abbrev pub enqueued : Brain (Unit {0})
enqueued = brain_at link_init link_ready neuron_inactive 0 [] ("n1" ∷ [])

abbrev pub active : Brain (Unit {0})
active = brain_at link_wait link_init neuron_activated 1 [] []

pub run_triggered : start_and_trig ("l2" ∷ []) built ≡ returned none triggered
unfolding start_and_trig build_brain with_neuron_queue_len lookup list_links insert publish_event
    refresh_state count_if list_neurons labels_deep_copy list_trigger_groups list_cast_groups
    copy_into trigger_groups_deep_copy format format_into
run_triggered = refl

pub run_asked :
    maintain (link_ready_event "l2") (brain_at link_init link_ready neuron_inactive 0 [] [])
    ≡ returned tt asked
unfolding maintain handle_link_event lookup publish_event refresh_state count_if
run_asked = refl

pub run_enqueued :
    maintain (try_activate_event "n1") (brain_at link_init link_ready neuron_inactive 0 [] [])
    ≡ returned tt enqueued
unfolding maintain handle_neuron_event lookup try_activate_neuron some_group_ready
    publish_event_activate_neuron refresh_state count_if
run_enqueued = refl

pub run_active :
    begin_neuron (n1 neuron_inactive 0) (brain_at link_init link_ready neuron_inactive 0 [] [])
    ≡ returned tt active
unfolding begin_neuron lookup insert
run_active = refl
