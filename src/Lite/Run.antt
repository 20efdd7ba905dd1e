-- ===== src/Lite/Run.antt =====
-- The other files of brainlite: link.go, neuron.go, event.go, options.go, maintain.go,
-- neuron_runner.go, brain_context.go and the rest of brain_lite.go. Their text is that of the files
-- of brainlocal, with `BrainLite` for `BrainLocal` and the other `BrainMemory`, so each function is
-- the one of `rmodel.Brain` at the lite memory.
use rmodel.Blueprint.Brainprint.{Brainprint}
use rmodel.Blueprint.Link.{Link}
use rmodel.Blueprint.Neuron.{Neuron}
use rmodel.Brain.{Brain, BrainLink, BrainNeuron, Event, EventAction}
use rmodel.Brain.Cast.{neuron_cast}
use rmodel.Brain.Context.{
  entry_with_memory, get_brain_id, get_brain_labels, get_current_neuron_labels, get_state, wait,
}
use rmodel.Brain.Drain.{run_brain_maintainer}
use rmodel.Brain.Life.{
  build_brain, entry, is_entry, new_brain_link, new_brain_neuron, trig_ids, trig_link, trig_links,
  with_id, with_neuron_queue_len, with_neuron_worker_num,
}
use rmodel.Brain.Maintain.{
  handle_brain_event, handle_link_event, handle_neuron_event, if_neuron_should_activate, maintain,
  try_activate_neuron,
}
use rmodel.Brain.Power.{
  ensure_maintainer_start, force_sleep, get_link_count_by_state, get_neuron_count_by_state,
  maintainer_start, refresh_state, set_state, shutdown,
}
use rmodel.Brain.Queue.{publish_event, publish_event_activate_neuron}
use rmodel.Brain.Runner.{activate_neuron, continue_cast, work}
use rmodel.Brain.Step.{Go}
use rmodel.Core.{Any, BrainState}
use rmodel.Errors.{Error}
use rmodel.Lite.{Encoding, LiteMemory, Sqlite}
use rmodel.Lite.Memory.{lite_memory}
use rmodel.Shared.{Bool, List, Option, String, false, none, ℕ, ℤ}
use rmodel.Shared.Maps.{Map}
use rmodel.Shared.Texts.{join}
use rmodel.Utils.{Labels}

-- `link`, `neuron` and `maintainEvent`.
abbrev LiteLink : Type 0
LiteLink = BrainLink

abbrev LiteNeuron : Type 0
LiteNeuron = BrainNeuron

abbrev LiteEvent : Type 0
LiteEvent = Event

abbrev lite_new_link : Link → LiteLink
lite_new_link = new_brain_link

abbrev lite_is_entry : LiteLink → Bool
lite_is_entry = is_entry

abbrev lite_new_neuron : Neuron → Map LiteLink → LiteNeuron
lite_new_neuron = new_brain_neuron

abbrev pub LiteBrain : Type 0 → Type 0 → Type 0
LiteBrain W D = Brain (LiteMemory W D)

module _ {W D : Type 0} where
  -- The memory that `BuildBrain` sets: the file is named after the id that it draws, and nothing sets
  -- `keepMemory`.
  unfoldable pub lite_default_memory : String → W → LiteMemory W D
  lite_default_memory id world = record {
    db = none;
    datasource_name = join id ".db";
    keep_memory = false;
    world = world;
  }

  abbrev pub lite_build_brain :
      String → W → Brainprint → List (LiteBrain W D → LiteBrain W D) → LiteBrain W D
  lite_build_brain id world = build_brain id (lite_default_memory id world)

  abbrev lite_with_neuron_worker_num : ℕ → LiteBrain W D → LiteBrain W D
  lite_with_neuron_worker_num = with_neuron_worker_num

  abbrev pub lite_with_neuron_queue_len : ℤ → LiteBrain W D → LiteBrain W D
  lite_with_neuron_queue_len = with_neuron_queue_len

  abbrev lite_with_id : String → LiteBrain W D → LiteBrain W D
  lite_with_id = with_id

  abbrev lite_publish_event : LiteEvent → Go (LiteBrain W D) (Unit {0})
  lite_publish_event = publish_event

  abbrev lite_publish_event_activate_neuron : String → Go (LiteBrain W D) (Unit {0})
  lite_publish_event_activate_neuron = publish_event_activate_neuron

  abbrev lite_trig_link : LiteLink → Go (LiteBrain W D) (Unit {0})
  lite_trig_link = trig_link

  abbrev lite_handle_link_event : EventAction → String → Go (LiteBrain W D) (Option Error)
  lite_handle_link_event = handle_link_event

  abbrev lite_try_activate_neuron : LiteNeuron → Go (LiteBrain W D) (Unit {0})
  lite_try_activate_neuron = try_activate_neuron

  abbrev lite_if_neuron_should_activate : LiteNeuron → Go (LiteBrain W D) Bool
  lite_if_neuron_should_activate = if_neuron_should_activate

  abbrev lite_refresh_state : Go (LiteBrain W D) (Unit {0})
  lite_refresh_state = refresh_state

  abbrev lite_get_neuron_count_by_state : LiteBrain W D → ℕ × ℕ
  lite_get_neuron_count_by_state = get_neuron_count_by_state

  abbrev lite_get_link_count_by_state : LiteBrain W D → ℕ × ℕ × ℕ
  lite_get_link_count_by_state = get_link_count_by_state

  abbrev lite_force_sleep : LiteBrain W D → LiteBrain W D
  lite_force_sleep = force_sleep

  abbrev lite_set_state : BrainState → LiteBrain W D → LiteBrain W D
  lite_set_state = set_state

  abbrev lite_get_state : LiteBrain W D → BrainState
  lite_get_state = get_state

  abbrev lite_wait : Go (LiteBrain W D) (Unit {0})
  lite_wait = wait

  -- The processor's run is `process`, as in `rmodel.Brain.Runner`.
  abbrev lite_activate_neuron :
      Go (LiteBrain W D) (Option Error) → Option LiteNeuron → Go (LiteBrain W D) (Option Error)
  lite_activate_neuron = activate_neuron

  abbrev lite_work : Go (LiteBrain W D) (Option Error) → String → Go (LiteBrain W D) (Unit {0})
  lite_work = work

  abbrev lite_continue_cast : String → Go (LiteBrain W D) (Unit {0})
  lite_continue_cast = continue_cast

  abbrev lite_get_current_neuron_labels : String → Go (LiteBrain W D) Labels
  lite_get_current_neuron_labels = get_current_neuron_labels

  abbrev lite_get_brain_id : LiteBrain W D → String
  lite_get_brain_id = get_brain_id

  abbrev lite_get_brain_labels : LiteBrain W D → Labels
  lite_get_brain_labels = get_brain_labels

  module _ ⦃enc : Encoding⦄ ⦃sql : Sqlite W D⦄ where
    abbrev pub lite_shutdown : Go (LiteBrain W D) (Unit {0})
    lite_shutdown = shutdown ⦃mem = lite_memory⦄

    abbrev lite_maintainer_start : Go (LiteBrain W D) (Unit {0})
    lite_maintainer_start = maintainer_start ⦃mem = lite_memory⦄

    abbrev lite_ensure_maintainer_start : Go (LiteBrain W D) (Unit {0})
    lite_ensure_maintainer_start = ensure_maintainer_start ⦃mem = lite_memory⦄

    abbrev pub lite_maintain : LiteEvent → Go (LiteBrain W D) (Unit {0})
    lite_maintain = maintain ⦃mem = lite_memory⦄

    abbrev lite_run_brain_maintainer : ℕ → Go (LiteBrain W D) (Unit {0})
    lite_run_brain_maintainer = run_brain_maintainer ⦃mem = lite_memory⦄

    abbrev lite_handle_neuron_event : EventAction → String → Go (LiteBrain W D) (Option Error)
    lite_handle_neuron_event = handle_neuron_event ⦃mem = lite_memory⦄

    abbrev lite_handle_brain_event : EventAction → Go (LiteBrain W D) (Option Error)
    lite_handle_brain_event = handle_brain_event ⦃mem = lite_memory⦄

    abbrev lite_neuron_cast : LiteNeuron → Bool → Go (LiteBrain W D) (Unit {0})
    lite_neuron_cast = neuron_cast ⦃mem = lite_memory⦄

    abbrev pub lite_trig_ids : List String → Go (LiteBrain W D) (Option Error)
    lite_trig_ids = trig_ids ⦃mem = lite_memory⦄

    abbrev lite_trig_links : List Link → Go (LiteBrain W D) (Option Error)
    lite_trig_links = trig_links ⦃mem = lite_memory⦄

    abbrev lite_entry : Go (LiteBrain W D) (Option Error)
    lite_entry = entry ⦃mem = lite_memory⦄

    abbrev lite_entry_with_memory : List Any → Go (LiteBrain W D) (Option Error)
    lite_entry_with_memory = entry_with_memory ⦃mem = lite_memory⦄
