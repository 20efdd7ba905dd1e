-- ===== src/Examples/Lifetimes.antt =====
-- The life of the sample brain: a neuron of it fails, the brain is shut down and started again.
use rmodel.Blueprint.Graph.Built.{Built-IsGraph}
use rmodel.Brain.{Brain, link_ready_event}
use rmodel.Brain.Ensures.{Safe}
use rmodel.Brain.Invariant.{IsBrain}
use rmodel.Brain.Life.{start_and_trig, with_neuron_queue_len}
use rmodel.Brain.Lifetime.{Endures, IsIdle, IsParked, endured, lifetime_lem, lives_on, moves, shuts}
use rmodel.Brain.Power.{close_memory, count_if, on_memory, refresh_state, set_state, shutdown}
use rmodel.Brain.Queue.{publish_event}
use rmodel.Brain.Runner.{count_failed, end_neuron, inactivated, update_neuron}
use rmodel.Brain.Step.{returned}
use rmodel.Brain.System.{ends, trigs}
use rmodel.Core.{brain_shutdown, entry_link_from, link_ready, neuron_inactive}
use rmodel.Errors.{memory_failed, process_failed}
use rmodel.Examples.Brains.{active, brain_link, n1, no_memory, run_triggered, triggered}
use rmodel.Examples.Histories.{history, queue_option, sample_ids}
use rmodel.Examples.Sample.{complete, complete-Built}
use rmodel.Shared.{
  List, String, [], ap, false, none, pos, refl, some, some-injective, sym, true, ◌∷◌, ◌≡◌, ◌⊎◌,
}
use rmodel.Shared.Maps.{insert, lookup}

-- The brain after the processor of the neuron n1 failed.
abbrev failed : Brain (Unit {0})
failed = update_neuron "n1" count_failed (update_neuron "n1" inactivated active)

-- The brain after its shutdown.
abbrev parked : Brain (Unit {0})
parked = record failed {
  state = brain_shutdown;
  b_queue = some (record { items = []; cap = 10; is_closed = true });
  n_queue = some (record { items = []; cap = 4; is_closed = true });
}

run_failed :
    end_neuron (n1 neuron_inactive 0) (some (memory_failed "down")) active
    ≡ returned (some (process_failed (memory_failed "down"))) failed
unfolding end_neuron
run_failed = refl

run_parked : shutdown failed ≡ returned tt parked
unfolding shutdown update_neuron insert lookup no_memory close_memory on_memory set_state
run_parked = refl

-- The brain after its second start.
abbrev again : Brain (Unit {0})
again = record failed {
  links = insert "l2" (brain_link "l2" entry_link_from "n1" link_ready) failed.links;
  b_queue = some (record { items = link_ready_event "l2" ∷ []; cap = 10; is_closed = false });
  n_queue = some (record { items = []; cap = 4; is_closed = false });
}

run_again : start_and_trig ("l2" ∷ []) parked ≡ returned none again
unfolding start_and_trig update_neuron insert lookup publish_event refresh_state count_if
run_again = refl

failed-IsIdle : IsIdle (record { brain = failed; running = [] })
unfolding update_neuron insert lookup
failed-IsIdle = (
  λ c e. ap (λ q. q.items) (sym (some-injective _ c e)),
  λ c e. ap (λ q. q.items) (sym (some-injective _ c e)),
  refl,
)

lifetime :
    Endures (record { brain = triggered; running = [] }) (record { brain = again; running = [] })
lifetime =
    lives_on
      (lives_on
        (lives_on (endured history) (
          moves (
            ends [] [] (n1 neuron_inactive 0) (some (memory_failed "down"))
              (some (process_failed (memory_failed "down"))) refl run_failed)))
        (shuts failed-IsIdle run_parked))
      (moves (trigs ("l2" ∷ []) run_again))

lifetime_lem_example :
    (IsBrain sample_ids again ⊎ IsParked sample_ids (record { brain = again; running = [] }))
    × ((ks : List String) → Safe (IsBrain sample_ids) (start_and_trig ks again))
lifetime_lem_example =
    lifetime_lem "b1" tt complete (with_neuron_queue_len (pos 4) ∷ []) ("l2" ∷ []) none triggered
      (record { brain = again; running = [] }) (Built-IsGraph complete-Built) queue_option
      run_triggered lifetime
