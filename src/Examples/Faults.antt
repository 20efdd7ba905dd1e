-- ===== src/Examples/Faults.antt =====
-- The theorems on the faults of the running brain, on a cast and on the start of a neuron, at the
-- sample brain.
use rmodel.Brain.{Brain, BrainNeuron, Chan, Event, link_ready_event, sleep_event, try_cast_event}
use rmodel.Brain.Cast.{neuron_cast, selected_group}
use rmodel.Brain.Drain.{run_brain_maintainer}
use rmodel.Brain.Drain.Loop.{Drained, run_brain_maintainer-Drained}
use rmodel.Brain.Ending.{Ended, end_neuron_lem}
use rmodel.Brain.Ensures.{Returns}
use rmodel.Brain.Faults.{maintain-cast_full, maintain_after_shutdown, try_activate_twice, with_ids}
use rmodel.Brain.Invariant.{IsBrain}
use rmodel.Brain.Invariant.Sleep.{force_sleep-IsBrain}
use rmodel.Brain.Invariant.Workers.{end_neuron-IsBrain}
use rmodel.Brain.Life.{start_and_trig}
use rmodel.Brain.Maintain.{maintain, try_activate_neuron}
use rmodel.Brain.Passing.{Passes, in_groups, points_to}
use rmodel.Brain.Passing.Whole.{neuron_cast_lem, passed_on}
use rmodel.Brain.Power.{count_if, force_sleep, reset_links, reset_neurons, set_state}
use rmodel.Brain.Reach.{trig-run_brain_maintainer, with_events}
use rmodel.Brain.Runner.{begin_neuron, count_failed, count_succeed, end_neuron, update_neuron}
use rmodel.Brain.Running.{Begun, begin_neuron_lem}
use rmodel.Brain.Step.{blocked, panicked, returned, ◌>>◌}
use rmodel.Core.{
  brain_running, brain_shutdown, brain_sleeping, default_cast_group_name, entry_link_from,
  link_init, link_ready, link_wait, neuron_activated, neuron_inactive, select,
}
use rmodel.Errors.{memory_failed, process_failed}
use rmodel.Examples.Brains.{active, brain_link, group_of, n1, no_memory, triggered}
use rmodel.Examples.Histories.{active-IsBrain, asked-IsBrain, idle, sample_ids, triggered-IsBrain}
use rmodel.Shared.{[], arith, false, none, refl, some, true, ◌∷◌, ◌≡◌}
use rmodel.Shared.Maps.{insert, lookup}

-- The brain after a shutdown that left two events behind.
abbrev dead : Brain (Unit {0})
dead = record idle {
  state = brain_shutdown;
  b_queue = some (record {
    items = link_ready_event "l2" ∷ link_ready_event "l2" ∷ [];
    cap = 10;
    is_closed = true;
  });
}

maintain_after_shutdown_example :
    (maintain (link_ready_event "l2") dead ≡ returned tt (set_state brain_running dead))
    × (maintain (link_ready_event "l2") (set_state brain_running dead)
        ≡ panicked (set_state brain_running dead))
unfolding lookup
maintain_after_shutdown_example =
    maintain_after_shutdown dead "l2" (brain_link "l2" entry_link_from "n1" link_ready)
      (n1 neuron_inactive 0) refl
      (
        record {
          items = link_ready_event "l2" ∷ link_ready_event "l2" ∷ [];
          cap = 10;
          is_closed = true;
        },
        refl,
        refl,
      )
      refl refl refl

try_activate_twice_example :
    (try_activate_neuron (n1 neuron_inactive 0) >> try_activate_neuron (n1 neuron_inactive 0)) idle
    ≡ returned tt
        (with_ids (record { items = []; cap = 4; is_closed = false }) ("n1" ∷ "n1" ∷ []) idle)
unfolding lookup
try_activate_twice_example =
    try_activate_twice sample_ids (n1 neuron_inactive 0) idle
      (record { items = []; cap = 4; is_closed = false }) asked-IsBrain ((refl, tt), tt) refl refl
      refl refl refl (omega arith)

neuron_cast_lem_example :
    Returns
      (λ _.
        Passes
          (λ k.
            passed_on true
              (points_to k (some "l1" ∷ []))
              (in_groups k (group_of default_cast_group_name "l1")))
          0
          active)
      (neuron_cast (n1 neuron_activated 1) true active)
unfolding selected_group select lookup
neuron_cast_lem_example =
    neuron_cast_lem sample_ids (n1 neuron_activated 1) true active active-IsBrain ((refl, tt), tt)
      refl (record { items = []; cap = 10; is_closed = false }, refl, omega arith)

-- The brain after the processor of n1 failed, with the link l1 still waiting, and with a channel
-- that is full.
abbrev failed_n1 : BrainNeuron
failed_n1 = record (n1 neuron_inactive 1) {
  count = record { process = 1; succeed = 0; failed = 1 };
}

abbrev full_chan : Chan Event
full_chan = record {
  items =
      sleep_event "b1"
      ∷ sleep_event "b1"
      ∷ sleep_event "b1"
      ∷ sleep_event "b1"
      ∷ sleep_event "b1"
      ∷ sleep_event "b1"
      ∷ sleep_event "b1"
      ∷ sleep_event "b1"
      ∷ sleep_event "b1"
      ∷ sleep_event "b1"
      ∷ [];
  cap = 10;
  is_closed = false;
}

abbrev stuck : Brain (Unit {0})
stuck = record active { neurons = insert "n1" failed_n1 active.neurons; b_queue = some full_chan }

stuck-IsBrain : IsBrain sample_ids stuck
unfolding end_neuron update_neuron lookup insert
stuck-IsBrain = record {
  wired = failed.wired;
  awake = refl;
  sized = refl;
  b_open = (full_chan, refl, refl, refl, omega arith);
  n_open = failed.n_open;
}
  where
    failed : IsBrain sample_ids (record active { neurons = insert "n1" failed_n1 active.neurons })
    failed =
        end_neuron-IsBrain sample_ids (n1 neuron_inactive 0) (some (memory_failed "timeout")) active
          active-IsBrain

maintain-cast_full_example :
    maintain (try_cast_event "n1") stuck
    ≡ blocked
        (record stuck { links = insert "l1" (brain_link "l1" "n1" "n2" link_ready) stuck.links })
unfolding selected_group select lookup insert
maintain-cast_full_example =
    maintain-cast_full sample_ids failed_n1 stuck full_chan "l1"
      (brain_link "l1" "n1" "n2" link_wait) [] stuck-IsBrain refl refl refl refl refl refl
      (omega arith)

begin_neuron_lem_example :
    Returns (λ _. Begun (n1 neuron_inactive 0) idle) (begin_neuron (n1 neuron_inactive 0) idle)
unfolding lookup
begin_neuron_lem_example =
    begin_neuron_lem sample_ids (n1 neuron_inactive 0) idle asked-IsBrain refl

end_neuron_lem_example :
    ((b' : Brain (Unit {0})) × (end_neuron
          (n1 neuron_inactive 0)
          (some (memory_failed "timeout"))
          active
        ≡ returned (some (process_failed (memory_failed "timeout"))) b')
      × Ended "n1" (count_failed (n1 neuron_inactive 1)) active b'
      × (b'.b_queue ≡ active.b_queue))
    × ((b' : Brain (Unit {0})) × (end_neuron (n1 neuron_inactive 0) none active ≡ returned none b')
        × Ended "n1" (count_succeed (n1 neuron_inactive 1)) active b'
        × ((c : Chan Event) × (b'.b_queue ≡ some c) × (c.items ≡ try_cast_event "n1" ∷ [])))
unfolding lookup
end_neuron_lem_example =
    end_neuron_lem sample_ids (n1 neuron_inactive 0) (n1 neuron_activated 1) active
      (record { items = []; cap = 10; is_closed = false }) (memory_failed "timeout") active-IsBrain
      refl refl (omega arith)

run_brain_maintainer-Drained_example : Drained (run_brain_maintainer 5 triggered)
unfolding lookup count_if
run_brain_maintainer-Drained_example =
    run_brain_maintainer-Drained sample_ids 5 triggered triggered-IsBrain (refl, tt) (omega arith)

-- The brain asleep, with every link in its initial state.
abbrev asleep : Brain (Unit {0})
asleep = record {
  id = idle.id;
  labels = idle.labels;
  neurons = reset_neurons idle.neurons;
  links = reset_links idle.links;
  state = brain_sleeping;
  memory = tt;
  b_queue = idle.b_queue;
  n_queue = idle.n_queue;
  n_queue_len = idle.n_queue_len;
  n_worker_num = idle.n_worker_num;
  delayed = idle.delayed;
}

trig-run_brain_maintainer_example :
    (b' : Brain (Unit {0})) × (start_and_trig ("l2" ∷ []) asleep ≡ returned none b')
    × (run_brain_maintainer 2 b'
        ≡ returned tt (
            with_ids
              (record { items = []; cap = 4; is_closed = false })
              ("n1" ∷ [])
              (with_events
                (insert "l2" (brain_link "l2" entry_link_from "n1" link_ready) asleep.links)
                10
                []
                brain_running
                asleep)))
unfolding lookup insert reset_links reset_neurons force_sleep
trig-run_brain_maintainer_example =
    trig-run_brain_maintainer asleep 10 "l2" (brain_link "l2" entry_link_from "n1" link_init)
      (n1 neuron_inactive 0) sample_ids (record { items = []; cap = 4; is_closed = false })
      (force_sleep-IsBrain sample_ids idle asked-IsBrain) refl refl (omega arith) refl refl refl
      refl refl refl
