-- ===== src/Brain/Runner.antt =====
-- neuron_runner.go and brain_context.go of brainlocal: a worker runs a neuron.
use rmodel.Brain.{Brain, BrainNeuron, Groups, Pointer, cast_anyway_event, increment, try_cast_event}
use rmodel.Brain.Cast.{deref, set_link_state}
use rmodel.Brain.Queue.{publish_event}
use rmodel.Brain.Step.{Go, continue_with, modify, pure, returned, ◌>>=◌, ◌>>◌}
use rmodel.Core.{LinkState, link_init, link_wait, neuron_activated, neuron_inactive}
use rmodel.Errors.{Error, neuron_not_found, process_failed}
use rmodel.Shared.{List, Option, String, [], if◌then◌else◌, is_some, none, some, ◌∷◌}
use rmodel.Shared.Maps.{insert, lookup}

-- `l.status.state = state` for every link of every group.
unfoldable pub mark_links : {M : Type 0} → LinkState → List Pointer → Go (Brain M) (Unit {0})
unfolding deref set_link_state
mark_links state [] = pure tt
mark_links state (p ∷ links) = do l ← deref p; set_link_state l state; mark_links state links

unfoldable pub mark_groups : {M : Type 0} → LinkState → Groups → Go (Brain M) (Unit {0})
unfolding mark_links
mark_groups state [] = pure tt
mark_groups state ((name, links) ∷ groups) = do mark_links state links; mark_groups state groups

-- A write to the fields of the neuron behind a pointer.
unfoldable pub update_neuron :
    {M : Type 0} → String → (BrainNeuron → BrainNeuron) → Brain M → Brain M
update_neuron id f b = elim (lookup id b.neurons) [
  | none ↦ b
  | some n ↦ record b { neurons = insert id (f n) b.neurons }
]

abbrev pub activated : BrainNeuron → BrainNeuron
activated n = record n { state = neuron_activated }

abbrev pub inactivated : BrainNeuron → BrainNeuron
inactivated n = record n { state = neuron_inactive }

abbrev pub count_process : BrainNeuron → BrainNeuron
count_process n = record n { count = record n.count { process = increment n.count.process } }

abbrev pub count_succeed : BrainNeuron → BrainNeuron
count_succeed n = record n { count = record n.count { succeed = increment n.count.succeed } }

abbrev pub count_failed : BrainNeuron → BrainNeuron
count_failed n = record n { count = record n.count { failed = increment n.count.failed } }

-- `activateNeuron` up to the call of the processor.
unfoldable pub begin_neuron : {M : Type 0} → BrainNeuron → Go (Brain M) (Unit {0})
unfolding mark_groups update_neuron
begin_neuron neu = do
  modify (update_neuron neu.id activated)
  mark_groups link_init neu.trigger_groups
  mark_groups link_wait neu.cast_groups
  modify (update_neuron neu.id count_process)

-- `activateNeuron` behind the call, with the error that the processor returned.
unfoldable pub end_neuron : {M : Type 0} → BrainNeuron → Option Error → Go (Brain M) (Option Error)
unfolding update_neuron
end_neuron neu (some e) = do
  modify (update_neuron neu.id inactivated)
  modify (update_neuron neu.id count_failed)
  pure (some (process_failed e))
end_neuron neu none = do
  modify (update_neuron neu.id inactivated)
  modify (update_neuron neu.id count_succeed)
  publish_event (try_cast_event neu.id)
  pure none

-- `process` is the processor's run, with all that the other goroutines do meanwhile.
unfoldable pub activate_neuron :
    {M : Type 0} → Go (Brain M) (Option Error) → Option BrainNeuron → Go (Brain M) (Option Error)
unfolding begin_neuron end_neuron
activate_neuron process none = pure (some (neuron_not_found "nil"))
activate_neuron process (some neu) = do begin_neuron neu; failure ← process; end_neuron neu failure

-- The loop body of `runNeuronWorker` for a received id; an error is only logged.
unfoldable pub work : {M : Type 0} → Go (Brain M) (Option Error) → String → Go (Brain M) (Unit {0})
unfolding activate_neuron
work process neuron_id b = elim (lookup neuron_id b.neurons) [
  | none ↦ returned tt b
  | some neu ↦ continue_with (activate_neuron process (some neu) b) (λ _. pure tt)
]

-- `brainContext.ContinueCast`.
unfoldable pub continue_cast : {M : Type 0} → String → Go (Brain M) (Unit {0})
continue_cast neuron_id b =
    if is_some (lookup neuron_id b.neurons)
    then publish_event (cast_anyway_event neuron_id) b
    else returned tt b
