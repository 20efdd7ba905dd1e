-- ===== src/Brain/Context.antt =====
-- brain_context.go and brain_local.go of brainlocal: what a processor and a caller ask of a brain.
use rmodel.Brain.{Brain, Memory}
use rmodel.Brain.Life.{entry}
use rmodel.Brain.Power.{on_memory}
use rmodel.Brain.Queue.{is_shutdown}
use rmodel.Brain.Step.{Go, blocked, panicked, pure, returned, ◌>>=◌}
use rmodel.Core.{Any, BrainState, brain_sleeping}
use rmodel.Errors.{Error}
use rmodel.Shared.{
  Bool, List, Option, String, false, if◌then◌else◌, is_some, none, some, true, ◌||◌,
}
use rmodel.Shared.Maps.{lookup}
use rmodel.Utils.{Labels}

unfoldable pub get_state : {M : Type 0} → Brain M → BrainState
get_state b = b.state

abbrev pub is_sleeping : BrainState → Bool
is_sleeping brain_sleeping = true
is_sleeping _ = false

-- `Wait`: the caller is held while the brain runs.
unfoldable pub wait : {M : Type 0} → Go (Brain M) (Unit {0})
wait b = if is_sleeping b.state || is_shutdown b.state then returned tt b else blocked b

-- `GetCurrentNeuronLabels` panics at the nil neuron of a missing id.
unfoldable pub get_current_neuron_labels : {M : Type 0} → String → Go (Brain M) Labels
get_current_neuron_labels current_neuron_id b = elim (lookup current_neuron_id b.neurons) [
  | none ↦ panicked b
  | some n ↦ returned n.labels b
]

unfoldable pub get_brain_id : {M : Type 0} → Brain M → String
get_brain_id b = b.id

unfoldable pub get_brain_labels : {M : Type 0} → Brain M → Labels
get_brain_labels b = b.labels

module _ {M : Type 0} ⦃mem : Memory M⦄ where
  unfoldable pub context_set_memory : List Any → Go (Brain M) (Option Error)
  unfolding on_memory
  context_set_memory keys_and_values = on_memory (mem.set_memory keys_and_values)

  unfoldable pub context_get_memory : Any → Brain M → Any
  context_get_memory key b = mem.get_memory b.memory key

  unfoldable pub context_exist_memory : Any → Brain M → Bool
  context_exist_memory key b = mem.exist_memory b.memory key

  unfoldable pub context_delete_memory : Any → Brain M → Brain M
  context_delete_memory key b = record b { memory = mem.delete_memory key b.memory }

  unfoldable pub context_clear_memory : Brain M → Brain M
  context_clear_memory b = record b { memory = mem.clear_memory b.memory }

  -- `EntryWithMemory`: a failure to set the memory ends the call.
  unfoldable pub entry_with_memory : List Any → Go (Brain M) (Option Error)
  unfolding context_set_memory entry
  entry_with_memory keys_and_values =
      context_set_memory keys_and_values
      >>= (λ failure. if is_some failure then pure failure else entry)
