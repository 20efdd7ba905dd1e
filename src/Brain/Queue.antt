-- ===== src/Brain/Queue.antt =====
-- event.go and neuron_runner.go of brainlocal: the two channels of the maintainer.
use rmodel.Brain.{Brain, Chan, Event}
use rmodel.Brain.Step.{Go, blocked, panicked, returned}
use rmodel.Core.{BrainState, brain_shutdown}
use rmodel.Shared.{Bool, String, [], false, if◌then◌else◌, length, ltb, none, some, true, ◌++◌, ◌∷◌}

-- The rest of a send: `keep` stores the channel with the new entry.
unfoldable pub send {ℓ κ} :
    {S : Type ℓ} {A : Type κ} → Chan A → A → (Chan A → S → S) → Go S (Unit {0})
send c a keep s =
    if c.is_closed
    then panicked s
    else if ltb (length c.items) c.cap
    then returned tt (keep (record c { items = c.items ++ a ∷ [] }) s)
    else blocked s

abbrev pub is_shutdown : BrainState → Bool
is_shutdown brain_shutdown = true
is_shutdown _ = false

-- A full channel stops the goroutine that sends; where that is the maintainer, nobody receives.
unfoldable pub publish_event : {M : Type 0} → Event → Go (Brain M) (Unit {0})
unfolding send
publish_event event b = elim b.b_queue [
  | none ↦ returned tt b
  | some q ↦
      if is_shutdown b.state
      then returned tt b
      else send q event (λ q' s. record s { b_queue = some q' }) b
]

unfoldable pub publish_event_activate_neuron : {M : Type 0} → String → Go (Brain M) (Unit {0})
unfolding send
publish_event_activate_neuron neuron_id b = elim b.n_queue [
  | none ↦ returned tt b
  | some q ↦
      if is_shutdown b.state
      then returned tt b
      else send q neuron_id (λ q' s. record s { n_queue = some q' }) b
]
