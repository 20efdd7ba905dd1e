-- ===== src/Brain/Maintain.antt =====
-- maintain.go of brainlocal: the handlers of the maintainer, and its loop body `maintain`.
use rmodel.Brain.{
  Brain, BrainLink, BrainNeuron, Event, EventAction, EventKind, Groups, Memory, Pointer,
  brain_shutdown_action, brain_sleep, cast_anyway, kind_brain, kind_link, kind_neuron, kind_unknown,
  link_init_action, link_ready_action, link_wait_action, sleep_event, try_activate,
  try_activate_event, try_cast, try_inactive,
}
use rmodel.Brain.Cast.{neuron_cast}
use rmodel.Brain.Power.{force_sleep, is_activated, is_ready, refresh_state, shutdown}
use rmodel.Brain.Queue.{publish_event, publish_event_activate_neuron}
use rmodel.Brain.Step.{Go, continue_with, modify, panicked, pure, returned, ◌>>=◌, ◌>>◌}
use rmodel.Core.{BrainState, brain_running, end_neuron_id}
use rmodel.Errors.{
  Error, link_not_found, neuron_not_found, unsupported_brain_action, unsupported_link_action,
  unsupported_neuron_action,
}
use rmodel.Shared.{
  Bool, List, Option, String, [], false, if◌then◌else◌, length, nat_eq, none, not, some, suc, true,
  ℕ, ◌&&◌, ◌==◌, ◌∷◌,
}
use rmodel.Shared.Maps.{Map, lookup}

abbrev count_one : Option ℕ → Option ℕ
count_one none = none
count_one (some n) = some (suc n)

-- The inner loop of `ifNeuronShouldActivate`: the ready links in front of the first other one.
unfoldable pub ready_prefix : Map BrainLink → List Pointer → Option ℕ
ready_prefix links [] = some 0
ready_prefix links (none ∷ ps) = none
ready_prefix links (some id ∷ ps) =
    let rest = ready_prefix links ps in
    elim (lookup id links) [
      | none ↦ none
      | some l ↦ if is_ready l.state then count_one rest else some 0
    ]

-- The outer loop; `none` is a nil pointer met on the way.
unfoldable pub some_group_ready : Map BrainLink → Groups → Option Bool
unfolding ready_prefix
some_group_ready links [] = some false
some_group_ready links ((name, ps) ∷ groups) =
    let rest = some_group_ready links groups in
    elim (ready_prefix links ps) [
      | none ↦ none
      | some n ↦ if not (nat_eq (length ps) 0) && nat_eq n (length ps) then some true else rest
    ]

abbrev pub is_running : BrainState → Bool
is_running brain_running = true
is_running _ = false

unfoldable pub if_neuron_should_activate : {M : Type 0} → BrainNeuron → Go (Brain M) Bool
if_neuron_should_activate neu b =
    if not (is_running b.state)
    then returned false b
    else elim (some_group_ready b.links neu.trigger_groups) [
      | none ↦ panicked b
      | some should ↦ returned should b
    ]

-- The part of `tryActivateNeuron` behind the guards.
unfoldable pub activate_or_end : {M : Type 0} → BrainNeuron → Go (Brain M) (Unit {0})
activate_or_end n =
    if n.id == end_neuron_id
    then publish_event (sleep_event "")
    else publish_event_activate_neuron n.id

unfoldable pub try_activate_neuron : {M : Type 0} → BrainNeuron → Go (Brain M) (Unit {0})
unfolding if_neuron_should_activate activate_or_end
try_activate_neuron n =
    if is_activated n.state
    then pure tt
    else do should ← if_neuron_should_activate n; if should then activate_or_end n else pure tt

-- The text of an action, for the error that quotes it.
unfoldable pub action_text : EventAction → String
action_text link_init_action = "link_init"
action_text link_ready_action = "link_ready"
action_text link_wait_action = "link_wait"
action_text try_activate = "try_activate_neuron"
action_text try_inactive = "try_inactive_neuron"
action_text try_cast = "try_cast"
action_text cast_anyway = "cast_anyway"
action_text brain_sleep = "brain_sleep"
action_text brain_shutdown_action = "brain_shutdown"

unfoldable pub on_link : {M : Type 0} → EventAction → BrainLink → Go (Brain M) (Option Error)
on_link link_init_action l = pure none
on_link link_wait_action l = pure none
on_link link_ready_action l = λ b. elim (lookup l.to b.neurons) [
  | none ↦ returned (some (neuron_not_found l.to)) b
  | some dest ↦ continue_with (publish_event (try_activate_event dest.id) b) (λ _. pure none)
]
on_link action l = pure (some (unsupported_link_action (action_text action)))

unfoldable pub handle_link_event : {M : Type 0} → EventAction → String → Go (Brain M) (Option Error)
unfolding on_link
handle_link_event action link_id b = elim (lookup link_id b.links) [
  | none ↦ returned (some (link_not_found link_id)) b
  | some l ↦ on_link action l b
]

module _ {M : Type 0} ⦃mem : Memory M⦄ where
  unfoldable pub on_neuron : EventAction → BrainNeuron → Go (Brain M) (Option Error)
  on_neuron try_inactive n = pure none
  on_neuron try_activate n = try_activate_neuron n >> pure none
  on_neuron try_cast n = neuron_cast n false >> pure none
  on_neuron cast_anyway n = neuron_cast n true >> pure none
  on_neuron action n = pure (some (unsupported_neuron_action (action_text action)))

  unfoldable pub handle_neuron_event : EventAction → String → Go (Brain M) (Option Error)
  unfolding on_neuron
  handle_neuron_event action neuron_id b = elim (lookup neuron_id b.neurons) [
    | none ↦ returned (some (neuron_not_found neuron_id)) b
    | some n ↦ on_neuron action n b
  ]

  unfoldable pub handle_brain_event : EventAction → Go (Brain M) (Option Error)
  handle_brain_event brain_sleep = modify force_sleep >> pure none
  handle_brain_event brain_shutdown_action = shutdown >> pure none
  handle_brain_event action = pure (some (unsupported_brain_action (action_text action)))

  -- An error is logged, and ends the round before the state is refreshed.
  abbrev pub refresh_unless : Option Error → Go (Brain M) (Unit {0})
  refresh_unless none = refresh_state
  refresh_unless (some e) = pure tt

  unfoldable pub handle : EventKind → Event → Go (Brain M) (Unit {0})
  handle kind_link event = handle_link_event event.action event.id >>= refresh_unless
  handle kind_neuron event = handle_neuron_event event.action event.id >>= refresh_unless
  handle kind_brain event = handle_brain_event event.action >> pure tt
  handle kind_unknown event = pure tt

  unfoldable pub maintain : Event → Go (Brain M) (Unit {0})
  unfolding handle
  maintain event = handle event.kind event
