-- ===== src/Examples/Histories.antt =====
-- The theorems on the running brain, at the brain of the sample blueprint.
use rmodel.Blueprint.Graph.Built.{Built-IsGraph}
use rmodel.Brain.{
  Brain, Event, brain_shutdown_action, link_ready_action, link_ready_event, sleep_event,
  try_activate_event,
}
use rmodel.Brain.Ensures.{Safe}
use rmodel.Brain.Firing.{try_activate_neuron_lem}
use rmodel.Brain.Invariant.{IsBrain}
use rmodel.Brain.Invariant.Build.{IsHarmless, ids_of, options-IsHarmless}
use rmodel.Brain.Invariant.Build.Content.{MatchesAt, build_brain_lem, options-KeepsGraph}
use rmodel.Brain.Invariant.Build.Lookups.{link_of}
use rmodel.Brain.Invariant.Handlers.{maintain-IsBrain}
use rmodel.Brain.Invariant.Start.{
  IsClosed, IsStopped, shutdown-IsStopped, shutdown_twice, trig_ids-IsBrain,
}
use rmodel.Brain.Invariant.Workers.{work-IsBrain}
use rmodel.Brain.Life.{trig_ids, with_neuron_queue_len}
use rmodel.Brain.Maintain.{handle_link_event, maintain, try_activate_neuron}
use rmodel.Brain.Power.{set_state, shutdown}
use rmodel.Brain.Queue.{publish_event}
use rmodel.Brain.Quiet.{is_quiet, maintain-refresh_state, maintain-sleep}
use rmodel.Brain.Runner.{work}
use rmodel.Brain.Step.{panicked, pure, returned, ◌>>◌}
use rmodel.Brain.System.{Reaches, begins, goes, history-IsBrain, maintains, stays}
use rmodel.Core.{brain_running, brain_sleeping, link_init, link_ready, neuron_inactive}
use rmodel.Examples.Brains.{
  active, asked, brain_at, built, enqueued, n1, no_memory, run_active, run_asked, run_enqueued,
  run_triggered, triggered,
}
use rmodel.Examples.Sample.{complete, complete-Built}
use rmodel.Shared.{
  All, Bool, String, [], arith, false, inl, inr, none, option_map, pos, refl, true, ◌∷◌, ◌≡◌, ◌≢◌,
}
use rmodel.Shared.Maps.{lookup}

abbrev pub sample_ids : String → Bool
sample_ids = ids_of complete

pub queue_option : All (IsHarmless {M = Unit {0}} sample_ids) (with_neuron_queue_len (pos 4) ∷ [])
queue_option = ((options-IsHarmless sample_ids 4 (pos 4) "b1").1, tt)

build_brain_lem_example :
    IsStopped sample_ids built
    × ((k : String) → lookup k built.links ≡ option_map link_of (lookup k complete.links))
    × ((k : String) → MatchesAt (lookup k complete.neurons) (lookup k built.neurons))
build_brain_lem_example =
    build_brain_lem "b1" tt complete (with_neuron_queue_len (pos 4) ∷ [])
      (Built-IsGraph complete-Built) ((options-KeepsGraph 4 (pos 4) "b1").1, tt)

pub history :
    Reaches
      (record { brain = triggered; running = [] })
      (record { brain = active; running = n1 neuron_inactive 0 ∷ [] })
unfolding lookup
history =
    goes
      (goes
        (goes stays (
          maintains (record { items = link_ready_event "l2" ∷ []; cap = 10; is_closed = false })
            (link_ready_event "l2") [] refl refl (λ e. cc e) run_asked))
        (maintains (record { items = try_activate_event "n1" ∷ []; cap = 10; is_closed = false })
          (try_activate_event "n1") [] refl refl (λ e. cc e) run_enqueued))
      (begins (record { items = "n1" ∷ []; cap = 4; is_closed = false }) "n1" []
        (n1 neuron_inactive 0) refl refl refl run_active)

history-IsBrain_example :
    IsBrain sample_ids active
    × ((event : Event)
        → event.action ≢ brain_shutdown_action
        → Safe (IsBrain sample_ids) (maintain event active))
history-IsBrain_example =
    history-IsBrain "b1" tt complete (with_neuron_queue_len (pos 4) ∷ []) ("l2" ∷ []) none triggered
      (record { brain = active; running = n1 neuron_inactive 0 ∷ [] })
      (Built-IsGraph complete-Built) queue_option run_triggered history

pub active-IsBrain : IsBrain sample_ids active
active-IsBrain =
    (history-IsBrain "b1" tt complete (with_neuron_queue_len (pos 4) ∷ []) ("l2" ∷ []) none
      triggered (record { brain = active; running = n1 neuron_inactive 0 ∷ [] })
      (Built-IsGraph complete-Built) queue_option run_triggered history).0

pub triggered-IsBrain : IsBrain sample_ids triggered
triggered-IsBrain =
    (history-IsBrain "b1" tt complete (with_neuron_queue_len (pos 4) ∷ []) ("l2" ∷ []) none
      triggered (record { brain = triggered; running = [] }) (Built-IsGraph complete-Built)
      queue_option run_triggered stays).0

pub asked-IsBrain : IsBrain sample_ids (brain_at link_init link_ready neuron_inactive 0 [] [])
asked-IsBrain = record {
  wired = triggered-IsBrain.wired;
  awake = refl;
  sized = triggered-IsBrain.sized;
  b_open = (record { items = []; cap = 10; is_closed = false }, refl, refl, refl, omega arith);
  n_open = (record { items = []; cap = 4; is_closed = false }, refl, refl, refl, omega arith);
}

-- The brain with its entry link ready and nothing in the channels.
abbrev pub idle : Brain (Unit {0})
idle = brain_at link_init link_ready neuron_inactive 0 [] []

maintain-IsBrain_example : Safe (IsBrain sample_ids) (maintain (link_ready_event "l2") idle)
maintain-IsBrain_example =
    maintain-IsBrain sample_ids (link_ready_event "l2") (λ e. cc e) idle asked-IsBrain

work-IsBrain_example : Safe (IsBrain sample_ids) (work (pure none) "n1" idle)
work-IsBrain_example = work-IsBrain sample_ids (pure none) "n1" (λ b w. w) idle asked-IsBrain

trig_ids-IsBrain_example : Safe (IsBrain sample_ids) (trig_ids ("l2" ∷ []) idle)
unfolding no_memory
trig_ids-IsBrain_example = trig_ids-IsBrain sample_ids "l2" [] idle tt refl refl (inr asked-IsBrain)

shutdown-IsStopped_example :
    (b' : Brain (Unit {0})) × (shutdown idle ≡ returned tt b')
    × IsStopped sample_ids b'
    × IsClosed b'.b_queue
    × IsClosed b'.n_queue
    × (b'.links ≡ idle.links)
    × (b'.neurons ≡ idle.neurons)
    × (b'.memory ≡ tt)
    × (b'.n_queue_len ≡ pos 4)
unfolding no_memory
shutdown-IsStopped_example = shutdown-IsStopped sample_ids idle tt asked-IsBrain refl

shutdown_twice_example : (b' : Brain (Unit {0})) × ((shutdown >> shutdown) idle ≡ panicked b')
unfolding no_memory
shutdown_twice_example = shutdown_twice sample_ids idle tt asked-IsBrain refl

try_activate_neuron_lem_example :
    try_activate_neuron (n1 neuron_inactive 0) idle ≡ returned tt enqueued
unfolding lookup
try_activate_neuron_lem_example =
    try_activate_neuron_lem sample_ids (n1 neuron_inactive 0) idle
      (record { items = []; cap = 10; is_closed = false })
      (record { items = []; cap = 4; is_closed = false }) asked-IsBrain ((refl, tt), tt) refl refl

run_handled : handle_link_event link_ready_action "l2" idle ≡ returned none asked
unfolding handle_link_event lookup publish_event
run_handled = refl

maintain-refresh_state_example :
    maintain (link_ready_event "l2") idle ≡ returned tt (set_state brain_running asked)
maintain-refresh_state_example =
    maintain-refresh_state sample_ids (link_ready_event "l2") idle asked none
      (record { items = try_activate_event "n1" ∷ []; cap = 10; is_closed = false }) asked-IsBrain
      (inl (refl, run_handled)) refl

maintain-sleep_example :
    (b' : Brain (Unit {0})) × (maintain (sleep_event "b1") active ≡ returned tt b')
    × (b'.state ≡ brain_sleeping)
    × (is_quiet b' ≡ true)
    × (b'.b_queue ≡ active.b_queue)
    × (b'.n_queue ≡ active.n_queue)
maintain-sleep_example = maintain-sleep active "b1"
