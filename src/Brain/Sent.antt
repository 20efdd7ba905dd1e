-- ===== src/Brain/Sent.antt =====
-- event.go and neuron_runner.go of brainlocal: the two sends of an awake brain, said of the channels.
use rmodel.Brain.{Brain, Chan, Event}
use rmodel.Brain.Invariant.{IsBrain}
use rmodel.Brain.Invariant.Queues.{same_chan}
use rmodel.Brain.Queue.{publish_event, publish_event_activate_neuron, send}
use rmodel.Brain.Step.{Step, blocked, returned}
use rmodel.Shared.{Bool, String, [], if◌then◌else◌, length, ltb, refl, some, ◌++◌, ◌∷◌, ◌≡◌}

-- The event stands last in the maintainer's channel, or the send waits where that is full.
abbrev pub sent_event : {M : Type 0} → Event → Chan Event → Brain M → Step (Brain M) (Unit {0})
sent_event event q b =
    if ltb (length q.items) q.cap
    then returned tt (record b { b_queue = some (record q { items = q.items ++ event ∷ [] }) })
    else blocked b

-- The same of an id in the channel of the workers.
abbrev pub sent_id : {M : Type 0} → String → Chan String → Brain M → Step (Brain M) (Unit {0})
sent_id id q b =
    if ltb (length q.items) q.cap
    then returned tt (record b { n_queue = some (record q { items = q.items ++ id ∷ [] }) })
    else blocked b

pub publish_event-sent :
    {M : Type 0} (ids : String → Bool) (event : Event) (b : Brain M) (q : Chan Event)
    → IsBrain ids b
    → b.b_queue ≡ some q
    → publish_event event b ≡ sent_event event q b
unfolding publish_event send
publish_event-sent ids event b q w e =
    simp (publish_event, e, w.awake, send, same_chan _ b.b_queue q e w.b_open) refl

pub publish_event_activate_neuron-sent :
    {M : Type 0} (ids : String → Bool) (id : String) (b : Brain M) (q : Chan String)
    → IsBrain ids b
    → b.n_queue ≡ some q
    → publish_event_activate_neuron id b ≡ sent_id id q b
unfolding publish_event_activate_neuron send
publish_event_activate_neuron-sent ids id b q w e =
    simp (publish_event_activate_neuron, e, w.awake, send, same_chan _ b.n_queue q e w.n_open) refl
