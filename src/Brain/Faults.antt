-- ===== src/Brain/Faults.antt =====
-- maintain.go, event.go and brain_local.go of brainlocal: histories in which a handler does what
-- its callers do not expect.
use rmodel.Brain.{
  Brain, BrainLink, BrainNeuron, Chan, Event, Memory, Pointer, link_ready_action, link_ready_event,
  try_activate_event, try_cast_event,
}
use rmodel.Brain.Cast.{
  cast_link, cast_selected, deref, neuron_cast, pointers_of, ready_link, selected_group,
  set_link_state,
}
use rmodel.Brain.Firing.{some_ready, try_activate_neuron-calls}
use rmodel.Brain.Invariant.{IsBrain, PointsAll}
use rmodel.Brain.Invariant.Queues.{known_chan, same_chan}
use rmodel.Brain.Invariant.Start.{IsClosed}
use rmodel.Brain.Maintain.{
  handle, handle_link_event, handle_neuron_event, is_running, maintain, on_link, on_neuron,
  try_activate_neuron,
}
use rmodel.Brain.Power.{is_activated, set_state}
use rmodel.Brain.Queue.{is_shutdown, publish_event, publish_event_activate_neuron, send}
use rmodel.Brain.Quiet.{is_quiet, refresh_state_lem}
use rmodel.Brain.Step.{blocked, continue_with, panicked, pure, returned, ◌>>◌}
use rmodel.Core.{brain_running, end_neuron_id, link_ready, link_wait, neuron_inactive}
use rmodel.Shared.{
  Bool, List, String, [], ap, arith, false, length, length-append, ltb-false, ltb-true, none, refl,
  some, true, ◌++◌, ◌+◌, ◌<◌, ◌==◌, ◌∙◌, ◌∷◌, ◌≡◌, ◌≤◌,
}
use rmodel.Shared.Maps.{insert, lookup}

publish_after_shutdown :
    {M : Type 0} (event : Event) (b : Brain M)
    → is_shutdown b.state ≡ true
    → IsClosed b.b_queue
    → publish_event event b ≡ returned tt b
unfolding publish_event
publish_after_shutdown event b s (c, e, closed) = simp (publish_event, e, s) refl

publish_closed :
    {M : Type 0} (event : Event) (b : Brain M)
    → is_shutdown b.state ≡ false
    → IsClosed b.b_queue
    → publish_event event b ≡ panicked b
unfolding publish_event send
publish_closed event b s (c, e, closed) = simp (publish_event, e, s, send, closed) refl

pub link_ready_round :
    {M : Type 0} (b : Brain M) (k : String) (l : BrainLink) (n : BrainNeuron)
    → lookup k b.links ≡ some l
    → lookup l.to b.neurons ≡ some n
    → handle_link_event link_ready_action k b
      ≡ continue_with (publish_event (try_activate_event n.id) b) (λ _. pure none)
unfolding handle_link_event on_link
link_ready_round b k l n e e' = simp (handle_link_event, e, on_link, e') refl

-- In a brain that is shut down, with the channel of the maintainer closed and with a neuron active
-- or a link not in its initial state: a round of the maintainer for the event that a link into a
-- neuron of the brain is ready sets the state to running, and a round for that event in the brain
-- it leaves panics at the closed channel.
pub maintain_after_shutdown :
    {M : Type 0} ⦃mem : Memory M⦄ (b : Brain M) (k : String) (l : BrainLink) (n : BrainNeuron)
    → is_shutdown b.state ≡ true
    → IsClosed b.b_queue
    → lookup k b.links ≡ some l
    → lookup l.to b.neurons ≡ some n
    → is_quiet b ≡ false
    → (maintain (link_ready_event k) b ≡ returned tt (set_state brain_running b))
      × (maintain (link_ready_event k) (set_state brain_running b)
          ≡ panicked (set_state brain_running b))
unfolding maintain handle set_state
maintain_after_shutdown b k l n s c e e' q = (
  simp
      (
        link_ready_round b k l n e e',
        publish_after_shutdown (try_activate_event n.id) b s c,
        refresh_state_lem b,
        q,
      )
      refl,
  simp
      (
        link_ready_round (record b { state = brain_running }) k l n e e',
        publish_closed (try_activate_event n.id) (record b { state = brain_running }) refl c,
      )
      refl,
)

-- The channel of the neurons with ids behind what it holds.
abbrev pub with_ids : {M : Type 0} → Chan String → List String → Brain M → Brain M
with_ids q ids b = record b { n_queue = some (record q { items = q.items ++ ids }) }

enqueue_neuron :
    {M : Type 0} (id : String) (b : Brain M) (q : Chan String)
    → is_shutdown b.state ≡ false
    → b.n_queue ≡ some q
    → q.is_closed ≡ false
    → length q.items < q.cap
    → publish_event_activate_neuron id b ≡ returned tt (with_ids q (id ∷ []) b)
unfolding publish_event_activate_neuron send
enqueue_neuron id b q s e o r =
    simp (publish_event_activate_neuron, e, s, send, o, ltb-true (length q.items) q.cap r) refl

pub try_activate_once :
    {M : Type 0} (ids : String → Bool) (n : BrainNeuron) (b : Brain M) (q : Chan String)
    → IsBrain ids b
    → PointsAll ids n.trigger_groups
    → is_activated n.state ≡ false
    → is_running b.state ≡ true
    → some_ready b.links n.trigger_groups ≡ true
    → (n.id == end_neuron_id) ≡ false
    → b.n_queue ≡ some q
    → length q.items < q.cap
    → try_activate_neuron n b ≡ returned tt (with_ids q (n.id ∷ []) b)
try_activate_once ids n b q w h a r s e c room =
    try_activate_neuron-calls ids n b w h
    ∙ simp (a, r, s, e)
        (enqueue_neuron n.id b q w.awake c (same_chan _ b.n_queue q c w.n_open) room)

append_twice {ℓ} :
    {A : Type ℓ} (xs : List A) (a b : A) → (xs ++ a ∷ []) ++ b ∷ [] ≡ xs ++ a ∷ b ∷ []
append_twice [] a b = refl
append_twice (x ∷ xs) a b = ap (λ ys. x ∷ ys) (append_twice xs a b)

-- For an inactive neuron with a ready group, in a well formed running brain with two free places
-- for ids: two events that ask to activate the neuron, handled before a worker starts it, enqueue
-- it twice.
pub try_activate_twice :
    {M : Type 0} (ids : String → Bool) (n : BrainNeuron) (b : Brain M) (q : Chan String)
    → IsBrain ids b
    → PointsAll ids n.trigger_groups
    → is_activated n.state ≡ false
    → is_running b.state ≡ true
    → some_ready b.links n.trigger_groups ≡ true
    → (n.id == end_neuron_id) ≡ false
    → b.n_queue ≡ some q
    → length q.items + 2 ≤ q.cap
    → (try_activate_neuron n >> try_activate_neuron n) b
      ≡ returned tt (with_ids q (n.id ∷ n.id ∷ []) b)
try_activate_twice ids n b q w h a r s e c room =
    let q' : Chan String = record q { items = q.items ++ n.id ∷ [] } in
    let (closed, cap, short) = known_chan _ b.n_queue q c w.n_open in
    let w' : IsBrain ids (with_ids q (n.id ∷ []) b) = record {
      wired = w.wired;
      awake = w.awake;
      sized = w.sized;
      b_open = w.b_open;
      n_open = (q', refl, closed, cap, omega (arith, room, cap, length-append q.items (n.id ∷ [])));
    } in
    rw (try_activate_once ids n b q w h a r s e c (omega (arith, room))) (
      try_activate_once ids n (with_ids q (n.id ∷ []) b) q' w' h a r s e refl
        (omega (arith, length-append q.items (n.id ∷ [])))
      ∙ ap (λ items. returned tt (record b { n_queue = some (record q { items = items }) }))
          (append_twice q.items n.id n.id))

publish_full :
    {M : Type 0} (event : Event) (b : Brain M) (q : Chan Event)
    → is_shutdown b.state ≡ false
    → b.b_queue ≡ some q
    → q.is_closed ≡ false
    → q.cap ≤ length q.items
    → publish_event event b ≡ blocked b
unfolding publish_event send
publish_full event b q s e o full =
    simp (publish_event, e, s, send, o, ltb-false (length q.items) q.cap full) refl

-- In a well formed brain, with the channel of the maintainer full, and a waiting link first in the
-- selected group of an inactive neuron: the round of the maintainer that lets the neuron cast blocks
-- at that link, which is ready by then, and the channel is as it was.
pub maintain-cast_full :
    {M : Type 0} ⦃mem : Memory M⦄ (ids : String → Bool) (n : BrainNeuron) (b : Brain M)
    (q : Chan Event) (k : String) (l : BrainLink) (ps : List Pointer)
    → IsBrain ids b
    → lookup n.id b.neurons ≡ some n
    → n.state ≡ neuron_inactive
    → pointers_of (lookup (selected_group n b) n.cast_groups) ≡ some k ∷ ps
    → lookup k b.links ≡ some l
    → l.state ≡ link_wait
    → b.b_queue ≡ some q
    → q.cap ≤ length q.items
    → maintain (try_cast_event n.id) b
      ≡ blocked (record b { links = insert l.id (record l { state = link_ready }) b.links })
unfolding maintain handle handle_neuron_event on_neuron neuron_cast cast_selected deref cast_link
    ready_link set_link_state
maintain-cast_full ids n b q k l ps w e i g t s c full =
    simp
      (
        handle_neuron_event,
        e,
        neuron_cast,
        i,
        g,
        cast_selected,
        deref,
        t,
        s,
        cast_link,
        publish_full (link_ready_event l.id)
            (record b { links = insert l.id (record l { state = link_ready }) b.links }) q w.awake c
            (same_chan _ b.b_queue q c w.b_open) full,
      )
      refl
