-- ===== src/Brain/Ending.antt =====
-- neuron_runner.go of brainlocal: what a worker does once the processor has returned.
use rmodel.Brain.{Brain, BrainNeuron, Chan, Event, try_cast_event}
use rmodel.Brain.Invariant.{IsBrain}
use rmodel.Brain.Invariant.Workers.{update_neuron-IsBrain}
use rmodel.Brain.Passing.Links.{publish_event-room, published}
use rmodel.Brain.Runner.{count_failed, count_succeed, end_neuron, inactivated, update_neuron}
use rmodel.Brain.Running.{lookup-beside, update_neuron_lem}
use rmodel.Brain.Step.{returned}
use rmodel.Errors.{Error, process_failed}
use rmodel.Shared.{
  Bool, Option, String, [], false, length, none, refl, some, subst, ◌++◌, ◌+◌, ◌==◌, ◌∙◌, ◌∷◌, ◌≡◌,
  ◌≤◌,
}
use rmodel.Shared.Maps.{insert, lookup, lookup-inserted}

-- What a worker has done with the neuron behind the call, besides the event of a success.
pub record Ended {M : Type 0} (id : String) (n : BrainNeuron) (b b' : Brain M) : Type 0 where
  pub rests : lookup id b'.neurons ≡ some n
  pub others : (j : String) → (id == j) ≡ false → lookup j b'.neurons ≡ lookup j b.neurons
  pub same_links : b'.links ≡ b.links
  pub same_state : b'.state ≡ b.state
  pub same_ids : b'.n_queue ≡ b.n_queue

update_twice :
    {M : Type 0} (id : String) (f g : BrainNeuron → BrainNeuron) (b : Brain M) (n : BrainNeuron)
    → lookup id b.neurons ≡ some n
    → update_neuron id g (update_neuron id f b)
      ≡ record b { neurons = insert id (g (f n)) (insert id (f n) b.neurons) }
update_twice id f g b n e = rw (update_neuron_lem id f b n e) (
    update_neuron_lem id g (record b { neurons = insert id (f n) b.neurons }) (f n)
      (lookup-inserted id (f n) b.neurons))

Ended-twice :
    {M : Type 0} (id : String) (m n : BrainNeuron) (b : Brain M) (q : Option (Chan Event))
    → Ended id n b (record b { neurons = insert id n (insert id m b.neurons); b_queue = q })
Ended-twice id m n b q = record {
  rests = lookup-inserted id n (insert id m b.neurons);
  others = λ j d. lookup-beside id j n (insert id m b.neurons) d ∙ lookup-beside id j m b.neurons d;
  same_links = refl;
  same_state = refl;
  same_ids = refl;
}

ended-IsBrain :
    {M : Type 0} (ids : String → Bool) (id : String) (n : BrainNeuron) (b : Brain M)
    → IsBrain ids b
    → lookup id b.neurons ≡ some n
    → IsBrain ids (record b {
      neurons = insert id (count_succeed (inactivated n)) (insert id (inactivated n) b.neurons);
    })
ended-IsBrain ids id n b w l =
    subst (IsBrain ids) (update_twice id inactivated count_succeed b n l) (
      update_neuron-IsBrain ids id count_succeed (λ m. (refl, refl, refl)) _
        (update_neuron-IsBrain ids id inactivated (λ m. (refl, refl, refl)) b w))

-- Behind the call of the processor, in a well formed brain with a free place in the channel of the
-- maintainer: after a failure the worker makes the neuron inactive, counts the failure and returns
-- the error that the processor returned, wrapped, and neither the channel nor a link changes; after a success it makes the neuron
-- inactive, counts the success and sends the event that lets the neuron cast. Other neurons, the
-- links, the state of the brain and the ids for the workers stay.
pub end_neuron_lem :
    {M : Type 0} (ids : String → Bool) (neu n : BrainNeuron) (b : Brain M) (q : Chan Event)
    (e : Error)
    → IsBrain ids b
    → lookup neu.id b.neurons ≡ some n
    → b.b_queue ≡ some q
    → length q.items + 1 ≤ q.cap
    → ((b' : Brain M) × (end_neuron neu (some e) b ≡ returned (some (process_failed e)) b')
        × Ended neu.id (count_failed (inactivated n)) b b'
        × (b'.b_queue ≡ b.b_queue))
      × ((b' : Brain M) × (end_neuron neu none b ≡ returned none b')
          × Ended neu.id (count_succeed (inactivated n)) b b'
          × ((c : Chan Event) × (b'.b_queue ≡ some c)
              × (c.items ≡ q.items ++ try_cast_event neu.id ∷ [])))
unfolding end_neuron
end_neuron_lem ids neu n b q e w l c r = (
  (
    record b {
      neurons =
          insert neu.id (count_failed (inactivated n)) (insert neu.id (inactivated n) b.neurons);
    },
    rw (update_twice neu.id inactivated count_failed b n l) refl,
    Ended-twice neu.id (inactivated n) (count_failed (inactivated n)) b b.b_queue,
    refl,
  ),
  (
    published ids q (try_cast_event neu.id) (record b {
      neurons =
          insert neu.id (count_succeed (inactivated n)) (insert neu.id (inactivated n) b.neurons);
    }),
    rw (update_twice neu.id inactivated count_succeed b n l) (
        rw
          (publish_event-room ids (try_cast_event neu.id) 0 _ q (ended-IsBrain ids neu.id n b w l) c
            r)
          refl),
    Ended-twice neu.id (inactivated n) (count_succeed (inactivated n)) b _,
    (
      record { items = q.items ++ try_cast_event neu.id ∷ []; cap = q.cap; is_closed = false },
      refl,
      refl,
    ),
  ),
)
