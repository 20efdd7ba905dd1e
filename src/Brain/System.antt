-- ===== src/Brain/System.antt =====
-- brain_local.go, maintain.go, neuron_runner.go and brain_context.go of brainlocal: the goroutines
-- of a brain together. The maintainer, the workers, the processors and the callers of the brain
-- take turns, a handler at a time.
use rmodel.Blueprint.Brainprint.{Brainprint}
use rmodel.Blueprint.Graph.{IsGraph}
use rmodel.Brain.{Brain, BrainNeuron, Chan, Event, Memory, brain_shutdown_action}
use rmodel.Brain.Ensures.{Safe, Safe-returned}
use rmodel.Brain.Invariant.{IsBrain}
use rmodel.Brain.Invariant.Build.{IsHarmless, build_brain-IsStopped, ids_of}
use rmodel.Brain.Invariant.Handlers.{maintain-IsBrain}
use rmodel.Brain.Invariant.Queues.{publish_event-IsBrain, received-IsOpen}
use rmodel.Brain.Invariant.Start.{start_and_trig-returned}
use rmodel.Brain.Invariant.Workers.{begin_neuron-IsBrain, continue_cast-IsBrain, end_neuron-IsBrain}
use rmodel.Brain.Life.{build_brain, start_and_trig}
use rmodel.Brain.Maintain.{maintain}
use rmodel.Brain.Queue.{publish_event}
use rmodel.Brain.Runner.{begin_neuron, continue_cast, end_neuron}
use rmodel.Brain.Step.{returned}
use rmodel.Errors.{Error}
use rmodel.Shared.{All, Bool, List, Option, String, [], inl, inr, some, ◌++◌, ◌∷◌, ◌≡◌, ◌≢◌}
use rmodel.Shared.Maps.{lookup}

-- The brain with the neurons that the workers are running.
pub record System (M : Type 0) : Type 0 where
  pub brain : Brain M
  pub running : List BrainNeuron

-- The receive of the head of a channel.
abbrev pub rest_of {ℓ} : {A : Type ℓ} → Chan A → List A → Chan A
rest_of c items = record c { items = items }

-- A turn of one of the goroutines. `Shutdown` is not among them.
pub data Moves {M : Type 0} ⦃mem : Memory M⦄ : System M → System M → Type 0 where
  -- The maintainer receives an event and handles it.
  maintains :
      {s : System M} {b' : Brain M} (q : Chan Event) (event : Event) (items : List Event)
      → s.brain.b_queue ≡ some q
      → q.items ≡ event ∷ items
      → event.action ≢ brain_shutdown_action
      → maintain event (record s.brain { b_queue = some (rest_of q items) }) ≡ returned tt b'
      → Moves s (record s { brain = b' })
  -- A worker receives the id of a neuron, and calls its processor.
  begins :
      {s : System M} {b' : Brain M} (q : Chan String) (id : String) (items : List String)
      (neu : BrainNeuron)
      → s.brain.n_queue ≡ some q
      → q.items ≡ id ∷ items
      → lookup id s.brain.neurons ≡ some neu
      → begin_neuron neu (record s.brain { n_queue = some (rest_of q items) }) ≡ returned tt b'
      → Moves s (record { brain = b'; running = neu ∷ s.running })
  -- A processor returns to its worker; the others go on.
  ends :
      {s : System M} {b' : Brain M} (before after : List BrainNeuron) (neu : BrainNeuron)
      (failure result : Option Error)
      → s.running ≡ before ++ neu ∷ after
      → end_neuron neu failure s.brain ≡ returned result b'
      → Moves s (record { brain = b'; running = before ++ after })
  -- A processor, or a caller, writes to the memory.
  remembers : {s : System M} (m : M) → Moves s (record s { brain = record s.brain { memory = m } })
  -- A processor asks to go on, or a goroutine that slept in `neuronCast` wakes.
  continues :
      {s : System M} {b' : Brain M} (id : String)
      → continue_cast id s.brain ≡ returned tt b'
      → Moves s (record s { brain = b' })
  wakes :
      {s : System M} {b' : Brain M} (before after : List Event) (event : Event)
      → s.brain.delayed ≡ before ++ event ∷ after
      → publish_event event (record s.brain { delayed = before ++ after }) ≡ returned tt b'
      → Moves s (record s { brain = b' })
  -- A caller triggers links, with the memory ready.
  trigs :
      {s : System M} {b' : Brain M} {result : Option Error} (ks : List String)
      → start_and_trig ks s.brain ≡ returned result b'
      → Moves s (record s { brain = b' })

pub data Reaches {M : Type 0} ⦃mem : Memory M⦄ : System M → System M → Type 0 where
  stays : {s : System M} → Reaches s s
  goes : {s t u : System M} → Reaches s t → Moves t u → Reaches s u

module _ {M : Type 0} ⦃mem : Memory M⦄ (ids : String → Bool) where
  pub received_event :
      (b : Brain M) (q : Chan Event) (event : Event) (items : List Event)
      → b.b_queue ≡ some q
      → q.items ≡ event ∷ items
      → IsBrain ids b
      → IsBrain ids (record b { b_queue = some (rest_of q items) })
  received_event b q event items e e' w = record {
    wired = w.wired;
    awake = w.awake;
    sized = w.sized;
    b_open = received-IsOpen _ b.b_queue q event items e e' w.b_open;
    n_open = w.n_open;
  }

  received_id :
      (b : Brain M) (q : Chan String) (id : String) (items : List String)
      → b.n_queue ≡ some q
      → q.items ≡ id ∷ items
      → IsBrain ids b
      → IsBrain ids (record b { n_queue = some (rest_of q items) })
  received_id b q id items e e' w = record {
    wired = w.wired;
    awake = w.awake;
    sized = w.sized;
    b_open = w.b_open;
    n_open = received-IsOpen _ b.n_queue q id items e e' w.n_open;
  }

  pub Moves-IsBrain : {s t : System M} → Moves s t → IsBrain ids s.brain → IsBrain ids t.brain
  Moves-IsBrain (maintains {s} q event items e e' h r) w =
      Safe-returned (IsBrain ids) r
        (maintain-IsBrain ids event h _ (received_event s.brain q event items e e' w))
  Moves-IsBrain (begins {s} q id items neu e e' l r) w = Safe-returned (IsBrain ids) r (
      begin_neuron-IsBrain ids neu (w.wired.triggers id neu l) (w.wired.casts id neu l) _
        (received_id s.brain q id items e e' w))
  Moves-IsBrain (ends {s} before after neu failure result e r) w =
      Safe-returned (IsBrain ids) r (end_neuron-IsBrain ids neu failure s.brain w)
  Moves-IsBrain (remembers {s} m) w = record {
    wired = w.wired;
    awake = w.awake;
    sized = w.sized;
    b_open = w.b_open;
    n_open = w.n_open;
  }
  Moves-IsBrain (continues {s} id r) w =
      Safe-returned (IsBrain ids) r (continue_cast-IsBrain ids id s.brain w)
  Moves-IsBrain (wakes {s} before after event e r) w = Safe-returned (IsBrain ids) r (
      publish_event-IsBrain ids event _ (record {
        wired = w.wired;
        awake = w.awake;
        sized = w.sized;
        b_open = w.b_open;
        n_open = w.n_open;
      }))
  Moves-IsBrain (trigs {s} ks r) w = start_and_trig-returned ids ks s.brain _ _ (inr w) r

  Reaches-IsBrain : {s t : System M} → Reaches s t → IsBrain ids s.brain → IsBrain ids t.brain
  Reaches-IsBrain stays w = w
  Reaches-IsBrain (goes r m) w = Moves-IsBrain m (Reaches-IsBrain r w)

-- From a brain that is built from a well formed blueprint and started by triggering links, every
-- history of turns without a shutdown, in any interleaving, leaves the brain well formed: awake,
-- both channels open, with at most 10 events in the maintainer's and no more ids in the workers'
-- than that holds, and every pointer of a group a link of the blueprint. The maintainer does not
-- panic there at any event other than a shutdown: a round returns or waits at a full channel, and
-- the brain is well formed then.
pub history-IsBrain :
    {M : Type 0} ⦃mem : Memory M⦄ (id : String) (memory : M) (b : Brainprint)
    (opts : List (Brain M → Brain M)) (ks : List String) (result : Option Error) (woken : Brain M)
    (s : System M)
    → IsGraph b
    → All (IsHarmless (ids_of b)) opts
    → start_and_trig ks (build_brain id memory b opts) ≡ returned result woken
    → Reaches (record { brain = woken; running = [] }) s
    → IsBrain (ids_of b) s.brain
      × ((event : Event)
          → event.action ≢ brain_shutdown_action
          → Safe (IsBrain (ids_of b)) (maintain event s.brain))
history-IsBrain id memory b opts ks result woken s g h e r =
    let w = Reaches-IsBrain (ids_of b) r (
      start_and_trig-returned (ids_of b) ks (build_brain id memory b opts) result woken
        (inl (build_brain-IsStopped id memory b opts g h)) e) in
    (w, λ event a. maintain-IsBrain (ids_of b) event a s.brain w)
