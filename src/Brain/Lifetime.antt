-- ===== src/Brain/Lifetime.antt =====
-- brain_local.go of brainlocal: the life of a brain from `BuildBrain` on, in which it is shut down
-- between runs and started again.
use rmodel.Blueprint.Brainprint.{Brainprint}
use rmodel.Blueprint.Graph.{IsGraph}
use rmodel.Brain.{Brain, Chan, Event, Memory, cast_anyway_event, is_chan_len}
use rmodel.Brain.Ensures.{Safe, Safe-returned}
use rmodel.Brain.Invariant.{IsBrain}
use rmodel.Brain.Invariant.Build.{IsHarmless, ids_of}
use rmodel.Brain.Invariant.Queues.{same_chan}
use rmodel.Brain.Invariant.Start.{IsStopped, start_and_trig-IsBrain, start_and_trig-returned}
use rmodel.Brain.Life.{build_brain, start_and_trig}
use rmodel.Brain.Power.{close_chan, close_memory, on_memory, set_state, shutdown}
use rmodel.Brain.Queue.{is_shutdown, publish_event}
use rmodel.Brain.Runner.{continue_cast}
use rmodel.Brain.Step.{Step, blocked, continue_with, modify, panicked, returned, run_on}
use rmodel.Brain.System.{
  Moves, Moves-IsBrain, Reaches, System, begins, continues, ends, goes, history-IsBrain, maintains,
  remembers, stays, trigs, wakes,
}
use rmodel.Core.{brain_shutdown}
use rmodel.Errors.{Error}
use rmodel.Shared.{
  All, Bool, Bool-cases, List, Option, Option-cases, String, [], ap, inl, inr, is_some, refl, some,
  some-injective, sym, true, ◌++◌, ◌∙◌, ◌∷◌, ◌≡◌, ◌⊎◌,
}
use rmodel.Shared.Maps.{lookup}

-- Nothing waits in the channel.
abbrev IsDrained {ℓ} : {A : Type ℓ} → Option (Chan A) → Type ℓ
IsDrained {A = A} o = (c : Chan A) → o ≡ some c → c.items ≡ []

-- Nothing waits in the channels, and no processor runs. Events that sleep may be left.
abbrev pub IsIdle : {M : Type 0} → System M → Type 0
IsIdle s = IsDrained s.brain.b_queue × IsDrained s.brain.n_queue × (s.running ≡ [])

-- A turn of one of the goroutines, or a `Shutdown` by a caller while the brain is idle.
pub data Lives {M : Type 0} ⦃mem : Memory M⦄ : System M → System M → Type 0 where
  moves : {s t : System M} → Moves s t → Lives s t
  shuts :
      {s : System M} {b' : Brain M}
      → IsIdle s
      → shutdown s.brain ≡ returned tt b'
      → Lives s (record s { brain = b' })

pub data Endures {M : Type 0} ⦃mem : Memory M⦄ : System M → System M → Type 0 where
  is_built : {s : System M} → Endures s s
  lives_on : {s t u : System M} → Endures s t → Lives t u → Endures s u

-- A history without a shutdown is one of these.
pub endured : {M : Type 0} ⦃mem : Memory M⦄ {s t : System M} → Reaches s t → Endures s t
endured stays = is_built
endured (goes r m) = lives_on (endured r) (moves m)

-- The channel is not there, or is empty and closed.
abbrev IsDown {ℓ} : {A : Type ℓ} → Option (Chan A) → Type ℓ
IsDown {A = A} o = (c : Chan A) → o ≡ some c → (c.items ≡ []) × (c.is_closed ≡ true)

-- A brain that is not yet started, or that was shut down while it was idle.
pub record IsParked {M : Type 0} (ids : String → Bool) (s : System M) : Type 0 where
  pub stopped : IsStopped ids s.brain
  pub b_down : IsDown s.brain.b_queue
  pub n_down : IsDown s.brain.n_queue
  pub sized : is_chan_len s.brain.n_queue_len ≡ true
  pub nobody : s.running ≡ []

none_waits {ℓ} :
    {A : Type ℓ} (o : Option (Chan A)) (c : Chan A) (a : A) (items : List A)
    → IsDown o
    → o ≡ some c
    → c.items ≡ a ∷ items
    → ⊥
none_waits o c a items h e e' = let p = (h c e).0 in cc (p, e')

none_runs {ℓ} : {A : Type ℓ} (before after : List A) (a : A) → [] ≡ before ++ a ∷ after → ⊥
none_runs [] after a e = cc e
none_runs (x ∷ before) after a e = cc e

publish_event-stopped :
    {M : Type 0} (event : Event) (b : Brain M)
    → is_shutdown b.state ≡ true
    → publish_event event b ≡ returned tt b
unfolding publish_event
publish_event-stopped event b s = elim (Option-cases b.b_queue) [
  | inl e ↦ simp (publish_event, e) refl
  | inr (q, e) ↦ simp (publish_event, e, s) refl
]

continue_cast-stopped :
    {M : Type 0} (id : String) (b : Brain M)
    → is_shutdown b.state ≡ true
    → continue_cast id b ≡ returned tt b
unfolding continue_cast
continue_cast-stopped id b s = elim (Bool-cases (is_some (lookup id b.neurons))) [
  | inl e ↦ simp (continue_cast, e) (publish_event-stopped (cast_anyway_event id) b s)
  | inr e ↦ simp (continue_cast, e) refl
]

shutdown_down :
    {M : Type 0} ⦃mem : Memory M⦄ (b : Brain M) → IsDown b.n_queue → shutdown b ≡ panicked b
unfolding shutdown close_chan
shutdown_down b h = elim (Option-cases b.n_queue) [
  | inl e ↦ simp (shutdown, e, close_chan) refl
  | inr (c, e) ↦ let closed = (h c e).1 in simp (shutdown, e, close_chan, closed) refl
]

-- `close` of a channel in which nothing waits.
closed-IsDown {ℓ} :
    {A : Type ℓ} (o : Option (Chan A)) (c : Chan A)
    → IsDrained o
    → o ≡ some c
    → IsDown (some (record c { is_closed = true }))
closed-IsDown o c h e d e' =
    let p = some-injective (record c { is_closed = true }) d e' in
    (sym (ap (λ q. q.items) p) ∙ h c e, sym (ap (λ q. q.is_closed) p))

module _ {M : Type 0} ⦃mem : Memory M⦄ (ids : String → Bool) where
  -- An awake brain with its two channels closed.
  abbrev with_closed : Chan Event → Chan String → Brain M → M → Brain M
  with_closed bc nc b m = record b {
    memory = m;
    b_queue = some (record bc { is_closed = true });
    n_queue = some (record nc { is_closed = true });
  }

  shutdown_awake :
      (b : Brain M) (bc : Chan Event) (nc : Chan String)
      → IsBrain ids b
      → b.b_queue ≡ some bc
      → b.n_queue ≡ some nc
      → shutdown b
        ≡ continue_with
            (run_on (with_closed bc nc b) (mem.close b.memory))
            (λ _. modify (set_state brain_shutdown))
  unfolding shutdown close_chan close_memory on_memory
  shutdown_awake b bc nc w be ne =
      let bo = same_chan _ b.b_queue bc be w.b_open in
      let nopen = same_chan _ b.n_queue nc ne w.n_open in
      simp (shutdown, be, ne, bo, nopen, close_chan, close_memory, on_memory) refl

  closing-IsParked :
      (s : System M) (bc : Chan Event) (nc : Chan String) (x : Step M (Unit {0})) (b' : Brain M)
      → IsIdle s
      → IsBrain ids s.brain
      → s.brain.b_queue ≡ some bc
      → s.brain.n_queue ≡ some nc
      → continue_with
          (run_on (with_closed bc nc s.brain) x)
          (λ _. modify (set_state brain_shutdown))
        ≡ returned tt b'
      → IsParked ids (record s { brain = b' })
  unfolding set_state
  closing-IsParked s bc nc (returned u m) b' (bd, nd, e) w be ne r =
      Safe-returned (λ b. IsParked ids (record s { brain = b })) r
        (record {
          stopped = record { wired = w.wired; stopped = refl };
          b_down = closed-IsDown s.brain.b_queue bc bd be;
          n_down = closed-IsDown s.brain.n_queue nc nd ne;
          sized = w.sized;
          nobody = e;
        })
  closing-IsParked s bc nc (blocked m) b' i w be ne r = cc r
  closing-IsParked s bc nc (panicked m) b' i w be ne r = cc r

  shutdown-IsParked :
      (s : System M) (b' : Brain M)
      → IsIdle s
      → IsBrain ids s.brain
      → shutdown s.brain ≡ returned tt b'
      → IsParked ids (record s { brain = b' })
  shutdown-IsParked s b' i w r =
      let (bc, be, bo, bcap, bn) = w.b_open in
      let (nc, ne, nopen, ncap, nn) = w.n_open in
      closing-IsParked s bc nc (mem.close s.brain.memory) b' i w be ne
        (sym (shutdown_awake s.brain bc nc w be ne) ∙ r)

  -- What a brain is between its turns.
  abbrev Stands : System M → Type 0
  Stands s = IsBrain ids s.brain ⊎ IsParked ids s

  parked-Moves : {s t : System M} → Moves s t → IsParked ids s → Stands t
  parked-Moves (maintains {s} q event items e e' h r) w =
      elim (none_waits s.brain.b_queue q event items w.b_down e e') [ ]
  parked-Moves (begins {s} q id items neu e e' l r) w =
      elim (none_waits s.brain.n_queue q id items w.n_down e e') [ ]
  parked-Moves (ends {s} before after neu failure result e r) w =
      elim (none_runs before after neu (sym w.nobody ∙ e)) [ ]
  parked-Moves (remembers {s} m) w = inr (record {
    stopped = record { wired = w.stopped.wired; stopped = w.stopped.stopped };
    b_down = w.b_down;
    n_down = w.n_down;
    sized = w.sized;
    nobody = w.nobody;
  })
  parked-Moves (continues {s} id r) w = inr (
      Safe-returned (λ b. IsParked ids (record s { brain = b })) r
        (rw (continue_cast-stopped id s.brain w.stopped.stopped) w))
  parked-Moves (wakes {s} before after event e r) w = inr (
      Safe-returned (λ b. IsParked ids (record s { brain = b })) r
        (rw
          (publish_event-stopped event (record s.brain { delayed = before ++ after })
            w.stopped.stopped)
          (record {
            stopped = record { wired = w.stopped.wired; stopped = w.stopped.stopped };
            b_down = w.b_down;
            n_down = w.n_down;
            sized = w.sized;
            nobody = w.nobody;
          })))
  parked-Moves (trigs {s} ks r) w =
      inl (start_and_trig-returned ids ks s.brain _ _ (inl w.stopped) r)

  Lives-Stands : {s t : System M} → Lives s t → Stands s → Stands t
  Lives-Stands (moves m) (inl w) = inl (Moves-IsBrain ids m w)
  Lives-Stands (moves m) (inr w) = parked-Moves m w
  Lives-Stands (shuts {s} {b'} i r) (inl w) = inr (shutdown-IsParked s b' i w r)
  Lives-Stands (shuts {s} {b'} i r) (inr w) = let p = shutdown_down s.brain w.n_down in cc (p, r)

  Endures-Stands : {s t : System M} → Endures s t → Stands s → Stands t
  Endures-Stands is_built w = w
  Endures-Stands (lives_on h l) w = Lives-Stands l (Endures-Stands h w)

-- From a brain that is built from a well formed blueprint and started by triggering links, through
-- every sequence of turns of its goroutines, of calls that trigger links, and of shutdowns at
-- moments when both channels are empty and no processor runs: the brain is awake and well formed,
-- or it is stopped, with no channel that is open or holds something, and no processor at work.
-- Either way a call that triggers links, with the memory ready, does not panic: it returns or
-- blocks, with the brain awake and well formed.
pub lifetime_lem :
    {M : Type 0} ⦃mem : Memory M⦄ (id : String) (memory : M) (b : Brainprint)
    (opts : List (Brain M → Brain M)) (ks : List String) (result : Option Error) (woken : Brain M)
    (s : System M)
    → IsGraph b
    → All (IsHarmless (ids_of b)) opts
    → start_and_trig ks (build_brain id memory b opts) ≡ returned result woken
    → Endures (record { brain = woken; running = [] }) s
    → (IsBrain (ids_of b) s.brain ⊎ IsParked (ids_of b) s)
      × ((again : List String) → Safe (IsBrain (ids_of b)) (start_and_trig again s.brain))
lifetime_lem id memory b opts ks result woken s g h r e =
    let (w, rounds) = history-IsBrain id memory b opts ks result woken _ g h r stays in
    let v = Endures-Stands (ids_of b) e (inl w) in
    (v, λ again. start_and_trig-IsBrain (ids_of b) again s.brain (fitting v) (stopped_or v))
  where
    fitting :
        IsBrain (ids_of b) s.brain ⊎ IsParked (ids_of b) s → is_chan_len s.brain.n_queue_len ≡ true
    fitting (inl w) = w.sized
    fitting (inr w) = w.sized

    stopped_or :
        IsBrain (ids_of b) s.brain ⊎ IsParked (ids_of b) s
        → IsStopped (ids_of b) s.brain ⊎ IsBrain (ids_of b) s.brain
    stopped_or (inl w) = inr w
    stopped_or (inr w) = inl w.stopped
