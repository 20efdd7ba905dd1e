-- ===== src/Brain/Passing.antt =====
-- maintain.go of brainlocal: what `neuronCast` makes of the states of the links.
pub mod Change
pub mod Links
pub mod Select
pub mod Relax
pub mod Whole
use rmodel.Brain.{
  Brain, BrainLink, Chan, Event, EventAction, EventKind, Groups, Pointer, kind_link,
  link_ready_action,
}
use rmodel.Brain.Firing.{ready_at}
use rmodel.Core.{LinkState, link_init, link_ready, link_wait}
use rmodel.Shared.{
  Bool, List, Option, String, [], arith, false, length, none, option_map, refl, some, true, ℕ, ◌&&◌,
  ◌++◌, ◌+◌, ◌==◌, ◌||◌, ◌∷◌, ◌≡◌, ◌≤◌, ◌⊎◌,
}
use rmodel.Shared.Maps.{lookup}

-- A selected link, and a link of the neuron that was not selected.
abbrev pub cast_state : Bool → LinkState → LinkState
cast_state true state = link_ready
cast_state false link_wait = link_ready
cast_state false state = state

abbrev pub relax_state : Bool → LinkState → LinkState
relax_state true state = link_wait
relax_state false link_wait = link_init
relax_state false state = state

abbrev pub points_to : String → List Pointer → Bool
points_to k [] = false
points_to k (none ∷ ps) = points_to k ps
points_to k (some id ∷ ps) = id == k || points_to k ps

abbrev pub in_groups : String → Groups → Bool
in_groups k [] = false
in_groups k ((name, ps) ∷ groups) = points_to k ps || in_groups k groups

-- Each link keeps its place, and its state changes by `f`.
abbrev pub with_state : (LinkState → LinkState) → BrainLink → BrainLink
with_state f l = record l { state = f l.state }

-- Free places in the channel of the maintainer.
abbrev pub HasRoom : {M : Type 0} → ℕ → Brain M → Type 0
HasRoom n b = (q : Chan Event) × (b.b_queue ≡ some q) × (length q.items + n ≤ q.cap)

-- The event says that the link `k` is ready.
abbrev pub is_link_ready : EventKind → EventAction → Bool
is_link_ready kind_link link_ready_action = true
is_link_ready _ _ = false

abbrev pub told : String → List Event → Bool
told k [] = false
told k (e ∷ events) = (is_link_ready e.kind e.action && e.id == k) || told k events

abbrev pub told_in : String → Option (Chan Event) → Bool
told_in k none = false
told_in k (some c) = told k c.items

pub told-append : (k : String) (xs ys : List Event) → told k (xs ++ ys) ≡ (told k xs || told k ys)
told-append k [] ys = refl
told-append k (e ∷ xs) ys = ground (arith, told-append k xs ys)

-- From `b` to `b'`, the links change by `f`; the neurons, the state of the brain and the ids for the
-- workers stay; `n` places are free at the end. The channel of the maintainer keeps the news of ready
-- links that it holds, and has the news of each link that is ready only since.
pub record Passes {M : Type 0} (f : String → LinkState → LinkState) (n : ℕ) (b b' : Brain M)
    : Type 0 where
  pub links : (k : String) → lookup k b'.links ≡ option_map (with_state (f k)) (lookup k b.links)
  pub neurons : b'.neurons ≡ b.neurons
  pub state : b'.state ≡ b.state
  pub n_queue : b'.n_queue ≡ b.n_queue
  pub room : HasRoom n b'
  pub news :
      (k : String)
      → ready_at b'.links (some k) ≡ true
      → (told_in k b'.b_queue ≡ true) ⊎ (ready_at b.links (some k) ≡ true)
  pub keeps : (k : String) → told_in k b.b_queue ≡ true → told_in k b'.b_queue ≡ true
