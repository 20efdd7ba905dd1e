-- ===== src/Brain/Drain.antt =====
-- maintain.go of brainlocal: the loop of the maintainer, and a measure of the work in a brain.
pub mod Sends
pub mod Casts
pub mod Rounds
pub mod Loop
use rmodel.Brain.{
  Brain, BrainLink, Chan, Event, EventAction, EventKind, Memory, brain_shutdown_action, cast_anyway,
  kind_brain, kind_link, kind_neuron, kind_unknown, try_activate,
}
use rmodel.Brain.Cast.{is_wait}
use rmodel.Brain.Maintain.{maintain}
use rmodel.Brain.Power.{count_if}
use rmodel.Brain.Step.{Go, Step, blocked, continue_with, panicked, returned}
use rmodel.Shared.{
  All, Bool, List, Option, String, [], arith, false, length, none, some, suc, true, zero, ℕ, ◌*◌,
  ◌+◌, ◌∷◌, ◌≡◌, ◌≤◌, ◌⊎◌,
}
use rmodel.Shared.Maps.{Map, lookup}

-- `runBrainMaintainer`, for at most `n` rounds, with no other goroutine in between: it returns where
-- no event is left to receive.
unfoldable pub run_brain_maintainer : {M : Type 0} → ⦃mem : Memory M⦄ → ℕ → Go (Brain M) (Unit {0})
run_brain_maintainer zero b = returned tt b
run_brain_maintainer (suc n) b = elim b.b_queue [
  | none ↦ blocked b
  | some q ↦ elim q.items [
    | [] ↦ returned tt b
    | event ∷ items ↦
        continue_with (maintain event (record b { b_queue = some (record q { items = items }) }))
          (λ _. run_brain_maintainer n)
  ]
]

-- An event that makes no more work than it stands for: neither a forced cast nor a shutdown.
abbrev pub is_calm : EventAction → Bool
is_calm cast_anyway = false
is_calm brain_shutdown_action = false
is_calm _ = true

-- The rounds that an event can lead to, a refresh behind each that publishes a sleep included.
abbrev pub weight_of : EventKind → EventAction → ℕ
weight_of kind_link action = 5
weight_of kind_neuron try_activate = 3
weight_of kind_neuron action = 2
weight_of kind_brain action = 1
weight_of kind_unknown action = 1

abbrev pub event_weight : Event → ℕ
event_weight event = weight_of event.kind event.action

abbrev pub queue_weight : List Event → ℕ
queue_weight [] = 0
queue_weight (e ∷ es) = event_weight e + queue_weight es

abbrev pub queued : Option (Chan Event) → List Event
queued none = []
queued (some q) = q.items

abbrev pub waiting : Map BrainLink → ℕ
waiting links = count_if (λ l. is_wait l.state) links

-- Each waiting link can become ready once, and is then an event.
abbrev pub measure : {M : Type 0} → Brain M → ℕ
measure b = queue_weight (queued b.b_queue) + 5 * waiting b.links

abbrev pub AllCalm : List Event → Type 0
AllCalm events = All (λ e. is_calm e.action ≡ true) events

-- The events are calm, the links stand under their ids, and the measure is at most `n`.
pub record Within {M : Type 0} (n : ℕ) (b : Brain M) : Type 0 where
  pub calm : AllCalm (queued b.b_queue)
  pub keyed : (k : String) (l : BrainLink) → lookup k b.links ≡ some l → l.id ≡ k
  pub small : measure b ≤ n

abbrev pub IsFull {ℓ} : {A : Type ℓ} → Option (Chan A) → Type ℓ
IsFull {A = A} o = (c : Chan A) × (o ≡ some c) × (c.cap ≤ length c.items)

-- One of the two channels is full.
abbrev pub IsStuck : {M : Type 0} → Brain M → Type 0
IsStuck b = IsFull b.b_queue ⊎ IsFull b.n_queue

-- Where the run returns, the measure is at most `n`, and where it blocks, a channel is full.
abbrev pub Costs {ℓ} : {M : Type 0} {A : Type ℓ} → ℕ → Step (Brain M) A → Type 0
Costs n (returned a s) = Within n s
Costs n (blocked s) = IsStuck s
Costs n (panicked s) = Unit

pub Costs-continue_with {ℓ κ} :
    {M : Type 0} {A : Type ℓ} {B : Type κ} (n m : ℕ) (x : Step (Brain M) A) (f : A → Go (Brain M) B)
    → Costs n x
    → ((a : A) (s : Brain M) → Within n s → Costs m (f a s))
    → Costs m (continue_with x f)
Costs-continue_with n m (returned a s) f c k = k a s c
Costs-continue_with n m (blocked s) f c k = c
Costs-continue_with n m (panicked s) f c k = tt

pub Within-more : {M : Type 0} (n m : ℕ) (b : Brain M) → n ≤ m → Within n b → Within m b
Within-more n m b h w = record { calm = w.calm; keyed = w.keyed; small = omega (arith, h, w.small) }

pub Costs-more {ℓ} :
    {M : Type 0} {A : Type ℓ} (n m : ℕ) (x : Step (Brain M) A) → n ≤ m → Costs n x → Costs m x
Costs-more n m (returned a s) h c = Within-more n m s h c
Costs-more n m (blocked s) h c = c
Costs-more n m (panicked s) h c = tt
