-- ===== src/Brain/Firing.antt =====
-- maintain.go of brainlocal: when `tryActivateNeuron` lets a neuron run.
use rmodel.Brain.{Brain, BrainLink, BrainNeuron, Chan, Event, Groups, Pointer, sleep_event}
use rmodel.Brain.Invariant.{IsBrain, Points, PointsAll}
use rmodel.Brain.Maintain.{
  activate_or_end, if_neuron_should_activate, is_running, ready_prefix, some_group_ready,
  try_activate_neuron,
}
use rmodel.Brain.Power.{is_activated, is_ready}
use rmodel.Brain.Queue.{publish_event, publish_event_activate_neuron}
use rmodel.Brain.Sent.{publish_event-sent, publish_event_activate_neuron-sent, sent_event, sent_id}
use rmodel.Brain.Step.{returned}
use rmodel.Core.{end_neuron_id}
use rmodel.Shared.{
  All, Bool, Bool-cases, List, Option, Option-cases, String, [], ap, arith, false, if◌then◌else◌,
  inl, inr, is_some, length, nat_eq, none, not, refl, some, suc, true, ℕ, ◌&&◌, ◌==◌, ◌||◌, ◌∙◌,
  ◌∷◌, ◌≡◌, ◌≤◌,
}
use rmodel.Shared.Maps.{Map, lookup}

abbrev pub ready_of : Option BrainLink → Bool
ready_of none = false
ready_of (some l) = is_ready l.state

-- The link behind the pointer is ready.
abbrev pub ready_at : Map BrainLink → Pointer → Bool
ready_at links none = false
ready_at links (some id) = ready_of (lookup id links)

abbrev pub all_ready : Map BrainLink → List Pointer → Bool
all_ready links [] = true
all_ready links (p ∷ ps) = ready_at links p && all_ready links ps

abbrev pub is_empty {ℓ} : {A : Type ℓ} → List A → Bool
is_empty [] = true
is_empty (x ∷ xs) = false

-- Some group has a link, and all its links are ready.
abbrev pub some_ready : Map BrainLink → Groups → Bool
some_ready links [] = false
some_ready links ((name, ps) ∷ groups) =
    (not (is_empty ps) && all_ready links ps) || some_ready links groups

ready_prefix_count :
    (ids : String → Bool) (links : Map BrainLink) (ps : List Pointer)
    → ((k : String) → is_some (lookup k links) ≡ ids k)
    → All (Points ids) ps
    → (n : ℕ) × (ready_prefix links ps ≡ some n)
      × (n ≤ length ps)
      × (nat_eq n (length ps) ≡ all_ready links ps)
unfolding ready_prefix
ready_prefix_count ids links [] h k = (0, refl, omega arith, refl)
ready_prefix_count ids links (none ∷ ps) h k = elim k.0 [ ]
ready_prefix_count ids links (some id ∷ ps) h k =
    let (n, e, le, q) = ready_prefix_count ids links ps h k.1 in
    elim (Option-cases (lookup id links)) [
      | inl o ↦ cc (ap is_some o, h id, k.0)
      | inr (l, o) ↦ elim (Bool-cases (is_ready l.state)) [
        | inl r ↦ simp (o, r, e, ready_prefix) (suc n, refl, omega (arith, le), ground (arith, q))
        | inr r ↦ simp (o, r, ready_prefix) (0, refl, omega arith, ground (arith))
      ]
    ]

length_zero : (ps : List Pointer) → nat_eq (length ps) 0 ≡ is_empty ps
length_zero [] = refl
length_zero (p ∷ ps) = ground arith

some_group_ready_lem :
    (ids : String → Bool) (links : Map BrainLink) (groups : Groups)
    → ((k : String) → is_some (lookup k links) ≡ ids k)
    → PointsAll ids groups
    → some_group_ready links groups ≡ some (some_ready links groups)
unfolding some_group_ready
some_group_ready_lem ids links [] h k = refl
some_group_ready_lem ids links ((name, ps) ∷ groups) h k =
    let (n, e, le, q) = ready_prefix_count ids links ps h k.0 in
    simp (e, some_group_ready, q, length_zero ps, some_group_ready_lem ids links groups h k.1)
      (ground arith)

-- In a well formed brain the test on a neuron meets no nil pointer, whatever the order of its
-- groups, and it passes exactly if the brain is running and some group has a link and no link
-- that is not ready.
pub if_neuron_should_activate_lem :
    {M : Type 0} (ids : String → Bool) (n : BrainNeuron) (b : Brain M)
    → IsBrain ids b
    → PointsAll ids n.trigger_groups
    → if_neuron_should_activate n b
      ≡ returned (is_running b.state && some_ready b.links n.trigger_groups) b
unfolding if_neuron_should_activate
if_neuron_should_activate_lem ids n b w h = elim (Bool-cases (is_running b.state)) [
  | inr r ↦ simp (if_neuron_should_activate, r) refl
  | inl r ↦
      simp
        (
          if_neuron_should_activate,
          r,
          some_group_ready_lem ids b.links n.trigger_groups w.wired.links_there h,
        )
        refl
]

-- The call that the tests lead to.
pub try_activate_neuron-calls :
    {M : Type 0} (ids : String → Bool) (n : BrainNeuron) (b : Brain M)
    → IsBrain ids b
    → PointsAll ids n.trigger_groups
    → try_activate_neuron n b ≡ (
        if not (is_activated n.state) && (is_running b.state && some_ready b.links n.trigger_groups)
        then (if n.id == end_neuron_id
            then publish_event (sleep_event "") b
            else publish_event_activate_neuron n.id b)
        else returned tt b)
unfolding try_activate_neuron activate_or_end
try_activate_neuron-calls ids n b w h = elim (Bool-cases (is_activated n.state)) [
  | inl a ↦ simp (try_activate_neuron, a) refl
  | inr a ↦ elim (Bool-cases (is_running b.state && some_ready b.links n.trigger_groups)) [
    | inr r ↦ simp (try_activate_neuron, a, if_neuron_should_activate_lem ids n b w h, r) refl
    | inl r ↦ elim (Bool-cases (n.id == end_neuron_id)) [
      | inl e ↦
          simp
            (
              try_activate_neuron,
              activate_or_end,
              a,
              if_neuron_should_activate_lem ids n b w h,
              r,
              e,
            )
            refl
      | inr e ↦
          simp
            (
              try_activate_neuron,
              activate_or_end,
              a,
              if_neuron_should_activate_lem ids n b w h,
              r,
              e,
            )
            refl
    ]
  ]
]

-- In a well formed brain, an event that asks to activate a neuron puts its id last into the channel
-- of the workers if the neuron is inactive, the brain runs and some group of it is ready; for the END
-- neuron it puts a sleep event last into the maintainer's channel instead; either send waits where
-- the channel is full; else nothing happens.
pub try_activate_neuron_lem :
    {M : Type 0} (ids : String → Bool) (n : BrainNeuron) (b : Brain M) (q : Chan Event)
    (p : Chan String)
    → IsBrain ids b
    → PointsAll ids n.trigger_groups
    → b.b_queue ≡ some q
    → b.n_queue ≡ some p
    → try_activate_neuron n b ≡ (
        if not (is_activated n.state) && (is_running b.state && some_ready b.links n.trigger_groups)
        then (if n.id == end_neuron_id then sent_event (sleep_event "") q b else sent_id n.id p b)
        else returned tt b)
try_activate_neuron_lem ids n b q p w h e e' =
    try_activate_neuron-calls ids n b w h
    ∙ rw
        (
          publish_event-sent ids (sleep_event "") b q w e,
          publish_event_activate_neuron-sent ids n.id b p w e',
        )
        refl
