-- ===== src/Brain/Invariant/Handlers.antt =====
-- maintain.go of brainlocal: every round of the maintainer keeps the brain well formed.
use rmodel.Brain.{
  BrainLink, BrainNeuron, Event, EventAction, EventKind, Groups, Memory, Pointer,
  brain_shutdown_action, brain_sleep, cast_anyway, kind_brain, kind_link, kind_neuron, kind_unknown,
  link_init_action, link_ready_action, link_wait_action, sleep_event, try_activate,
  try_activate_event, try_cast, try_inactive,
}
use rmodel.Brain.Cast.{neuron_cast}
use rmodel.Brain.Ensures.{Keeps, Keeps->>, Keeps->>=, Keeps-if, Safe-continue_with}
use rmodel.Brain.Invariant.{IsBrain, Points, PointsAll}
use rmodel.Brain.Invariant.Casts.{neuron_cast-IsBrain}
use rmodel.Brain.Invariant.Queues.{publish_event-IsBrain, publish_event_activate_neuron-IsBrain}
use rmodel.Brain.Invariant.Sleep.{force_sleep-IsBrain}
use rmodel.Brain.Maintain.{
  activate_or_end, handle, handle_brain_event, handle_link_event, handle_neuron_event,
  if_neuron_should_activate, is_running, maintain, on_link, on_neuron, ready_prefix, refresh_unless,
  some_group_ready, try_activate_neuron,
}
use rmodel.Brain.Power.{
  get_link_count_by_state, get_neuron_count_by_state, is_activated, refresh_state, set_state,
}
use rmodel.Brain.Queue.{publish_event, publish_event_activate_neuron}
use rmodel.Brain.Step.{pure}
use rmodel.Core.{end_neuron_id}
use rmodel.Errors.{Error}
use rmodel.Shared.{
  All, Bool, Bool-cases, List, Option, Option-cases, String, [], ap, arith, false, inl, inr,
  is_some, nat_eq, none, refl, some, true, ◌+◌, ◌==◌, ◌∷◌, ◌≡◌, ◌≢◌,
}
use rmodel.Shared.Maps.{Map, lookup}

ready_prefix_some :
    (ids : String → Bool) (links : Map BrainLink) (ps : List Pointer)
    → ((k : String) → is_some (lookup k links) ≡ ids k)
    → All (Points ids) ps
    → is_some (ready_prefix links ps) ≡ true
unfolding ready_prefix
ready_prefix_some ids links [] h k = refl
ready_prefix_some ids links (none ∷ ps) h k = elim k.0 [ ]
ready_prefix_some ids links (some id ∷ ps) h k =
    ground (arith, ready_prefix_some ids links ps h k.1, h id, k.0)

some_group_ready_some :
    (ids : String → Bool) (links : Map BrainLink) (groups : Groups)
    → ((k : String) → is_some (lookup k links) ≡ ids k)
    → PointsAll ids groups
    → is_some (some_group_ready links groups) ≡ true
unfolding some_group_ready
some_group_ready_some ids links [] h k = refl
some_group_ready_some ids links ((name, ps) ∷ groups) h k =
    ground
      (arith, ready_prefix_some ids links ps h k.0, some_group_ready_some ids links groups h k.1)

module _ {M : Type 0} (ids : String → Bool) where
  pub refresh_state-IsBrain : Keeps (IsBrain ids) (refresh_state {M = M})
  unfolding refresh_state set_state
  refresh_state-IsBrain b w =
      elim (Bool-cases (
        nat_eq
          ((get_neuron_count_by_state b).1
            + (get_link_count_by_state b).1
            + (get_link_count_by_state b).2)
          0)) [
            | inl e ↦ simp (e, refresh_state) (publish_event-IsBrain ids (sleep_event b.id) b w)
            | inr e ↦
                simp (e, refresh_state)
                  (record {
                    wired = w.wired;
                    awake = refl;
                    sized = w.sized;
                    b_open = w.b_open;
                    n_open = w.n_open;
                  })
          ]

  if_neuron_should_activate-IsBrain :
      (n : BrainNeuron)
      → PointsAll ids n.trigger_groups
      → Keeps (IsBrain ids) (if_neuron_should_activate {M = M} n)
  unfolding if_neuron_should_activate
  if_neuron_should_activate-IsBrain n h b w = elim (Bool-cases (is_running b.state)) [
    | inr r ↦ simp (if_neuron_should_activate, r) w
    | inl r ↦ elim (Option-cases (some_group_ready b.links n.trigger_groups)) [
      | inl e ↦
          cc
            (ap is_some e, some_group_ready_some ids b.links n.trigger_groups w.wired.links_there h)
      | inr (should, e) ↦ simp (if_neuron_should_activate, r, e) w
    ]
  ]

  try_activate_neuron-IsBrain :
      (n : BrainNeuron)
      → PointsAll ids n.trigger_groups
      → Keeps (IsBrain ids) (try_activate_neuron {M = M} n)
  unfolding try_activate_neuron activate_or_end if_neuron_should_activate
  try_activate_neuron-IsBrain n h =
      Keeps-if (IsBrain ids) (is_activated n.state) (pure tt) _ (λ b w. w)
        (Keeps->>= (IsBrain ids) (if_neuron_should_activate n) _
          (if_neuron_should_activate-IsBrain n h)
          (λ should.
            Keeps-if (IsBrain ids) should (activate_or_end n) (pure tt)
              (Keeps-if (IsBrain ids) (n.id == end_neuron_id) (publish_event (sleep_event ""))
                (publish_event_activate_neuron n.id) (publish_event-IsBrain ids (sleep_event ""))
                (publish_event_activate_neuron-IsBrain ids n.id))
              (λ b w. w)))

  on_link-IsBrain :
      (action : EventAction) (l : BrainLink) → Keeps (IsBrain ids) (on_link {M = M} action l)
  unfolding on_link
  on_link-IsBrain link_init_action l b w = w
  on_link-IsBrain link_wait_action l b w = w
  on_link-IsBrain link_ready_action l b w = elim (Option-cases (lookup l.to b.neurons)) [
    | inl e ↦ simp (e, on_link) w
    | inr (dest, e) ↦
        simp (e, on_link)
          (Safe-continue_with (IsBrain ids) (publish_event (try_activate_event dest.id) b) _
            (publish_event-IsBrain ids (try_activate_event dest.id) b w) (λ _ b' w'. w'))
  ]
  on_link-IsBrain _ l b w = w

  pub handle_link_event-IsBrain :
      (action : EventAction) (link_id : String)
      → Keeps (IsBrain ids) (handle_link_event {M = M} action link_id)
  unfolding handle_link_event
  handle_link_event-IsBrain action link_id b w = elim (Option-cases (lookup link_id b.links)) [
    | inl e ↦ simp (e, handle_link_event) w
    | inr (l, e) ↦ simp (e, handle_link_event) (on_link-IsBrain action l b w)
  ]

  module _ ⦃mem : Memory M⦄ where
    on_neuron-IsBrain :
        (action : EventAction) (n : BrainNeuron)
        → PointsAll ids n.trigger_groups
        → PointsAll ids n.cast_groups
        → Keeps (IsBrain ids) (on_neuron {M = M} action n)
    unfolding on_neuron
    on_neuron-IsBrain try_inactive n t c b w = w
    on_neuron-IsBrain try_activate n t c b w =
        Keeps->> (IsBrain ids) (try_activate_neuron n) (pure none) (try_activate_neuron-IsBrain n t)
          (λ b' w'. w') b w
    on_neuron-IsBrain try_cast n t c b w =
        Keeps->> (IsBrain ids) (neuron_cast n false) (pure none) (neuron_cast-IsBrain ids n false c)
          (λ b' w'. w') b w
    on_neuron-IsBrain cast_anyway n t c b w =
        Keeps->> (IsBrain ids) (neuron_cast n true) (pure none) (neuron_cast-IsBrain ids n true c)
          (λ b' w'. w') b w
    on_neuron-IsBrain _ n t c b w = w

    pub handle_neuron_event-IsBrain :
        (action : EventAction) (neuron_id : String)
        → Keeps (IsBrain ids) (handle_neuron_event {M = M} action neuron_id)
    unfolding handle_neuron_event
    handle_neuron_event-IsBrain action neuron_id b w =
        elim (Option-cases (lookup neuron_id b.neurons)) [
          | inl e ↦ simp (e, handle_neuron_event) w
          | inr (n, e) ↦
              simp (e, handle_neuron_event)
                (on_neuron-IsBrain action n (w.wired.triggers neuron_id n e)
                  (w.wired.casts neuron_id n e) b w)
        ]

    refresh_unless-IsBrain :
        (failure : Option Error) → Keeps (IsBrain ids) (refresh_unless {M = M} failure)
    refresh_unless-IsBrain none b w = refresh_state-IsBrain b w
    refresh_unless-IsBrain (some e) b w = w

    handle_brain_event-IsBrain :
        (action : EventAction)
        → action ≢ brain_shutdown_action
        → Keeps (IsBrain ids) (handle_brain_event {M = M} action)
    unfolding handle_brain_event
    handle_brain_event-IsBrain brain_sleep h b w = force_sleep-IsBrain ids b w
    handle_brain_event-IsBrain brain_shutdown_action h b w = elim (h refl) [ ]
    handle_brain_event-IsBrain _ h b w = w

    handle-IsBrain :
        (kind : EventKind) (event : Event)
        → event.action ≢ brain_shutdown_action
        → Keeps (IsBrain ids) (handle {M = M} kind event)
    unfolding handle
    handle-IsBrain kind_link event h =
        Keeps->>= (IsBrain ids) (handle_link_event event.action event.id) refresh_unless
          (handle_link_event-IsBrain event.action event.id) refresh_unless-IsBrain
    handle-IsBrain kind_neuron event h =
        Keeps->>= (IsBrain ids) (handle_neuron_event event.action event.id) refresh_unless
          (handle_neuron_event-IsBrain event.action event.id) refresh_unless-IsBrain
    handle-IsBrain kind_brain event h =
        Keeps->> (IsBrain ids) (handle_brain_event event.action) (pure tt)
          (handle_brain_event-IsBrain event.action h) (λ b w. w)
    handle-IsBrain kind_unknown event h = λ b w. w

    -- A round of the maintainer on a brain that is awake and well formed, for any event but a
    -- shutdown, leaves it awake and well formed, whether the round returns or blocks at a full
    -- channel, and never panics: no nil pointer is met and no closed channel written.
    pub maintain-IsBrain :
        (event : Event)
        → event.action ≢ brain_shutdown_action
        → Keeps (IsBrain ids) (maintain {M = M} event)
    unfolding maintain
    maintain-IsBrain event h = handle-IsBrain event.kind event h
