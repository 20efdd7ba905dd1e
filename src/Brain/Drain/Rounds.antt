-- ===== src/Brain/Drain/Rounds.antt =====
-- maintain.go of brainlocal: a round of the maintainer costs at least one.
use rmodel.Brain.{
  Brain, BrainLink, BrainNeuron, Event, EventAction, EventKind, Memory, brain_shutdown_action,
  brain_sleep, cast_anyway, kind_brain, kind_link, kind_neuron, kind_unknown, link_ready_action,
  sleep_event, try_activate, try_activate_event, try_cast, try_inactive,
}
use rmodel.Brain.Cast.{neuron_cast}
use rmodel.Brain.Drain.{
  Costs, Costs-continue_with, Costs-more, Within, Within-more, event_weight, is_calm, waiting,
  weight_of,
}
use rmodel.Brain.Drain.Casts.{neuron_cast-Costs}
use rmodel.Brain.Drain.Sends.{publish_event-Costs}
use rmodel.Brain.Invariant.Sleep.{lookup-reset_links, reset_link}
use rmodel.Brain.Maintain.{
  activate_or_end, handle, handle_brain_event, handle_link_event, handle_neuron_event,
  if_neuron_should_activate, is_running, maintain, on_link, on_neuron, refresh_unless,
  some_group_ready, try_activate_neuron,
}
use rmodel.Brain.Power.{
  count_if, force_sleep, get_link_count_by_state, get_neuron_count_by_state, is_activated,
  refresh_state, reset_links, set_state,
}
use rmodel.Brain.Queue.{is_shutdown, publish_event, publish_event_activate_neuron, send}
use rmodel.Brain.Step.{Step, continue_with, pure}
use rmodel.Core.{end_neuron_id}
use rmodel.Errors.{Error}
use rmodel.Shared.{
  Bool, Bool-cases, Option, Option-cases, String, [], ap, arith, false, if◌then◌else◌, inl, inr,
  le_of_ltb, length, ltb, nat_eq, none, option_map-some, refl, some, suc, sym, true, ℕ, ◌+◌, ◌-◌,
  ◌==◌, ◌∙◌, ◌∷◌, ◌≡◌, ◌≤◌,
}
use rmodel.Shared.Maps.{Map, lookup}

waiting-reset_links : (links : Map BrainLink) → waiting (reset_links links) ≡ 0
unfolding reset_links count_if
waiting-reset_links [] = refl
waiting-reset_links ((k, l) ∷ links) = waiting-reset_links links

neuron_weight : (action : EventAction) → 2 ≤ weight_of kind_neuron action
neuron_weight try_activate = omega arith
neuron_weight _ = omega arith

module _ {M : Type 0} where
  refresh_state-Costs : (n : ℕ) (b : Brain M) → Within n b → Costs (suc n) (refresh_state b)
  unfolding refresh_state set_state
  refresh_state-Costs n b w =
      elim (Bool-cases (
        nat_eq
          ((get_neuron_count_by_state b).1
            + (get_link_count_by_state b).1
            + (get_link_count_by_state b).2)
          0)) [
            | inl e ↦
                simp (e, refresh_state)
                  (Costs-more (n + 1) (suc n) (publish_event (sleep_event b.id) b) (omega arith)
                    (publish_event-Costs (sleep_event b.id) n b refl w))
            | inr e ↦
                simp (e, refresh_state)
                  (record { calm = w.calm; keyed = w.keyed; small = omega (arith, w.small) })
          ]

  publish_event_activate_neuron-Costs :
      (id : String) (n : ℕ) (b : Brain M)
      → Within n b
      → Costs n (publish_event_activate_neuron id b)
  unfolding publish_event_activate_neuron send
  publish_event_activate_neuron-Costs id n b w = elim (Option-cases b.n_queue) [
    | inl e ↦ simp (e, publish_event_activate_neuron) w
    | inr (q, e) ↦ elim (Bool-cases (is_shutdown b.state)) [
      | inl s ↦ simp (e, s, publish_event_activate_neuron) w
      | inr s ↦ elim (Bool-cases q.is_closed) [
        | inl c ↦ simp (e, s, c, publish_event_activate_neuron, send) tt
        | inr c ↦ elim (Bool-cases (ltb (length q.items) q.cap)) [
          | inr full ↦
              simp (e, s, c, full, publish_event_activate_neuron, send)
                (inr (q, refl, le_of_ltb (length q.items) q.cap full))
          | inl free ↦
              simp (e, s, c, free, publish_event_activate_neuron, send)
                (record { calm = w.calm; keyed = w.keyed; small = w.small })
        ]
      ]
    ]
  ]

  activate_or_end-Costs :
      (neu : BrainNeuron) (n : ℕ) (b : Brain M) → Within n b → Costs (suc n) (activate_or_end neu b)
  unfolding activate_or_end
  activate_or_end-Costs neu n b w = elim (Bool-cases (neu.id == end_neuron_id)) [
    | inl e ↦ rw (e) (
        Costs-more (n + 1) (suc n) (publish_event (sleep_event "") b) (omega arith)
          (publish_event-Costs (sleep_event "") n b refl w))
    | inr e ↦ rw (e) (
        Costs-more n (suc n) (publish_event_activate_neuron neu.id b) (omega arith)
          (publish_event_activate_neuron-Costs neu.id n b w))
  ]

  try_activate_neuron-Costs :
      (neu : BrainNeuron) (n : ℕ) (b : Brain M)
      → Within n b
      → Costs (suc n) (try_activate_neuron neu b)
  unfolding try_activate_neuron if_neuron_should_activate
  try_activate_neuron-Costs neu n b w = elim (Bool-cases (is_activated neu.state)) [
    | inl a ↦ simp (try_activate_neuron, a) (Within-more n (suc n) b (omega arith) w)
    | inr a ↦ elim (Bool-cases (is_running b.state)) [
      | inr r ↦
          simp (try_activate_neuron, if_neuron_should_activate, a, r)
            (Within-more n (suc n) b (omega arith) w)
      | inl r ↦ elim (Option-cases (some_group_ready b.links neu.trigger_groups)) [
        | inl e ↦ simp (try_activate_neuron, if_neuron_should_activate, a, r, e) tt
        | inr (should, e) ↦
            simp (try_activate_neuron, if_neuron_should_activate, a, r, e) (by_answer should)
      ]
    ]
  ]
    where
      by_answer :
          (should : Bool) → Costs (suc n) ((if should then activate_or_end neu else pure tt) b)
      by_answer true = activate_or_end-Costs neu n b w
      by_answer false = Within-more n (suc n) b (omega arith) w

  on_link-Costs :
      (action : EventAction) (l : BrainLink) (n : ℕ) (b : Brain M)
      → Within n b
      → Costs (n + 3) (on_link action l b)
  unfolding on_link
  on_link-Costs link_ready_action l n b w = elim (Option-cases (lookup l.to b.neurons)) [
    | inl e ↦ simp (on_link, e) (Within-more n (n + 3) b (omega arith) w)
    | inr (dest, e) ↦
        simp (on_link, e)
          (Costs-continue_with (n + 3) (n + 3) (publish_event (try_activate_event dest.id) b) _
            (publish_event-Costs (try_activate_event dest.id) n b refl w) (λ _ s v. v))
  ]
  on_link-Costs _ l n b w = Within-more n (n + 3) b (omega arith) w

  handle_link_event-Costs :
      (action : EventAction) (id : String) (n : ℕ) (b : Brain M)
      → Within n b
      → Costs (n + 3) (handle_link_event action id b)
  unfolding handle_link_event
  handle_link_event-Costs action id n b w = elim (Option-cases (lookup id b.links)) [
    | inl e ↦ simp (handle_link_event, e) (Within-more n (n + 3) b (omega arith) w)
    | inr (l, e) ↦ simp (handle_link_event, e) (on_link-Costs action l n b w)
  ]

  force_sleep-Within : (n : ℕ) (b : Brain M) → Within n b → Within n (force_sleep b)
  unfolding force_sleep set_state
  force_sleep-Within n b w = record {
    calm = w.calm;
    keyed = λ k l e.
        let (l', e', p) =
          option_map-some reset_link (lookup k b.links) l
            (sym (lookup-reset_links k b.links) ∙ e) in
        ap (λ x. x.id) (sym p) ∙ w.keyed k l' e';
    small = omega (arith, w.small, waiting-reset_links b.links);
  }

  module _ ⦃mem : Memory M⦄ where
    refresh_unless-Costs :
        (o : Option Error) (n : ℕ) (b : Brain M) → Within n b → Costs (suc n) (refresh_unless o b)
    refresh_unless-Costs none n b w = refresh_state-Costs n b w
    refresh_unless-Costs (some e) n b w = Within-more n (suc n) b (omega arith) w

    -- The error or the refresh behind a handler.
    then_refresh :
        (n : ℕ) (x : Step (Brain M) (Option Error))
        → Costs n x
        → Costs (suc n) (continue_with x refresh_unless)
    then_refresh n x c =
        Costs-continue_with n (suc n) x refresh_unless c (λ o s v. refresh_unless-Costs o n s v)

    on_neuron-Costs :
        (action : EventAction) (neu : BrainNeuron) (n m : ℕ) (b : Brain M)
        → is_calm action ≡ true
        → n + weight_of kind_neuron action ≡ suc (suc m)
        → Within n b
        → Costs m (on_neuron action neu b)
    unfolding on_neuron
    on_neuron-Costs try_inactive neu n m b c e w = Within-more n m b (omega (arith, e)) w
    on_neuron-Costs try_activate neu n m b c e w =
        Costs-continue_with m m (try_activate_neuron neu b) _
          (Costs-more (suc n) m (try_activate_neuron neu b) (omega (arith, e))
            (try_activate_neuron-Costs neu n b w))
          (λ _ s v. v)
    on_neuron-Costs try_cast neu n m b c e w =
        Costs-continue_with m m (neuron_cast neu false b) _
          (Costs-more n m (neuron_cast neu false b) (omega (arith, e))
            (neuron_cast-Costs neu n b w))
          (λ _ s v. v)
    on_neuron-Costs cast_anyway neu n m b c e w = cc c
    on_neuron-Costs _ neu n m b c e w = Within-more n m b (omega (arith, e)) w

    handle_neuron_event-Costs :
        (action : EventAction) (id : String) (n m : ℕ) (b : Brain M)
        → is_calm action ≡ true
        → n + weight_of kind_neuron action ≡ suc (suc m)
        → n ≤ m
        → Within n b
        → Costs m (handle_neuron_event action id b)
    unfolding handle_neuron_event
    handle_neuron_event-Costs action id n m b c e h w = elim (Option-cases (lookup id b.neurons)) [
      | inl x ↦ simp (handle_neuron_event, x) (Within-more n m b h w)
      | inr (neu, x) ↦ simp (handle_neuron_event, x) (on_neuron-Costs action neu n m b c e w)
    ]

    handle_brain_event-Costs :
        (action : EventAction) (n : ℕ) (b : Brain M)
        → is_calm action ≡ true
        → Within n b
        → Costs n (handle_brain_event action b)
    unfolding handle_brain_event
    handle_brain_event-Costs brain_sleep n b c w = force_sleep-Within n b w
    handle_brain_event-Costs brain_shutdown_action n b c w = cc c
    handle_brain_event-Costs _ n b c w = w

    -- A round takes the weight of its event off the measure, less what it publishes.
    pub maintain-Costs :
        (event : Event) (n m : ℕ) (b : Brain M)
        → is_calm event.action ≡ true
        → Within n b
        → n + event_weight event ≡ suc m
        → Costs m (maintain event b)
    unfolding maintain handle
    maintain-Costs event n m b c w e = by_kind event.kind e
      where
        by_kind :
            (kind : EventKind)
            → n + weight_of kind event.action ≡ suc m
            → Costs m (handle kind event b)
        by_kind kind_link e' = Costs-more (suc (n + 3)) m _ (omega (arith, e')) (
            then_refresh (n + 3) (handle_link_event event.action event.id b)
              (handle_link_event-Costs event.action event.id n b w))
        by_kind kind_neuron e' =
            Costs-more (suc (n + weight_of kind_neuron event.action - 2)) m _
              (omega (arith, e', neuron_weight event.action))
              (then_refresh (n + weight_of kind_neuron event.action - 2)
                (handle_neuron_event event.action event.id b)
                (handle_neuron_event-Costs event.action event.id n
                  (n + weight_of kind_neuron event.action - 2) b c
                  (omega (arith, neuron_weight event.action))
                  (omega (arith, neuron_weight event.action)) w))
        by_kind kind_brain e' =
            Costs-continue_with n m (handle_brain_event event.action b) _
              (handle_brain_event-Costs event.action n b c w)
              (λ _ s v. Within-more n m s (omega (arith, e')) v)
        by_kind kind_unknown e' = Within-more n m b (omega (arith, e')) w
