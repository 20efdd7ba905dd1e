-- ===== src/Brain/Reach.antt =====
-- brain_local.go and maintain.go of brainlocal: from a link that is triggered to the worker's queue.
use rmodel.Brain.{
  Brain, BrainLink, BrainNeuron, Chan, Event, Memory, link_ready_event, try_activate_event,
}
use rmodel.Brain.Cast.{ready_link, set_link_state}
use rmodel.Brain.Drain.{run_brain_maintainer}
use rmodel.Brain.Drain.Sends.{head_or_rest}
use rmodel.Brain.Faults.{link_ready_round, try_activate_once, with_ids}
use rmodel.Brain.Firing.{some_ready}
use rmodel.Brain.Invariant.{IsBrain}
use rmodel.Brain.Invariant.Queues.{known_chan, set_link_state-IsBrain}
use rmodel.Brain.Life.{start_and_trig, trig_each, trig_link}
use rmodel.Brain.Maintain.{handle, handle_neuron_event, maintain}
use rmodel.Brain.Power.{
  ensure_maintainer_start, is_activated, is_init, is_ready, refresh_state, set_state,
}
use rmodel.Brain.Queue.{is_shutdown, publish_event, send}
use rmodel.Brain.Quiet.{all_values, is_quiet, refresh_state_lem}
use rmodel.Brain.Step.{returned}
use rmodel.Core.{BrainState, brain_running, end_neuron_id, link_ready}
use rmodel.Shared.{
  Bool, Bool-cases, List, String, [], ap, arith, false, inl, inr, is_some, length, ltb-true, none,
  refl, some, sym, true, ℕ, ◌<◌, ◌==◌, ◌∙◌, ◌∷◌, ◌≡◌,
}
use rmodel.Shared.Maps.{Map, insert, lookup, lookup-inserted}

-- A brain with other links and events, in another state.
abbrev pub with_events :
    {M : Type 0} → Map BrainLink → ℕ → List Event → BrainState → Brain M → Brain M
with_events links cap events state b = record b {
  links = links;
  b_queue = some (record { items = events; cap = cap; is_closed = false });
  state = state;
}

publish_first :
    {M : Type 0} (event : Event) (b : Brain M) (cap : ℕ)
    → is_shutdown b.state ≡ false
    → b.b_queue ≡ some (record { items = []; cap = cap; is_closed = false })
    → 0 < cap
    → publish_event event b ≡ returned tt (with_events b.links cap (event ∷ []) b.state b)
unfolding publish_event send
publish_first event b cap s e room = simp (publish_event, e, s, send, ltb-true 0 cap room) refl

not_all :
    {V : Type 0} (p : V → Bool) (k : String) (v : V) (m : Map V)
    → lookup k m ≡ some v
    → p v ≡ false
    → all_values p m ≡ false
unfolding lookup
not_all p k v [] e h = cc e
not_all p k v ((j, x) ∷ m) e h =
    let (here, there) = head_or_rest (j == k) x v (lookup k m) e in
    elim (Bool-cases (j == k)) [
      | inl c ↦ ground (arith, ap p (here c), h)
      | inr c ↦ ground (arith, not_all p k v m (there c) h)
    ]

-- While a link is ready, a refresh sets the brain running.
refresh_running :
    {M : Type 0} (b : Brain M) (k : String) (l : BrainLink)
    → lookup k b.links ≡ some l
    → is_init l.state ≡ false
    → refresh_state b ≡ returned tt (set_state brain_running b)
refresh_running b k l e h = refresh_state_lem b ∙ simp (awake_still) refl
  where
    awake_still : is_quiet b ≡ false
    awake_still = ground (arith, not_all (λ x. is_init x.state) k l b.links e h)

module _ {M : Type 0} ⦃mem : Memory M⦄ (b : Brain M) (cap : ℕ) (k : String) (l : BrainLink)
    (n : BrainNeuron) where
  trig_first :
      is_shutdown b.state ≡ false
      → b.b_queue ≡ some (record { items = []; cap = cap; is_closed = false })
      → 0 < cap
      → lookup k b.links ≡ some l
      → is_ready l.state ≡ false
      → start_and_trig (k ∷ []) b
        ≡ returned none (
            with_events
              (insert l.id (record l { state = link_ready }) b.links)
              cap
              (link_ready_event l.id ∷ [])
              brain_running
              b)
  unfolding start_and_trig ensure_maintainer_start trig_each trig_link ready_link set_link_state
      set_state
  trig_first s e room there r =
      let b1 : Brain M = record b {
        links = insert l.id (record l { state = link_ready }) b.links;
      } in
      simp
        (
          start_and_trig,
          ensure_maintainer_start,
          s,
          trig_each,
          there,
          trig_link,
          r,
          ready_link,
          set_link_state,
          publish_first (link_ready_event l.id) b1 cap s e room,
          refresh_running (with_events b1.links cap (link_ready_event l.id ∷ []) b.state b) l.id
              (record l { state = link_ready })
              (lookup-inserted l.id (record l { state = link_ready }) b.links) refl,
        )
        refl

  link_round :
      (links : Map BrainLink) (lr : BrainLink)
      → 0 < cap
      → lookup l.id links ≡ some lr
      → is_init lr.state ≡ false
      → lookup lr.to b.neurons ≡ some n
      → maintain (link_ready_event l.id) (with_events links cap [] brain_running b)
        ≡ returned tt (with_events links cap (try_activate_event n.id ∷ []) brain_running b)
  unfolding maintain handle set_state
  link_round links lr room there r to =
      simp
        (
          link_ready_round (with_events links cap [] brain_running b) l.id lr n there to,
          publish_first (try_activate_event n.id) (with_events links cap [] brain_running b) cap
              refl refl room,
          refresh_running (with_events links cap (try_activate_event n.id ∷ []) brain_running b)
              l.id lr there r,
        )
        refl

  activate_round :
      (ids : String → Bool) (links : Map BrainLink) (lr : BrainLink) (p : Chan String)
      → IsBrain ids (with_events links cap [] brain_running b)
      → lookup l.id links ≡ some lr
      → is_init lr.state ≡ false
      → lookup n.id b.neurons ≡ some n
      → is_activated n.state ≡ false
      → some_ready links n.trigger_groups ≡ true
      → (n.id == end_neuron_id) ≡ false
      → b.n_queue ≡ some p
      → length p.items < p.cap
      → maintain (try_activate_event n.id) (with_events links cap [] brain_running b)
        ≡ returned tt (with_ids p (n.id ∷ []) (with_events links cap [] brain_running b))
  unfolding maintain handle handle_neuron_event set_state
  activate_round ids links lr p w there r here inactive some_group not_end q room =
      let b1 : Brain M = with_events links cap [] brain_running b in
      simp
        (
          maintain,
          handle,
          handle_neuron_event,
          here,
          try_activate_once ids n b1 p w (w.wired.triggers n.id n here) inactive refl some_group
              not_end q room,
          refresh_running (with_ids p (n.id ∷ []) b1) l.id lr there r,
        )
        refl

  -- In an awake, well formed brain with no event in the maintainer's channel: a link that is
  -- triggered and was not ready, and that completes a trigger group of the inactive neuron it leads
  -- to, gets this neuron into the channel of the workers, where that has room. The trigger returns
  -- without an error, and two rounds of the maintainer, with nobody in between, leave its channel
  -- empty and the brain running.
  pub trig-run_brain_maintainer :
      (ids : String → Bool) (p : Chan String)
      → IsBrain ids b
      → b.b_queue ≡ some (record { items = []; cap = cap; is_closed = false })
      → b.n_queue ≡ some p
      → length p.items < p.cap
      → lookup k b.links ≡ some l
      → is_ready l.state ≡ false
      → lookup l.to b.neurons ≡ some n
      → is_activated n.state ≡ false
      → (n.id == end_neuron_id) ≡ false
      → some_ready (insert l.id (record l { state = link_ready }) b.links) n.trigger_groups ≡ true
      → (b' : Brain M) × (start_and_trig (k ∷ []) b ≡ returned none b')
        × (run_brain_maintainer 2 b'
            ≡ returned tt (
                with_ids p (n.id ∷ []) (
                  with_events
                    (insert l.id (record l { state = link_ready }) b.links)
                    cap
                    []
                    brain_running
                    b)))
  unfolding run_brain_maintainer
  trig-run_brain_maintainer ids p w e q room there r to inactive not_end some_group =
      let links : Map BrainLink = insert l.id (record l { state = link_ready }) b.links in
      let lr : BrainLink = record l { state = link_ready } in
      let found : lookup l.id links ≡ some lr = lookup-inserted l.id lr b.links in
      let (closed, cap_eq, short) = known_chan _ b.b_queue _ e w.b_open in
      let free : 0 < cap = omega (arith, cap_eq) in
      let linked =
        set_link_state-IsBrain ids l link_ready b w (
          ap ids (w.wired.links_keyed k l there)
          ∙ sym (w.wired.links_there k)
          ∙ ap is_some there) in
      let w1 : IsBrain ids (with_events links cap [] brain_running b) = record {
        wired = linked.wired;
        awake = refl;
        sized = w.sized;
        b_open =
            (record { items = []; cap = cap; is_closed = false }, refl, refl, cap_eq, omega arith);
        n_open = w.n_open;
      } in
      (
        with_events links cap (link_ready_event l.id ∷ []) brain_running b,
        trig_first w.awake e free there r,
        simp
            (
              link_round links lr free found refl to,
              activate_round ids links lr p w1 found refl
                  (ap (λ j. lookup j b.neurons) (w.wired.neurons_keyed l.to n to) ∙ to) inactive
                  some_group not_end q room,
            )
            refl,
      )
