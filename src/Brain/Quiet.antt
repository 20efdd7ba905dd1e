-- ===== src/Brain/Quiet.antt =====
-- maintain.go of brainlocal: `refreshState` and the counts behind it.
use rmodel.Brain.{
  Brain, BrainLink, BrainNeuron, Chan, Event, Memory, kind_link, kind_neuron, sleep_event,
}
use rmodel.Brain.Cast.{is_inactive, is_wait}
use rmodel.Brain.Ensures.{Safe-returned}
use rmodel.Brain.Invariant.{IsBrain}
use rmodel.Brain.Invariant.Handlers.{handle_link_event-IsBrain, handle_neuron_event-IsBrain}
use rmodel.Brain.Maintain.{
  handle, handle_brain_event, handle_link_event, handle_neuron_event, maintain, refresh_unless,
}
use rmodel.Brain.Power.{
  count_if, force_sleep, get_link_count_by_state, get_neuron_count_by_state, is_activated, is_init,
  is_ready, refresh_state, reset_links, reset_neurons, set_state,
}
use rmodel.Brain.Queue.{publish_event}
use rmodel.Brain.Sent.{publish_event-sent, sent_event}
use rmodel.Brain.Step.{Step, returned}
use rmodel.Core.{
  LinkState, NeuronState, brain_running, brain_sleeping, link_init, link_ready, link_wait,
  neuron_activated, neuron_inactive,
}
use rmodel.Errors.{Error}
use rmodel.Shared.{
  Bool, Option, String, [], arith, if◌then◌else◌, inl, inr, nat_eq, none, refl, some, suc, true, ℕ,
  ◌&&◌, ◌+◌, ◌∙◌, ◌∷◌, ◌≡◌, ◌⊎◌,
}
use rmodel.Shared.Maps.{Map}

abbrev pub all_values {ℓ} : {V : Type ℓ} → (V → Bool) → Map V → Bool
all_values p [] = true
all_values p ((k, v) ∷ m) = p v && all_values p m

-- No neuron is active, and every link is in its initial state.
abbrev pub is_quiet : {M : Type 0} → Brain M → Bool
is_quiet b =
    all_values (λ n. is_inactive n.state) b.neurons && all_values (λ l. is_init l.state) b.links

neuron_step :
    (state : NeuronState) (n : ℕ) (q : Bool)
    → nat_eq n 0 ≡ q
    → nat_eq (if is_activated state then suc n else n) 0 ≡ (is_inactive state && q)
neuron_step neuron_inactive n q e = e
neuron_step neuron_activated n q e = ground arith

link_step :
    (state : LinkState) (n m : ℕ) (q : Bool)
    → nat_eq (n + m) 0 ≡ q
    → nat_eq ((if is_wait state then suc n else n) + (if is_ready state then suc m else m)) 0
      ≡ (is_init state && q)
link_step link_init n m q e = e
link_step link_wait n m q e = ground arith
link_step link_ready n m q e = ground arith

count_active :
    (m : Map BrainNeuron)
    → nat_eq (count_if (λ n. is_activated n.state) m) 0 ≡ all_values (λ n. is_inactive n.state) m
unfolding count_if
count_active [] = refl
count_active ((k, n) ∷ m) =
    neuron_step n.state (count_if (λ n. is_activated n.state) m) _ (count_active m)

count_waiting :
    (m : Map BrainLink)
    → nat_eq (count_if (λ l. is_wait l.state) m + count_if (λ l. is_ready l.state) m) 0
      ≡ all_values (λ l. is_init l.state) m
unfolding count_if
count_waiting [] = refl
count_waiting ((k, l) ∷ m) =
    link_step l.state (count_if (λ l. is_wait l.state) m) (count_if (λ l. is_ready l.state) m) _
      (count_waiting m)

both_zero :
    (a w r : ℕ) (p q : Bool)
    → nat_eq a 0 ≡ p
    → nat_eq (w + r) 0 ≡ q
    → nat_eq (a + w + r) 0 ≡ (p && q)
both_zero a w r p q e e' = ground (arith, e, e')

-- `refreshState`: where no neuron is active and every link is in its initial state, the brain asks
-- itself to sleep, and otherwise it is running from then on, whatever its state was.
pub refresh_state_lem :
    {M : Type 0} (b : Brain M)
    → refresh_state b ≡ (
        if is_quiet b
        then publish_event (sleep_event b.id) b
        else returned tt (set_state brain_running b))
unfolding refresh_state get_neuron_count_by_state get_link_count_by_state
refresh_state_lem b = rw (
  both_zero (count_if (λ n. is_activated n.state) b.neurons)
      (count_if (λ l. is_wait l.state) b.links) (count_if (λ l. is_ready l.state) b.links) _ _
      (count_active b.neurons) (count_waiting b.links),
  refresh_state,
)

-- The handler that a round of the maintainer calls for an event about a link or a neuron.
abbrev pub Handles :
    {M : Type 0} → ⦃mem : Memory M⦄ → Event → Brain M → Option Error → Brain M → Type 0
Handles event b failure b' =
    ((event.kind ≡ kind_link) × (handle_link_event event.action event.id b ≡ returned failure b'))
    ⊎ ((event.kind ≡ kind_neuron)
        × (handle_neuron_event event.action event.id b ≡ returned failure b'))

-- What a round leaves behind its handler.
abbrev pub settled : {M : Type 0} → Option Error → Chan Event → Brain M → Step (Brain M) (Unit {0})
settled (some e) q b = returned tt b
settled none q b =
    if is_quiet b
    then sent_event (sleep_event b.id) q b
    else returned tt (set_state brain_running b)

refresh_unless-settled :
    {M : Type 0} ⦃mem : Memory M⦄ (ids : String → Bool) (failure : Option Error) (b : Brain M)
    (q : Chan Event)
    → IsBrain ids b
    → b.b_queue ≡ some q
    → refresh_unless failure b ≡ settled failure q b
refresh_unless-settled ids (some e) b q w c = refl
refresh_unless-settled ids none b q w c =
    refresh_state_lem b ∙ rw (publish_event-sent ids (sleep_event b.id) b q w c) refl

-- A round of the maintainer in a well formed brain, for an event about a link or a neuron whose
-- handler returns: with an error nothing more happens; without one, where no neuron is active and
-- every link is in its initial state, a sleep event is put last into the maintainer's channel (the
-- round waits where that is full), and otherwise the brain is running from then on, whatever its
-- state was.
pub maintain-refresh_state :
    {M : Type 0} ⦃mem : Memory M⦄ (ids : String → Bool) (event : Event) (b b' : Brain M)
    (failure : Option Error) (q : Chan Event)
    → IsBrain ids b
    → Handles event b failure b'
    → b'.b_queue ≡ some q
    → maintain event b ≡ settled failure q b'
unfolding maintain handle
maintain-refresh_state ids event b b' failure q w (inl (k, e)) c =
    let v =
      Safe-returned (IsBrain ids) e (handle_link_event-IsBrain ids event.action event.id b w) in
    rw (k, e) (refresh_unless-settled ids failure b' q v c)
maintain-refresh_state ids event b b' failure q w (inr (k, e)) c =
    let v =
      Safe-returned (IsBrain ids) e (handle_neuron_event-IsBrain ids event.action event.id b w) in
    rw (k, e) (refresh_unless-settled ids failure b' q v c)

reset_neurons_quiet :
    (m : Map BrainNeuron) → all_values (λ n. is_inactive n.state) (reset_neurons m) ≡ true
unfolding reset_neurons
reset_neurons_quiet [] = refl
reset_neurons_quiet ((k, n) ∷ m) = reset_neurons_quiet m

reset_links_quiet : (m : Map BrainLink) → all_values (λ l. is_init l.state) (reset_links m) ≡ true
unfolding reset_links
reset_links_quiet [] = refl
reset_links_quiet ((k, l) ∷ m) = reset_links_quiet m

-- Once the maintainer has handled a sleep event, the brain sleeps, no neuron is active and every
-- link is in its initial state, whatever was going on; the channels keep what they hold.
pub maintain-sleep :
    {M : Type 0} ⦃mem : Memory M⦄ (b : Brain M) (id : String)
    → (b' : Brain M) × (maintain (sleep_event id) b ≡ returned tt b')
      × (b'.state ≡ brain_sleeping)
      × (is_quiet b' ≡ true)
      × (b'.b_queue ≡ b.b_queue)
      × (b'.n_queue ≡ b.n_queue)
unfolding maintain handle handle_brain_event force_sleep set_state
maintain-sleep b id = (
  force_sleep b,
  refl,
  refl,
  ground (arith, reset_neurons_quiet b.neurons, reset_links_quiet b.links),
  refl,
  refl,
)
