-- ===== src/Brain/Invariant/Queues.antt =====
-- event.go, neuron_runner.go and maintain.go of brainlocal: the calls that publish an event, and
-- the calls that set the state of the brain, keep the brain well formed.
use rmodel.Brain.{Brain, BrainLink, Chan, Event}
use rmodel.Brain.Ensures.{Keeps, Safe}
use rmodel.Brain.Invariant.{IsBrain, IsOpen}
use rmodel.Brain.Queue.{publish_event, publish_event_activate_neuron, send}
use rmodel.Core.{LinkState}
use rmodel.Shared.{
  Bool, Bool-cases, List, Option, Option-cases, String, [], ap, arith, eq_iff, false, inl, inr,
  length, length-append, lt_of_ltb, ltb, refl, some, some-injective, subst, sym, true, ℕ, ◌++◌, ◌∙◌,
  ◌∷◌, ◌≡◌, ◌≤◌,
}
use rmodel.Shared.Maps.{insert, lookup-insert}

-- What is known of an open channel, said of the channel itself.
pub known_chan :
    {A : Type 0} (n : ℕ) (o : Option (Chan A)) (c : Chan A)
    → o ≡ some c
    → IsOpen n o
    → (c.is_closed ≡ false) × (c.cap ≡ n) × (length c.items ≤ n)
known_chan n o c e (c', e', closed, cap, short) =
    subst (λ d. (d.is_closed ≡ false) × (d.cap ≡ n) × (length d.items ≤ n))
      (some-injective c' c (sym e' ∙ e)) (closed, cap, short)

pub same_chan :
    {A : Type 0} (n : ℕ) (o : Option (Chan A)) (c : Chan A)
    → o ≡ some c
    → IsOpen n o
    → c.is_closed ≡ false
same_chan n o c e h = (known_chan n o c e h).0

-- The receive of the head of an open channel leaves it open.
pub received-IsOpen :
    {A : Type 0} (n : ℕ) (o : Option (Chan A)) (c : Chan A) (a : A) (items : List A)
    → o ≡ some c
    → c.items ≡ a ∷ items
    → IsOpen n o
    → IsOpen n (some (record c { items = items }))
received-IsOpen n o c a items e e' h =
    let (closed, cap, short) = known_chan n o c e h in
    (record c { items = items }, refl, closed, cap, omega (arith, short, ap length e'))

module _ {M : Type 0} (ids : String → Bool) where
  send-Safe :
      {A : Type 0} (c : Chan A) (a : A) (keep : Chan A → Brain M → Brain M) (b : Brain M)
      → c.is_closed ≡ false
      → IsBrain ids b
      → ((c' : Chan A)
          → c'.is_closed ≡ false
          → c'.cap ≡ c.cap
          → length c'.items ≤ c.cap
          → IsBrain ids (keep c' b))
      → Safe (IsBrain ids) (send c a keep b)
  unfolding send
  send-Safe c a keep b e w k = elim (Bool-cases (ltb (length c.items) c.cap)) [
    | inl free ↦
        simp (e, free)
          (k (record { items = c.items ++ a ∷ []; cap = c.cap; is_closed = false }) refl refl
            (omega (arith, lt_of_ltb (length c.items) c.cap free, length-append c.items (a ∷ []))))
    | inr full ↦ simp (e, full) w
  ]

  pub publish_event-IsBrain : (event : Event) → Keeps (IsBrain ids) (publish_event {M = M} event)
  unfolding publish_event
  publish_event-IsBrain event b w = elim (Option-cases b.b_queue) [
    | inl e ↦ simp (e, publish_event) w
    | inr (q, e) ↦
        let (closed, cap, n) = known_chan _ b.b_queue q e w.b_open in
        simp (e, w.awake, publish_event)
          (send-Safe q event (λ q' b'. record b' { b_queue = some q' }) b closed w
            (λ q' closed' cap' n'. record {
              wired = w.wired;
              awake = w.awake;
              sized = w.sized;
              b_open = (q', refl, closed', cap' ∙ cap, omega (arith, n', cap));
              n_open = w.n_open;
            }))
  ]

  pub publish_event_activate_neuron-IsBrain :
      (neuron_id : String) → Keeps (IsBrain ids) (publish_event_activate_neuron {M = M} neuron_id)
  unfolding publish_event_activate_neuron
  publish_event_activate_neuron-IsBrain neuron_id b w = elim (Option-cases b.n_queue) [
    | inl e ↦ simp (e, publish_event_activate_neuron) w
    | inr (q, e) ↦
        let (closed, cap, n) = known_chan _ b.n_queue q e w.n_open in
        simp (e, w.awake, publish_event_activate_neuron)
          (send-Safe q neuron_id (λ q' b'. record b' { n_queue = some q' }) b closed w
            (λ q' closed' cap' n'. record {
              wired = w.wired;
              awake = w.awake;
              sized = w.sized;
              b_open = w.b_open;
              n_open = (q', refl, closed', cap' ∙ cap, omega (arith, n', cap));
            }))
  ]

  pub set_link_state-IsBrain :
      (l : BrainLink) (state : LinkState) (b : Brain M)
      → IsBrain ids b
      → ids l.id ≡ true
      → IsBrain ids (record b { links = insert l.id (record l { state = state }) b.links })
  set_link_state-IsBrain l state b w h =
      let l' = record l { state = state } in
      record {
        wired = record {
          links_there = λ k.
              ground (arith, lookup-insert l.id k l' b.links, w.wired.links_there k, eq_iff l.id k);
          links_keyed = λ k l'' e.
              ground
                (arith, lookup-insert l.id k l' b.links, w.wired.links_keyed k l'', eq_iff l.id k);
          neurons_keyed = w.wired.neurons_keyed;
          triggers = w.wired.triggers;
          casts = w.wired.casts;
        };
        awake = w.awake;
        sized = w.sized;
        b_open = w.b_open;
        n_open = w.n_open;
      }
