-- ===== src/Brain/Invariant/Workers.antt =====
-- neuron_runner.go and brain_context.go of brainlocal: a worker's run of a neuron, up to the
-- processor and behind it, keeps the brain well formed.
use rmodel.Brain.{Brain, BrainLink, BrainNeuron, cast_anyway_event, try_cast_event}
use rmodel.Brain.Ensures.{Keeps, Keeps->>, Keeps->>=, Safe-continue_with}
use rmodel.Brain.Invariant.{IsBrain, IsWired, PointsAll}
use rmodel.Brain.Invariant.Casts.{mark_groups-Safe}
use rmodel.Brain.Invariant.Queues.{publish_event-IsBrain}
use rmodel.Brain.Queue.{publish_event}
use rmodel.Brain.Runner.{
  activate_neuron, activated, begin_neuron, continue_cast, count_failed, count_process,
  count_succeed, end_neuron, inactivated, mark_groups, update_neuron, work,
}
use rmodel.Brain.Step.{Go, modify, pure}
use rmodel.Core.{link_init, link_wait}
use rmodel.Errors.{Error}
use rmodel.Shared.{
  Bool, Bool-cases, Option, Option-cases, String, ap, inl, inr, is_some, none, refl, some, subst,
  sym, ◌∙◌, ◌≡◌,
}
use rmodel.Shared.Maps.{Map, insert, insert_cases, lookup}

-- The static fields of a neuron.
abbrev pub SameSpec : BrainNeuron → BrainNeuron → Type 0
SameSpec n n' =
    (n'.id ≡ n.id) × (n'.trigger_groups ≡ n.trigger_groups) × (n'.cast_groups ≡ n.cast_groups)

insert-IsWired :
    (ids : String → Bool) (k : String) (n n' : BrainNeuron) (links : Map BrainLink)
    (neurons : Map BrainNeuron)
    → lookup k neurons ≡ some n
    → SameSpec n n'
    → IsWired ids links neurons
    → IsWired ids links (insert k n' neurons)
insert-IsWired ids k n n' links neurons e (e1, e2, e3) w = record {
  links_there = w.links_there;
  links_keyed = w.links_keyed;
  neurons_keyed = λ j m q. elim (insert_cases k j n' m neurons q) [
    | inl p ↦ w.neurons_keyed j m p
    | inr (p, r) ↦ sym (ap BrainNeuron.id r) ∙ e1 ∙ w.neurons_keyed k n e ∙ p
  ];
  triggers = λ j m q. elim (insert_cases k j n' m neurons q) [
    | inl p ↦ w.triggers j m p
    | inr (p, r) ↦
        subst (PointsAll ids) (sym e2 ∙ ap BrainNeuron.trigger_groups r) (w.triggers k n e)
  ];
  casts = λ j m q. elim (insert_cases k j n' m neurons q) [
    | inl p ↦ w.casts j m p
    | inr (p, r) ↦ subst (PointsAll ids) (sym e3 ∙ ap BrainNeuron.cast_groups r) (w.casts k n e)
  ];
}

module _ {M : Type 0} (ids : String → Bool) where
  pub update_neuron-IsBrain :
      (id : String) (f : BrainNeuron → BrainNeuron)
      → ((n : BrainNeuron) → SameSpec n (f n))
      → (b : Brain M) → IsBrain ids b
      → IsBrain ids (update_neuron id f b)
  unfolding update_neuron
  update_neuron-IsBrain id f h b w = elim (Option-cases (lookup id b.neurons)) [
    | inl e ↦ simp (update_neuron, e) w
    | inr (n, e) ↦
        simp (update_neuron, e)
          (record {
            wired = insert-IsWired ids id n (f n) b.links b.neurons e (h n) w.wired;
            awake = w.awake;
            sized = w.sized;
            b_open = w.b_open;
            n_open = w.n_open;
          })
  ]

  -- Up to the call of the processor.
  pub begin_neuron-IsBrain :
      (neu : BrainNeuron)
      → PointsAll ids neu.trigger_groups
      → PointsAll ids neu.cast_groups
      → Keeps (IsBrain ids) (begin_neuron {M = M} neu)
  unfolding begin_neuron
  begin_neuron-IsBrain neu t c =
      Keeps->> (IsBrain ids) (modify (update_neuron neu.id activated)) _
        (update_neuron-IsBrain neu.id activated (λ n. (refl, refl, refl)))
        (Keeps->> (IsBrain ids) (mark_groups link_init neu.trigger_groups) _
          (mark_groups-Safe ids link_init neu.trigger_groups t)
          (Keeps->> (IsBrain ids) (mark_groups link_wait neu.cast_groups)
            (modify (update_neuron neu.id count_process))
            (mark_groups-Safe ids link_wait neu.cast_groups c)
            (update_neuron-IsBrain neu.id count_process (λ n. (refl, refl, refl)))))

  pub end_neuron-IsBrain :
      (neu : BrainNeuron) (failure : Option Error)
      → Keeps (IsBrain ids) (end_neuron {M = M} neu failure)
  unfolding end_neuron
  end_neuron-IsBrain neu (some e) b w =
      update_neuron-IsBrain neu.id count_failed (λ n. (refl, refl, refl)) _
        (update_neuron-IsBrain neu.id inactivated (λ n. (refl, refl, refl)) b w)
  end_neuron-IsBrain neu none b w =
      Keeps->> (IsBrain ids) (publish_event (try_cast_event neu.id)) (pure none)
        (publish_event-IsBrain ids (try_cast_event neu.id)) (λ b' w'. w') _
        (update_neuron-IsBrain neu.id count_succeed (λ n. (refl, refl, refl)) _
          (update_neuron-IsBrain neu.id inactivated (λ n. (refl, refl, refl)) b w))

  -- A worker that receives an id runs its neuron: whatever the processor and the other goroutines
  -- do meanwhile that keeps the brain well formed, the run keeps it well formed and never panics.
  pub work-IsBrain :
      (process : Go (Brain M) (Option Error)) (neuron_id : String)
      → Keeps (IsBrain ids) process
      → Keeps (IsBrain ids) (work process neuron_id)
  unfolding work activate_neuron
  work-IsBrain process neuron_id h b w = elim (Option-cases (lookup neuron_id b.neurons)) [
    | inl e ↦ simp (work, e) w
    | inr (neu, e) ↦
        simp (work, e)
          (Safe-continue_with (IsBrain ids) (activate_neuron process (some neu) b) _
            (Keeps->> (IsBrain ids) (begin_neuron neu) _
              (begin_neuron-IsBrain neu (w.wired.triggers neuron_id neu e)
                (w.wired.casts neuron_id neu e))
              (Keeps->>= (IsBrain ids) process (end_neuron neu) h (end_neuron-IsBrain neu)) b w)
            (λ _ b' w'. w'))
  ]

  pub continue_cast-IsBrain :
      (neuron_id : String) → Keeps (IsBrain ids) (continue_cast {M = M} neuron_id)
  unfolding continue_cast
  continue_cast-IsBrain neuron_id b w = elim (Bool-cases (is_some (lookup neuron_id b.neurons))) [
    | inl e ↦ simp (continue_cast, e) (publish_event-IsBrain ids (cast_anyway_event neuron_id) b w)
    | inr e ↦ simp (continue_cast, e) w
  ]
