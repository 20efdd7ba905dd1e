-- ===== src/Brain/Drain/Loop.antt =====
-- maintain.go of brainlocal: the loop of the maintainer ends.
use rmodel.Brain.{
  Brain, Chan, Event, EventAction, EventKind, Memory, brain_shutdown_action, kind_brain, kind_link,
  kind_neuron, kind_unknown, try_activate,
}
use rmodel.Brain.Drain.{
  AllCalm, Costs, IsStuck, event_weight, is_calm, measure, queue_weight, queued,
  run_brain_maintainer, weight_of,
}
use rmodel.Brain.Drain.Rounds.{maintain-Costs}
use rmodel.Brain.Ensures.{Safe}
use rmodel.Brain.Invariant.{IsBrain}
use rmodel.Brain.Invariant.Handlers.{maintain-IsBrain}
use rmodel.Brain.Maintain.{maintain}
use rmodel.Brain.Step.{Step, blocked, continue_with, panicked, returned}
use rmodel.Brain.System.{received_event}
use rmodel.Shared.{
  Bool, List, String, [], ap, arith, refl, some, subst, suc, true, zero, ℕ, ◌+◌, ◌-◌, ◌∙◌, ◌∷◌, ◌≡◌,
  ◌≢◌, ◌≤◌,
}

-- The loop has received every event, or waits at a full channel.
abbrev pub Drained : {M : Type 0} → Step (Brain M) (Unit {0}) → Type 0
Drained (returned a b) = queued b.b_queue ≡ []
Drained (blocked b) = IsStuck b
Drained (panicked b) = ⊥

calm-not_shutdown : (action : EventAction) → is_calm action ≡ true → action ≢ brain_shutdown_action
calm-not_shutdown action c e = cc (c, ap is_calm e)

weight_pos : (kind : EventKind) (action : EventAction) → 1 ≤ weight_of kind action
weight_pos kind_link action = omega arith
weight_pos kind_neuron try_activate = omega arith
weight_pos kind_neuron _ = omega arith
weight_pos kind_brain action = omega arith
weight_pos kind_unknown action = omega arith

nothing_left : (events : List Event) → queue_weight events ≤ 0 → events ≡ []
nothing_left [] h = refl
nothing_left (e ∷ events) h =
    elim (zero_pos (queue_weight events) (event_weight e) (weight_pos e.kind e.action) h) [ ]
  where
    zero_pos : (a b : ℕ) → 1 ≤ b → b + a ≤ 0 → ⊥
    zero_pos a b k h' = omega (arith, k, h')

abbrev pub Drains : (M : Type 0) ⦃mem : Memory M⦄ → (String → Bool) → ℕ → Type 0
Drains M ids n =
    (s : Brain M)
    → IsBrain ids s
    → AllCalm (queued s.b_queue)
    → measure s ≤ n
    → Drained (run_brain_maintainer n s)

module _ {M : Type 0} ⦃mem : Memory M⦄ (ids : String → Bool) where
  after_round :
      (n : ℕ) (x : Step (Brain M) (Unit {0}))
      → Drains M ids n
      → Safe (IsBrain ids) x
      → Costs n x
      → Drained (continue_with x (λ _. run_brain_maintainer n))
  after_round n (returned a s) go v k = go s v k.calm k.small
  after_round n (blocked s) go v k = k
  after_round n (panicked s) go v k = v

  round-Drained :
      (n : ℕ) (b : Brain M) (q : Chan Event) (event : Event) (rest : List Event)
      → Drains M ids n
      → IsBrain ids b
      → AllCalm (queued b.b_queue)
      → measure b ≤ suc n
      → b.b_queue ≡ some q
      → q.items ≡ event ∷ rest
      → Drained (
          continue_with
            (maintain event (record b { b_queue = some (record q { items = rest }) }))
            (λ _. run_brain_maintainer n))
  round-Drained n b q event rest go w c h e i =
      let b1 : Brain M = record b { b_queue = some (record q { items = rest }) } in
      let here : queued b.b_queue ≡ event ∷ rest = ap queued e ∙ i in
      let calm : AllCalm (event ∷ rest) = subst AllCalm here c in
      let heavy = weight_pos event.kind event.action in
      let held = ap queue_weight here in
      after_round n (maintain event b1) go
        (maintain-IsBrain ids event (calm-not_shutdown event.action calm.0) b1
          (received_event ids b q event rest e i w))
        (maintain-Costs event (suc n - event_weight event) n b1 calm.0
          (record { calm = calm.1; keyed = w.wired.links_keyed; small = omega (arith, h, held) })
          (omega (arith, h, held)))

  by_items :
      (n : ℕ) (b : Brain M) (q : Chan Event) (items : List Event)
      → Drains M ids n
      → IsBrain ids b
      → AllCalm (queued b.b_queue)
      → measure b ≤ suc n
      → b.b_queue ≡ some q
      → q.items ≡ items
      → Drained (run_brain_maintainer (suc n) b)
  unfolding run_brain_maintainer
  by_items n b q [] go w c h e i = simp (e, i, run_brain_maintainer) refl
  by_items n b q (event ∷ rest) go w c h e i =
      simp (e, i, run_brain_maintainer) (round-Drained n b q event rest go w c h e i)

  -- The loop of the maintainer, left to itself in a well formed brain whose events hold no forced
  -- cast and no shutdown, ends within as many rounds as the measure of the brain tells: it never
  -- panics, and it stops with nothing left to receive, or in a send while one of the two channels, its
  -- own or that of the workers, is full.
  pub run_brain_maintainer-Drained :
      (n : ℕ) (b : Brain M)
      → IsBrain ids b
      → AllCalm (queued b.b_queue)
      → measure b ≤ n
      → Drained (run_brain_maintainer n b)
  unfolding run_brain_maintainer
  run_brain_maintainer-Drained zero b w c h = nothing_left (queued b.b_queue) (omega (arith, h))
  run_brain_maintainer-Drained (suc n) b w c h =
      let (q, e, closed, cap, short) = w.b_open in
      by_items n b q q.items (run_brain_maintainer-Drained n) w c h e refl
