-- ===== src/Brain/Running.antt =====
-- neuron_runner.go of brainlocal: what a worker does to the links and to the neuron that it runs.
use rmodel.Brain.{Brain, BrainNeuron, Groups, Pointer}
use rmodel.Brain.Cast.{set_link_state}
use rmodel.Brain.Ensures.{Returns, Returns-continue_with, Returns-mono}
use rmodel.Brain.Invariant.{IsBrain, Points, PointsAll}
use rmodel.Brain.Invariant.Queues.{set_link_state-IsBrain}
use rmodel.Brain.Invariant.Workers.{update_neuron-IsBrain}
use rmodel.Brain.Passing.{HasRoom, Passes, in_groups, points_to, with_state}
use rmodel.Brain.Passing.Change.{Passes-same, Passes-trans, one_link-Passes}
use rmodel.Brain.Passing.Select.{deref-Returns, fuse}
use rmodel.Brain.Power.{is_ready}
use rmodel.Brain.Runner.{
  activated, begin_neuron, count_process, mark_groups, mark_links, update_neuron,
}
use rmodel.Brain.Step.{modify, ◌>>◌}
use rmodel.Core.{LinkState, link_init, link_wait}
use rmodel.Shared.{
  All, Bool, List, String, [], ap, arith, false, if◌then◌else◌, none, option_map, refl, some, subst,
  ◌==◌, ◌||◌, ◌∙◌, ◌∷◌, ◌≡◌,
}
use rmodel.Shared.Maps.{Map, insert, lookup, lookup-insert, lookup-inserted}

module _ {M : Type 0} (ids : String → Bool) where
  -- The links that `among` holds of are in the state.
  abbrev Marked : LinkState → (String → Bool) → Brain M → Brain M → Type 0
  Marked state among b b' = Passes (λ k s. if among k then state else s) 0 b b' × IsBrain ids b'

  mark_links-Returns :
      (state : LinkState) (ps : List Pointer) (b : Brain M)
      → is_ready state ≡ false
      → IsBrain ids b
      → All (Points ids) ps
      → HasRoom 0 b
      → Returns (λ _ b'. Marked state (λ k. points_to k ps) b b') (mark_links state ps b)
  unfolding mark_links set_link_state
  mark_links-Returns state [] b i w h r = (Passes-same _ 0 b (λ k s. refl) r, w)
  mark_links-Returns state (none ∷ ps) b i w h r = elim h.0 [ ]
  mark_links-Returns state (some id ∷ ps) b i w h r =
      deref-Returns ids (λ _ b'. Marked state (λ k. points_to k (some id ∷ ps)) b b') id _ b w h.0
        (λ l t p.
          let b1 : Brain M = record b {
            links = insert l.id (record l { state = state }) b.links;
          } in
          let v = one_link-Passes l state (λ s. state) 0 b t refl (λ y. cc (i, y)) r in
          Returns-mono (λ _ b2. Marked state (λ k. points_to k ps) b1 b2)
            (λ _ b'. Marked state (λ k. points_to k (some id ∷ ps)) b b') (mark_links state ps b1)
            (mark_links-Returns state ps b1 i
              (set_link_state-IsBrain ids l state b w (ap ids p ∙ h.0)) h.1 v.room)
            (λ _ b2 (v2, w2). (
              Passes-trans _ _ _ 0 0 b b1 b2 v v2 (λ k x.
                  fuse (λ s. state) x (l.id == k) (points_to k ps) refl
                  ∙ ap (λ j. if j == k || points_to k ps then state else x) p),
              w2,
            )))

  mark_groups-Returns :
      (state : LinkState) (groups : Groups) (b : Brain M)
      → is_ready state ≡ false
      → IsBrain ids b
      → PointsAll ids groups
      → HasRoom 0 b
      → Returns (λ _ b'. Marked state (λ k. in_groups k groups) b b') (mark_groups state groups b)
  unfolding mark_groups
  mark_groups-Returns state [] b i w h r = (Passes-same _ 0 b (λ k s. refl) r, w)
  mark_groups-Returns state ((name, ps) ∷ groups) b i w h r =
      Returns-continue_with (λ _ b1. Marked state (λ k. points_to k ps) b b1)
        (λ _ b'. Marked state (λ k. in_groups k ((name, ps) ∷ groups)) b b') (mark_links state ps b)
        (λ _. mark_groups state groups) (mark_links-Returns state ps b i w h.0 r)
        (λ _ b1 (v, w1).
          Returns-mono (λ _ b2. Marked state (λ k. in_groups k groups) b1 b2)
            (λ _ b'. Marked state (λ k. in_groups k ((name, ps) ∷ groups)) b b')
            (mark_groups state groups b1) (mark_groups-Returns state groups b1 i w1 h.1 v.room)
            (λ _ b2 (v2, w2). (
              Passes-trans _ _ _ 0 0 b b1 b2 v v2
                  (λ k x. fuse (λ s. state) x (points_to k ps) (in_groups k groups) refl),
              w2,
            )))

-- The state of a link once its neuron runs, by whether it goes into the neuron and out of it.
abbrev pub started_state : Bool → Bool → LinkState → LinkState
started_state into out state = if out then link_wait else if into then link_init else state

pub update_neuron_lem :
    {M : Type 0} (id : String) (f : BrainNeuron → BrainNeuron) (b : Brain M) (n : BrainNeuron)
    → lookup id b.neurons ≡ some n
    → update_neuron id f b ≡ record b { neurons = insert id (f n) b.neurons }
unfolding update_neuron
update_neuron_lem id f b n e = simp (update_neuron, e) refl

pub lookup-beside :
    (k j : String) (n : BrainNeuron) (m : Map BrainNeuron)
    → (k == j) ≡ false
    → lookup j (insert k n m) ≡ lookup j m
lookup-beside k j n m e = lookup-insert k j n m ∙ ap (λ t. if t then some n else lookup j m) e

-- What a worker has done when it calls the processor of `neu`.
pub record Begun {M : Type 0} (neu : BrainNeuron) (b b' : Brain M) : Type 0 where
  pub link_states :
      (k : String)
      → lookup k b'.links
        ≡ option_map
            (with_state
              (started_state (in_groups k neu.trigger_groups) (in_groups k neu.cast_groups)))
            (lookup k b.links)
  pub runs : lookup neu.id b'.neurons ≡ some (count_process (activated neu))
  pub others : (j : String) → (neu.id == j) ≡ false → lookup j b'.neurons ≡ lookup j b.neurons
  pub same_state : b'.state ≡ b.state
  pub same_ids : b'.n_queue ≡ b.n_queue

mark_twice :
    (into out : Bool) (x : LinkState)
    → (if out then link_wait else (if into then link_init else x)) ≡ started_state into out x
mark_twice into out x = refl

-- A worker that starts a neuron of a well formed brain gets to the call of its processor: the
-- neuron is active and has one more run counted, its cast links wait, its trigger links that are
-- not also cast links are in the initial state, and nothing else of the links, the neurons, the
-- state of the brain and the ids for the workers has changed.
pub begin_neuron_lem :
    {M : Type 0} (ids : String → Bool) (neu : BrainNeuron) (b : Brain M)
    → IsBrain ids b
    → lookup neu.id b.neurons ≡ some neu
    → Returns (λ _. Begun neu b) (begin_neuron neu b)
unfolding begin_neuron
begin_neuron_lem ids neu b w e =
    let (q, there, opened, cap, short) = w.b_open in
    let r : HasRoom 0 b = (q, there, omega (arith, cap, short)) in
    let b1 : Brain _ = record b { neurons = insert neu.id (activated neu) b.neurons } in
    let w1 : IsBrain ids b1 =
      subst (IsBrain ids) (update_neuron_lem neu.id activated b neu e)
        (update_neuron-IsBrain ids neu.id activated (λ n. (refl, refl, refl)) b w) in
    rw (update_neuron_lem neu.id activated b neu e) (
      Returns-continue_with
        (λ _ b2. Marked ids link_init (λ k. in_groups k neu.trigger_groups) b1 b2)
        (λ _. Begun neu b) (mark_groups link_init neu.trigger_groups b1)
        (λ _. mark_groups link_wait neu.cast_groups >> modify (update_neuron neu.id count_process))
        (mark_groups-Returns ids link_init neu.trigger_groups b1 refl w1
          (w.wired.triggers neu.id neu e) r)
        (λ _ b2 (v2, w2).
          Returns-continue_with
            (λ _ b3. Marked ids link_wait (λ k. in_groups k neu.cast_groups) b2 b3)
            (λ _. Begun neu b) (mark_groups link_wait neu.cast_groups b2)
            (λ _. modify (update_neuron neu.id count_process))
            (mark_groups-Returns ids link_wait neu.cast_groups b2 refl w2
              (w.wired.casts neu.id neu e) v2.room)
            (λ _ b3 (v3, w3).
              let same : b3.neurons ≡ b1.neurons = v3.neurons ∙ v2.neurons in
              let v : Passes
                  (λ k.
                    started_state (in_groups k neu.trigger_groups) (in_groups k neu.cast_groups))
                  0 b1 b3 =
                Passes-trans (λ k s. if in_groups k neu.trigger_groups then link_init else s)
                  (λ k s. if in_groups k neu.cast_groups then link_wait else s) _ 0 0 b1 b2 b3 v2 v3
                  (λ k x.
                    mark_twice (in_groups k neu.trigger_groups) (in_groups k neu.cast_groups) x) in
              rw
                (update_neuron_lem neu.id count_process b3 (activated neu)
                  (ap (lookup neu.id) same ∙ lookup-inserted neu.id (activated neu) b.neurons))
                (record {
                  link_states = v.links;
                  runs = lookup-inserted neu.id (count_process (activated neu)) b3.neurons;
                  others = λ j d.
                      lookup-beside neu.id j (count_process (activated neu)) b3.neurons d
                      ∙ ap (lookup j) same
                      ∙ lookup-beside neu.id j (activated neu) b.neurons d;
                  same_state = v.state;
                  same_ids = v.n_queue;
                }))))
