-- ===== src/Brain/Invariant/Casts.antt =====
-- maintain.go of brainlocal: `neuronCast`, and the loops that mark the links of a neuron, keep the
-- brain well formed and never meet a nil pointer.
use rmodel.Blueprint.Neuron.{LinkSet}
use rmodel.Brain.{Brain, BrainLink, BrainNeuron, Groups, Memory, Pointer, link_ready_event}
use rmodel.Brain.Cast.{
  cast_later, cast_link, cast_selected, deref, is_inactive, is_wait, neuron_cast, pointers_of,
  ready_link, relax_groups, relax_link, relax_links, selected_group, set_link_state,
}
use rmodel.Brain.Ensures.{Keeps, Keeps->>, Keeps->>=, Keeps-if}
use rmodel.Brain.Invariant.{IsBrain, Points, PointsAll}
use rmodel.Brain.Invariant.Queues.{publish_event-IsBrain, set_link_state-IsBrain}
use rmodel.Brain.Queue.{publish_event}
use rmodel.Brain.Runner.{mark_groups, mark_links}
use rmodel.Brain.Step.{Go, gets, pure, ◌>>=◌}
use rmodel.Core.{LinkState, link_init, link_ready, link_wait}
use rmodel.Shared.{
  All, Bool, Bool-cases, List, Option-cases, String, [], ap, false, if◌then◌else◌, inl, inr,
  is_some, none, not, some, true, ◌&&◌, ◌==◌, ◌∙◌, ◌∷◌, ◌≡◌,
}
use rmodel.Shared.Maps.{insert, lookup}

pub pointers_of-Safe :
    (ids : String → Bool) (name : String) (groups : Groups)
    → PointsAll ids groups
    → All (Points ids) (pointers_of (lookup name groups))
unfolding lookup
pointers_of-Safe ids name [] h = tt
pointers_of-Safe ids name ((k, ps) ∷ groups) h = elim (Bool-cases (k == name)) [
  | inl e ↦ simp (e, lookup) h.0
  | inr e ↦ simp (e, lookup) (pointers_of-Safe ids name groups h.1)
]

module _ {M : Type 0} (ids : String → Bool) where
  deref-Safe :
      {A : Type 0} (p : Pointer) (f : BrainLink → Go (Brain M) A)
      → Points ids p
      → ((l : BrainLink) → ids l.id ≡ true → Keeps (IsBrain ids) (f l))
      → Keeps (IsBrain ids) (deref p >>= f)
  unfolding deref
  deref-Safe none f h k b w = elim h [ ]
  deref-Safe (some id) f h k b w = elim (Option-cases (lookup id b.links)) [
    | inl e ↦ cc (ap is_some e, w.wired.links_there id, h)
    | inr (l, e) ↦ simp (deref, e) (k l (ap ids (w.wired.links_keyed id l e) ∙ h) b w)
  ]

  pub set_link_state-Safe :
      (l : BrainLink) (state : LinkState)
      → ids l.id ≡ true
      → Keeps (IsBrain ids) (set_link_state {M = M} l state)
  unfolding set_link_state
  set_link_state-Safe l state h b w = set_link_state-IsBrain ids l state b w h

  pub ready_link-Safe :
      (l : BrainLink) → ids l.id ≡ true → Keeps (IsBrain ids) (ready_link {M = M} l)
  unfolding ready_link
  ready_link-Safe l h =
      Keeps->> (IsBrain ids) (set_link_state l link_ready) (publish_event (link_ready_event l.id))
        (set_link_state-Safe l link_ready h) (publish_event-IsBrain ids (link_ready_event l.id))

  pub cast_link-Safe :
      (is_cast_anyway : Bool) (neuron_id : String) (l : BrainLink) (state : LinkState)
      → ids l.id ≡ true
      → Keeps (IsBrain ids) (cast_link {M = M} is_cast_anyway neuron_id l state)
  unfolding cast_link cast_later
  cast_link-Safe is_cast_anyway neuron_id l link_wait h = ready_link-Safe l h
  cast_link-Safe true neuron_id l link_init h = ready_link-Safe l h
  cast_link-Safe false neuron_id l link_init h = λ b w. w
  cast_link-Safe true neuron_id l link_ready h = λ b w. record {
    wired = w.wired;
    awake = w.awake;
    sized = w.sized;
    b_open = w.b_open;
    n_open = w.n_open;
  }
  cast_link-Safe false neuron_id l link_ready h = λ b w. w

  pub cast_selected-Safe :
      (is_cast_anyway : Bool) (neuron_id : String) (ps : List Pointer) (selected_links : LinkSet)
      → All (Points ids) ps
      → Keeps (IsBrain ids) (cast_selected {M = M} is_cast_anyway neuron_id ps selected_links)
  unfolding cast_selected
  cast_selected-Safe a n [] selected h = λ b w. w
  cast_selected-Safe a n (p ∷ ps) selected h = deref-Safe p _ h.0 (λ l hl.
      Keeps->> (IsBrain ids) (cast_link a n l l.state) _ (cast_link-Safe a n l l.state hl)
        (cast_selected-Safe a n ps (insert l.id tt selected) h.1))

  pub relax_link-Safe :
      (is_cast_anyway : Bool) (l : BrainLink)
      → ids l.id ≡ true
      → Keeps (IsBrain ids) (relax_link {M = M} is_cast_anyway l)
  unfolding relax_link
  relax_link-Safe false l h =
      Keeps-if (IsBrain ids) (is_wait l.state) (set_link_state l link_init) (pure tt)
        (set_link_state-Safe l link_init h) (λ b w. w)
  relax_link-Safe true l h = set_link_state-Safe l link_wait h

  pub relax_links-Safe :
      (is_cast_anyway : Bool) (selected_links : LinkSet) (ps : List Pointer)
      → All (Points ids) ps
      → Keeps (IsBrain ids) (relax_links {M = M} is_cast_anyway selected_links ps)
  unfolding relax_links
  relax_links-Safe a selected [] h = λ b w. w
  relax_links-Safe a selected (p ∷ ps) h = deref-Safe p _ h.0 (λ l hl.
      Keeps->> (IsBrain ids) (if is_some (lookup l.id selected) then pure tt else relax_link a l)
        (relax_links a selected ps)
        (Keeps-if (IsBrain ids) (is_some (lookup l.id selected)) (pure tt) (relax_link a l)
          (λ b w. w) (relax_link-Safe a l hl))
        (relax_links-Safe a selected ps h.1))

  relax_groups-Safe :
      (is_cast_anyway : Bool) (selected_links : LinkSet) (groups : Groups)
      → PointsAll ids groups
      → Keeps (IsBrain ids) (relax_groups {M = M} is_cast_anyway selected_links groups)
  unfolding relax_groups
  relax_groups-Safe a selected [] h = λ b w. w
  relax_groups-Safe a selected ((name, ps) ∷ groups) h =
      Keeps->> (IsBrain ids) (relax_links a selected ps) (relax_groups a selected groups)
        (relax_links-Safe a selected ps h.0) (relax_groups-Safe a selected groups h.1)

  pub mark_links-Safe :
      (state : LinkState) (ps : List Pointer)
      → All (Points ids) ps
      → Keeps (IsBrain ids) (mark_links {M = M} state ps)
  unfolding mark_links
  mark_links-Safe state [] h = λ b w. w
  mark_links-Safe state (p ∷ ps) h = deref-Safe p _ h.0 (λ l hl.
      Keeps->> (IsBrain ids) (set_link_state l state) (mark_links state ps)
        (set_link_state-Safe l state hl) (mark_links-Safe state ps h.1))

  pub mark_groups-Safe :
      (state : LinkState) (groups : Groups)
      → PointsAll ids groups
      → Keeps (IsBrain ids) (mark_groups {M = M} state groups)
  unfolding mark_groups
  mark_groups-Safe state [] h = λ b w. w
  mark_groups-Safe state ((name, ps) ∷ groups) h =
      Keeps->> (IsBrain ids) (mark_links state ps) (mark_groups state groups)
        (mark_links-Safe state ps h.0) (mark_groups-Safe state groups h.1)

  module _ ⦃mem : Memory M⦄ where
    -- Casting from a neuron whose pointers are links of the brain keeps the brain well formed, and
    -- does not panic, whichever group the selector names.
    pub neuron_cast-IsBrain :
        (n : BrainNeuron) (is_cast_anyway : Bool)
        → PointsAll ids n.cast_groups
        → Keeps (IsBrain ids) (neuron_cast {M = M} n is_cast_anyway)
    unfolding neuron_cast
    neuron_cast-IsBrain n a h =
        Keeps-if (IsBrain ids) (not a && not (is_inactive n.state)) (pure tt) _ (λ b w. w)
          (Keeps->>= (IsBrain ids) (gets (selected_group n)) _ (λ b w. w)
            (λ group.
              Keeps->>= (IsBrain ids)
                (cast_selected a n.id (pointers_of (lookup group n.cast_groups)) [])
                (λ selected. relax_groups a selected n.cast_groups)
                (cast_selected-Safe a n.id (pointers_of (lookup group n.cast_groups)) []
                  (pointers_of-Safe ids group n.cast_groups h))
                (λ selected. relax_groups-Safe a selected n.cast_groups h)))
