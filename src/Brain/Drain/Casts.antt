-- ===== src/Brain/Drain/Casts.antt =====
-- maintain.go of brainlocal: what `neuronCast` costs where it is not forced.
use rmodel.Blueprint.Neuron.{LinkSet}
use rmodel.Brain.{Brain, BrainLink, BrainNeuron, Groups, Memory, Pointer}
use rmodel.Brain.Cast.{
  cast_link, cast_selected, deref, is_inactive, is_wait, neuron_cast, pointers_of, relax_groups,
  relax_link, relax_links, selected_group, set_link_state,
}
use rmodel.Brain.Drain.{Costs, Costs-continue_with, Within, Within-more}
use rmodel.Brain.Drain.Sends.{one_if, ready_link-Costs, set_link_state-Within}
use rmodel.Brain.Step.{Go, pure, ◌>>=◌}
use rmodel.Core.{LinkState, link_init, link_ready, link_wait}
use rmodel.Shared.{
  Bool, Bool-cases, List, Option-cases, String, [], ap, arith, false, if◌then◌else◌, inl, inr,
  is_some, none, refl, some, true, ℕ, ◌*◌, ◌+◌, ◌∙◌, ◌∷◌, ◌≡◌,
}
use rmodel.Shared.Maps.{insert, lookup}

module _ {M : Type 0} where
  -- A pointer of a group leads to a link that stands under its id.
  deref-Costs :
      {A : Type 0} (p : Pointer) (n : ℕ) (b : Brain M) (f : BrainLink → Go (Brain M) A)
      → Within n b
      → ((l : BrainLink) → lookup l.id b.links ≡ some l → Costs n (f l b))
      → Costs n ((deref p >>= f) b)
  unfolding deref
  deref-Costs none n b f w h = tt
  deref-Costs (some id) n b f w h = elim (Option-cases (lookup id b.links)) [
    | inl e ↦ simp (e, deref) tt
    | inr (l, e) ↦ simp (e, deref) (h l (ap (λ k. lookup k b.links) (w.keyed id l e) ∙ e))
  ]

  cast_link-Costs :
      (l : BrainLink) (neuron_id : String) (n : ℕ) (b : Brain M)
      → lookup l.id b.links ≡ some l
      → Within n b
      → Costs n (cast_link false neuron_id l l.state b)
  unfolding cast_link
  cast_link-Costs l neuron_id n b e w = by_state l.state refl
    where
      by_state : (s : LinkState) → l.state ≡ s → Costs n (cast_link false neuron_id l s b)
      by_state link_wait q = ready_link-Costs l n b e (ap is_wait q) w
      by_state link_init q = w
      by_state link_ready q = w

  cast_selected-Costs :
      (neuron_id : String) (ps : List Pointer) (chosen : LinkSet) (n : ℕ) (b : Brain M)
      → Within n b
      → Costs n (cast_selected false neuron_id ps chosen b)
  unfolding cast_selected
  cast_selected-Costs neuron_id [] chosen n b w = w
  cast_selected-Costs neuron_id (p ∷ ps) chosen n b w = deref-Costs p n b _ w (λ l e.
      Costs-continue_with n n (cast_link false neuron_id l l.state b) _
        (cast_link-Costs l neuron_id n b e w)
        (λ _ s v. cast_selected-Costs neuron_id ps (insert l.id tt chosen) n s v))

  relax_link-Costs :
      (l : BrainLink) (n : ℕ) (b : Brain M)
      → lookup l.id b.links ≡ some l
      → Within n b
      → Costs n (relax_link false l b)
  unfolding relax_link set_link_state
  relax_link-Costs l n b e w = elim (Bool-cases (is_wait l.state)) [
    | inl h ↦ rw (h) (
        set_link_state-Within l link_init n b e refl
          (Within-more n (n + 5 * one_if (is_wait l.state)) b (omega arith) w))
    | inr h ↦ rw (h) w
  ]

  relax_links-Costs :
      (chosen : LinkSet) (ps : List Pointer) (n : ℕ) (b : Brain M)
      → Within n b
      → Costs n (relax_links false chosen ps b)
  unfolding relax_links
  relax_links-Costs chosen [] n b w = w
  relax_links-Costs chosen (p ∷ ps) n b w = deref-Costs p n b _ w (λ l e.
      Costs-continue_with n n
        ((if is_some (lookup l.id chosen) then pure tt else relax_link false l) b) _
        (by_choice l e (is_some (lookup l.id chosen))) (λ _ s v. relax_links-Costs chosen ps n s v))
    where
      by_choice :
          (l : BrainLink)
          → lookup l.id b.links ≡ some l
          → (c : Bool) → Costs n ((if c then pure tt else relax_link false l) b)
      by_choice l e true = w
      by_choice l e false = relax_link-Costs l n b e w

  relax_groups-Costs :
      (chosen : LinkSet) (groups : Groups) (n : ℕ) (b : Brain M)
      → Within n b
      → Costs n (relax_groups false chosen groups b)
  unfolding relax_groups
  relax_groups-Costs chosen [] n b w = w
  relax_groups-Costs chosen ((name, ps) ∷ groups) n b w =
      Costs-continue_with n n (relax_links false chosen ps b) _ (relax_links-Costs chosen ps n b w)
        (λ _ s v. relax_groups-Costs chosen groups n s v)

  module _ ⦃mem : Memory M⦄ where
    pub neuron_cast-Costs :
        (neu : BrainNeuron) (n : ℕ) (b : Brain M) → Within n b → Costs n (neuron_cast neu false b)
    unfolding neuron_cast
    neuron_cast-Costs neu n b w = elim (Bool-cases (is_inactive neu.state)) [
      | inr h ↦ simp (neuron_cast, h) w
      | inl h ↦
          simp (neuron_cast, h)
            (Costs-continue_with n n
              (cast_selected false neu.id
                (pointers_of (lookup (selected_group neu b) neu.cast_groups)) [] b)
              _ (cast_selected-Costs neu.id _ [] n b w)
              (λ chosen s v. relax_groups-Costs chosen neu.cast_groups n s v))
    ]
