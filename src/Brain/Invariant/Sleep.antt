-- ===== src/Brain/Invariant/Sleep.antt =====
-- brain_local.go of brainlocal: `ForceSleep` as seen through the maps, and that it keeps the brain
-- well formed.
use rmodel.Brain.{Brain, BrainLink, BrainNeuron}
use rmodel.Brain.Invariant.{IsBrain, IsWired, PointsAll}
use rmodel.Brain.Power.{force_sleep, reset_links, reset_neurons, set_state}
use rmodel.Core.{link_init, neuron_inactive}
use rmodel.Shared.{
  Bool, Bool-cases, String, [], ap, inl, inr, is_some, is_some-option_map, option_map,
  option_map-some, refl, some, subst, sym, ◌==◌, ◌∙◌, ◌∷◌, ◌≡◌,
}
use rmodel.Shared.Maps.{Map, lookup}

abbrev pub reset_link : BrainLink → BrainLink
reset_link l = record l { state = link_init }

abbrev pub reset_neuron : BrainNeuron → BrainNeuron
reset_neuron n = record n { state = neuron_inactive }

pub lookup-reset_links :
    (k : String) (m : Map BrainLink) → lookup k (reset_links m) ≡ option_map reset_link (lookup k m)
unfolding lookup reset_links
lookup-reset_links k [] = refl
lookup-reset_links k ((j, l) ∷ m) = elim (Bool-cases (j == k)) [
  | inl e ↦ simp (e, lookup) refl
  | inr e ↦ simp (e, lookup) (lookup-reset_links k m)
]

pub lookup-reset_neurons :
    (k : String) (m : Map BrainNeuron)
    → lookup k (reset_neurons m) ≡ option_map reset_neuron (lookup k m)
unfolding lookup reset_neurons
lookup-reset_neurons k [] = refl
lookup-reset_neurons k ((j, n) ∷ m) = elim (Bool-cases (j == k)) [
  | inl e ↦ simp (e, lookup) refl
  | inr e ↦ simp (e, lookup) (lookup-reset_neurons k m)
]

reset_link-origin :
    (k : String) (links : Map BrainLink) (l : BrainLink)
    → lookup k (reset_links links) ≡ some l
    → (l' : BrainLink) × (lookup k links ≡ some l') × (reset_link l' ≡ l)
reset_link-origin k links l e =
    option_map-some reset_link (lookup k links) l (sym (lookup-reset_links k links) ∙ e)

reset_neuron-origin :
    (k : String) (neurons : Map BrainNeuron) (n : BrainNeuron)
    → lookup k (reset_neurons neurons) ≡ some n
    → (n' : BrainNeuron) × (lookup k neurons ≡ some n') × (reset_neuron n' ≡ n)
reset_neuron-origin k neurons n e =
    option_map-some reset_neuron (lookup k neurons) n (sym (lookup-reset_neurons k neurons) ∙ e)

force_sleep-IsWired :
    (ids : String → Bool) (links : Map BrainLink) (neurons : Map BrainNeuron)
    → IsWired ids links neurons
    → IsWired ids (reset_links links) (reset_neurons neurons)
force_sleep-IsWired ids links neurons w = record {
  links_there = λ k.
      ap is_some (lookup-reset_links k links)
      ∙ is_some-option_map reset_link (lookup k links)
      ∙ w.links_there k;
  links_keyed = λ k l e.
      let (l', e', p) = reset_link-origin k links l e in
      sym (ap BrainLink.id p) ∙ w.links_keyed k l' e';
  neurons_keyed = λ k n e.
      let (n', e', p) = reset_neuron-origin k neurons n e in
      sym (ap BrainNeuron.id p) ∙ w.neurons_keyed k n' e';
  triggers = λ k n e.
      let (n', e', p) = reset_neuron-origin k neurons n e in
      subst (λ m. PointsAll ids m.trigger_groups) p (w.triggers k n' e');
  casts = λ k n e.
      let (n', e', p) = reset_neuron-origin k neurons n e in
      subst (λ m. PointsAll ids m.cast_groups) p (w.casts k n' e');
}

module _ {M : Type 0} (ids : String → Bool) where
  pub force_sleep-IsBrain : (b : Brain M) → IsBrain ids b → IsBrain ids (force_sleep b)
  unfolding force_sleep set_state
  force_sleep-IsBrain b w = record {
    wired = force_sleep-IsWired ids b.links b.neurons w.wired;
    awake = refl;
    sized = w.sized;
    b_open = w.b_open;
    n_open = w.n_open;
  }
