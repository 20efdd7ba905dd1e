-- ===== src/Brain/Cast.antt =====
-- maintain.go of brainlocal: `neuronCast`, which passes control on from a neuron to its links.
use rmodel.Blueprint.Neuron.{LinkSet}
use rmodel.Brain.{
  Brain, BrainLink, BrainNeuron, Groups, Memory, Pointer, cast_anyway_event, link_ready_event,
}
use rmodel.Brain.Queue.{publish_event}
use rmodel.Brain.Step.{Go, gets, modify, panicked, pure, returned, ◌>>=◌, ◌>>◌}
use rmodel.Core.{
  LinkState, NeuronState, Reader, default_cast_group_name, link_init, link_ready, link_wait,
  neuron_activated, neuron_inactive, select,
}
use rmodel.Shared.{
  Bool, List, Option, String, [], false, if◌then◌else◌, is_some, none, not, some, true, ◌&&◌, ◌++◌,
  ◌∷◌,
}
use rmodel.Shared.Maps.{insert, lookup}

-- The link behind a pointer.
unfoldable pub deref : {M : Type 0} → Pointer → Go (Brain M) BrainLink
deref none b = panicked b
deref (some id) b = elim (lookup id b.links) [ none ↦ panicked b | some l ↦ returned l b ]

-- `l.status.state = state`
unfoldable pub set_link_state : {M : Type 0} → BrainLink → LinkState → Go (Brain M) (Unit {0})
set_link_state l state b =
    returned tt (record b { links = insert l.id (record l { state = state }) b.links })

unfoldable pub ready_link : {M : Type 0} → BrainLink → Go (Brain M) (Unit {0})
ready_link l = do set_link_state l link_ready; publish_event (link_ready_event l.id)

-- `go func() { time.Sleep(…); b.publishEvent(…) }()`
unfoldable pub cast_later : {M : Type 0} → String → Go (Brain M) (Unit {0})
cast_later neuron_id =
    modify (λ b. record b { delayed = b.delayed ++ cast_anyway_event neuron_id ∷ [] })

-- The `switch` on the state of a selected link.
unfoldable pub cast_link :
    {M : Type 0} → Bool → String → BrainLink → LinkState → Go (Brain M) (Unit {0})
unfolding ready_link cast_later
cast_link is_cast_anyway neuron_id l link_wait = ready_link l
cast_link true neuron_id l link_init = ready_link l
cast_link false neuron_id l link_init = pure tt
cast_link true neuron_id l link_ready = cast_later neuron_id
cast_link false neuron_id l link_ready = pure tt

-- The first loop, over the selected group; it returns the set of the selected links.
unfoldable pub cast_selected :
    {M : Type 0} → Bool → String → List Pointer → LinkSet → Go (Brain M) LinkSet
unfolding cast_link deref
cast_selected is_cast_anyway neuron_id [] selected_links = pure selected_links
cast_selected is_cast_anyway neuron_id (p ∷ links) selected_links = do
  l ← deref p
  cast_link is_cast_anyway neuron_id l l.state
  cast_selected is_cast_anyway neuron_id links (insert l.id tt selected_links)

abbrev pub is_wait : LinkState → Bool
is_wait link_wait = true
is_wait _ = false

-- The body of the second loop, on a link that was not selected.
unfoldable pub relax_link : {M : Type 0} → Bool → BrainLink → Go (Brain M) (Unit {0})
unfolding set_link_state
relax_link false l = if is_wait l.state then set_link_state l link_init else pure tt
relax_link true l = set_link_state l link_wait

unfoldable pub relax_links : {M : Type 0} → Bool → LinkSet → List Pointer → Go (Brain M) (Unit {0})
unfolding relax_link deref
relax_links is_cast_anyway selected_links [] = pure tt
relax_links is_cast_anyway selected_links (p ∷ links) = do
  l ← deref p
  if is_some (lookup l.id selected_links) then pure tt else relax_link is_cast_anyway l
  relax_links is_cast_anyway selected_links links

unfoldable pub relax_groups : {M : Type 0} → Bool → LinkSet → Groups → Go (Brain M) (Unit {0})
unfolding relax_links
relax_groups is_cast_anyway selected_links [] = pure tt
relax_groups is_cast_anyway selected_links ((name, links) ∷ groups) = do
  relax_links is_cast_anyway selected_links links
  relax_groups is_cast_anyway selected_links groups

abbrev pub is_inactive : NeuronState → Bool
is_inactive neuron_inactive = true
is_inactive neuron_activated = false

-- `castGroups[name]`, which is the nil slice where the name is missing.
abbrev pub pointers_of : Option (List Pointer) → List Pointer
pointers_of none = []
pointers_of (some links) = links

module _ {M : Type 0} ⦃mem : Memory M⦄ where
  -- The `brainContext` that a selector gets.
  unfoldable pub reader_of : Brain M → String → Reader
  reader_of b neuron_id = record {
    get_memory = mem.get_memory b.memory;
    exist_memory = mem.exist_memory b.memory;
    current_neuron_id = neuron_id;
  }

  unfoldable pub selected_group : BrainNeuron → Brain M → String
  unfolding reader_of
  selected_group n b = elim n.selector [
    | some selector ↦ select selector (reader_of b n.id)
    | none ↦ default_cast_group_name
  ]

  unfoldable pub neuron_cast : BrainNeuron → Bool → Go (Brain M) (Unit {0})
  neuron_cast n is_cast_anyway =
      if not is_cast_anyway && not (is_inactive n.state) then pure tt else do
        group ← gets (selected_group n)
        selected_links ←
            cast_selected is_cast_anyway n.id (pointers_of (lookup group n.cast_groups)) []
        relax_groups is_cast_anyway selected_links n.cast_groups
