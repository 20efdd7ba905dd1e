-- ===== src/Blueprint/Graph/Links.antt =====
-- brainprint.go: `AddLink`, `AddEntryLinkTo` and `AddEndLinkFrom` keep the graph well formed.
use rmodel.Blueprint.Brainprint.{Brainprint}
use rmodel.Blueprint.Brainprint.Edit.{in_link_at, put_link, put_neuron, store_link}
use rmodel.Blueprint.Graph.{IsGraph}
use rmodel.Blueprint.Graph.Ends.{
  ConnectsAt-trans, add_in_link-Connects, add_out_link-Connects, insert-ConnectsAt,
}
use rmodel.Blueprint.Graph.Linking.{Connects, ConnectsAt, connect-IsGraph}
use rmodel.Blueprint.Link.{Link, LinkOption, with_link_labels}
use rmodel.Blueprint.Neuron.{Neuron, returns}
use rmodel.Blueprint.Neuron.Groups.{add_in_link, add_out_link}
use rmodel.Core.{entry_link_from}
use rmodel.Shared.{
  List, Option-cases, String, [], arith, eq_cases, eq_iff, false, if◌then◌else◌, inl, inr, is_some,
  none, refl, some, true, ◌==◌, ◌||◌, ◌∷◌, ◌≡◌, ◌≢◌,
}
use rmodel.Shared.Maps.{Distinct, Map, insert, insert-Distinct, lookup, lookup-insert}
use rmodel.Blueprint.Link

apply_all_ends :
    (opts : List LinkOption) (l : Link)
    → ((Link.apply_all opts l).id ≡ l.id)
      × ((Link.apply_all opts l).src ≡ l.src)
      × ((Link.apply_all opts l).dest ≡ l.dest)
unfolding Link.apply_all
apply_all_ends [] l = (refl, refl, refl)
apply_all_ends (with_link_labels labels ∷ opts) l =
    apply_all_ends opts (record l { labels = labels })

-- The key drawn for the new trigger group is not in use.
abbrev pub FreshGroup : String → String → Brainprint → Type 0
FreshGroup group_key to b =
    (n : Neuron) → lookup to b.neurons ≡ some n → lookup group_key n.trigger_groups ≡ none

insert-ne-none :
    (k j : String) (n : Neuron) (m : Map Neuron)
    → lookup j m ≡ none
    → is_some (lookup k m) ≡ true
    → lookup j (insert k n m) ≡ none
insert-ne-none k j n m h e = ground (arith, lookup-insert k j n m, eq_iff k j)

in_link_at-put :
    (group_key key link_id : String) (b : Brainprint) (dest : Neuron)
    → lookup key b.neurons ≡ some dest
    → in_link_at group_key key link_id b
      ≡ record b { neurons = insert key (add_in_link group_key dest link_id) b.neurons }
unfolding in_link_at put_neuron
in_link_at-put group_key key link_id b dest e = ground (arith, e)

module _ (group_key : String) (b : Brainprint) (l : Link) (opts : List LinkOption) (g : IsGraph b)
    (fresh : lookup l.id b.links ≡ none) (fresh_group : FreshGroup group_key l.dest b) where
  -- The options change only the labels.
  stored-IsGraph :
      (neurons' : Map Neuron)
      → Distinct neurons'
      → lookup entry_link_from neurons' ≡ none
      → ((k : String)
          → entry_link_from ≢ k
          → ConnectsAt l.id (l.dest == k) (l.src == k) (lookup k b.neurons) (lookup k neurons'))
      → is_some (lookup l.dest b.neurons) ≡ true
      → (l.src == entry_link_from || is_some (lookup l.src b.neurons)) ≡ true
      → IsGraph (store_link opts l (record b { neurons = neurons' })).0
  unfolding store_link put_link
  stored-IsGraph neurons' d no_entry each dest src =
      let (p, q, r) = apply_all_ends opts l in
      connect-IsGraph b (Link.apply_all opts l) neurons' g (rw p fresh) d no_entry
        (λ k ne. rw (p, q, r) (each k ne)) (rw r dest) (rw q src)

  no_source : l.src ≡ entry_link_from → (k : String) → entry_link_from ≢ k → (l.src == k) ≡ false
  no_source outside k ne = ground (arith, outside, eq_iff l.src k)

  -- A link from outside changes the destination only.
  pub entry_link-IsGraph :
      (dest : Neuron)
      → l.src ≡ entry_link_from
      → lookup l.dest b.neurons ≡ some dest
      → IsGraph (store_link opts l (in_link_at group_key l.dest l.id b)).0
  entry_link-IsGraph dest outside e =
      let c = add_in_link-Connects group_key l.id dest (fresh_group dest e) in
      let dest' = add_in_link group_key dest l.id in
      let there : is_some (lookup l.dest b.neurons) ≡ true = rw e in
      rw (in_link_at-put group_key l.dest l.id b dest e) (
        stored-IsGraph (insert l.dest dest' b.neurons)
          (insert-Distinct l.dest dest' b.neurons g.neurons_distinct)
          (insert-ne-none l.dest entry_link_from dest' b.neurons g.no_entry_neuron there)
          (λ k ne.
            rw (no_source outside k ne)
              (insert-ConnectsAt l.id l.dest true false dest dest' b.neurons e c k))
          there (ground (arith, outside, eq_iff l.src entry_link_from)))

  -- A link between two neurons of the blueprint, which may be one.
  pub inner_link-IsGraph :
      (src src' dest : Neuron)
      → lookup l.src b.neurons ≡ some src
      → lookup l.dest b.neurons ≡ some dest
      → add_out_link src l.id ≡ returns src'
      → IsGraph (store_link opts l (in_link_at group_key l.dest l.id (put_neuron l.src src' b))).0
  unfolding put_neuron
  inner_link-IsGraph src src' dest p q e =
      elim (Option-cases (lookup l.dest (insert l.src src' b.neurons))) [
        | inl gone ↦ absurd (ground (arith, gone, q, at_dest))
        | inr (d, found) ↦
            let d' = add_in_link group_key d l.id in
            let into = add_in_link-Connects group_key l.id d (fresh_at d found) in
            let still : is_some (lookup l.dest (insert l.src src' b.neurons)) ≡ true = rw found in
            rw (in_link_at-put group_key l.dest l.id (put_neuron l.src src' b) d found) (
              stored-IsGraph (insert l.dest d' (insert l.src src' b.neurons))
                (insert-Distinct l.dest d' _
                  (insert-Distinct l.src src' b.neurons g.neurons_distinct))
                (insert-ne-none l.dest entry_link_from d' _
                  (insert-ne-none l.src entry_link_from src' b.neurons g.no_entry_neuron (rw p))
                  still)
                (λ k ne.
                  ConnectsAt-trans l.id (l.dest == k) (l.src == k) _ _ _
                    (insert-ConnectsAt l.id l.src false true src src' b.neurons p out.0 k)
                    (insert-ConnectsAt l.id l.dest true false d d' _ found into k))
                (rw q) (ground (arith, p)))
      ]
    where
      out : Connects l.id false true src src' × (src'.trigger_groups ≡ src.trigger_groups)
      out = add_out_link-Connects l.id src src' (g.casts_distinct l.src src p) e

      at_dest :
          lookup l.dest (insert l.src src' b.neurons)
          ≡ (if l.src == l.dest then some src' else lookup l.dest b.neurons)
      at_dest = lookup-insert l.src l.dest src' b.neurons

      fresh_at :
          (d : Neuron)
          → lookup l.dest (insert l.src src' b.neurons) ≡ some d
          → lookup group_key d.trigger_groups ≡ none
      fresh_at d found = elim (eq_cases l.src l.dest) [
        | inl (t, same) ↦
            let is_src : src' ≡ d = ground (arith, at_dest, found, t) in
            rw (← is_src, out.1) (fresh_group src (rw (← same) p))
        | inr (f, _) ↦ fresh_group d (ground (arith, at_dest, found, f))
      ]
