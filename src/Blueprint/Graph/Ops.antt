-- ===== src/Blueprint/Graph/Ops.antt =====
-- brainprint.go: each operation of the blueprint, and each operation on one of its neurons, keeps
-- the graph well formed.
use rmodel.Blueprint.Brainprint.{Brainprint}
use rmodel.Blueprint.Brainprint.Edit.{add_entry_link_to, add_link, finish_link, put_neuron}
use rmodel.Blueprint.Graph.{IsGraph, dest_is, src_is}
use rmodel.Blueprint.Graph.Links.{FreshGroup, entry_link-IsGraph, inner_link-IsGraph}
use rmodel.Blueprint.Link.{Link, LinkOption, new_entry_link, new_link}
use rmodel.Blueprint.Neuron.{
  Neuron, Outcome, Outcome-cases, has_in_link, has_out_link, in_some_group, in_some_set, or_empty,
  panics, returns,
}
use rmodel.Blueprint.Neuron.Groups.{add_out_link}
use rmodel.Blueprint.Neuron.Triggers.{IsAntichain}
use rmodel.Core.{entry_link_from}
use rmodel.Errors.{Error, Result, err, neuron_not_found}
use rmodel.Shared.{
  List, Option-cases, String, [], arith, eq_cases, eq_iff, false, if◌then◌else◌, inl, inr, none,
  refl, some, sym, ◌==◌, ◌∙◌, ◌≡◌, ◌≢◌, ◌⊎◌,
}
use rmodel.Shared.Maps.{insert, insert-Distinct, lookup, lookup-insert}

-- What holds of the blueprint where the call returns.
abbrev pub OnReturn : (Brainprint → Type 0) → Outcome (Brainprint × Result Link) → Type 0
OnReturn P panics = Unit {0}
OnReturn P (returns (b, r)) = P b

add_link-finish_link :
    (link_id group_key : String) (b : Brainprint) (from to : String) (opts : List LinkOption)
    (src dest : Neuron)
    → lookup from b.neurons ≡ some src
    → lookup to b.neurons ≡ some dest
    → add_link link_id group_key b from to opts
      ≡ finish_link group_key from to opts (new_link link_id from to) b (add_out_link src link_id)
unfolding add_link new_link
add_link-finish_link link_id group_key b from to opts src dest e e' =
    rw (e, add_link) (rw (e', add_link))

add_link_missing :
    (link_id group_key : String) (b : Brainprint) (from to : String) (opts : List LinkOption)
    → (lookup from b.neurons ≡ none)
      ⊎ ((src : Neuron) × (lookup from b.neurons ≡ some src) × (lookup to b.neurons ≡ none))
    → (e : Error) × (add_link link_id group_key b from to opts ≡ returns (b, err e))
unfolding add_link
add_link_missing link_id group_key b from to opts (inl e) =
    (neuron_not_found from, rw (e, add_link))
add_link_missing link_id group_key b from to opts (inr (src, e, e')) =
    (neuron_not_found to, rw (e, add_link) (rw (e', add_link)))

-- A well formed graph, with a link id and a group key that are new to it, stays well formed under
-- `AddLink`, whatever the two neuron ids are, where the call returns.
pub add_link-IsGraph :
    (link_id group_key : String) (b : Brainprint) (from to : String) (opts : List LinkOption)
    → IsGraph b
    → lookup link_id b.links ≡ none
    → FreshGroup group_key to b
    → OnReturn IsGraph (add_link link_id group_key b from to opts)
add_link-IsGraph link_id group_key b from to opts g fresh fresh_group =
    elim (Option-cases (lookup from b.neurons)) [
      | inl e ↦ rw ((add_link_missing link_id group_key b from to opts (inl e)).1) g
      | inr (src, e) ↦ elim (Option-cases (lookup to b.neurons)) [
        | inl e' ↦ rw ((add_link_missing link_id group_key b from to opts (inr (src, e, e'))).1) g
        | inr (dest, e') ↦
            rw (add_link-finish_link link_id group_key b from to opts src dest e e')
              (linked src dest e e')
      ]
    ]
  where
    linked :
        (src dest : Neuron)
        → lookup from b.neurons ≡ some src
        → lookup to b.neurons ≡ some dest
        → OnReturn IsGraph (
            finish_link group_key from to opts
              (new_link link_id from to)
              b
              (add_out_link src link_id))
    linked src dest e e' = elim (Outcome-cases (add_out_link src link_id)) [
      | inl p ↦ rw p (unfold finish_link in tt)
      | inr (src', p) ↦ rw p (
          unfold finish_link new_link in
          inner_link-IsGraph group_key b (new_link link_id from to) opts g fresh fresh_group src
            src' dest e e' p)
    ]

-- The same for `AddEntryLinkTo`, which always returns.
pub add_entry_link_to-IsGraph :
    (link_id group_key : String) (b : Brainprint) (to : String) (opts : List LinkOption)
    → IsGraph b
    → lookup link_id b.links ≡ none
    → FreshGroup group_key to b
    → IsGraph (add_entry_link_to link_id group_key b to opts).0
unfolding add_entry_link_to new_entry_link
add_entry_link_to-IsGraph link_id group_key b to opts g fresh fresh_group =
    elim (Option-cases (lookup to b.neurons)) [
      | inl e ↦ rw (e, add_entry_link_to) g
      | inr (dest, e) ↦
          rw (e, add_entry_link_to)
            (entry_link-IsGraph group_key b (new_entry_link link_id to) opts g fresh fresh_group
              dest refl e)
    ]

pub nil-IsAntichain : IsAntichain []
unfolding lookup
nil-IsAntichain = record { distinct = tt; filled = λ k g h. cc; apart = λ j k g h p q s. cc }

no_dest :
    (b : Brainprint) (k x : String)
    → IsGraph b
    → lookup k b.neurons ≡ none
    → dest_is k (lookup x b.links) ≡ false
no_dest b k x g e = elim (Option-cases (lookup x b.links)) [
  | inl p ↦ rw p
  | inr (l, p) ↦ rw p (ground (arith, g.dest_exists x l p, eq_iff l.dest k, e))
]

no_src :
    (b : Brainprint) (k x : String)
    → IsGraph b
    → lookup k b.neurons ≡ none
    → k ≢ entry_link_from
    → src_is k (lookup x b.links) ≡ false
no_src b k x g e ne = elim (Option-cases (lookup x b.links)) [
  | inl p ↦ rw p
  | inr (l, p) ↦
      rw p (ground (arith, g.src_exists x l p, eq_iff l.src k, eq_iff l.src entry_link_from, e, ne))
]

-- A neuron without groups, under an id that is new, keeps the graph well formed.
pub put_neuron-IsGraph :
    (b : Brainprint) (n : Neuron)
    → IsGraph b
    → lookup n.id b.neurons ≡ none
    → n.id ≢ entry_link_from
    → n.trigger_groups ≡ []
    → or_empty n.cast_groups ≡ []
    → IsGraph (put_neuron n.id n b)
unfolding put_neuron
put_neuron-IsGraph b n g fresh ne no_triggers no_casts = record {
  neurons_distinct = insert-Distinct n.id n b.neurons g.neurons_distinct;
  links_distinct = g.links_distinct;
  no_entry_neuron =
      ground (arith, at entry_link_from, eq_iff n.id entry_link_from, ne, g.no_entry_neuron);
  neuron_ids = λ k m e. ground (arith, at k, e, eq_iff n.id k, g.neuron_ids k m);
  link_keys = g.link_keys;
  antichains = λ k m e. elim (origin k m e) [
    | inl (_, p) ↦ rw (p, no_triggers) nil-IsAntichain
    | inr old ↦ g.antichains k m old
  ];
  casts_distinct = λ k m e. elim (origin k m e) [
    | inl (_, p) ↦ rw (p, no_casts) tt
    | inr old ↦ g.casts_distinct k m old
  ];
  in_links = λ k m e x. elim (origin k m e) [
    | inl (q, p) ↦ rw (p, ← q) (no_ins x ∙ sym (no_dest b n.id x g fresh))
    | inr old ↦ g.in_links k m old x
  ];
  out_links = λ k m e x. elim (origin k m e) [
    | inl (q, p) ↦ rw (p, ← q) (no_outs x ∙ sym (no_src b n.id x g fresh ne))
    | inr old ↦ g.out_links k m old x
  ];
  dest_exists = λ x l e. ground (arith, at l.dest, g.dest_exists x l e);
  src_exists = λ x l e. ground (arith, at l.src, g.src_exists x l e);
}
  where
    at :
        (k : String)
        → lookup k (insert n.id n b.neurons) ≡ (if n.id == k then some n else lookup k b.neurons)
    at k = lookup-insert n.id k n b.neurons

    origin :
        (k : String) (m : Neuron)
        → lookup k (insert n.id n b.neurons) ≡ some m
        → ((n.id ≡ k) × (m ≡ n)) ⊎ (lookup k b.neurons ≡ some m)
    origin k m e = elim (eq_cases n.id k) [
      | inl (t, p) ↦ inl (p, ground (arith, at k, e, t))
      | inr (f, _) ↦ inr (ground (arith, at k, e, f))
    ]

    no_ins : (x : String) → has_in_link n x ≡ false
    no_ins x = unfold has_in_link in_some_group in rw no_triggers

    no_outs : (x : String) → has_out_link n x ≡ false
    no_outs x = unfold has_out_link in_some_set in rw no_casts
