-- ===== src/Blueprint/Graph/Neurons.antt =====
-- brainprint.go and neuron.go: new neurons, the END neuron and its links, and the operations on a
-- neuron of the blueprint keep the graph well formed.
use rmodel.Blueprint.Brainprint.{Brainprint}
use rmodel.Blueprint.Brainprint.Edit.{
  add_end_link_from, ensure_end_neuron, finish_link, on_neuron, put_neuron,
}
use rmodel.Blueprint.Graph.{IsGraph}
use rmodel.Blueprint.Graph.Links.{FreshGroup, inner_link-IsGraph}
use rmodel.Blueprint.Graph.Ops.{OnReturn, put_neuron-IsGraph}
use rmodel.Blueprint.Link.{LinkOption, new_end_link}
use rmodel.Blueprint.Neuron.{
  Neuron, Outcome-cases, has_in_link, has_out_link, new_end_neuron, or_empty,
}
use rmodel.Blueprint.Neuron.Groups.{add_out_link}
use rmodel.Blueprint.Neuron.Triggers.{IsAntichain}
use rmodel.Core.{end_neuron_id, entry_link_from}
use rmodel.Shared.{
  List, Option-cases, String, arith, eq_cases, eq_iff, if◌then◌else◌, inl, inr, none, refl, some,
  subst, sym, ◌==◌, ◌∙◌, ◌≡◌, ◌⊎◌,
}
use rmodel.Shared.Maps.{Distinct, insert, insert-Distinct, lookup, lookup-insert}

ensure_end-put :
    (b : Brainprint)
    → lookup end_neuron_id b.neurons ≡ none
    → ensure_end_neuron b ≡ put_neuron end_neuron_id new_end_neuron b
unfolding ensure_end_neuron
ensure_end-put b e = rw (e, ensure_end_neuron)

ensure_end_same :
    (b : Brainprint) (n : Neuron)
    → lookup end_neuron_id b.neurons ≡ some n
    → ensure_end_neuron b ≡ b
unfolding ensure_end_neuron
ensure_end_same b n e = rw (e, ensure_end_neuron)

ensure_end_neuron-IsGraph : (b : Brainprint) → IsGraph b → IsGraph (ensure_end_neuron b)
ensure_end_neuron-IsGraph b g = elim (Option-cases (lookup end_neuron_id b.neurons)) [
  | inr (n, e) ↦ rw (ensure_end_same b n e) g
  | inl e ↦ rw (ensure_end-put b e) (
      unfold new_end_neuron in
      put_neuron-IsGraph b new_end_neuron g e
        (λ p. ground (arith, p, eq_iff end_neuron_id entry_link_from)) refl refl)
]

-- What `ensureEndNeuron` leaves: the END neuron is there, the links and the other neurons stay.
ensure_end_there :
    (b : Brainprint)
    → ((n : Neuron) × (lookup end_neuron_id (ensure_end_neuron b).neurons ≡ some n))
      × ((ensure_end_neuron b).links ≡ b.links)
      × ((k : String) (n : Neuron)
          → lookup k b.neurons ≡ some n
          → lookup k (ensure_end_neuron b).neurons ≡ some n)
ensure_end_there b = elim (Option-cases (lookup end_neuron_id b.neurons)) [
  | inr (n, e) ↦ rw (ensure_end_same b n e) ((n, e), refl, λ k m h. h)
  | inl e ↦ rw (ensure_end-put b e) (
      unfold put_neuron in
      (
        (new_end_neuron, rw (lookup-insert end_neuron_id end_neuron_id new_end_neuron b.neurons)),
        refl,
        λ k m h. ground (
          arith,
          lookup-insert end_neuron_id k new_end_neuron b.neurons,
          eq_iff end_neuron_id k,
          e,
          h,
        ),
      ))
]

add_end_link-finish_link :
    (link_id group_key : String) (b : Brainprint) (from : String) (opts : List LinkOption)
    (src : Neuron)
    → lookup from b.neurons ≡ some src
    → add_end_link_from link_id group_key b from opts
      ≡ finish_link group_key from end_neuron_id opts
          (new_end_link link_id src.id)
          (ensure_end_neuron b)
          (add_out_link src link_id)
unfolding add_end_link_from new_end_link
add_end_link-finish_link link_id group_key b from opts src e = rw (e, add_end_link_from)

end_link_to-IsGraph :
    (link_id group_key : String) (b : Brainprint) (from : String) (opts : List LinkOption)
    (src : Neuron)
    → IsGraph b
    → lookup link_id b.links ≡ none
    → FreshGroup group_key end_neuron_id (ensure_end_neuron b)
    → lookup from b.neurons ≡ some src
    → OnReturn IsGraph (
        finish_link group_key from end_neuron_id opts
          (new_end_link link_id from)
          (ensure_end_neuron b)
          (add_out_link src link_id))
unfolding finish_link new_end_link
end_link_to-IsGraph link_id group_key b from opts src g fresh fresh_group e =
    elim (Outcome-cases (add_out_link src link_id)) [
      | inl p ↦ rw p tt
      | inr (src', p) ↦
          let (there, links, others) = ensure_end_there b in
          rw p (
            inner_link-IsGraph group_key (ensure_end_neuron b) (new_end_link link_id from) opts
              (ensure_end_neuron-IsGraph b g) (rw links fresh) fresh_group src src' there.0
              (others from src e) there.1 p)
    ]

-- `AddEndLinkFrom` keeps the graph well formed where it returns, for a link id and a group key that
-- are new.
pub add_end_link_from-IsGraph :
    (link_id group_key : String) (b : Brainprint) (from : String) (opts : List LinkOption)
    → IsGraph b
    → lookup link_id b.links ≡ none
    → FreshGroup group_key end_neuron_id (ensure_end_neuron b)
    → OnReturn IsGraph (add_end_link_from link_id group_key b from opts)
add_end_link_from-IsGraph link_id group_key b from opts g fresh fresh_group =
    elim (Option-cases (lookup from b.neurons)) [
      | inl e ↦ unfold add_end_link_from in rw (e, add_end_link_from) g
      | inr (src, e) ↦ rw (add_end_link-finish_link link_id group_key b from opts src e) (
          subst
            (λ s. OnReturn IsGraph (
              finish_link group_key from end_neuron_id opts (new_end_link link_id s)
                (ensure_end_neuron b) (add_out_link src link_id)))
            (sym (g.neuron_ids from src e))
            (end_link_to-IsGraph link_id group_key b from opts src g fresh fresh_group e))
    ]

-- What an operation on a neuron must keep.
pub record Regroups (n n' : Neuron) : Type 0 where
  pub same_id : n'.id ≡ n.id
  pub ins : (x : String) → has_in_link n' x ≡ has_in_link n x
  pub outs : (x : String) → has_out_link n' x ≡ has_out_link n x
  pub antichain : IsAntichain n'.trigger_groups
  pub distinct : Distinct (or_empty n'.cast_groups)

put_back-IsGraph :
    (key : String) (b : Brainprint) (n n' : Neuron)
    → IsGraph b
    → lookup key b.neurons ≡ some n
    → Regroups n n'
    → IsGraph (put_neuron key n' b)
unfolding put_neuron
put_back-IsGraph key b n n' g here r = record {
  neurons_distinct = insert-Distinct key n' b.neurons g.neurons_distinct;
  links_distinct = g.links_distinct;
  no_entry_neuron =
      ground (arith, at entry_link_from, eq_iff key entry_link_from, here, g.no_entry_neuron);
  neuron_ids = λ k m e. elim (origin k m e) [
    | inl (q, p) ↦ rw (p, ← q) (r.same_id ∙ g.neuron_ids key n here)
    | inr old ↦ g.neuron_ids k m old
  ];
  link_keys = g.link_keys;
  antichains = λ k m e. elim (origin k m e) [
    | inl (_, p) ↦ rw p r.antichain
    | inr old ↦ g.antichains k m old
  ];
  casts_distinct = λ k m e. elim (origin k m e) [
    | inl (_, p) ↦ rw p r.distinct
    | inr old ↦ g.casts_distinct k m old
  ];
  in_links = λ k m e x. elim (origin k m e) [
    | inl (q, p) ↦ rw (p, ← q) (r.ins x ∙ g.in_links key n here x)
    | inr old ↦ g.in_links k m old x
  ];
  out_links = λ k m e x. elim (origin k m e) [
    | inl (q, p) ↦ rw (p, ← q) (r.outs x ∙ g.out_links key n here x)
    | inr old ↦ g.out_links k m old x
  ];
  dest_exists = λ x l e. ground (arith, at l.dest, g.dest_exists x l e);
  src_exists = λ x l e. ground (arith, at l.src, g.src_exists x l e);
}
  where
    at :
        (k : String)
        → lookup k (insert key n' b.neurons) ≡ (if key == k then some n' else lookup k b.neurons)
    at k = lookup-insert key k n' b.neurons

    origin :
        (k : String) (m : Neuron)
        → lookup k (insert key n' b.neurons) ≡ some m
        → ((key ≡ k) × (m ≡ n')) ⊎ (lookup k b.neurons ≡ some m)
    origin k m e = elim (eq_cases key k) [
      | inl (t, p) ↦ inl (p, ground (arith, at k, e, t))
      | inr (f, _) ↦ inr (ground (arith, at k, e, f))
    ]

pub on_neuron-IsGraph :
    (key : String) (f : Neuron → Neuron) (b : Brainprint)
    → IsGraph b
    → ((n : Neuron) → lookup key b.neurons ≡ some n → Regroups n (f n))
    → IsGraph (on_neuron key f b)
unfolding on_neuron
on_neuron-IsGraph key f b g keeps = elim (Option-cases (lookup key b.neurons)) [
  | inl e ↦ rw (e, on_neuron) g
  | inr (n, e) ↦ rw (e, on_neuron) (put_back-IsGraph key b n (f n) g e (keeps n e))
]
