-- ===== src/Blueprint/Graph/Built.antt =====
-- The blueprints that a program can build: every sequence of the operations of brainprint.go and
-- of neuron.go, each with ids and group keys that are new in the blueprint.
use rmodel.Blueprint.Brainprint.{Brainprint, new_blueprint}
use rmodel.Blueprint.Brainprint.Edit.{
  add_end_link_from, add_entry_link_to, add_link, add_neuron_with_processor, clone,
  ensure_end_neuron, on_neuron, set_labels,
}
use rmodel.Blueprint.Graph.{IsGraph}
use rmodel.Blueprint.Graph.Cloned.{clone-IsGraph}
use rmodel.Blueprint.Graph.Links.{FreshGroup}
use rmodel.Blueprint.Graph.Neurons.{Regroups, add_end_link_from-IsGraph, on_neuron-IsGraph}
use rmodel.Blueprint.Graph.Ops.{add_entry_link_to-IsGraph, add_link-IsGraph, put_neuron-IsGraph}
use rmodel.Blueprint.Link.{Link, LinkOption}
use rmodel.Blueprint.Neuron.{Neuron, has_in_link, has_out_link, new_neuron, or_empty, returns}
use rmodel.Blueprint.Neuron.Groups.{
  NeuronOption, add_cast_group, add_trigger_group, with_neuron_labels, with_py_process_exec_cmd,
  with_select_fn, with_selector,
}
use rmodel.Blueprint.Neuron.InLinks.{
  add_trigger_group-IsAntichain, add_trigger_group-has_in_link, add_trigger_group_frame,
}
use rmodel.Blueprint.Neuron.OutLinks.{
  add_cast_group-Distinct, add_cast_group-has_out_link, add_cast_group_frame,
}
use rmodel.Blueprint.Neuron.Triggers.{IsAntichain}
use rmodel.Core.{Processor, end_neuron_id, entry_link_from}
use rmodel.Errors.{Result}
use rmodel.Shared.{List, String, [], none, refl, ◌∙◌, ◌∷◌, ◌≡◌, ◌≢◌}
use rmodel.Shared.Maps.{Distinct, lookup}
use rmodel.Utils.{Labels}
use rmodel.Blueprint.Neuron.Groups

pub data Built : Brainprint → Type 0 where
  started : (id : String) → Built (new_blueprint id)
  relabelled : {b : Brainprint} → Built b → (labels : Labels) → Built (set_labels b labels)
  with_neuron :
      {b : Brainprint}
      → Built b
      → (id : String) (p : Processor) (opts : List NeuronOption) → lookup id b.neurons ≡ none
      → id ≢ entry_link_from
      → Built (add_neuron_with_processor id b p opts).0
  with_link :
      {b b' : Brainprint}
      → Built b
      → (link_id group_key from to : String) (opts : List LinkOption) (r : Result Link)
      → lookup link_id b.links ≡ none
      → FreshGroup group_key to b
      → add_link link_id group_key b from to opts ≡ returns (b', r)
      → Built b'
  with_entry_link :
      {b : Brainprint}
      → Built b
      → (link_id group_key to : String) (opts : List LinkOption) → lookup link_id b.links ≡ none
      → FreshGroup group_key to b
      → Built (add_entry_link_to link_id group_key b to opts).0
  with_end_link :
      {b b' : Brainprint}
      → Built b
      → (link_id group_key from : String) (opts : List LinkOption) (r : Result Link)
      → lookup link_id b.links ≡ none
      → FreshGroup group_key end_neuron_id (ensure_end_neuron b)
      → add_end_link_from link_id group_key b from opts ≡ returns (b', r)
      → Built b'
  with_trigger_group :
      {b : Brainprint}
      → Built b
      → (key group_key : String) (links : List Link) → FreshGroup group_key key b
      → Built (on_neuron key (λ n. (add_trigger_group group_key n links).0) b)
  with_cast_group :
      {b : Brainprint}
      → Built b
      → (key name : String) (links : List Link)
      → Built (on_neuron key (λ n. (add_cast_group n name links).0) b)
  with_option :
      {b : Brainprint}
      → Built b
      → (key : String) (opt : NeuronOption) → Built (on_neuron key (Groups.apply opt) b)
  cloned : {b : Brainprint} → Built b → Built (clone b)

new_blueprint-IsGraph : (id : String) → IsGraph (new_blueprint id)
unfolding new_blueprint lookup
new_blueprint-IsGraph id = record {
  neurons_distinct = tt;
  links_distinct = tt;
  no_entry_neuron = refl;
  neuron_ids = λ k n e. cc;
  link_keys = λ k l e. cc;
  antichains = λ k n e. absurd (cc);
  casts_distinct = λ k n e. absurd (cc);
  in_links = λ k n e x. cc;
  out_links = λ k n e x. cc;
  dest_exists = λ x l e. cc;
  src_exists = λ x l e. cc;
}

relabelled-IsGraph : (b : Brainprint) (labels : Labels) → IsGraph b → IsGraph (set_labels b labels)
unfolding set_labels
relabelled-IsGraph b labels g = record {
  neurons_distinct = g.neurons_distinct;
  links_distinct = g.links_distinct;
  no_entry_neuron = g.no_entry_neuron;
  neuron_ids = g.neuron_ids;
  link_keys = g.link_keys;
  antichains = g.antichains;
  casts_distinct = g.casts_distinct;
  in_links = g.in_links;
  out_links = g.out_links;
  dest_exists = g.dest_exists;
  src_exists = g.src_exists;
}

-- An option touches the labels and the selector only.
apply_groups :
    (opt : NeuronOption) (n : Neuron)
    → ((Groups.apply opt n).id ≡ n.id)
      × ((Groups.apply opt n).trigger_groups ≡ n.trigger_groups)
      × ((Groups.apply opt n).cast_groups ≡ n.cast_groups)
unfolding Groups.apply
apply_groups (with_neuron_labels labels) n = (refl, refl, refl)
apply_groups (with_select_fn select_fn) n = (refl, refl, refl)
apply_groups (with_selector selector) n = (refl, refl, refl)
apply_groups (with_py_process_exec_cmd python_cmd) n = (refl, refl, refl)

apply_all_groups :
    (opts : List NeuronOption) (n : Neuron)
    → ((Groups.apply_all opts n).id ≡ n.id)
      × ((Groups.apply_all opts n).trigger_groups ≡ n.trigger_groups)
      × ((Groups.apply_all opts n).cast_groups ≡ n.cast_groups)
unfolding Groups.apply_all
apply_all_groups [] n = (refl, refl, refl)
apply_all_groups (opt ∷ opts) n =
    let (p, q, r) = apply_groups opt n in
    let (p', q', r') = apply_all_groups opts (Groups.apply opt n) in (p' ∙ p, q' ∙ q, r' ∙ r)

add_neuron-IsGraph :
    (id : String) (b : Brainprint) (p : Processor) (opts : List NeuronOption)
    → IsGraph b
    → lookup id b.neurons ≡ none
    → id ≢ entry_link_from
    → IsGraph (add_neuron_with_processor id b p opts).0
unfolding add_neuron_with_processor new_neuron
add_neuron-IsGraph id b p opts g fresh ne =
    let n = new_neuron id p in
    let (named, triggers, casts) = apply_all_groups opts n in
    put_neuron-IsGraph b (Groups.apply_all opts n) g (rw named fresh) (rw named ne) triggers
      (rw casts)

Regroups-trigger :
    (group_key : String) (n : Neuron) (links : List Link)
    → IsAntichain n.trigger_groups
    → Distinct (or_empty n.cast_groups)
    → lookup group_key n.trigger_groups ≡ none
    → Regroups n (add_trigger_group group_key n links).0
Regroups-trigger group_key n links a d fresh = record {
  same_id = (add_trigger_group_frame group_key n links).0;
  ins = add_trigger_group-has_in_link group_key n links a fresh;
  outs = λ x. unfold has_out_link in rw ((add_trigger_group_frame group_key n links).1);
  antichain = add_trigger_group-IsAntichain group_key n links a;
  distinct = rw ((add_trigger_group_frame group_key n links).1) d;
}

Regroups-cast :
    (n : Neuron) (name : String) (links : List Link)
    → IsAntichain n.trigger_groups
    → Distinct (or_empty n.cast_groups)
    → Regroups n (add_cast_group n name links).0
Regroups-cast n name links a d = record {
  same_id = (add_cast_group_frame n name links).0;
  ins = λ x. unfold has_in_link in rw ((add_cast_group_frame n name links).1);
  outs = add_cast_group-has_out_link n name links d;
  antichain = rw ((add_cast_group_frame n name links).1) a;
  distinct = add_cast_group-Distinct n name links d;
}

Regroups-option :
    (opt : NeuronOption) (n : Neuron)
    → IsAntichain n.trigger_groups
    → Distinct (or_empty n.cast_groups)
    → Regroups n (Groups.apply opt n)
Regroups-option opt n a d =
    let (named, triggers, casts) = apply_groups opt n in
    record {
      same_id = named;
      ins = λ x. unfold has_in_link in rw triggers;
      outs = λ x. unfold has_out_link in rw casts;
      antichain = rw triggers a;
      distinct = rw casts d;
    }

-- Every blueprint that a program builds with the operations of a blueprint and of its neurons, `Clone`
-- among them, is well formed, where each id and each group key that is drawn is new in it, and no
-- neuron has the id that stands for the source of an entry link: the links in the blueprint's map and
-- the links in the groups of its neurons are the same, every link joins neurons of the blueprint, ids
-- are keys, and every neuron's trigger groups form an antichain.
pub Built-IsGraph : {b : Brainprint} → Built b → IsGraph b
Built-IsGraph (started id) = new_blueprint-IsGraph id
Built-IsGraph (relabelled t labels) = relabelled-IsGraph _ labels (Built-IsGraph t)
Built-IsGraph (with_neuron {b} t id p opts fresh ne) =
    add_neuron-IsGraph id b p opts (Built-IsGraph t) fresh ne
Built-IsGraph (with_link {b} t link_id group_key from to opts r fresh fresh_group e) =
    rw e at (add_link-IsGraph link_id group_key b from to opts (Built-IsGraph t) fresh fresh_group)
Built-IsGraph (with_entry_link {b} t link_id group_key to opts fresh fresh_group) =
    add_entry_link_to-IsGraph link_id group_key b to opts (Built-IsGraph t) fresh fresh_group
Built-IsGraph (with_end_link {b} t link_id group_key from opts r fresh fresh_group e) =
    rw e at
      (add_end_link_from-IsGraph link_id group_key b from opts (Built-IsGraph t) fresh fresh_group)
Built-IsGraph (with_trigger_group {b} t key group_key links fresh) =
    let g = Built-IsGraph t in
    on_neuron-IsGraph key _ b g (λ n e.
      Regroups-trigger group_key n links (g.antichains key n e) (g.casts_distinct key n e)
        (fresh n e))
Built-IsGraph (with_cast_group {b} t key name links) =
    let g = Built-IsGraph t in
    on_neuron-IsGraph key _ b g
      (λ n e. Regroups-cast n name links (g.antichains key n e) (g.casts_distinct key n e))
Built-IsGraph (cloned {b} t) = clone-IsGraph b (Built-IsGraph t)
Built-IsGraph (with_option {b} t key opt) =
    let g = Built-IsGraph t in
    on_neuron-IsGraph key _ b g
      (λ n e. Regroups-option opt n (g.antichains key n e) (g.casts_distinct key n e))
