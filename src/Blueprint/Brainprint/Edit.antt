-- ===== src/Blueprint/Brainprint/Edit.antt =====
-- brainprint.go: the operations that change the blueprint. Ids that github.com/rs/xid draws are
-- arguments, in the order of the draws.
use rmodel.Blueprint.Brainprint.{Brainprint}
use rmodel.Blueprint.Link.{Link, LinkOption, new_end_link, new_entry_link, new_link}
use rmodel.Blueprint.Neuron.{Neuron, Outcome, new_end_neuron, new_neuron, panics, returns}
use rmodel.Blueprint.Neuron.Groups.{NeuronOption, add_in_link, add_out_link, with_neuron_labels}
use rmodel.Core.{Processor, end_neuron_id, func_processor}
use rmodel.Errors.{Result, err, neuron_not_found, ok}
use rmodel.Shared.{List, String, [], none, some, ◌++◌, ◌∷◌}
use rmodel.Shared.Maps.{Map, insert, lookup}
use rmodel.Utils.{Labels, labels_deep_copy}
use rmodel.Blueprint.Link
use rmodel.Blueprint.Neuron
use rmodel.Blueprint.Neuron.Groups

unfoldable pub set_labels : Brainprint → Labels → Brainprint
set_labels b labels = record b { labels = labels }

-- Writes a changed neuron back under its key.
unfoldable pub put_neuron : String → Neuron → Brainprint → Brainprint
put_neuron key n b = record b { neurons = insert key n b.neurons }

unfoldable pub put_link : Link → Brainprint → Brainprint
put_link l b = record b { links = insert l.id l b.links }

unfoldable pub add_neuron_with_processor :
    String → Brainprint → Processor → List NeuronOption → Brainprint × Neuron
unfolding put_neuron
add_neuron_with_processor id b p with_opts =
    let n = Groups.apply_all with_opts (new_neuron id p) in (put_neuron n.id n b, n)

-- `AddNeuron` wraps the function that `code` names in a `FuncProcessor`.
unfoldable pub add_neuron : String → Brainprint → String → List NeuronOption → Brainprint × Neuron
unfolding add_neuron_with_processor
add_neuron id b code with_opts = add_neuron_with_processor id b (func_processor code) with_opts

-- `loaded` is what `pyprocessor.LoadPythonProcessor` returns.
unfoldable pub add_neuron_with_py_processor :
    String → Brainprint → Processor → List NeuronOption → Brainprint × Neuron
unfolding add_neuron_with_processor
add_neuron_with_py_processor id b loaded with_opts =
    add_neuron_with_processor id b loaded
      (with_opts ++ with_neuron_labels (insert "language" "python" []) ∷ [])

-- `dest.addInLink(l.GetID())` on the neuron behind a key that is known to be there.
unfoldable pub in_link_at : String → String → String → Brainprint → Brainprint
unfolding put_neuron
in_link_at group_key key link_id b = elim (lookup key b.neurons) [
  | none ↦ b
  | some dest ↦ put_neuron key (add_in_link group_key dest link_id) b
]

unfoldable pub store_link : List LinkOption → Link → Brainprint → Brainprint × Result Link
unfolding put_link
store_link with_opts l b = let l' = Link.apply_all with_opts l in (put_link l' b, ok l')

-- The part of `AddLink` behind `src.addOutLink`.
unfoldable pub finish_link :
    String
    → String
    → String
    → List LinkOption
    → Link
    → Brainprint
    → Outcome Neuron
    → Outcome (Brainprint × Result Link)
unfolding put_neuron in_link_at store_link
finish_link group_key from to with_opts l b panics = panics
finish_link group_key from to with_opts l b (returns src) =
    returns (store_link with_opts l (in_link_at group_key to l.id (put_neuron from src b)))

unfoldable pub add_link :
    String
    → String
    → Brainprint
    → String
    → String
    → List LinkOption
    → Outcome (Brainprint × Result Link)
unfolding finish_link
add_link link_id group_key b from to with_opts = elim (lookup from b.neurons) [
  | none ↦ returns (b, err (neuron_not_found from))
  | some src ↦ elim (lookup to b.neurons) [
    | none ↦ returns (b, err (neuron_not_found to))
    | some _ ↦
        let l = new_link link_id from to in
        finish_link group_key from to with_opts l b (add_out_link src l.id)
  ]
]

unfoldable pub add_entry_link_to :
    String → String → Brainprint → String → List LinkOption → Brainprint × Result Link
unfolding store_link in_link_at
add_entry_link_to link_id group_key b to with_opts = elim (lookup to b.neurons) [
  | none ↦ (b, err (neuron_not_found to))
  | some _ ↦
      let l = new_entry_link link_id to in store_link with_opts l (in_link_at group_key to l.id b)
]

unfoldable pub ensure_end_neuron : Brainprint → Brainprint
unfolding put_neuron
ensure_end_neuron b = elim (lookup end_neuron_id b.neurons) [
  | some _ ↦ b
  | none ↦ put_neuron end_neuron_id new_end_neuron b
]

unfoldable pub add_end_link_from :
    String → String → Brainprint → String → List LinkOption → Outcome (Brainprint × Result Link)
unfolding finish_link ensure_end_neuron
add_end_link_from link_id group_key b from with_opts = elim (lookup from b.neurons) [
  | none ↦ returns (b, err (neuron_not_found from))
  | some src ↦
      let l = new_end_link link_id src.id in
      finish_link group_key from end_neuron_id with_opts l (ensure_end_neuron b)
        (add_out_link src l.id)
]

unfoldable pub copy_neurons : Map Neuron → Map Neuron → Map Neuron
copy_neurons [] cp = cp
copy_neurons ((id, n) ∷ neurons) cp = copy_neurons neurons (insert id (Neuron.deep_copy n) cp)

unfoldable pub copy_links : Map Link → Map Link → Map Link
copy_links [] cp = cp
copy_links ((id, l) ∷ links) cp = copy_links links (insert id (Link.deep_copy l) cp)

unfoldable pub clone : Brainprint → Brainprint
unfolding copy_neurons copy_links
clone b = record {
  id = b.id;
  labels = labels_deep_copy b.labels;
  neurons = copy_neurons b.neurons [];
  links = copy_links b.links [];
}

-- A call of `n.AddTriggerGroup`, `n.AddCastGroup` or a setter on the neuron under a key.
unfoldable pub on_neuron : String → (Neuron → Neuron) → Brainprint → Brainprint
unfolding put_neuron
on_neuron key f b = elim (lookup key b.neurons) [ none ↦ b | some n ↦ put_neuron key (f n) b ]
