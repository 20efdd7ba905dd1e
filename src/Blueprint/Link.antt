-- ===== src/Blueprint/Link.antt =====
-- link.go: the link of a blueprint. `utils.GenIDShort` draws an id from github.com/rs/xid, so the
-- constructors take the drawn id as an argument.
use rmodel.Core.{end_link_to, entry_link_from}
use rmodel.Shared.{Bool, List, String, [], ◌==◌, ◌∷◌}
use rmodel.Utils.{Labels, labels_deep_copy}

pub record Link : Type 0 where
  pub id : String
  pub labels : Labels
  pub src : String
  pub dest : String

unfoldable pub new_link : String → String → String → Link
new_link id src_neuron_id dest_neuron_id = record {
  id = id;
  labels = [];
  src = src_neuron_id;
  dest = dest_neuron_id;
}

unfoldable pub new_entry_link : String → String → Link
new_entry_link id dest_neuron_id = record {
  id = id;
  labels = [];
  src = entry_link_from;
  dest = dest_neuron_id;
}

unfoldable pub new_end_link : String → String → Link
new_end_link id src_neuron_id = record {
  id = id;
  labels = [];
  src = src_neuron_id;
  dest = end_link_to;
}

unfoldable pub is_entry_link : Link → Bool
is_entry_link l = l.src == entry_link_from

unfoldable pub is_end_link : Link → Bool
is_end_link l = l.dest == end_link_to

unfoldable pub deep_copy : Link → Link
deep_copy l = record { id = l.id; labels = labels_deep_copy l.labels; src = l.src; dest = l.dest }

-- `core.LinkOption`: the one option is `WithLinkLabels`, which calls `SetLabels`.
pub data LinkOption : Type 0 where
  with_link_labels : Labels → LinkOption

unfoldable pub set_labels : Link → Labels → Link
set_labels l labels = record l { labels = labels }

unfoldable pub apply : LinkOption → Link → Link
unfolding set_labels
apply (with_link_labels labels) l = set_labels l labels

-- `for _, opt := range withOpts { opt.Apply(l) }`
unfoldable pub apply_all : List LinkOption → Link → Link
unfolding apply
apply_all [] l = l
apply_all (opt ∷ opts) l = apply_all opts (apply opt l)
