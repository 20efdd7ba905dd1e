-- ===== src/Blueprint/Graph.antt =====
-- brainprint.go and neuron.go: the two views of the graph, the links in the blueprint's map and
-- the links in the groups of its neurons, agree.
pub mod Linking
pub mod Ends
pub mod Links
pub mod Ops
pub mod Neurons
pub mod Cloned
pub mod Built
pub mod Views
pub mod Copies
use rmodel.Blueprint.Brainprint.{Brainprint}
use rmodel.Blueprint.Link.{Link}
use rmodel.Blueprint.Neuron.{Neuron, has_in_link, has_out_link, or_empty}
use rmodel.Blueprint.Neuron.Triggers.{IsAntichain}
use rmodel.Core.{entry_link_from}
use rmodel.Shared.{Bool, Option, String, false, is_some, none, some, true, ◌==◌, ◌||◌, ◌≡◌}
use rmodel.Shared.Maps.{Distinct, lookup}

abbrev pub dest_is : String → Option Link → Bool
dest_is k none = false
dest_is k (some l) = l.dest == k

abbrev pub src_is : String → Option Link → Bool
src_is k none = false
src_is k (some l) = l.src == k

-- The graph is well formed: ids are keys, each link joins neurons of the blueprint (an entry link
-- has no source), and a neuron's groups hold exactly its own links.
pub record IsGraph (b : Brainprint) : Type 0 where
  pub neurons_distinct : Distinct b.neurons
  pub links_distinct : Distinct b.links
  pub no_entry_neuron : lookup entry_link_from b.neurons ≡ none
  pub neuron_ids : (k : String) (n : Neuron) → lookup k b.neurons ≡ some n → n.id ≡ k
  pub link_keys : (k : String) (l : Link) → lookup k b.links ≡ some l → l.id ≡ k
  pub antichains :
      (k : String) (n : Neuron) → lookup k b.neurons ≡ some n → IsAntichain n.trigger_groups
  pub casts_distinct :
      (k : String) (n : Neuron) → lookup k b.neurons ≡ some n → Distinct (or_empty n.cast_groups)
  pub in_links :
      (k : String) (n : Neuron)
      → lookup k b.neurons ≡ some n
      → (x : String) → has_in_link n x ≡ dest_is k (lookup x b.links)
  pub out_links :
      (k : String) (n : Neuron)
      → lookup k b.neurons ≡ some n
      → (x : String) → has_out_link n x ≡ src_is k (lookup x b.links)
  pub dest_exists :
      (x : String) (l : Link) → lookup x b.links ≡ some l → is_some (lookup l.dest b.neurons) ≡ true
  pub src_exists :
      (x : String) (l : Link)
      → lookup x b.links ≡ some l
      → (l.src == entry_link_from || is_some (lookup l.src b.neurons)) ≡ true
