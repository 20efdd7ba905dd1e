-- ===== src/Examples/Graphs.antt =====
-- The theorems on the graph of a blueprint at the sample blueprint.
use rmodel.Blueprint.Brainprint.{get_dest_neuron, get_src_neuron, list_in_links, list_out_links}
use rmodel.Blueprint.Brainprint.Edit.{clone}
use rmodel.Blueprint.Graph.{IsGraph}
use rmodel.Blueprint.Graph.Built.{Built-IsGraph}
use rmodel.Blueprint.Graph.Copies.{clone_lem, with_casts}
use rmodel.Blueprint.Graph.Views.{get_ends, list_links-agree}
use rmodel.Blueprint.Neuron.{Neuron, has_in_link, has_out_link, list_in_link_ids, list_out_link_ids}
use rmodel.Blueprint.Neuron.Groups.{link_ids}
use rmodel.Core.{entry_link_from, func_processor}
use rmodel.Errors.{err, neuron_not_found, ok}
use rmodel.Examples.Sample.{
  complete, complete-Built, linked, linked-Built, sample_link, sample_neuron,
}
use rmodel.Shared.{[], refl, some, ◌∷◌, ◌≡◌, ◌≢◌, ◌⊎◌}
use rmodel.Shared.Maps.{lookup}
use rmodel.Shared.Sets.{elem}
use rmodel.Utils.{merge_labels}
use rmodel.Utils.Copies.{map_values}
use rmodel.Utils.Labels.{merge_labels_lem}

Built-IsGraph_example : IsGraph complete
Built-IsGraph_example = Built-IsGraph complete-Built

abbrev linked_n2 : Neuron
linked_n2 = sample_neuron "n2" (func_processor "tools") (("g1", "l1" ∷ []) ∷ []) []

list_links-agree_example :
    (elem "l1" (link_ids (list_in_links linked "n2")) ≡ has_in_link linked_n2 "l1")
    × (elem "l1" (list_in_link_ids linked_n2) ≡ has_in_link linked_n2 "l1")
    × (elem "l1" (link_ids (list_out_links linked "n2")) ≡ has_out_link linked_n2 "l1")
    × (elem "l1" (list_out_link_ids linked_n2) ≡ has_out_link linked_n2 "l1")
unfolding lookup
list_links-agree_example =
    list_links-agree linked "n2" linked_n2 "l1" (Built-IsGraph linked-Built) refl

get_ends_example :
    ((n : Neuron) × (get_dest_neuron complete "l2" ≡ ok n)
      × (lookup "n1" complete.neurons ≡ some n)
      × (n.id ≡ "n1"))
    × (((sample_link "l2" entry_link_from "n1").src ≡ entry_link_from)
          × (get_src_neuron complete "l2" ≡ err (neuron_not_found entry_link_from))
        ⊎ (((sample_link "l2" entry_link_from "n1").src ≢ entry_link_from)
            × (n : Neuron) × (get_src_neuron complete "l2" ≡ ok n)
            × (lookup entry_link_from complete.neurons ≡ some n)
            × (n.id ≡ entry_link_from)))
unfolding lookup
get_ends_example =
    get_ends complete "l2" (sample_link "l2" entry_link_from "n1") (Built-IsGraph complete-Built)
      refl

clone_lem_example :
    clone complete ≡ record complete { neurons = map_values with_casts complete.neurons }
unfolding lookup
clone_lem_example =
    clone_lem complete tt (refl, (refl, (refl, tt))) (refl, (refl, (refl, tt)))
      (
        (tt, (refl, tt), (refl, tt), ((refl, tt), tt)),
        ((tt, (refl, tt), (refl, tt), ((refl, tt), tt)), ((tt, (refl, tt), tt, tt), tt)),
      )
      (tt, (tt, (tt, tt)))

merge_labels_lem_example :
    lookup "a" (merge_labels ((("a", "1") ∷ ("b", "2") ∷ []) ∷ (("a", "3") ∷ []) ∷ [])) ≡ some "3"
unfolding lookup
merge_labels_lem_example =
    merge_labels_lem "a" ((("a", "1") ∷ ("b", "2") ∷ []) ∷ (("a", "3") ∷ []) ∷ [])
      ((refl, (refl, tt)), ((refl, tt), tt))
