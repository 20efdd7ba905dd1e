-- ===== src/Examples/Sample.antt =====
-- A blueprint of two neurons: an entry link into the first, a link between them, and an end link
-- from the second.
use rmodel.Blueprint.Brainprint.{Brainprint, new_blueprint}
use rmodel.Blueprint.Brainprint.Edit.{
  add_end_link_from, add_entry_link_to, add_link, add_neuron_with_processor, put_neuron,
}
use rmodel.Blueprint.Graph.Built.{
  Built, started, with_end_link, with_entry_link, with_link, with_neuron,
}
use rmodel.Blueprint.Link.{Link, new_end_link, new_entry_link, new_link}
use rmodel.Blueprint.Neuron.{CastGroups, Neuron, TriggerGroups, new_end_neuron, new_neuron}
use rmodel.Blueprint.Neuron.Groups.{add_in_link, add_out_link, ensure_group, join_group}
use rmodel.Core.{
  Processor, default_cast_group_name, default_selector, empty_processor, end_neuron_id,
  entry_link_from, func_processor,
}
use rmodel.Errors.{ok}
use rmodel.Shared.{String, [], arith, eq_iff, none, refl, some, ◌∷◌}
use rmodel.Shared.Maps.{Map, insert, lookup}
use rmodel.Blueprint.Neuron.Groups
use rmodel.Blueprint.Link

abbrev pub sample_neuron : String → Processor → TriggerGroups → CastGroups → Neuron
sample_neuron id p triggers casts = record {
  id = id;
  labels = [];
  processor = p;
  trigger_groups = triggers;
  cast_groups = some casts;
  selector = some default_selector;
}

abbrev pub default_cast : String → CastGroups
default_cast x = (default_cast_group_name, (x, tt) ∷ []) ∷ []

abbrev pub sample_link : String → String → String → Link
sample_link id src dest = record { id = id; labels = []; src = src; dest = dest }

abbrev pub with_graph : Map Neuron → Map Link → Brainprint
with_graph neurons links = record { id = "bp"; labels = []; neurons = neurons; links = links }

abbrev pub two_neurons : Brainprint
two_neurons =
    with_graph
      (("n1", sample_neuron "n1" (func_processor "llm") [] [])
        ∷ ("n2", sample_neuron "n2" (func_processor "tools") [] [])
        ∷ [])
      []

abbrev pub linked : Brainprint
linked =
    with_graph
      (("n1", sample_neuron "n1" (func_processor "llm") [] (default_cast "l1"))
        ∷ ("n2", sample_neuron "n2" (func_processor "tools") (("g1", "l1" ∷ []) ∷ []) [])
        ∷ [])
      (("l1", sample_link "l1" "n1" "n2") ∷ [])

abbrev pub with_entry : Brainprint
with_entry =
    with_graph
      ((
        "n1",
        sample_neuron "n1" (func_processor "llm") (("g2", "l2" ∷ []) ∷ []) (default_cast "l1"),
      )
        ∷ ("n2", sample_neuron "n2" (func_processor "tools") (("g1", "l1" ∷ []) ∷ []) [])
        ∷ [])
      (("l1", sample_link "l1" "n1" "n2") ∷ ("l2", sample_link "l2" entry_link_from "n1") ∷ [])

abbrev pub complete : Brainprint
complete =
    with_graph
      ((
        "n1",
        sample_neuron "n1" (func_processor "llm") (("g2", "l2" ∷ []) ∷ []) (default_cast "l1"),
      )
        ∷ (
          "n2",
          sample_neuron "n2" (func_processor "tools") (("g1", "l1" ∷ []) ∷ []) (default_cast "l3"),
        )
        ∷ (
          end_neuron_id,
          record {
            id = end_neuron_id;
            labels = [];
            processor = empty_processor;
            trigger_groups = ("g3", "l3" ∷ []) ∷ [];
            cast_groups = none;
            selector = none;
          },
        )
        ∷ [])
      (("l1", sample_link "l1" "n1" "n2")
        ∷ ("l2", sample_link "l2" entry_link_from "n1")
        ∷ ("l3", sample_link "l3" "n2" end_neuron_id)
        ∷ [])

pub two_neurons-Built : Built two_neurons
unfolding add_neuron_with_processor new_blueprint put_neuron insert lookup new_neuron
    Groups.apply_all
two_neurons-Built =
    with_neuron
      (with_neuron (started "bp") "n1" (func_processor "llm") [] refl
        (λ p. ground (arith, p, eq_iff "n1" entry_link_from)))
      "n2" (func_processor "tools") [] refl (λ p. ground (arith, p, eq_iff "n2" entry_link_from))

pub linked-Built : Built linked
unfolding add_link Link.new_link insert lookup Groups.add_out_link Link.apply_all Groups.join_group
    Groups.add_in_link Groups.ensure_group
linked-Built =
    with_link two_neurons-Built "l1" "g1" "n1" "n2" [] (ok (sample_link "l1" "n1" "n2")) refl
      (λ n e. ground arith) refl

pub with_entry-Built : Built with_entry
unfolding add_entry_link_to Link.new_entry_link insert lookup Link.apply_all Groups.add_in_link
with_entry-Built = with_entry_link linked-Built "l2" "g2" "n1" [] refl (λ n e. ground arith)

pub complete-Built : Built complete
unfolding add_end_link_from Link.new_end_link new_end_neuron insert lookup Groups.add_out_link
    Link.apply_all Groups.join_group Groups.add_in_link Groups.ensure_group
complete-Built =
    with_end_link with_entry-Built "l3" "g3" "n2" [] (ok (sample_link "l3" "n2" end_neuron_id)) refl
      (λ n e. ground arith) refl
