-- ===== src/Blueprint/Neuron/Groups.antt =====
-- neuron.go: the operations that change a neuron's groups, and the options of core/neuron.go. The
-- key that `utils.GenIDShort` draws for a new trigger group is an argument.
use rmodel.Blueprint.Link.{Link}
use rmodel.Blueprint.Neuron.{
  CastGroups, LinkSet, Neuron, Outcome, TriggerGroups, has_in_link, has_out_link, or_empty, panics,
  returns,
}
use rmodel.Core.{Reader, Selector, default_cast_group_name, func_selector}
use rmodel.Errors.{Error, group_name_empty, in_link_not_found, out_link_not_found}
use rmodel.Shared.{
  Bool, List, Option, String, [], false, if◌then◌else◌, is_some, none, some, true, ◌==◌, ◌∷◌,
}
use rmodel.Shared.Maps.{delete, insert, lookup}
use rmodel.Utils.{Labels, merge_labels, slices_contains}

unfoldable pub link_ids : List Link → List String
link_ids [] = []
link_ids (l ∷ links) = l.id ∷ link_ids links

-- The guard of `AddTriggerGroup`: the first link that is no in-link.
unfoldable pub missing_in_link : Neuron → List Link → Option String
missing_in_link n [] = none
missing_in_link n (l ∷ links) = if has_in_link n l.id then missing_in_link n links else some l.id

-- What the loop over the existing groups leaves: whether it returned early, and the groups.
pub record Pruned : Type 0 where
  pub included : Bool
  pub kept : TriggerGroups

-- `for key, group := range n.triggerGroups`: a delete takes out only the entry that is visited, so
-- the entries still to come are those of the map at the start.
unfoldable pub prune_groups : List String → TriggerGroups → TriggerGroups → Pruned
prune_groups new_group [] tgs = record { included = false; kept = tgs }
prune_groups new_group ((key, group) ∷ rest) tgs =
    let next =
      prune_groups new_group rest
        (if slices_contains new_group group then delete key tgs else tgs) in
    if slices_contains group new_group then record { included = true; kept = tgs } else next

unfoldable pub store_group : String → List String → Neuron → Pruned → Neuron
store_group key new_group n p =
    if p.included
    then record n { trigger_groups = p.kept }
    else record n { trigger_groups = insert key new_group p.kept }

unfoldable pub add_trigger_group : String → Neuron → List Link → Neuron × Option Error
add_trigger_group key n [] = (n, none)
add_trigger_group key n (l ∷ links) = elim (missing_in_link n (l ∷ links)) [
  | some link_id ↦ (n, some (in_link_not_found link_id n.id))
  | none ↦
      let new_group = link_ids (l ∷ links) in
      (store_group key new_group n (prune_groups new_group n.trigger_groups n.trigger_groups), none)
]

unfoldable pub missing_out_link : Neuron → List Link → Option String
missing_out_link n [] = none
missing_out_link n (l ∷ links) = if has_out_link n l.id then missing_out_link n links else some l.id

-- `if m[name] == nil { m[name] = map[string]struct{}{} }`
unfoldable pub ensure_group : String → CastGroups → CastGroups
ensure_group name cgs = if is_some (lookup name cgs) then cgs else insert name [] cgs

abbrev pub group_of : String → CastGroups → LinkSet
group_of name cgs = or_empty (lookup name cgs)

-- `delete(n.castGroups[Default], l.GetID())`, if the link is there.
unfoldable pub leave_default : String → CastGroups → CastGroups
leave_default link_id cgs =
    let default_group = group_of default_cast_group_name cgs in
    if is_some (lookup link_id default_group)
    then insert default_cast_group_name (delete link_id default_group) cgs
    else cgs

-- `n.castGroups[groupName][l.GetID()] = struct{}{}`
unfoldable pub join_group : String → String → CastGroups → CastGroups
join_group group_name link_id cgs =
    insert group_name (insert link_id tt (group_of group_name cgs)) cgs

-- The body of the loop over the links.
unfoldable pub move_link : String → String → CastGroups → CastGroups
move_link group_name link_id cgs = join_group group_name link_id (leave_default link_id cgs)

unfoldable pub move_links : String → List Link → CastGroups → CastGroups
move_links group_name [] cgs = cgs
move_links group_name (l ∷ links) cgs = move_links group_name links (move_link group_name l.id cgs)

-- A nil map is first replaced by one with the default group, which the second test then finds.
unfoldable pub init_groups : String → Option CastGroups → CastGroups
init_groups group_name none =
    ensure_group group_name
      (ensure_group default_cast_group_name (insert default_cast_group_name [] []))
init_groups group_name (some cgs) =
    ensure_group group_name (ensure_group default_cast_group_name cgs)

unfoldable pub add_cast_group : Neuron → String → List Link → Neuron × Option Error
add_cast_group n group_name links =
    if group_name == "" then (n, some group_name_empty) else elim (missing_out_link n links) [
      | some link_id ↦ (n, some (out_link_not_found link_id n.id))
      | none ↦ (
        record n {
          cast_groups = some (move_links group_name links (init_groups group_name n.cast_groups));
        },
        none,
      )
    ]

unfoldable pub bind_cast_group_selector : Neuron → Option Selector → Neuron
bind_cast_group_selector n selector = record n { selector = selector }

unfoldable pub bind_cast_group_select_func : Neuron → (Reader → String) → Neuron
unfolding bind_cast_group_selector
bind_cast_group_select_func n select_fn =
    bind_cast_group_selector n (some (func_selector select_fn))

unfoldable pub add_in_link : String → Neuron → String → Neuron
add_in_link key n link_id = record n { trigger_groups = insert key (link_id ∷ []) n.trigger_groups }

-- `n.castGroups[Default] = …` and the write behind it panic where the map is nil.
unfoldable pub add_out_link : Neuron → String → Outcome Neuron
add_out_link n link_id = elim n.cast_groups [
  | none ↦ panics
  | some cgs ↦
      let with_default = ensure_group default_cast_group_name cgs in
      returns
        (record n { cast_groups = some (join_group default_cast_group_name link_id with_default) })
]

-- `core.NeuronOption`.
pub data NeuronOption : Type 0 where
  with_neuron_labels : Labels → NeuronOption
  with_select_fn : (Reader → String) → NeuronOption
  with_selector : Option Selector → NeuronOption
  with_py_process_exec_cmd : String → NeuronOption

unfoldable pub set_labels : Neuron → Labels → Neuron
set_labels n labels = record n { labels = labels }

unfoldable pub apply : NeuronOption → Neuron → Neuron
unfolding set_labels bind_cast_group_select_func bind_cast_group_selector
apply (with_neuron_labels labels) n = set_labels n (merge_labels (n.labels ∷ labels ∷ []))
apply (with_select_fn select_fn) n = bind_cast_group_select_func n select_fn
apply (with_selector selector) n = bind_cast_group_selector n selector
apply (with_py_process_exec_cmd python_cmd) n =
    set_labels n (merge_labels (n.labels ∷ insert "python_cmd" python_cmd [] ∷ []))

unfoldable pub apply_all : List NeuronOption → Neuron → Neuron
unfolding apply
apply_all [] n = n
apply_all (opt ∷ opts) n = apply_all opts (apply opt n)
