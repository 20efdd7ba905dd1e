-- ===== src/Examples/Groups.antt =====
-- The theorems on the groups of a neuron at concrete inputs, and tests of its operations.
use rmodel.Blueprint.Graph.Ops.{nil-IsAntichain}
use rmodel.Blueprint.Link.{Link}
use rmodel.Blueprint.Neuron.{
  Neuron, has_in_link, has_out_link, in_some_group, in_some_set, new_end_neuron, or_empty, panics,
  returns,
}
use rmodel.Blueprint.Neuron.Casts.{add_cast_group_lem, is_member, moved}
use rmodel.Blueprint.Neuron.Groups.{
  add_cast_group, add_in_link, add_out_link, add_trigger_group, ensure_group, init_groups,
  join_group, leave_default, link_ids, missing_in_link, missing_out_link, move_link, move_links,
  prune_groups, store_group,
}
use rmodel.Blueprint.Neuron.InLinks.{
  add_in_link-IsAntichain, add_trigger_group-IsAntichain, add_trigger_group-has_in_link,
}
use rmodel.Blueprint.Neuron.OutLinks.{add_cast_group-has_out_link, add_out_link_lem}
use rmodel.Blueprint.Neuron.Triggers.{AddsGroup, IsAntichain, add_trigger_group_lem}
use rmodel.Core.{default_cast_group_name, func_processor}
use rmodel.Errors.{group_name_empty, in_link_not_found, out_link_not_found}
use rmodel.Examples.Sample.{default_cast, sample_link, sample_neuron}
use rmodel.Shared.{
  String, [], if◌then◌else◌, is_some, none, refl, some, true, ◌&&◌, ◌==◌, ◌↔◌, ◌∷◌, ◌≡◌, ◌≢◌, ◌⊎◌,
}
use rmodel.Shared.Maps.{Distinct, delete, insert, lookup}
use rmodel.Shared.Sets.{Subset, elem}
use rmodel.Utils.{all_marked, mark_all, slices_contain_equal, slices_contains}
use rmodel.Utils.Counts.{slices_contain_equal_iff}
use rmodel.Utils.Slices.{IsFirst, count, slices_contains_iff}

abbrev no_groups : Neuron
no_groups = sample_neuron "n" (func_processor "f") [] []

-- Two in-links, each in a trigger group of its own.
abbrev two_in : Neuron
two_in =
    sample_neuron "n" (func_processor "f") (("g1", "a" ∷ []) ∷ ("g2", "b" ∷ []) ∷ [])
      (default_cast "c")

two_in-IsAntichain : IsAntichain two_in.trigger_groups
unfolding add_in_link insert has_in_link in_some_group
two_in-IsAntichain =
    add_in_link-IsAntichain "g2" (add_in_link "g1" no_groups "a") "b"
      (add_in_link-IsAntichain "g1" no_groups "a" nil-IsAntichain refl) refl

abbrev link_a : Link
link_a = sample_link "a" "m" "n"

abbrev link_b : Link
link_b = sample_link "b" "m" "n"

abbrev link_c : Link
link_c = sample_link "c" "n" "m"

-- The group {a, b} takes the place of {a} and {b}.
merged_groups :
    (add_trigger_group "g3" two_in (link_a ∷ link_b ∷ [])).0.trigger_groups
    ≡ ("g3", "a" ∷ "b" ∷ []) ∷ []
unfolding add_trigger_group missing_in_link has_in_link in_some_group link_ids prune_groups
    slices_contains mark_all all_marked lookup insert delete store_group
merged_groups = refl

-- The group {a} is in {a, b} already.
included_group :
    add_trigger_group "g4"
      (record two_in { trigger_groups = ("g3", "a" ∷ "b" ∷ []) ∷ [] })
      (link_a ∷ [])
    ≡ (record two_in { trigger_groups = ("g3", "a" ∷ "b" ∷ []) ∷ [] }, none)
unfolding add_trigger_group missing_in_link has_in_link in_some_group link_ids prune_groups
    slices_contains mark_all all_marked lookup insert delete store_group
included_group = refl

add_trigger_group_lem_example :
    ((x : String) × IsFirst (has_in_link two_in) x (link_ids (link_a ∷ link_b ∷ []))
      × (add_trigger_group "g3" two_in (link_a ∷ link_b ∷ [])
          ≡ (two_in, some (in_link_not_found x "n"))))
    ⊎ (((x : String)
          → elem x (link_ids (link_a ∷ link_b ∷ [])) ≡ true
          → has_in_link two_in x ≡ true)
        × ((add_trigger_group "g3" two_in (link_a ∷ link_b ∷ [])).1 ≡ none)
        × AddsGroup "g3"
            (link_ids (link_a ∷ link_b ∷ []))
            two_in.trigger_groups
            (add_trigger_group "g3" two_in (link_a ∷ link_b ∷ [])).0.trigger_groups)
add_trigger_group_lem_example =
    add_trigger_group_lem "g3" two_in link_a (link_b ∷ []) two_in-IsAntichain

add_trigger_group-IsAntichain_example :
    IsAntichain (add_trigger_group "g3" two_in (link_a ∷ link_b ∷ [])).0.trigger_groups
add_trigger_group-IsAntichain_example =
    add_trigger_group-IsAntichain "g3" two_in (link_a ∷ link_b ∷ []) two_in-IsAntichain

add_trigger_group-has_in_link_example :
    has_in_link (add_trigger_group "g3" two_in (link_a ∷ link_b ∷ [])).0 "a"
    ≡ has_in_link two_in "a"
unfolding lookup
add_trigger_group-has_in_link_example =
    add_trigger_group-has_in_link "g3" two_in (link_a ∷ link_b ∷ []) two_in-IsAntichain refl "a"

abbrev again : String
again = "again"

-- The link c leaves the default group for the group again.
moved_link :
    (add_cast_group two_in again (link_c ∷ [])).0.cast_groups
    ≡ some ((default_cast_group_name, []) ∷ (again, ("c", tt) ∷ []) ∷ [])
unfolding add_cast_group missing_out_link has_out_link in_some_set init_groups ensure_group
    move_links move_link leave_default join_group lookup insert delete
moved_link = refl

add_cast_group_lem_example :
    ((again ≡ "") × (add_cast_group two_in again (link_c ∷ []) ≡ (two_in, some group_name_empty)))
    ⊎ ((again ≢ "")
        × (((x : String) × IsFirst (has_out_link two_in) x (link_ids (link_c ∷ []))
              × (add_cast_group two_in again (link_c ∷ [])
                  ≡ (two_in, some (out_link_not_found x "n"))))
            ⊎ (((add_cast_group two_in again (link_c ∷ [])).1 ≡ none)
                × ((x : String)
                    → elem x (link_ids (link_c ∷ [])) ≡ true
                    → has_out_link two_in x ≡ true)
                × ((j x : String)
                    → is_member j x
                        (or_empty (add_cast_group two_in again (link_c ∷ [])).0.cast_groups)
                      ≡ (if elem x (link_ids (link_c ∷ []))
                          then moved again j (is_member j x (or_empty two_in.cast_groups))
                          else is_member j x (or_empty two_in.cast_groups))))))
add_cast_group_lem_example = add_cast_group_lem two_in again (link_c ∷ [])

add_cast_group-has_out_link_example :
    has_out_link (add_cast_group two_in again (link_c ∷ [])).0 "c" ≡ has_out_link two_in "c"
unfolding lookup
add_cast_group-has_out_link_example =
    add_cast_group-has_out_link two_in again (link_c ∷ []) (refl, tt) "c"

-- The END neuron has no map of cast groups.
end_neuron_panics : add_out_link new_end_neuron "x" ≡ panics
unfolding add_out_link new_end_neuron
end_neuron_panics = refl

slices_contains_iff_example :
    (slices_contains ("a" ∷ "b" ∷ []) ("b" ∷ []) ≡ true) ↔ Subset ("b" ∷ []) ("a" ∷ "b" ∷ [])
slices_contains_iff_example = slices_contains_iff ("a" ∷ "b" ∷ []) ("b" ∷ [])

slices_contain_equal_iff_example :
    (slices_contain_equal ("a" ∷ "b" ∷ []) ("b" ∷ "a" ∷ []) ≡ true)
    ↔ ((x : String) → count x ("a" ∷ "b" ∷ []) ≡ count x ("b" ∷ "a" ∷ []))
slices_contain_equal_iff_example = slices_contain_equal_iff ("a" ∷ "b" ∷ []) ("b" ∷ "a" ∷ [])

add_out_link_lem_example :
    ((two_in.cast_groups ≡ none) × (add_out_link two_in "d" ≡ panics))
    ⊎ ((is_some two_in.cast_groups ≡ true)
        × (n' : Neuron) × (add_out_link two_in "d" ≡ returns n')
        × (n'.id ≡ two_in.id)
        × (n'.trigger_groups ≡ two_in.trigger_groups)
        × ((j x : String)
            → is_member j x (or_empty n'.cast_groups) ≡ (
                if default_cast_group_name == j && "d" == x
                then true
                else is_member j x (or_empty two_in.cast_groups)))
        × (Distinct (or_empty two_in.cast_groups) → Distinct (or_empty n'.cast_groups)))
add_out_link_lem_example = add_out_link_lem two_in "d"
