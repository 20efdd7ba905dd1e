-- ===== src/Blueprint/Neuron/OutLinks.antt =====
-- neuron.go: `AddCastGroup` and `addOutLink` keep the out-links of a neuron.
use rmodel.Blueprint.Link.{Link}
use rmodel.Blueprint.Neuron.{
  CastGroups, Neuron, has_out_link, in_some_set, or_empty, panics, returns,
}
use rmodel.Blueprint.Neuron.Casts.{
  add_cast_group_lem, in_some_set-lookup, is_member, is_member-ensure_group, is_member-join_group,
  lookup-in_some_set,
}
use rmodel.Blueprint.Neuron.Groups.{
  add_cast_group, add_out_link, ensure_group, group_of, init_groups, join_group, leave_default,
  link_ids, move_link, move_links,
}
use rmodel.Core.{default_cast_group_name}
use rmodel.Shared.{
  Bool-cases, Bool-ext, List, Option, Option-cases, String, [], ap, arith, eq_refl, if◌then◌else◌,
  inl, inr, is_some, none, refl, some, true, ◌&&◌, ◌==◌, ◌∷◌, ◌≡◌, ◌⊎◌,
}
use rmodel.Shared.Maps.{Distinct, delete, insert, insert-Distinct}
use rmodel.Shared.Sets.{elem}

ensure_group-Distinct :
    (name : String) (cgs : CastGroups) → Distinct cgs → Distinct (ensure_group name cgs)
unfolding ensure_group
ensure_group-Distinct name cgs d = ground (arith, d, insert-Distinct name [] cgs d)

init_groups-Distinct :
    (name : String) (cgs : Option CastGroups)
    → Distinct (or_empty cgs)
    → Distinct (init_groups name cgs)
unfolding init_groups
init_groups-Distinct name none d = ensure_group-Distinct name _ (
    ensure_group-Distinct default_cast_group_name _
      (insert-Distinct default_cast_group_name [] [] tt))
init_groups-Distinct name (some cgs) d =
    ensure_group-Distinct name _ (ensure_group-Distinct default_cast_group_name cgs d)

join_group-Distinct :
    (name l : String) (cgs : CastGroups) → Distinct cgs → Distinct (join_group name l cgs)
unfolding join_group
join_group-Distinct name l cgs d = insert-Distinct name (insert l tt (group_of name cgs)) cgs d

leave_default-Distinct :
    (l : String) (cgs : CastGroups) → Distinct cgs → Distinct (leave_default l cgs)
unfolding leave_default
leave_default-Distinct l cgs d =
    let home = group_of default_cast_group_name cgs in
    ground (arith, d, insert-Distinct default_cast_group_name (delete l home) cgs d)

move_links-Distinct :
    (name : String) (links : List Link) (cgs : CastGroups)
    → Distinct cgs
    → Distinct (move_links name links cgs)
unfolding move_links move_link
move_links-Distinct name [] cgs d = d
move_links-Distinct name (l ∷ links) cgs d =
    move_links-Distinct name links _
      (join_group-Distinct name l.id _ (leave_default-Distinct l.id cgs d))

-- Every operation of a neuron keeps the names of its cast groups distinct.
pub add_cast_group-Distinct :
    (n : Neuron) (name : String) (links : List Link)
    → Distinct (or_empty n.cast_groups)
    → Distinct (or_empty (add_cast_group n name links).0.cast_groups)
unfolding add_cast_group
add_cast_group-Distinct n name links d =
    let after = move_links-Distinct name links _ (init_groups-Distinct name n.cast_groups d) in
    ground (arith, after, d)

in_some_set-ext :
    (x : String) (m m' : CastGroups)
    → Distinct m
    → Distinct m'
    → ((j : String) → is_member j x m ≡ true → (k : String) × (is_member k x m' ≡ true))
    → ((j : String) → is_member j x m' ≡ true → (k : String) × (is_member k x m ≡ true))
    → in_some_set x m ≡ in_some_set x m'
in_some_set-ext x m m' d d' there back =
    Bool-ext (in_some_set x m) (in_some_set x m')
      (λ h.
        let (j, here) = in_some_set-lookup x m d h in
        let (k, here') = there j here in lookup-in_some_set x k m' here')
      (λ h.
        let (j, here) = in_some_set-lookup x m' d' h in
        let (k, here') = back j here in lookup-in_some_set x k m here')

-- `AddCastGroup` neither loses nor makes up an out-link: whatever it is given and however it
-- ends, `hasOutLink` answers the same before and after, for every link.
pub add_cast_group-has_out_link :
    (n : Neuron) (name : String) (links : List Link)
    → Distinct (or_empty n.cast_groups)
    → (x : String) → has_out_link (add_cast_group n name links).0 x ≡ has_out_link n x
add_cast_group-has_out_link n name links d x = elim (add_cast_group_lem n name links) [
  | inl (_, e) ↦ rw e
  | inr (_, inl (_, _, e)) ↦ rw e
  | inr (_, inr (_, listed, spec)) ↦
      unfold has_out_link in
      in_some_set-ext x (or_empty (add_cast_group n name links).0.cast_groups)
        (or_empty n.cast_groups) (add_cast_group-Distinct n name links d) d
        (λ j h. elim (Bool-cases (elem x (link_ids links))) [
          | inl e ↦
              in_some_set-lookup x (or_empty n.cast_groups) d (unfold has_out_link in listed x e)
          | inr e ↦ (j, ground (arith, spec j x))
        ])
        (λ j h. elim (Bool-cases (elem x (link_ids links))) [
          | inl e ↦ (name, ground (arith, spec name x, eq_refl name))
          | inr e ↦ (j, ground (arith, spec j x))
        ])
]

-- `addOutLink` panics exactly on a neuron whose cast groups are the nil map, and otherwise adds
-- the link to the default group and to no other, and keeps every other membership, the id and the
-- trigger groups.
pub add_out_link_lem :
    (n : Neuron) (l : String)
    → ((n.cast_groups ≡ none) × (add_out_link n l ≡ panics))
      ⊎ ((is_some n.cast_groups ≡ true)
          × (n' : Neuron) × (add_out_link n l ≡ returns n')
          × (n'.id ≡ n.id)
          × (n'.trigger_groups ≡ n.trigger_groups)
          × ((j x : String)
              → is_member j x (or_empty n'.cast_groups) ≡ (
                  if default_cast_group_name == j && l == x
                  then true
                  else is_member j x (or_empty n.cast_groups)))
          × (Distinct (or_empty n.cast_groups) → Distinct (or_empty n'.cast_groups)))
unfolding add_out_link
add_out_link_lem n l = elim (Option-cases n.cast_groups) [
  | inl e ↦ inl (e, rw e)
  | inr (cgs, e) ↦
      let base = ensure_group default_cast_group_name cgs in
      inr (
        ap is_some e,
        record n { cast_groups = some (join_group default_cast_group_name l base) },
        ground (arith, e),
        refl,
        refl,
        λ j x. ground (
          arith,
          e,
          is_member-join_group default_cast_group_name l j x base,
          is_member-ensure_group default_cast_group_name j x cgs,
        ),
        λ d.
            let d' : Distinct cgs = rw e at d in
            join_group-Distinct default_cast_group_name l base
              (ensure_group-Distinct default_cast_group_name cgs d'),
      )
]

-- `AddCastGroup` leaves the id and the trigger groups alone.
pub add_cast_group_frame :
    (n : Neuron) (name : String) (links : List Link)
    → ((add_cast_group n name links).0.id ≡ n.id)
      × ((add_cast_group n name links).0.trigger_groups ≡ n.trigger_groups)
unfolding add_cast_group
add_cast_group_frame n name links = ground arith
