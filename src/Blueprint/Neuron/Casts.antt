-- ===== src/Blueprint/Neuron/Casts.antt =====
-- neuron.go: what `AddCastGroup` does to the cast groups of a neuron.
use rmodel.Blueprint.Link.{Link}
use rmodel.Blueprint.Neuron.{CastGroups, LinkSet, Neuron, has_out_link, in_some_set, keys, or_empty}
use rmodel.Blueprint.Neuron.Groups.{
  add_cast_group, ensure_group, group_of, init_groups, join_group, leave_default, link_ids,
  missing_out_link, move_link, move_links,
}
use rmodel.Core.{default_cast_group_name}
use rmodel.Errors.{group_name_empty, out_link_not_found}
use rmodel.Shared.{
  Bool, Bool-cases, List, Option, Option-cases, String, [], ap, arith, eq_cases, eq_iff, eq_refl,
  false, if◌then◌else◌, inl, inr, is_some, none, refl, some, sym, true, ◌&&◌, ◌==◌, ◌∙◌, ◌∷◌, ◌≡◌,
  ◌≢◌, ◌⊎◌,
}
use rmodel.Shared.Maps.{Distinct, Map, delete, insert, lookup, lookup-delete, lookup-insert}
use rmodel.Shared.Sets.{elem}
use rmodel.Utils.Slices.{IsFirst, IsFirst-skip}

-- Whether a link stands in the group of a name.
abbrev pub is_member : String → String → CastGroups → Bool
is_member name x cgs = is_some (lookup x (group_of name cgs))

pub elem-keys {ℓ} : {V : Type ℓ} (x : String) (s : Map V) → elem x (keys s) ≡ is_some (lookup x s)
unfolding lookup
elem-keys x [] = refl
elem-keys x ((k, u) ∷ s) = ground (arith, elem-keys x s)

pub lookup-in_some_set :
    (x k : String) (cgs : CastGroups) → is_member k x cgs ≡ true → in_some_set x cgs ≡ true
unfolding lookup in_some_set
lookup-in_some_set x k [] h = cc
lookup-in_some_set x k ((j, s) ∷ cgs) h =
    ground (arith, lookup-in_some_set x k cgs, elem-keys x s, eq_iff j k)

pub in_some_set-lookup :
    (x : String) (cgs : CastGroups)
    → Distinct cgs
    → in_some_set x cgs ≡ true
    → (k : String) × (is_member k x cgs ≡ true)
unfolding lookup in_some_set
in_some_set-lookup x [] d h = cc
in_some_set-lookup x ((j, s) ∷ cgs) d h = elim (Bool-cases (elem x (keys s))) [
  | inl here ↦ (j, ground (arith, eq_refl j, elem-keys x s))
  | inr miss ↦
      let found = in_some_set-lookup x cgs d.1 (ground arith) in
      (found.0, ground (arith, eq_iff j found.0, found.1))
]

pub is_member-ensure_group :
    (name j x : String) (cgs : CastGroups)
    → is_member j x (ensure_group name cgs) ≡ is_member j x cgs
unfolding ensure_group lookup
is_member-ensure_group name j x cgs = ground (arith, lookup-insert name j [] cgs, eq_iff name j)

pub is_member-init_groups :
    (name j x : String) (cgs : Option CastGroups)
    → is_member j x (init_groups name cgs) ≡ is_member j x (or_empty cgs)
unfolding init_groups
is_member-init_groups name j x none =
    is_member-ensure_group name j x (ensure_group default_cast_group_name start)
    ∙ (is_member-ensure_group default_cast_group_name j x start ∙ no_member)
  where
    start : CastGroups
    start = insert default_cast_group_name [] []

    no_member : is_member j x start ≡ is_member j x []
    no_member =
        unfold lookup in
        ground (
          arith,
          lookup-insert {V = LinkSet} default_cast_group_name j [] [],
          eq_iff default_cast_group_name j,
        )
is_member-init_groups name j x (some cgs) =
    is_member-ensure_group name j x (ensure_group default_cast_group_name cgs)
    ∙ is_member-ensure_group default_cast_group_name j x cgs

is_member-leave_default :
    (l j x : String) (cgs : CastGroups)
    → is_member j x (leave_default l cgs)
      ≡ (if default_cast_group_name == j && l == x then false else is_member j x cgs)
unfolding leave_default
is_member-leave_default l j x cgs =
    let home = group_of default_cast_group_name cgs in
    ground (
      arith,
      lookup-insert default_cast_group_name j (delete l home) cgs,
      lookup-delete l x home,
      eq_iff default_cast_group_name j,
      eq_iff l x,
    )

pub is_member-join_group :
    (name l j x : String) (cgs : CastGroups)
    → is_member j x (join_group name l cgs)
      ≡ (if name == j && l == x then true else is_member j x cgs)
unfolding join_group
is_member-join_group name l j x cgs =
    let group = group_of name cgs in
    ground (
      arith,
      lookup-insert name j (insert l tt group) cgs,
      lookup-insert l x tt group,
      eq_iff name j,
    )

-- Where a link of `AddCastGroup` stands afterwards: in the named group, and no longer in the
-- default group unless that is the one named. All else stays.
abbrev pub moved : String → String → Bool → Bool
moved name j before =
    if name == j then true else if default_cast_group_name == j then false else before

is_member-move_link :
    (name l j x : String) (cgs : CastGroups)
    → is_member j x (move_link name l cgs)
      ≡ (if l == x then moved name j (is_member j x cgs) else is_member j x cgs)
unfolding move_link
is_member-move_link name l j x cgs = ground (
  arith,
  is_member-join_group name l j x (leave_default l cgs),
  is_member-leave_default l j x cgs,
)

is_member-move_links :
    (name j x : String) (links : List Link) (cgs : CastGroups)
    → is_member j x (move_links name links cgs)
      ≡ (if elem x (link_ids links) then moved name j (is_member j x cgs) else is_member j x cgs)
unfolding move_links link_ids
is_member-move_links name j x [] cgs = refl
is_member-move_links name j x (l ∷ links) cgs = ground (
  arith,
  is_member-move_links name j x links (move_link name l.id cgs),
  is_member-move_link name l.id j x cgs,
)

missing_out_link-some :
    (x : String) (n : Neuron) (links : List Link)
    → missing_out_link n links ≡ some x
    → IsFirst (has_out_link n) x (link_ids links)
unfolding missing_out_link link_ids
missing_out_link-some x n [] e = cc
missing_out_link-some x n (l ∷ links) e = elim (Bool-cases (has_out_link n l.id)) [
  | inl h ↦
      IsFirst-skip (has_out_link n) x l.id (link_ids links) h
        (missing_out_link-some x n links (ground (arith, e, h)))
  | inr h ↦
      let same : x ≡ l.id = ground (arith, e, h) in
      ([], link_ids links, ap (λ y. y ∷ link_ids links) (sym same), λ y m. cc m, rw same h)
]

missing_out_link-none :
    (x : String) (n : Neuron) (links : List Link)
    → missing_out_link n links ≡ none
    → elem x (link_ids links) ≡ true
    → has_out_link n x ≡ true
unfolding missing_out_link link_ids
missing_out_link-none x n [] e h = cc
missing_out_link-none x n (l ∷ links) e h =
    ground (arith, missing_out_link-none x n links, eq_iff l.id x)

-- `AddCastGroup` on every branch: it refuses an empty name and reports the first link that is no
-- out-link, both times changing nothing; otherwise every link is an out-link, each of them is
-- afterwards in the named group and not in the default group (unless that is the named one), and
-- no other membership changes.
pub add_cast_group_lem :
    (n : Neuron) (name : String) (links : List Link)
    → ((name ≡ "") × (add_cast_group n name links ≡ (n, some group_name_empty)))
      ⊎ ((name ≢ "")
          × (((x : String) × IsFirst (has_out_link n) x (link_ids links)
                × (add_cast_group n name links ≡ (n, some (out_link_not_found x n.id))))
              ⊎ (((add_cast_group n name links).1 ≡ none)
                  × ((x : String) → elem x (link_ids links) ≡ true → has_out_link n x ≡ true)
                  × ((j x : String)
                      → is_member j x (or_empty (add_cast_group n name links).0.cast_groups) ≡ (
                          if elem x (link_ids links)
                          then moved name j (is_member j x (or_empty n.cast_groups))
                          else is_member j x (or_empty n.cast_groups))))))
unfolding add_cast_group
add_cast_group_lem n name links = elim (eq_cases name "") [
  | inl (t, e) ↦ inl (e, rw t)
  | inr (f, ne) ↦ inr (
    ne,
    rw f (elim (Option-cases (missing_out_link n links)) [
      | inr (x, e) ↦ inl (x, missing_out_link-some x n links e, rw e)
      | inl e ↦ inr (
        rw e,
        λ x h. missing_out_link-none x n links e h,
        λ j x. rw e (
            rw (
              is_member-move_links name j x links (init_groups name n.cast_groups),
              is_member-init_groups name j x n.cast_groups,
            )),
      )
    ]),
  )
]
