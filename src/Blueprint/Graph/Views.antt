-- ===== src/Blueprint/Graph/Views.antt =====
-- brainprint.go and neuron.go: what is read of a well formed graph.
use rmodel.Blueprint.Brainprint.{
  Brainprint, get_dest_neuron, get_neuron, get_src_neuron, list_in_links, list_out_links,
  select_links,
}
use rmodel.Blueprint.Graph.{IsGraph, dest_is, src_is}
use rmodel.Blueprint.Link.{Link}
use rmodel.Blueprint.Neuron.{
  CastGroups, LinkSet, Neuron, TriggerGroups, add_links, collect_in, collect_out, has_in_link,
  has_out_link, in_some_group, in_some_set, keys, list_in_link_ids, list_out_link_ids, or_empty,
}
use rmodel.Blueprint.Neuron.Casts.{elem-keys}
use rmodel.Blueprint.Neuron.Groups.{link_ids}
use rmodel.Core.{entry_link_from}
use rmodel.Errors.{err, neuron_not_found, ok}
use rmodel.Shared.{
  Bool, Bool-cases, List, Option, Option-cases, String, [], ap, arith, eq_iff, eq_refl, false, inl,
  inr, is_some, none, refl, some, sym, true, ◌==◌, ◌||◌, ◌∙◌, ◌∷◌, ◌≡◌, ◌≢◌, ◌⊎◌,
}
use rmodel.Shared.Maps.{Distinct, Map, insert, lookup, lookup-insert}
use rmodel.Shared.Sets.{elem}

-- The set of the loops in `ListInLinkIDs` and `ListOutLinkIDs`.
lookup-add_links :
    (x : String) (group : List String) (s : LinkSet)
    → is_some (lookup x (add_links group s)) ≡ (elem x group || is_some (lookup x s))
unfolding add_links
lookup-add_links x [] s = refl
lookup-add_links x (l ∷ group) s =
    ground (arith, lookup-add_links x group (insert l tt s), lookup-insert l x tt s)

lookup-collect_in :
    (x : String) (tgs : TriggerGroups) (s : LinkSet)
    → is_some (lookup x (collect_in tgs s)) ≡ (in_some_group x tgs || is_some (lookup x s))
unfolding collect_in in_some_group
lookup-collect_in x [] s = refl
lookup-collect_in x ((k, g) ∷ tgs) s =
    ground (arith, lookup-collect_in x tgs (add_links g s), lookup-add_links x g s)

lookup-collect_out :
    (x : String) (cgs : CastGroups) (s : LinkSet)
    → is_some (lookup x (collect_out cgs s)) ≡ (in_some_set x cgs || is_some (lookup x s))
unfolding collect_out in_some_set
lookup-collect_out x [] s = refl
lookup-collect_out x ((k, g) ∷ cgs) s =
    ground (arith, lookup-collect_out x cgs (add_links (keys g) s), lookup-add_links x (keys g) s)

elem-list_in_link_ids : (n : Neuron) (x : String) → elem x (list_in_link_ids n) ≡ has_in_link n x
unfolding list_in_link_ids has_in_link lookup
elem-list_in_link_ids n x =
    ground
      (arith, elem-keys x (collect_in n.trigger_groups []), lookup-collect_in x n.trigger_groups [])

elem-list_out_link_ids : (n : Neuron) (x : String) → elem x (list_out_link_ids n) ≡ has_out_link n x
unfolding list_out_link_ids has_out_link lookup
elem-list_out_link_ids n x = ground (
  arith,
  elem-keys x (collect_out (or_empty n.cast_groups) []),
  lookup-collect_out x (or_empty n.cast_groups) [],
)

-- Every link of the map stands under its id.
abbrev Keyed : Map Link → Type 0
Keyed [] = Unit {0}
Keyed ((k, l) ∷ m) = (l.id ≡ k) × Keyed m

Keyed-of_lookup :
    (m : Map Link)
    → Distinct m
    → ((k : String) (l : Link) → lookup k m ≡ some l → l.id ≡ k)
    → Keyed m
unfolding lookup
Keyed-of_lookup [] d h = tt
Keyed-of_lookup ((k, l) ∷ m) d h = (
  h k l (ground (arith, eq_refl k)),
  Keyed-of_lookup m d.1 (λ j l' e. h j l' (ground (arith, eq_iff k j, d.0, e))),
)

abbrev passes : (Link → Bool) → Option Link → Bool
passes p none = false
passes p (some l) = p l

elem-select_links :
    (p : Link → Bool) (x : String) (m : Map Link)
    → Distinct m
    → Keyed m
    → elem x (link_ids (select_links p m)) ≡ passes p (lookup x m)
unfolding lookup link_ids
elem-select_links p x [] d h = refl
elem-select_links p x ((k, l) ∷ m) d h =
    ground (arith, elem-select_links p x m d.1 h.1, d.0, h.0, eq_iff k x, eq_iff l.id x)

passes-dest : (k : String) (o : Option Link) → passes (λ l. l.dest == k) o ≡ dest_is k o
passes-dest k none = refl
passes-dest k (some l) = refl

passes-src : (k : String) (o : Option Link) → passes (λ l. l.src == k) o ≡ src_is k o
passes-src k none = refl
passes-src k (some l) = refl

list_in_links-agree :
    (b : Brainprint) (k : String) (n : Neuron)
    → IsGraph b
    → lookup k b.neurons ≡ some n
    → (x : String)
    → (elem x (link_ids (list_in_links b k)) ≡ has_in_link n x)
      × (elem x (list_in_link_ids n) ≡ has_in_link n x)
unfolding list_in_links
list_in_links-agree b k n g here x = (
  rw here (
      elem-select_links (λ l. l.dest == k) x b.links g.links_distinct
        (Keyed-of_lookup b.links g.links_distinct g.link_keys)
      ∙ (passes-dest k (lookup x b.links) ∙ sym (g.in_links k n here x))),
  elem-list_in_link_ids n x,
)

list_out_links-agree :
    (b : Brainprint) (k : String) (n : Neuron)
    → IsGraph b
    → lookup k b.neurons ≡ some n
    → (x : String)
    → (elem x (link_ids (list_out_links b k)) ≡ has_out_link n x)
      × (elem x (list_out_link_ids n) ≡ has_out_link n x)
unfolding list_out_links
list_out_links-agree b k n g here x = (
  rw here (
      elem-select_links (λ l. l.src == k) x b.links g.links_distinct
        (Keyed-of_lookup b.links g.links_distinct g.link_keys)
      ∙ (passes-src k (lookup x b.links) ∙ sym (g.out_links k n here x))),
  elem-list_out_link_ids n x,
)

-- In a well formed graph the three ways to ask for the links into a neuron agree: `ListInLinks` of
-- the blueprint, and `ListInLinkIDs` and `hasInLink` of the neuron. The same holds for the links out
-- of it, of `ListOutLinks`, `ListOutLinkIDs` and `hasOutLink`.
pub list_links-agree :
    (b : Brainprint) (k : String) (n : Neuron) (x : String)
    → IsGraph b
    → lookup k b.neurons ≡ some n
    → (elem x (link_ids (list_in_links b k)) ≡ has_in_link n x)
      × (elem x (list_in_link_ids n) ≡ has_in_link n x)
      × (elem x (link_ids (list_out_links b k)) ≡ has_out_link n x)
      × (elem x (list_out_link_ids n) ≡ has_out_link n x)
list_links-agree b k n x g here =
    let (into, into_ids) = list_in_links-agree b k n g here x in
    let (out, out_ids) = list_out_links-agree b k n g here x in (into, into_ids, out, out_ids)

-- A key that is there gives a neuron of that id.
found_neuron :
    (b : Brainprint) (k : String)
    → IsGraph b
    → is_some (lookup k b.neurons) ≡ true
    → (n : Neuron) × (get_neuron b k ≡ ok n) × (lookup k b.neurons ≡ some n) × (n.id ≡ k)
unfolding get_neuron
found_neuron b k g h = elim (Option-cases (lookup k b.neurons)) [
  | inl e ↦ absurd (cc (h, e))
  | inr (n, e) ↦ (n, rw e, e, g.neuron_ids k n e)
]

-- In a well formed graph, `GetDestNeuron` returns the neuron of the blueprint under the destination
-- of the link, whatever the link; `GetSrcNeuron` returns the one under its source, except exactly for
-- an entry link, where it reports that there is no neuron of that id.
pub get_ends :
    (b : Brainprint) (x : String) (l : Link)
    → IsGraph b
    → lookup x b.links ≡ some l
    → ((n : Neuron) × (get_dest_neuron b x ≡ ok n)
        × (lookup l.dest b.neurons ≡ some n)
        × (n.id ≡ l.dest))
      × (((l.src ≡ entry_link_from) × (get_src_neuron b x ≡ err (neuron_not_found entry_link_from)))
          ⊎ ((l.src ≢ entry_link_from)
              × (n : Neuron) × (get_src_neuron b x ≡ ok n)
              × (lookup l.src b.neurons ≡ some n)
              × (n.id ≡ l.src)))
unfolding get_dest_neuron get_src_neuron
get_ends b x l g e =
    let (d, found, held, named) = found_neuron b l.dest g (g.dest_exists x l e) in
    (
      (d, rw e found, held, named),
      elim (Bool-cases (is_some (lookup l.src b.neurons))) [
        | inl there ↦
            let (s, found', held', named') = found_neuron b l.src g there in
            inr (inside held', s, rw e found', held', named')
        | inr gone ↦
            let outside : l.src ≡ entry_link_from =
              ground (arith, g.src_exists x l e, eq_iff l.src entry_link_from) in
            inl (outside, rw e (unfold get_neuron in ground (arith, outside, gone)))
      ],
    )
  where
    inside : {s : Neuron} → lookup l.src b.neurons ≡ some s → l.src ≢ entry_link_from
    inside held entry = cc (g.no_entry_neuron, ap (λ k. lookup k b.neurons) entry, held)
