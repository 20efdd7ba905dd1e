-- ===== src/Blueprint/Graph/Ends.antt =====
-- neuron.go: `addInLink` and `addOutLink` connect a link to one of its ends.
use rmodel.Blueprint.Graph.Linking.{Connects, ConnectsAt}
use rmodel.Blueprint.Neuron.{
  Neuron, TriggerGroups, has_in_link, has_out_link, in_some_group, in_some_set, or_empty, returns,
}
use rmodel.Blueprint.Neuron.Casts.{in_some_set-lookup, is_member, lookup-in_some_set}
use rmodel.Blueprint.Neuron.Groups.{add_in_link, add_out_link}
use rmodel.Blueprint.Neuron.InLinks.{add_in_link-IsAntichain}
use rmodel.Blueprint.Neuron.OutLinks.{add_out_link_lem}
use rmodel.Core.{default_cast_group_name}
use rmodel.Shared.{
  Bool, Bool-ext, List, Option, String, [], arith, eq_cases, eq_iff, false, if◌then◌else◌, inl, inr,
  none, refl, some, subst, true, ◌&&◌, ◌==◌, ◌||◌, ◌∙◌, ◌∷◌, ◌≡◌,
}
use rmodel.Shared.Maps.{Distinct, Map, insert, lookup, lookup-insert}
use rmodel.Shared.Sets.{elem}

in_some_group-insert :
    (x k : String) (g : List String) (m : TriggerGroups)
    → lookup k m ≡ none
    → in_some_group x (insert k g m) ≡ (elem x g || in_some_group x m)
unfolding lookup insert in_some_group
in_some_group-insert x k g [] h = refl
in_some_group-insert x k g ((j, w) ∷ m) h = ground (arith, in_some_group-insert x k g m, eq_iff j k)

pub add_in_link-Connects :
    (key lid : String) (n : Neuron)
    → lookup key n.trigger_groups ≡ none
    → Connects lid true false n (add_in_link key n lid)
add_in_link-Connects key lid n fresh = record {
  same_id = unfold add_in_link in refl;
  ins = λ x.
      unfold add_in_link has_in_link in
      ground (arith, in_some_group-insert x key (lid ∷ []) n.trigger_groups fresh);
  outs = λ x. unfold add_in_link has_out_link in refl;
  keeps_antichain = λ a h. add_in_link-IsAntichain key n lid a h;
  keeps_distinct = λ d. unfold add_in_link in d;
}

-- The default group takes the link in, so the out-links grow by it.
joined-has_out_link :
    (lid : String) (n n' : Neuron)
    → Distinct (or_empty n.cast_groups)
    → Distinct (or_empty n'.cast_groups)
    → ((j x : String)
        → is_member j x (or_empty n'.cast_groups) ≡ (
            if default_cast_group_name == j && lid == x
            then true
            else is_member j x (or_empty n.cast_groups)))
    → (x : String) → has_out_link n' x ≡ ((lid == x) || has_out_link n x)
unfolding has_out_link
joined-has_out_link lid n n' d d' spec x =
    Bool-ext (in_some_set x (or_empty n'.cast_groups))
      ((lid == x) || in_some_set x (or_empty n.cast_groups))
      (λ h.
        let found = in_some_set-lookup x (or_empty n'.cast_groups) d' h in
        ground
          (arith, spec found.0 x, found.1, lookup-in_some_set x found.0 (or_empty n.cast_groups)))
      (λ h. elim (eq_cases lid x) [
        | inl (t, _) ↦
            lookup-in_some_set x default_cast_group_name (or_empty n'.cast_groups)
              (ground (arith, spec default_cast_group_name x, t))
        | inr (f, _) ↦
            let found = in_some_set-lookup x (or_empty n.cast_groups) d (ground arith) in
            lookup-in_some_set x found.0 (or_empty n'.cast_groups)
              (ground (arith, spec found.0 x, found.1, f))
      ])

pub add_out_link-Connects :
    (lid : String) (n n' : Neuron)
    → Distinct (or_empty n.cast_groups)
    → add_out_link n lid ≡ returns n'
    → Connects lid false true n n' × (n'.trigger_groups ≡ n.trigger_groups)
add_out_link-Connects lid n n' d e = elim (add_out_link_lem n lid) [
  | inl (_, p) ↦ absurd (cc (e, p))
  | inr (_, n'', p, named, same, spec, keeps) ↦
      let eq : n'' ≡ n' = cc (e, p) in
      subst (λ z. Connects lid false true n z × (z.trigger_groups ≡ n.trigger_groups)) eq
        (
          record {
            same_id = named;
            ins = λ x. unfold has_in_link in rw same;
            outs = joined-has_out_link lid n n'' d (keeps d) spec;
            keeps_antichain = λ a h. rw same a;
            keeps_distinct = keeps;
          },
          same,
        )
]

pub Connects-refl : (lid : String) (n : Neuron) → Connects lid false false n n
Connects-refl lid n = record {
  same_id = refl;
  ins = λ x. refl;
  outs = λ x. refl;
  keeps_antichain = λ a h. a;
  keeps_distinct = λ d. d;
}

Connects-trans :
    (lid : String) (i o : Bool) (a b c : Neuron)
    → Connects lid false o a b
    → Connects lid i false b c
    → Connects lid i o a c
Connects-trans lid i o a b c p q = record {
  same_id = q.same_id ∙ p.same_id;
  ins = λ x. ground (arith, q.ins x, p.ins x);
  outs = λ x. ground (arith, q.outs x, p.outs x);
  keeps_antichain = λ s h. q.keeps_antichain (p.keeps_antichain s h) (p.ins lid ∙ h);
  keeps_distinct = λ d. q.keeps_distinct (p.keeps_distinct d);
}

pub ConnectsAt-trans :
    (lid : String) (i o : Bool) (a b c : Option Neuron)
    → ConnectsAt lid false o a b
    → ConnectsAt lid i false b c
    → ConnectsAt lid i o a c
ConnectsAt-trans lid i o none none none p q = tt
ConnectsAt-trans lid i o none none (some c) p q = absurd q
ConnectsAt-trans lid i o none (some b) c p q = absurd p
ConnectsAt-trans lid i o (some a) none c p q = absurd p
ConnectsAt-trans lid i o (some a) (some b) none p q = absurd q
ConnectsAt-trans lid i o (some a) (some b) (some c) p q = Connects-trans lid i o a b c p q

ConnectsAt-refl : (lid : String) (o : Option Neuron) → ConnectsAt lid false false o o
ConnectsAt-refl lid none = tt
ConnectsAt-refl lid (some n) = Connects-refl lid n

and-true : (b : Bool) → (b && true) ≡ b
and-true true = refl
and-true false = refl

and-false : (b : Bool) → (b && false) ≡ false
and-false true = refl
and-false false = refl

-- Writing one neuron back connects the link at its key and at no other.
pub insert-ConnectsAt :
    (lid key : String) (i o : Bool) (n n' : Neuron) (m : Map Neuron)
    → lookup key m ≡ some n
    → Connects lid i o n n'
    → (k : String)
    → ConnectsAt lid (i && key == k) (o && key == k) (lookup k m) (lookup k (insert key n' m))
insert-ConnectsAt lid key i o n n' m e c k = elim (eq_cases key k) [
  | inl (t, p) ↦ rw (lookup-insert key k n' m, t, and-true i, and-true o) (rw (rw p at e) c)
  | inr (f, _) ↦
      rw (lookup-insert key k n' m, f, and-false i, and-false o) (ConnectsAt-refl lid (lookup k m))
]
