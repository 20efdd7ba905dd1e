-- ===== src/Brain/Invariant/Build/Content.antt =====
-- brain_local.go, neuron.go and link.go of brainlocal: what `BuildBrain` takes over from the
-- blueprint.
use rmodel.Blueprint.Brainprint.{Brainprint, list_links, list_neurons, values}
use rmodel.Blueprint.Graph.{IsGraph}
use rmodel.Blueprint.Neuron.{
  Neuron, format, has_in_link, has_out_link, keys, list_cast_groups, list_trigger_groups, or_empty,
  trigger_groups_deep_copy,
}
use rmodel.Brain.{Brain, BrainLink, BrainNeuron, no_count}
use rmodel.Brain.Invariant.{IsWired}
use rmodel.Brain.Invariant.Build.{
  IsHarmless, build_brain-IsStopped, built_links_ids, dest_is-some, ids_of, src_is-some,
}
use rmodel.Brain.Invariant.Build.Groups.{Exist, format_into-Exist, in_some_group-Exist}
use rmodel.Brain.Invariant.Build.Lookups.{
  format_into-map, link_of, lookup-build_links, lookup-build_neurons, lookup-point_groups,
  mapped_keys, or_none,
}
use rmodel.Brain.Invariant.Start.{IsStopped}
use rmodel.Brain.Life.{
  apply_options, build_brain, build_links, new_brain_neuron, with_id, with_neuron_queue_len,
  with_neuron_worker_num,
}
use rmodel.Brain.Queue.{is_shutdown}
use rmodel.Core.{neuron_inactive}
use rmodel.Shared.{
  All, Bool, List, Option, String, [], ap, is_some, map, none, option_map, refl, some, subst, sym,
  true, ℕ, ℤ, ◌∙◌, ◌∷◌, ◌≡◌,
}
use rmodel.Shared.Maps.{Distinct, Map, entries_hold, lookup}
use rmodel.Utils.Copies.{
  Fresh-nil, copy_into_all, lookup-map_values, map_values, map_values-Distinct,
}

-- The neuron of the brain has what the neuron of the blueprint has, with a pointer for each link of
-- each group, and it has not run.
abbrev pub Matches : Neuron → BrainNeuron → Type 0
Matches n m =
    (m.id ≡ n.id)
    × (m.processor ≡ n.processor)
    × (m.selector ≡ n.selector)
    × (m.state ≡ neuron_inactive)
    × (m.count ≡ no_count)
    × ((name : String)
        → lookup name m.trigger_groups ≡ option_map (map some) (lookup name n.trigger_groups))
    × ((name : String)
        → lookup name m.cast_groups
          ≡ option_map (λ s. map some (keys s)) (lookup name (or_empty n.cast_groups)))

abbrev pub MatchesAt : Option Neuron → Option BrainNeuron → Type 0
MatchesAt none none = Unit
MatchesAt (some n) (some m) = Matches n m
MatchesAt _ _ = ⊥

module _ (ids : String → Bool) (links : Map BrainLink)
    (there : (k : String) → is_some (lookup k links) ≡ ids k) where
  new_brain_neuron-Matches :
      (n : Neuron)
      → Distinct n.trigger_groups
      → Distinct (or_empty n.cast_groups)
      → ((x : String) → has_in_link n x ≡ true → ids x ≡ true)
      → ((x : String) → has_out_link n x ≡ true → ids x ≡ true)
      → Matches n (new_brain_neuron n links)
  unfolding new_brain_neuron list_trigger_groups list_cast_groups has_in_link has_out_link
      trigger_groups_deep_copy format lookup
  new_brain_neuron-Matches n d c ins outs =
      let tgs = copy_into_all n.trigger_groups d in
      let cgs = or_empty n.cast_groups in
      let formatted = format_into-map cgs [] c (Fresh-nil (List String) cgs) in
      let held = subst (Exist ids) formatted (format_into-Exist ids cgs [] outs tt) in
      (
        refl,
        refl,
        refl,
        refl,
        refl,
        λ name. rw tgs (
            lookup-point_groups ids links n.trigger_groups [] name there d
              (in_some_group-Exist ids n.trigger_groups ins)
            ∙ or_none (option_map (map some) (lookup name n.trigger_groups))),
        λ name. rw formatted (
            lookup-point_groups ids links (map_values keys cgs) [] name there
              (map_values-Distinct keys cgs c) held
            ∙ or_none (option_map (map some) (lookup name (map_values keys cgs)))
            ∙ ap (option_map (map some)) (lookup-map_values keys name cgs)
            ∙ mapped_keys (lookup name cgs)),
      )

  Matches-at :
      (o : Option Neuron) (r : Option BrainNeuron)
      → r ≡ option_map (λ n. new_brain_neuron n links) o
      → ((n : Neuron) → o ≡ some n → Matches n (new_brain_neuron n links))
      → MatchesAt o r
  Matches-at none r e h = subst (MatchesAt none) (sym e) tt
  Matches-at (some n) r e h = subst (MatchesAt (some n)) (sym e) (h n refl)

-- An option that sets neither a map nor the state of the brain, as those of options.go.
abbrev pub KeepsGraph : {M : Type 0} → (Brain M → Brain M) → Type 0
KeepsGraph {M = M} opt =
    (b : Brain M)
    → ((opt b).links ≡ b.links) × ((opt b).neurons ≡ b.neurons) × ((opt b).state ≡ b.state)

apply_options-KeepsGraph :
    {M : Type 0} (opts : List (Brain M → Brain M))
    → All KeepsGraph opts
    → KeepsGraph (apply_options opts)
unfolding apply_options
apply_options-KeepsGraph [] h b = (refl, refl, refl)
apply_options-KeepsGraph (opt ∷ opts) h b =
    let (l, n, s) = h.0 b in
    let (l', n', s') = apply_options-KeepsGraph opts h.1 (opt b) in (l' ∙ l, n' ∙ n, s' ∙ s)

KeepsGraph-IsHarmless :
    {M : Type 0} (ids : String → Bool) (opts : List (Brain M → Brain M))
    → All KeepsGraph opts
    → All (IsHarmless ids) opts
KeepsGraph-IsHarmless ids [] h = tt
KeepsGraph-IsHarmless ids (opt ∷ opts) h = (
  λ b w.
      let (l, n, s) = h.0 b in
      record {
        wired =
            subst (λ ns. IsWired ids (opt b).links ns) (sym n)
              (subst (λ ls. IsWired ids ls b.neurons) (sym l) w.wired);
        stopped = ap is_shutdown s ∙ w.stopped;
      },
  KeepsGraph-IsHarmless ids opts h.1,
)

pub options-KeepsGraph :
    {M : Type 0} (n : ℕ) (len : ℤ) (id : String)
    → KeepsGraph {M = M} (with_neuron_worker_num n)
      × KeepsGraph {M = M} (with_neuron_queue_len len)
      × KeepsGraph {M = M} (with_id id)
unfolding with_neuron_worker_num with_neuron_queue_len with_id
options-KeepsGraph n len id =
    (λ b. (refl, refl, refl), λ b. (refl, refl, refl), λ b. (refl, refl, refl))

-- A brain that is built from a well formed blueprint with options that set neither a map nor the
-- state, as those of options.go: it is shut down and well
-- formed; under each id it has a link exactly where the
-- blueprint has one, with the same ends and in its initial state; and under each id it has a neuron
-- exactly where the blueprint has one, inactive, with the same processor and selector and the same
-- groups under the same names, each with a pointer to a link of the brain for every link that the
-- blueprint's group has, in its order.
pub build_brain_lem :
    {M : Type 0} (id : String) (memory : M) (b : Brainprint) (opts : List (Brain M → Brain M))
    → IsGraph b
    → All KeepsGraph opts
    → IsStopped (ids_of b) (build_brain id memory b opts)
      × ((k : String)
          → lookup k (build_brain id memory b opts).links ≡ option_map link_of (lookup k b.links))
      × ((k : String)
          → MatchesAt (lookup k b.neurons) (lookup k (build_brain id memory b opts).neurons))
unfolding build_brain list_links list_neurons lookup
build_brain_lem id memory b opts g h =
    let links = build_links (values b.links) [] in
    let (ls, ns, st) = apply_options-KeepsGraph opts h _ in
    let harmless = KeepsGraph-IsHarmless (ids_of b) opts h in
    let linked = λ (k : String).
      lookup-build_links b.links [] k g.links_distinct
        (entries_hold (λ j l. l.id ≡ j) b.links g.links_distinct g.link_keys)
      ∙ or_none (option_map link_of (lookup k b.links)) in
    let there = λ (k : String). built_links_ids b k g in
    (
      build_brain-IsStopped id memory b opts g harmless,
      λ k. ap (lookup k) ls ∙ linked k,
      λ k.
          Matches-at (ids_of b) links there (lookup k b.neurons) _
            (ap (lookup k) ns
              ∙ lookup-build_neurons links b.neurons [] k g.neurons_distinct
                  (entries_hold (λ j n. n.id ≡ j) b.neurons g.neurons_distinct g.neuron_ids)
              ∙ or_none (option_map (λ n. new_brain_neuron n links) (lookup k b.neurons)))
            (λ n e.
              new_brain_neuron-Matches (ids_of b) links there n (g.antichains k n e).distinct
                (g.casts_distinct k n e)
                (λ x q. dest_is-some k (lookup x b.links) (sym (g.in_links k n e x) ∙ q))
                (λ x q. src_is-some k (lookup x b.links) (sym (g.out_links k n e x) ∙ q))),
    )
