-- ===== src/Blueprint/Graph/Linking.antt =====
-- brainprint.go: a new link put into the map of links and into the groups of its two ends keeps
-- the graph well formed.
use rmodel.Blueprint.Brainprint.{Brainprint}
use rmodel.Blueprint.Graph.{IsGraph}
use rmodel.Blueprint.Link.{Link}
use rmodel.Blueprint.Neuron.{Neuron, has_in_link, has_out_link, or_empty}
use rmodel.Blueprint.Neuron.Triggers.{IsAntichain}
use rmodel.Core.{entry_link_from}
use rmodel.Shared.{
  Bool, Option, String, arith, eq_cases, eq_iff, false, inl, inr, is_some, none, refl, some, true,
  ◌&&◌, ◌==◌, ◌||◌, ◌∙◌, ◌≡◌, ◌≢◌,
}
use rmodel.Shared.Maps.{Distinct, Map, insert, insert-Distinct, lookup, lookup-insert}

-- What connecting the link `lid` does to a neuron: `into` if it is the destination, `out_of` if it
-- is the source.
pub record Connects (lid : String) (into out_of : Bool) (n n' : Neuron) : Type 0 where
  pub same_id : n'.id ≡ n.id
  pub ins : (x : String) → has_in_link n' x ≡ ((into && lid == x) || has_in_link n x)
  pub outs : (x : String) → has_out_link n' x ≡ ((out_of && lid == x) || has_out_link n x)
  pub keeps_antichain :
      IsAntichain n.trigger_groups → has_in_link n lid ≡ false → IsAntichain n'.trigger_groups
  pub keeps_distinct : Distinct (or_empty n.cast_groups) → Distinct (or_empty n'.cast_groups)

-- The same for the neuron under a key, which is there before exactly if it is there afterwards.
abbrev pub ConnectsAt : String → Bool → Bool → Option Neuron → Option Neuron → Type 0
ConnectsAt lid into out_of none none = Unit {0}
ConnectsAt lid into out_of none (some n') = ⊥
ConnectsAt lid into out_of (some n) none = ⊥
ConnectsAt lid into out_of (some n) (some n') = Connects lid into out_of n n'

module _ (b : Brainprint) (l : Link) (neurons' : Map Neuron) (g : IsGraph b)
    (fresh : lookup l.id b.links ≡ none) (distinct : Distinct neurons')
    (no_entry : lookup entry_link_from neurons' ≡ none)
    (each : (k : String)
      → entry_link_from ≢ k
      → ConnectsAt l.id (l.dest == k) (l.src == k) (lookup k b.neurons) (lookup k neurons'))
    (dest : is_some (lookup l.dest b.neurons) ≡ true)
    (src : (l.src == entry_link_from || is_some (lookup l.src b.neurons)) ≡ true) where
  same_keys : (k : String) → is_some (lookup k neurons') ≡ is_some (lookup k b.neurons)
  same_keys k = elim (eq_cases entry_link_from k) [
    | inl (_, p) ↦ rw (← p, no_entry, g.no_entry_neuron)
    | inr (_, ne) ↦ at (lookup k b.neurons) (lookup k neurons') (each k ne)
  ]
    where
      at :
          (o o' : Option Neuron)
          → ConnectsAt l.id (l.dest == k) (l.src == k) o o'
          → is_some o' ≡ is_some o
      at none none c = refl
      at none (some n') c = absurd c
      at (some n) none c = absurd c
      at (some n) (some n') c = refl

  before :
      (k : String) (n' : Neuron)
      → lookup k neurons' ≡ some n'
      → (n : Neuron) × (lookup k b.neurons ≡ some n) × Connects l.id (l.dest == k) (l.src == k) n n'
  before k n' e = at (lookup k b.neurons) refl (rw e at (each k (λ p. cc (no_entry, e, p))))
    where
      at :
          (o : Option Neuron)
          → lookup k b.neurons ≡ o
          → ConnectsAt l.id (l.dest == k) (l.src == k) o (some n')
          → (n : Neuron) × (lookup k b.neurons ≡ some n)
            × Connects l.id (l.dest == k) (l.src == k) n n'
      at none p c = absurd c
      at (some n) p c = (n, p, c)

  pub connect-IsGraph : IsGraph (record b { neurons = neurons'; links = insert l.id l b.links })
  connect-IsGraph = record {
    neurons_distinct = distinct;
    links_distinct = insert-Distinct l.id l b.links g.links_distinct;
    no_entry_neuron = no_entry;
    neuron_ids = λ k n' e. let (n, p, c) = before k n' e in c.same_id ∙ g.neuron_ids k n p;
    link_keys =
        λ k l' e. ground (arith, lookup-insert l.id k l b.links, eq_iff l.id k, g.link_keys k l');
    antichains = λ k n' e.
        let (n, p, c) = before k n' e in
        c.keeps_antichain (g.antichains k n p) (ground (arith, g.in_links k n p l.id, fresh));
    casts_distinct =
        λ k n' e. let (n, p, c) = before k n' e in c.keeps_distinct (g.casts_distinct k n p);
    in_links = λ k n' e x.
        let (n, p, c) = before k n' e in
        ground (
          arith,
          c.ins x,
          g.in_links k n p x,
          lookup-insert l.id x l b.links,
          eq_iff l.id x,
          fresh,
        );
    out_links = λ k n' e x.
        let (n, p, c) = before k n' e in
        ground (
          arith,
          c.outs x,
          g.out_links k n p x,
          lookup-insert l.id x l b.links,
          eq_iff l.id x,
          fresh,
        );
    dest_exists = λ x l' e.
        ground (arith, lookup-insert l.id x l b.links, g.dest_exists x l', dest, same_keys l'.dest);
    src_exists = λ x l' e.
        ground (arith, lookup-insert l.id x l b.links, g.src_exists x l', src, same_keys l'.src);
  }
