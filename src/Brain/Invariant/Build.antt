-- ===== src/Brain/Invariant/Build.antt =====
-- brain_local.go and neuron.go of brainlocal: a brain that is built from a well formed blueprint
-- is well formed, so that its groups hold no nil pointer.
pub mod Groups
pub mod Lookups
pub mod Content
use rmodel.Blueprint.Brainprint.{Brainprint, list_links, list_neurons, values}
use rmodel.Blueprint.Graph.{IsGraph, dest_is, src_is}
use rmodel.Blueprint.Link.{Link}
use rmodel.Blueprint.Neuron.{Neuron, has_in_link, has_out_link}
use rmodel.Brain.{Brain, BrainLink}
use rmodel.Brain.Invariant.{IsWired}
use rmodel.Brain.Invariant.Build.Groups.{IsSound, build_neurons-IsSound, new_brain_neuron-IsSound}
use rmodel.Brain.Invariant.Start.{IsStopped}
use rmodel.Brain.Life.{
  apply_options, build_brain, build_links, build_neurons, new_brain_link, new_brain_neuron, with_id,
  with_neuron_queue_len, with_neuron_worker_num,
}
use rmodel.Shared.{
  All, Bool, List, Option, String, [], ap, arith, eq_iff, inl, inr, is_some, none, refl, some, sym,
  true, ℕ, ℤ, ◌||◌, ◌∙◌, ◌∷◌, ◌≡◌,
}
use rmodel.Shared.Maps.{Map, entries_hold, insert, insert_cases, lookup, lookup-insert}

build_links_ids :
    (m : Map Link) (acc : Map BrainLink) (k : String)
    → All (λ e. e.1.id ≡ e.0) m
    → is_some (lookup k (build_links (values m) acc))
      ≡ (is_some (lookup k m) || is_some (lookup k acc))
unfolding build_links new_brain_link lookup
build_links_ids [] acc k h = refl
build_links_ids ((j, l) ∷ m) acc k h = ground (
  arith,
  build_links_ids m (insert l.id (new_brain_link l) acc) k h.1,
  lookup-insert l.id k (new_brain_link l) acc,
  h.0,
  eq_iff l.id k,
  eq_iff j k,
)

build_links_keyed :
    (ls : List Link) (acc : Map BrainLink)
    → ((k : String) (l : BrainLink) → lookup k acc ≡ some l → l.id ≡ k)
    → (k : String) (l : BrainLink) → lookup k (build_links ls acc) ≡ some l
    → l.id ≡ k
unfolding build_links new_brain_link
build_links_keyed [] acc h = h
build_links_keyed (m ∷ ls) acc h =
    build_links_keyed ls (insert m.id (new_brain_link m) acc) (λ k l e.
      elim (insert_cases m.id k (new_brain_link m) l acc e) [
        | inl q ↦ h k l q
        | inr (q, r) ↦ sym (ap BrainLink.id r) ∙ q
      ])

-- The ids of the links of a blueprint.
abbrev pub ids_of : Brainprint → String → Bool
ids_of b k = is_some (lookup k b.links)

pub built_links_ids :
    (b : Brainprint) (k : String)
    → IsGraph b
    → is_some (lookup k (build_links (list_links b) [])) ≡ ids_of b k
unfolding list_links lookup
built_links_ids b k g = ground (
  arith,
  build_links_ids b.links [] k
      (entries_hold (λ j l. l.id ≡ j) b.links g.links_distinct g.link_keys),
)

-- The two views of the graph agree at the neuron.
abbrev Agrees : Brainprint → String → Neuron → Type 0
Agrees b k n =
    ((x : String) → has_in_link n x ≡ dest_is k (lookup x b.links))
    × ((x : String) → has_out_link n x ≡ src_is k (lookup x b.links))

pub dest_is-some : (k : String) (o : Option Link) → dest_is k o ≡ true → is_some o ≡ true
dest_is-some k none e = cc e
dest_is-some k (some l) e = refl

pub src_is-some : (k : String) (o : Option Link) → src_is k o ≡ true → is_some o ≡ true
src_is-some k none e = cc e
src_is-some k (some l) e = refl

neurons-IsSound :
    (b : Brainprint) (links : Map BrainLink) (ns : Map Neuron)
    → ((k : String) → is_some (lookup k links) ≡ ids_of b k)
    → All (λ e. Agrees b e.0 e.1) ns
    → All
        (λ n. IsSound (ids_of b) (new_brain_neuron n links).id (new_brain_neuron n links))
        (values ns)
neurons-IsSound b links [] there h = tt
neurons-IsSound b links ((k, n) ∷ ns) there h = (
  new_brain_neuron-IsSound (ids_of b) links there n
      (λ x e. dest_is-some k (lookup x b.links) (sym (h.0.0 x) ∙ e))
      (λ x e. src_is-some k (lookup x b.links) (sym (h.0.1 x) ∙ e)),
  neurons-IsSound b links ns there h.1,
)

built-IsWired :
    (b : Brainprint)
    → IsGraph b
    → IsWired
        (ids_of b)
        (build_links (list_links b) [])
        (build_neurons (build_links (list_links b) []) (list_neurons b) [])
unfolding list_neurons lookup
built-IsWired b g =
    let there = λ (k : String). built_links_ids b k g in
    let sound =
      build_neurons-IsSound (ids_of b) (build_links (list_links b) []) there (list_neurons b) []
        (neurons-IsSound b (build_links (list_links b) []) b.neurons there (
          entries_hold (Agrees b) b.neurons g.neurons_distinct
            (λ k n e. (g.in_links k n e, g.out_links k n e))))
        (λ k n e. cc e) in
    record {
      links_there = there;
      links_keyed = build_links_keyed (list_links b) [] (λ k l e. cc e);
      neurons_keyed = λ k n e. (sound k n e).0;
      triggers = λ k n e. (sound k n e).1;
      casts = λ k n e. (sound k n e).2;
    }

-- An option of options.go sets a field that the invariant does not read.
abbrev pub IsHarmless : {M : Type 0} → (String → Bool) → (Brain M → Brain M) → Type 0
IsHarmless {M = M} ids opt = (b : Brain M) → IsStopped ids b → IsStopped ids (opt b)

apply_options-IsStopped :
    {M : Type 0} (ids : String → Bool) (opts : List (Brain M → Brain M)) (b : Brain M)
    → All (IsHarmless ids) opts
    → IsStopped ids b
    → IsStopped ids (apply_options opts b)
unfolding apply_options
apply_options-IsStopped ids [] b h w = w
apply_options-IsStopped ids (opt ∷ opts) b h w =
    apply_options-IsStopped ids opts (opt b) h.1 (h.0 b w)

-- The options that options.go offers are harmless.
pub options-IsHarmless :
    {M : Type 0} (ids : String → Bool) (n : ℕ) (len : ℤ) (id : String)
    → IsHarmless {M = M} ids (with_neuron_worker_num n)
      × IsHarmless {M = M} ids (with_neuron_queue_len len)
      × IsHarmless {M = M} ids (with_id id)
unfolding with_neuron_worker_num with_neuron_queue_len with_id
options-IsHarmless ids n len id = (
  λ b w. record { wired = w.wired; stopped = w.stopped },
  λ b w. record { wired = w.wired; stopped = w.stopped },
  λ b w. record { wired = w.wired; stopped = w.stopped },
)

-- A brain built from a well formed blueprint is shut down and well formed: its links are those of
-- the blueprint, and every pointer of every group of every neuron points to one of them.
pub build_brain-IsStopped :
    {M : Type 0} (id : String) (memory : M) (b : Brainprint) (opts : List (Brain M → Brain M))
    → IsGraph b
    → All (IsHarmless (ids_of b)) opts
    → IsStopped (ids_of b) (build_brain id memory b opts)
unfolding build_brain
build_brain-IsStopped id memory b opts g h =
    apply_options-IsStopped (ids_of b) opts _ h
      (record { wired = built-IsWired b g; stopped = refl })
