-- ===== src/Blueprint/Graph/Copies.antt =====
-- brainprint.go, neuron.go and link.go: what `Clone` returns.
use rmodel.Blueprint.Brainprint.{Brainprint}
use rmodel.Blueprint.Brainprint.Edit.{clone, copy_links, copy_neurons}
use rmodel.Blueprint.Link.{Link}
use rmodel.Blueprint.Neuron.{
  CastGroups, LinkSet, Neuron, cast_groups_deep_copy, copy_groups, or_empty,
  trigger_groups_deep_copy,
}
use rmodel.Shared.{All, [], ap, refl, some, sym, ◌++◌, ◌∙◌, ◌∷◌, ◌≡◌}
use rmodel.Shared.Maps.{Distinct, Map}
use rmodel.Utils.{copy_into, labels_deep_copy}
use rmodel.Utils.Copies.{
  Fresh, Fresh-nil, Fresh-step, append_nil, append_one, copy_into_all, insert_fresh, map_values,
  map_values-ext,
}
use rmodel.Blueprint.Neuron
use rmodel.Blueprint.Link

-- The maps of a neuron have distinct keys, as Go's maps have.
abbrev pub IsKeyed : Neuron → Type 0
IsKeyed n =
    Distinct n.labels
    × Distinct n.trigger_groups
    × Distinct (or_empty n.cast_groups)
    × All (λ g. Distinct g.1) (or_empty n.cast_groups)

-- The map of the cast groups is made, where there was none.
abbrev pub with_casts : Neuron → Neuron
with_casts n = record n { cast_groups = some (or_empty n.cast_groups) }

-- The loops of the deep copies, with a copy of each value.
pub copy_groups-map :
    (m acc : CastGroups)
    → Distinct m
    → Fresh acc m
    → copy_groups m acc ≡ acc ++ map_values (λ s. copy_into s []) m
unfolding copy_groups
copy_groups-map [] acc d f = sym (append_nil acc)
copy_groups-map ((k, s) ∷ m) acc d f =
    let s' : LinkSet = copy_into s [] in
    ap (copy_groups m) (insert_fresh k s' acc f.0)
    ∙ copy_groups-map m (acc ++ (k, s') ∷ []) d.1 (Fresh-step k s' acc m d.0 f.1)
    ∙ append_one acc (map_values (λ t. copy_into t []) m) (k, s')

pub copy_neurons-map :
    (m acc : Map Neuron)
    → Distinct m
    → Fresh acc m
    → copy_neurons m acc ≡ acc ++ map_values Neuron.deep_copy m
unfolding copy_neurons
copy_neurons-map [] acc d f = sym (append_nil acc)
copy_neurons-map ((k, n) ∷ m) acc d f =
    let n' = Neuron.deep_copy n in
    ap (copy_neurons m) (insert_fresh k n' acc f.0)
    ∙ copy_neurons-map m (acc ++ (k, n') ∷ []) d.1 (Fresh-step k n' acc m d.0 f.1)
    ∙ append_one acc (map_values Neuron.deep_copy m) (k, n')

pub copy_links-map :
    (m acc : Map Link)
    → Distinct m
    → Fresh acc m
    → copy_links m acc ≡ acc ++ map_values Link.deep_copy m
unfolding copy_links
copy_links-map [] acc d f = sym (append_nil acc)
copy_links-map ((k, l) ∷ m) acc d f =
    let l' = Link.deep_copy l in
    ap (copy_links m) (insert_fresh k l' acc f.0)
    ∙ copy_links-map m (acc ++ (k, l') ∷ []) d.1 (Fresh-step k l' acc m d.0 f.1)
    ∙ append_one acc (map_values Link.deep_copy m) (k, l')

map_values_same {ℓ} : {A : Type ℓ} (m : Map A) → map_values (λ a. a) m ≡ m
map_values_same [] = refl
map_values_same ((k, v) ∷ m) = ap (λ r. (k, v) ∷ r) (map_values_same m)

sets_copied : (m : CastGroups) → All (λ g. Distinct g.1) m → All (λ g. copy_into g.1 [] ≡ g.1) m
sets_copied [] h = tt
sets_copied ((k, s) ∷ m) h = (copy_into_all s h.0, sets_copied m h.1)

cast_groups_copy_lem :
    (m : CastGroups) → Distinct m → All (λ g. Distinct g.1) m → copy_groups m [] ≡ m
cast_groups_copy_lem m d h =
    copy_groups-map m [] d (Fresh-nil LinkSet m)
    ∙ map_values-ext (λ s. copy_into s []) (λ s. s) m (sets_copied m h)
    ∙ map_values_same m

neuron_copy_lem : (n : Neuron) → IsKeyed n → Neuron.deep_copy n ≡ with_casts n
unfolding Neuron.deep_copy labels_deep_copy trigger_groups_deep_copy cast_groups_deep_copy
neuron_copy_lem n (d, t, c, g) =
    rw
      (
        copy_into_all n.labels d,
        copy_into_all n.trigger_groups t,
        cast_groups_copy_lem (or_empty n.cast_groups) c g,
      )
      refl

neurons_copied :
    (m : Map Neuron) → All (λ e. IsKeyed e.1) m → All (λ e. Neuron.deep_copy e.1 ≡ with_casts e.1) m
neurons_copied [] h = tt
neurons_copied ((k, n) ∷ m) h = (neuron_copy_lem n h.0, neurons_copied m h.1)

links_copied :
    (m : Map Link) → All (λ e. Distinct e.1.labels) m → All (λ e. Link.deep_copy e.1 ≡ e.1) m
unfolding Link.deep_copy labels_deep_copy
links_copied [] h = tt
links_copied ((k, l) ∷ m) h =
    (ap (λ labels. record l { labels = labels }) (copy_into_all l.labels h.0), links_copied m h.1)

-- `Clone` returns an equal blueprint, except that a neuron whose map of cast groups is nil, as that
-- of the END neuron, has an empty one in the copy.
pub clone_lem :
    (b : Brainprint)
    → Distinct b.labels
    → Distinct b.neurons
    → Distinct b.links
    → All (λ e. IsKeyed e.1) b.neurons
    → All (λ e. Distinct e.1.labels) b.links
    → clone b ≡ record b { neurons = map_values with_casts b.neurons }
unfolding clone labels_deep_copy
clone_lem b d n l h k =
    rw
      (
        copy_into_all b.labels d,
        copy_neurons-map b.neurons [] n (Fresh-nil Neuron b.neurons)
            ∙ map_values-ext Neuron.deep_copy with_casts b.neurons (neurons_copied b.neurons h),
        copy_links-map b.links [] l (Fresh-nil Link b.links)
            ∙ map_values-ext Link.deep_copy (λ l. l) b.links (links_copied b.links k)
            ∙ map_values_same b.links,
      )
      refl
