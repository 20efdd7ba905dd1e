-- ===== src/Blueprint/Brainprint.antt =====
-- brainprint.go: the blueprint, and what is read from it. A neuron or a link is a pointer in the
-- source; the object behind it is the entry of the map under its id.
pub mod Edit
use rmodel.Blueprint.Link.{Link, is_end_link, is_entry_link}
use rmodel.Blueprint.Neuron.{Neuron}
use rmodel.Errors.{Result, link_not_found, neuron_not_found, or_err, ◌>>=◌}
use rmodel.Shared.{Bool, List, String, [], false, if◌then◌else◌, is_some, not, ◌==◌, ◌||◌, ◌∷◌}
use rmodel.Shared.Maps.{Map, lookup}
use rmodel.Utils.{Labels}

pub record Brainprint : Type 0 where
  pub id : String
  pub labels : Labels
  pub neurons : Map Neuron
  pub links : Map Link

-- `NewBlueprint` and `NewMultiLangBlueprint`, with the id that `utils.GenID` draws.
unfoldable pub new_blueprint : String → Brainprint
new_blueprint id = record { id = id; labels = []; neurons = []; links = [] }

-- The values of a map, in its order.
abbrev pub values {ℓ} : {V : Type ℓ} → Map V → List V
values [] = []
values ((k, v) ∷ m) = v ∷ values m

unfoldable pub get_neuron : Brainprint → String → Result Neuron
get_neuron b neuron_id = or_err (lookup neuron_id b.neurons) (neuron_not_found neuron_id)

unfoldable pub has_neuron : Brainprint → String → Bool
has_neuron b neuron_id = is_some (lookup neuron_id b.neurons)

-- The nil slice of an empty blueprint is the empty list.
unfoldable pub list_neurons : Brainprint → List Neuron
list_neurons b = values b.neurons

unfoldable pub get_link : Brainprint → String → Result Link
get_link b link_id = or_err (lookup link_id b.links) (link_not_found link_id)

unfoldable pub get_src_neuron : Brainprint → String → Result Neuron
unfolding get_link get_neuron
get_src_neuron b link_id = do l ← get_link b link_id; get_neuron b l.src

unfoldable pub get_dest_neuron : Brainprint → String → Result Neuron
unfolding get_link get_neuron
get_dest_neuron b link_id = do l ← get_link b link_id; get_neuron b l.dest

unfoldable pub has_link : Brainprint → String → Bool
has_link b link_id = is_some (lookup link_id b.links)

-- A loop that returns at the first link that passes the test.
abbrev pub any_link : (Link → Bool) → Map Link → Bool
any_link p [] = false
any_link p ((k, l) ∷ m) = p l || any_link p m

-- A loop that appends the links that pass the test.
abbrev pub select_links : (Link → Bool) → Map Link → List Link
select_links p [] = []
select_links p ((k, l) ∷ m) = if p l then l ∷ select_links p m else select_links p m

unfoldable pub has_entry_link : Brainprint → Bool
has_entry_link b = any_link is_entry_link b.links

unfoldable pub has_end_link : Brainprint → Bool
has_end_link b = any_link is_end_link b.links

unfoldable pub list_links : Brainprint → List Link
list_links b = values b.links

unfoldable pub list_entry_links : Brainprint → List Link
list_entry_links b = select_links is_entry_link b.links

unfoldable pub list_end_links : Brainprint → List Link
list_end_links b = select_links is_end_link b.links

unfoldable pub list_in_links : Brainprint → String → List Link
unfolding has_neuron
list_in_links b neuron_id =
    if not (has_neuron b neuron_id) then [] else select_links (λ l. l.dest == neuron_id) b.links

unfoldable pub list_out_links : Brainprint → String → List Link
unfolding has_neuron
list_out_links b neuron_id =
    if not (has_neuron b neuron_id) then [] else select_links (λ l. l.src == neuron_id) b.links
