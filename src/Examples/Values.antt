-- ===== src/Examples/Values.antt =====
-- Tests of the functions on values, and of the calls that wait and ask, by evaluation.
use rmodel.Brain.Context.{get_current_neuron_labels, wait}
use rmodel.Brain.Power.{force_sleep, set_state}
use rmodel.Brain.Step.{blocked, panicked, returned}
use rmodel.Core.{bool, go_int, go_int64, go_uint64, number}
use rmodel.Errors.{err, unsupported_key}
use rmodel.Examples.Brains.{active}
use rmodel.Examples.Json.{unary_json}
use rmodel.Lite.Codec.{int_value, value_type}
use rmodel.Lite.Key.{big_endian, hash_key, to_signed}
use rmodel.Shared.{[], negsuc, pos, refl, true, ◌-◌, ◌^◌, ◌∷◌, ◌≡◌}
use rmodel.Shared.Maps.{insert, lookup}

-- The largest and the smallest integers that come back as an `int`, and their neighbours.
int_value-largest : int_value (pos (2 ^ 31 - 1)) ≡ number go_int (pos (2 ^ 31 - 1))
unfolding int_value
int_value-largest = refl

int_value-above : int_value (pos (2 ^ 31)) ≡ number go_int64 (pos (2 ^ 31))
unfolding int_value
int_value-above = refl

int_value-smallest : int_value (negsuc (2 ^ 31 - 1)) ≡ number go_int (negsuc (2 ^ 31 - 1))
unfolding int_value
int_value-smallest = refl

int_value-below : int_value (negsuc (2 ^ 31)) ≡ number go_int64 (negsuc (2 ^ 31))
unfolding int_value
int_value-below = refl

-- The bits of a uint64 read as an int64.
to_signed-last : to_signed (2 ^ 64 - 1) ≡ negsuc 0
unfolding to_signed
to_signed-last = refl

to_signed-middle : to_signed (2 ^ 63) ≡ negsuc (2 ^ 63 - 1)
unfolding to_signed
to_signed-middle = refl

big_endian-bytes : big_endian 8 0 (0 ∷ 0 ∷ 0 ∷ 0 ∷ 0 ∷ 0 ∷ 1 ∷ 2 ∷ 3 ∷ []) ≡ 258
unfolding big_endian
big_endian-bytes = refl

value_type-uint64 : value_type (number go_uint64 (pos 5)) ≡ "json"
unfolding value_type
value_type-uint64 = refl

-- A Boolean is no key.
hash_key-bool : hash_key (bool true) ≡ err (unsupported_key "any")
unfolding hash_key unary_json
hash_key-bool = refl

-- `Wait` holds its caller while the brain runs.
wait-running : wait active ≡ blocked active
unfolding wait
wait-running = refl

wait-sleeping : wait (force_sleep active) ≡ returned tt (force_sleep active)
unfolding wait force_sleep set_state
wait-sleeping = refl

get_current_neuron_labels-missing : get_current_neuron_labels "gone" active ≡ panicked active
unfolding get_current_neuron_labels lookup insert
get_current_neuron_labels-missing = refl
