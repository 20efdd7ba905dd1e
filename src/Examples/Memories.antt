-- ===== src/Examples/Memories.antt =====
-- The theorems on the memories at concrete inputs.
use rmodel.Brain.{Brain}
use rmodel.Brain.Context.{
  context_exist_memory, context_get_memory, context_set_memory, entry_with_memory,
}
use rmodel.Brain.Ensures.{Safe}
use rmodel.Brain.Invariant.{IsBrain}
use rmodel.Brain.Local.{
  LocalMemory, default_memory, local_ensure_memory_init, local_exist_memory, local_get_memory,
  local_memory,
}
use rmodel.Brain.Local.Closed.{shutdown-HasClosed}
use rmodel.Brain.Local.Kept.{Given, calls-Given, calls_on, sets, state_after}
use rmodel.Brain.Power.{shutdown}
use rmodel.Brain.Remember.{IsSound, entry_with_memory-IsSound}
use rmodel.Brain.Step.{returned}
use rmodel.Core.{Any, brain_shutdown, go_int, go_int64, nil_value, number, text}
use rmodel.Errors.{memory_failed, ok}
use rmodel.Examples.Brains.{no_memory}
use rmodel.Examples.Caches.{MapCache, map_cache, map_cache-IsCache}
use rmodel.Examples.Histories.{asked-IsBrain, idle, sample_ids}
use rmodel.Examples.Json.{unary_json, unary_json-IsEncoding}
use rmodel.Examples.Tables.{Files, file_tables, file_tables-IsSqlite, store_table}
use rmodel.Lite.{LiteMemory, Sqlite}
use rmodel.Lite.Cycle.{lite_shutdown-lite_trig_ids}
use rmodel.Lite.Digest.{hash_key-is_int64, take}
use rmodel.Lite.Key.{hash_key}
use rmodel.Lite.Lawful.{lite_memory-IsMemory}
use rmodel.Lite.Memory.{
  lite_ensure_memory_init, lite_exist_memory, lite_get_memory, lite_memory, lite_set_memory,
  memory_close,
}
use rmodel.Lite.Run.{LiteBrain, lite_shutdown, lite_trig_ids}
use rmodel.Shared.{List, String, [], false, inr, is_int64, none, pos, refl, some, true, ℤ, ◌∷◌, ◌≡◌}

-- A brain over another memory.
abbrev over : {M N : Type 0} → N → Brain M → Brain N
over memory b = record {
  id = b.id;
  labels = b.labels;
  neurons = b.neurons;
  links = b.links;
  state = b.state;
  memory = memory;
  b_queue = b.b_queue;
  n_queue = b.n_queue;
  n_queue_len = b.n_queue_len;
  n_worker_num = b.n_worker_num;
  delayed = b.delayed;
}

over-IsBrain : {N : Type 0} (memory : N) → IsBrain sample_ids (over memory idle)
over-IsBrain memory = record {
  wired = asked-IsBrain.wired;
  awake = asked-IsBrain.awake;
  sized = asked-IsBrain.sized;
  b_open = asked-IsBrain.b_open;
  n_open = asked-IsBrain.n_open;
}

abbrev greeting : List Any
greeting = text "hello" ∷ text "world" ∷ []

abbrev fresh_cache : MapCache
fresh_cache = record { shut = false; entry = λ k. none }

abbrev in_use : LocalMemory MapCache
in_use = record { cache = some fresh_cache; num_counters = pos 1000; max_cost = pos 64 }

abbrev new_memory : LocalMemory MapCache
new_memory = default_memory

calls-Given_example :
    (local_exist_memory (calls_on (sets greeting ∷ []) new_memory) (text "hello") ≡ true
      → Given map_cache-IsCache.same_key
          (sets greeting ∷ [])
          (text "hello")
          (local_get_memory (calls_on (sets greeting ∷ []) new_memory) (text "hello")))
    × (local_exist_memory (calls_on (sets greeting ∷ []) new_memory) (text "hello") ≡ false
        → local_get_memory (calls_on (sets greeting ∷ []) new_memory) (text "hello") ≡ nil_value)
unfolding default_memory
calls-Given_example =
    calls-Given map_cache-IsCache (sets greeting ∷ []) new_memory (text "hello") refl

shutdown-HasClosed_example :
    (b' b'' : Brain (LocalMemory MapCache)) × (shutdown ⦃mem = local_memory ⦃lib = map_cache⦄⦄
        (over in_use idle)
      ≡ returned tt b')
    × (local_ensure_memory_init b'.memory ≡ (b'.memory, none))
    × (context_set_memory ⦃mem = local_memory⦄ greeting b' ≡ returned none b'')
    × (context_get_memory ⦃mem = local_memory⦄ (text "hello") b'' ≡ nil_value)
    × (context_exist_memory ⦃mem = local_memory⦄ (text "hello") b'' ≡ false)
shutdown-HasClosed_example =
    shutdown-HasClosed map_cache-IsCache sample_ids (over in_use idle) fresh_cache greeting
      (text "hello") (over-IsBrain in_use) refl refl

-- A file system with an empty table in the file of the brain.
abbrev one_file : Files
one_file = store_table "b1.db" (some (λ h. none)) (λ name. none)

abbrev opened : LiteMemory Files String
opened = record {
  db = some "b1.db";
  datasource_name = "b1.db";
  keep_memory = false;
  world = one_file;
}

abbrev unopened : LiteMemory Files String
unopened = record {
  db = none;
  datasource_name = "b1.db";
  keep_memory = false;
  world = λ name. none;
}

hash_key-is_int64_example :
    (h h' : ℤ) × (hash_key (text "hello") ≡ ok h)
    × (hash_key (number go_int (pos 1)) ≡ ok h')
    × (is_int64 h ≡ true)
    × (h ≡ h'
        → take 8 (unary_json.sum256 (unary_json.value_text (text "hello")))
          ≡ take 8 (unary_json.sum256 (unary_json.value_text (number go_int (pos 1)))))
hash_key-is_int64_example =
    hash_key-is_int64 unary_json-IsEncoding (text "hello") (number go_int (pos 1)) refl refl

abbrev closed : LiteMemory Files String
closed = record {
  db = none;
  datasource_name = "b1.db";
  keep_memory = false;
  world = store_table "b1.db" none one_file;
}

abbrev reopened : LiteMemory Files String
reopened = record {
  db = some "b1.db";
  datasource_name = "b1.db";
  keep_memory = false;
  world = store_table "b1.db" (some (λ h. none)) (store_table "b1.db" none one_file);
}

lite_shutdown-lite_trig_ids_example :
    (b' : LiteBrain Files String) × (lite_shutdown (over opened idle) ≡ returned tt b')
    × (b'.memory ≡ closed)
    × Safe (IsBrain sample_ids) (lite_trig_ids ("l2" ∷ []) b')
    × (lite_get_memory reopened (text "hello") ≡ nil_value)
    × (lite_exist_memory reopened (text "hello") ≡ false)
unfolding memory_close file_tables lite_ensure_memory_init
lite_shutdown-lite_trig_ids_example =
    lite_shutdown-lite_trig_ids file_tables-IsSqlite sample_ids "b1.db" (over opened idle) closed
      reopened "l2" [] (text "hello") (over-IsBrain opened) refl refl refl refl

-- SQLite on a file system that cannot be written.
abbrev read_only : Sqlite Files String
read_only = record file_tables {
  create_table = λ db w. (w, some (memory_failed "readonly database"));
}

-- The sample brain, shut down.
abbrev stopped : Brain (Unit {0})
stopped = record idle { state = brain_shutdown }

entry_with_memory-IsSound_example :
    Safe (IsSound sample_ids) (entry_with_memory ⦃mem = lite_memory⦄ greeting (over opened idle))
entry_with_memory-IsSound_example =
    entry_with_memory-IsSound sample_ids lite_memory-IsMemory greeting (over opened idle) refl
      (inr (over-IsBrain opened))

-- An `int64` under an `int` key, which is read as an `int` under the text of that key.
abbrev seven : List Any
seven = number go_int (pos 1) ∷ number go_int64 (pos 7) ∷ []

abbrev with_seven : LiteMemory Files String
with_seven = state_after (lite_set_memory seven opened)
