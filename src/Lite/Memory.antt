-- ===== src/Lite/Memory.antt =====
-- memory.go and brain_lite.go of brainlite: the memory of a lite brain.
use rmodel.Brain.{Memory}
use rmodel.Brain.Step.{Go, Step, panicked, returned}
use rmodel.Core.{Any, nil_value}
use rmodel.Errors.{Error, Result, err, key_not_found, ok, unpaired_memory, wrapped}
use rmodel.Lite.{Encoding, LiteMemory, SelectedRow, Sqlite, no_rows, query_failed, row_found}
use rmodel.Lite.Codec.{decode, value_type}
use rmodel.Lite.Key.{hash_key}
use rmodel.Shared.{
  Bool, List, Option, String, false, if◌then◌else◌, is_some, length, nat_eq, none, option_map, some,
  true, ℤ, ◌%◌, ◌∷◌,
}

abbrev pub or_nil : Result Any → Any
or_nil (err e) = nil_value
or_nil (ok v) = v

abbrev pub is_ok : Result Any → Bool
is_ok (err e) = false
is_ok (ok v) = true

abbrev pub read : ⦃enc : Encoding⦄ → Any → SelectedRow → Result Any
read key (row_found value_json type) = decode value_json type
read ⦃enc⦄ key no_rows = err (key_not_found (enc.value_text key))
read key (query_failed e) = err (wrapped "An error occurred while querying data" e)

module _ {W D : Type 0} ⦃enc : Encoding⦄ ⦃sql : Sqlite W D⦄ where
  -- `CREATE TABLE`, with the handle already kept: a failure leaves it there.
  abbrev pub init_table : W × Result D → LiteMemory W D → LiteMemory W D × Option Error
  init_table (w, err e) m = (record m { world = w }, some (wrapped "init memory failed" e))
  init_table (w, ok db) m =
      let (w', failure) = sql.create_table db w in
      (
        record m { db = some db; world = w' },
        option_map (wrapped "init memory table failed") failure,
      )

  -- `Init`.
  unfoldable pub memory_init : LiteMemory W D → LiteMemory W D × Option Error
  memory_init m = init_table (sql.open_db m.datasource_name m.world) m

  unfoldable pub lite_ensure_memory_init : LiteMemory W D → LiteMemory W D × Option Error
  unfolding memory_init
  lite_ensure_memory_init m = if is_some m.db then (m, none) else memory_init m

  -- A statement on a memory: its error is wrapped in a message.
  abbrev pub exec : String → (W → W × Option Error) → LiteMemory W D → LiteMemory W D × Option Error
  exec message statement m =
      let (w, failure) = statement m.world in
      (record m { world = w }, option_map (wrapped message) failure)

  abbrev pub store_json :
      D → ℤ → Any → Result String → LiteMemory W D → LiteMemory W D × Option Error
  store_json db hashed_key value (err e) m = (m, some (wrapped "Unable to serialize value" e))
  store_json db hashed_key value (ok value_json) m =
      exec "Error while storing data" (sql.replace_row db hashed_key value_json (value_type value))
        m

  abbrev pub store : D → Result ℤ → Any → LiteMemory W D → LiteMemory W D × Option Error
  store db (err e) value m = (m, some (wrapped "Unable to hash key" e))
  store db (ok hashed_key) value m = store_json db hashed_key value (enc.marshal value) m

  -- `Set`, on the handle of the memory.
  unfoldable pub memory_set : D → Any → Any → LiteMemory W D → LiteMemory W D × Option Error
  unfolding hash_key value_type
  memory_set db key value m = store db (hash_key key) value m

  abbrev pub fetch : D → Any → Result ℤ → W → Result Any
  fetch db key (err e) w = err (wrapped "Unable to hash key" e)
  fetch db key (ok hashed_key) w = read key (sql.select_row db hashed_key w)

  -- `Get`, on the handle of the memory.
  unfoldable pub memory_get : D → Any → W → Result Any
  unfolding hash_key decode
  memory_get db key w = fetch db key (hash_key key) w

  abbrev pub remove : D → Result ℤ → LiteMemory W D → LiteMemory W D × Option Error
  remove db (err e) m = (m, some (wrapped "Unable to hash key" e))
  remove db (ok hashed_key) m =
      exec "An error occurred while deleting data" (sql.delete_row db hashed_key) m

  -- `Del` and `Clear`, on the handle of the memory.
  unfoldable pub memory_del : D → Any → LiteMemory W D → LiteMemory W D × Option Error
  unfolding hash_key
  memory_del db key m = remove db (hash_key key) m

  unfoldable pub memory_clear : D → LiteMemory W D → LiteMemory W D × Option Error
  memory_clear db m = exec "An error occurred while clearing data" (sql.delete_rows db) m

  abbrev pub close_at : W × Option Error → LiteMemory W D → LiteMemory W D × Option Error
  close_at (w, some e) m = (record m { world = w }, some e)
  close_at (w, none) m =
      let m' = record m { db = none; world = w } in
      if m.keep_memory
      then (m', none)
      else exec "Error while deleting database file" (sql.remove_file m.datasource_name) m'

  -- `Close`, on the handle of the memory.
  unfoldable pub memory_close : D → LiteMemory W D → LiteMemory W D × Option Error
  memory_close db m = close_at (sql.close_db db m.world) m

  abbrev pub unless_failed :
      LiteMemory W D × Option Error
      → (LiteMemory W D → LiteMemory W D × Option Error)
      → LiteMemory W D × Option Error
  unless_failed (m, some e) next = (m, some (wrapped "set memory failed" e))
  unless_failed (m, none) next = next m

  -- The loop of `SetMemory` over the pairs, which ends at the first failure.
  unfoldable pub lite_set_pairs : D → List Any → LiteMemory W D → LiteMemory W D × Option Error
  unfolding memory_set
  lite_set_pairs db (k ∷ v ∷ rest) m =
      unless_failed (memory_set db k v m) (λ m'. lite_set_pairs db rest m')
  lite_set_pairs db _ m = (m, none)

  abbrev pub lite_set_ready :
      List Any → LiteMemory W D × Option Error → Step (LiteMemory W D) (Option Error)
  lite_set_ready keys_and_values (m, some e) = returned (some e) m
  lite_set_ready keys_and_values (m, none) = elim m.db [
    | none ↦ panicked m
    | some db ↦ let (m', failure) = lite_set_pairs db keys_and_values m in returned failure m'
  ]

  unfoldable pub lite_set_memory : List Any → Go (LiteMemory W D) (Option Error)
  unfolding lite_ensure_memory_init lite_set_pairs
  lite_set_memory keys_and_values m =
      if nat_eq (length keys_and_values % 2) 0
      then lite_set_ready keys_and_values (lite_ensure_memory_init m)
      else returned (some unpaired_memory) m

  unfoldable pub lite_get_memory : LiteMemory W D → Any → Any
  unfolding memory_get
  lite_get_memory m key = elim m.db [
    | none ↦ nil_value
    | some db ↦ or_nil (memory_get db key m.world)
  ]

  unfoldable pub lite_exist_memory : LiteMemory W D → Any → Bool
  unfolding memory_get
  lite_exist_memory m key = elim m.db [ none ↦ false | some db ↦ is_ok (memory_get db key m.world) ]

  unfoldable pub lite_delete_memory : Any → LiteMemory W D → LiteMemory W D
  unfolding memory_del
  lite_delete_memory key m = elim m.db [ none ↦ m | some db ↦ (memory_del db key m).0 ]

  unfoldable pub lite_clear_memory : LiteMemory W D → LiteMemory W D
  unfolding memory_clear
  lite_clear_memory m = elim m.db [ none ↦ m | some db ↦ (memory_clear db m).0 ]

  -- `Close` as `Shutdown` calls it: a nil handle panics, and an error is logged.
  unfoldable pub lite_close_memory : Go (LiteMemory W D) (Unit {0})
  unfolding memory_close
  lite_close_memory m = elim m.db [
    | none ↦ panicked m
    | some db ↦ returned tt (memory_close db m).0
  ]

  instance unfoldable pub lite_memory : Memory (LiteMemory W D)
  unfolding lite_ensure_memory_init lite_set_memory lite_get_memory lite_exist_memory
      lite_delete_memory lite_clear_memory lite_close_memory
  lite_memory = record {
    ensure_init = lite_ensure_memory_init;
    set_memory = lite_set_memory;
    get_memory = lite_get_memory;
    exist_memory = lite_exist_memory;
    delete_memory = lite_delete_memory;
    clear_memory = lite_clear_memory;
    close = lite_close_memory;
  }
