-- ===== src/Lite/Whole.antt =====
-- memory.go and brain_lite.go of brainlite: the memory of a lite brain as a map.
use rmodel.Core.{Any, nil_value}
use rmodel.Errors.{Result, err, ok}
use rmodel.Lite.{Encoding, LiteMemory, SelectedRow, Sqlite, no_rows, query_failed, row_found}
use rmodel.Lite.Codec.{decode}
use rmodel.Lite.Key.{hash_key}
use rmodel.Lite.Memory.{fetch, is_ok, lite_exist_memory, lite_get_memory, memory_get, or_nil, read}
use rmodel.Lite.Refine.{Agrees, Contents, at_hash, contents, to_option, value_at}
use rmodel.Shared.{Bool, Option, if◌then◌else◌, is_some, none, refl, some, true, ℤ, ◌≡◌}

abbrev pub value_or_nil : Option Any → Any
value_or_nil none = nil_value
value_or_nil (some v) = v

module _ ⦃enc : Encoding⦄ where
  read-value_at :
      (k : Any) (row : SelectedRow)
      → (or_nil (read k row) ≡ value_or_nil (value_at row))
        × (is_ok (read k row) ≡ is_some (value_at row))
  read-value_at k (row_found j type) = of_result (decode j type)
    where
      of_result :
          (r : Result Any)
          → (or_nil r ≡ value_or_nil (to_option r)) × (is_ok r ≡ is_some (to_option r))
      of_result (err e) = (refl, refl)
      of_result (ok v) = (refl, refl)
  read-value_at k no_rows = (refl, refl)
  read-value_at k (query_failed e) = (refl, refl)

module _ {W D : Type 0} ⦃enc : Encoding⦄ ⦃sql : Sqlite W D⦄ where
  fetch-at_hash :
      (db : D) (k : Any) (r : Result ℤ) (w : W)
      → (or_nil (fetch db k r w) ≡ value_or_nil (at_hash r (contents db w)))
        × (is_ok (fetch db k r w) ≡ is_some (at_hash r (contents db w)))
  fetch-at_hash db k (err e) w = (refl, refl)
  fetch-at_hash db k (ok h) w = read-value_at k (sql.select_row db h w)

  pub found-at_hash :
      (db : D) (m : LiteMemory W D) (k : Any)
      → m.db ≡ some db
      → (lite_get_memory m k ≡ value_or_nil (at_hash (hash_key k) (contents db m.world)))
        × (lite_exist_memory m k ≡ is_some (at_hash (hash_key k) (contents db m.world)))
  unfolding lite_get_memory lite_exist_memory memory_get
  found-at_hash db m k e =
      simp (lite_get_memory, lite_exist_memory, memory_get, e)
        (fetch-at_hash db k (hash_key k) m.world)

  -- A call that logs its error has done what `f` does to the contents, or, exactly where it failed,
  -- nothing.
  abbrev pub DoesUnless :
      Bool → D → (Contents → Contents) → LiteMemory W D → LiteMemory W D → Type 0
  DoesUnless fails db f m m' =
      (m'.db ≡ some db)
      × Agrees (contents db m'.world)
          (if fails then contents db m.world else f (contents db m.world))

  -- A deletion fails at a key that is not hashed, and where the statement fails.
  abbrev pub delete_fails : D → Result ℤ → W → Bool
  delete_fails db (err e) w = true
  delete_fails db (ok h) w = is_some (sql.delete_row db h w).1

  abbrev pub clear_fails : D → W → Bool
  clear_fails db w = is_some (sql.delete_rows db w).1
