-- ===== src/Lite/Lawful.antt =====
-- brain_lite.go of brainlite: the memory of a lite brain keeps the promises of a memory.
use rmodel.Brain.Remember.{IsMemory}
use rmodel.Brain.Step.{Step, returned}
use rmodel.Core.{Any}
use rmodel.Errors.{Error, Result, err, ok, unpaired_memory, wrapped}
use rmodel.Lite.{Encoding, LiteMemory, Sqlite}
use rmodel.Lite.Key.{hash_key}
use rmodel.Lite.Memory.{
  init_table, lite_ensure_memory_init, lite_memory, lite_set_memory, lite_set_pairs, lite_set_ready,
  memory_init, memory_set, store, store_json, unless_failed,
}
use rmodel.Shared.{
  Bool-cases, List, Option, String, [], ap, inl, inr, is_some, length, nat_eq, none, option_map,
  refl, some, true, ℤ, ◌%◌, ◌∙◌, ◌∷◌, ◌≡◌,
}

module _ {W D : Type 0} ⦃enc : Encoding⦄ ⦃sql : Sqlite W D⦄ where
  -- A memory with a handle is initialised.
  kept_db : (m : LiteMemory W D) → is_some m.db ≡ true → lite_ensure_memory_init m ≡ (m, none)
  unfolding lite_ensure_memory_init
  kept_db m e = simp (lite_ensure_memory_init, e) refl

  abbrev Ready : Step (LiteMemory W D) (Option Error) → Type 0
  Ready x =
      (failure : Option Error) × (m' : LiteMemory W D) × (x ≡ returned failure m')
      × (failure ≡ none → lite_ensure_memory_init m' ≡ (m', none))

  -- No pair of `SetMemory` changes the handle.
  set_db : (db : D) (k v : Any) (m : LiteMemory W D) → (memory_set db k v m).0.db ≡ m.db
  unfolding memory_set
  set_db db k v m = by_hash (hash_key k)
    where
      by_json : (h : ℤ) (r : Result String) → (store_json db h v r m).0.db ≡ m.db
      by_json h (err e) = refl
      by_json h (ok j) = refl

      by_hash : (r : Result ℤ) → (store db r v m).0.db ≡ m.db
      by_hash (err e) = refl
      by_hash (ok h) = by_json h (enc.marshal v)

  unless_failed_db :
      (p : LiteMemory W D × Option Error) (next : LiteMemory W D → LiteMemory W D × Option Error)
      → ((m : LiteMemory W D) → (next m).0.db ≡ m.db)
      → (unless_failed p next).0.db ≡ p.0.db
  unless_failed_db (m, none) next h = h m
  unless_failed_db (m, some e) next h = refl

  set_pairs_db :
      (db : D) (kvs : List Any) (m : LiteMemory W D) → (lite_set_pairs db kvs m).0.db ≡ m.db
  unfolding lite_set_pairs
  set_pairs_db db [] m = refl
  set_pairs_db db (k ∷ []) m = refl
  set_pairs_db db (k ∷ v ∷ rest) m =
      unless_failed_db (memory_set db k v m) (λ m'. lite_set_pairs db rest m')
        (λ m'. set_pairs_db db rest m')
      ∙ set_db db k v m

  handle-Ready :
      (kvs : List Any) (m : LiteMemory W D) (db : D)
      → m.db ≡ some db
      → Ready (lite_set_ready kvs (m, none))
  handle-Ready kvs m db e = rw (e) (
    (lite_set_pairs db kvs m).1,
    (lite_set_pairs db kvs m).0,
    refl,
    λ x. kept_db _ (ap is_some (set_pairs_db db kvs m ∙ e)),
  )

  init_table-Ready :
      (kvs : List Any) (p : W × Result D) (m : LiteMemory W D)
      → Ready (lite_set_ready kvs (init_table p m))
  init_table-Ready kvs (w, err e) m =
      (some (wrapped "init memory failed" e), record m { world = w }, refl, λ x. cc x)
  init_table-Ready kvs (w, ok db) m = by_table (sql.create_table db w)
    where
      by_table :
          (p : W × Option Error)
          → Ready (
              lite_set_ready kvs (
                record m { db = some db; world = p.0 },
                option_map (wrapped "init memory table failed") p.1,
              ))
      by_table (w', none) = handle-Ready kvs (record m { db = some db; world = w' }) db refl
      by_table (w', some e) = (
        some (wrapped "init memory table failed" e),
        record m { db = some db; world = w' },
        refl,
        λ x. cc x,
      )

  db-Ready :
      (kvs : List Any) (m : LiteMemory W D) (o : Option D)
      → m.db ≡ o
      → is_some o ≡ true
      → Ready (lite_set_ready kvs (m, none))
  db-Ready kvs m none e h = cc h
  db-Ready kvs m (some db) e h = handle-Ready kvs m db e

  lite_set_ready-Ready :
      (kvs : List Any) (m : LiteMemory W D) → Ready (lite_set_ready kvs (lite_ensure_memory_init m))
  unfolding lite_ensure_memory_init memory_init
  lite_set_ready-Ready kvs m = elim (Bool-cases (is_some m.db)) [
    | inr e ↦ rw (e) (init_table-Ready kvs (sql.open_db m.datasource_name m.world) m)
    | inl e ↦ rw (e) (db-Ready kvs m m.db refl e)
  ]

  pub lite_memory-IsMemory : IsMemory (lite_memory {W = W} {D = D})
  unfolding lite_memory lite_set_memory
  lite_memory-IsMemory = record {
    set_returns = λ kvs m. elim (Bool-cases (nat_eq (length kvs % 2) 0)) [
      | inl e ↦ rw (e) (lite_set_ready-Ready kvs m)
      | inr e ↦ rw (e) (some unpaired_memory, m, refl, λ x. cc x)
    ];
  }
