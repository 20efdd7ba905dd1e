-- ===== src/Lite/Restart.antt =====
-- memory.go and brain_lite.go of brainlite: opening the memory, closing it, and opening it again.
use rmodel.Brain.Step.{gets}
use rmodel.Core.{Any, nil_value}
use rmodel.Errors.{Error, Result, err, ok, wrapped}
use rmodel.Lite.{Encoding, LiteMemory, Sqlite, no_rows}
use rmodel.Lite.Key.{hash_key}
use rmodel.Lite.Laws.{IsSqlite}
use rmodel.Lite.Memory.{
  close_at, exec, init_table, lite_ensure_memory_init, lite_exist_memory, lite_get_memory,
  memory_close, memory_init,
}
use rmodel.Lite.Refine.{Contents, at_hash, contents, value_at}
use rmodel.Lite.Whole.{found-at_hash, value_or_nil}
use rmodel.Shared.{
  Option, String, ap, false, is_some, none, option_map, refl, some, sym, true, ℤ, ◌∙◌, ◌≡◌,
}

empty-at_hash : (r : Result ℤ) (c : Contents) → ((h : ℤ) → c h ≡ none) → at_hash r c ≡ none
empty-at_hash (err e) c h = refl
empty-at_hash (ok x) c h = h x

module _ {W D : Type 0} ⦃enc : Encoding⦄ ⦃sql : Sqlite W D⦄ where
  -- A failure to create the table leaves the handle in the memory.
  pub init_failed :
      (m : LiteMemory W D) (db : D) (w w' : W) (e : Error)
      → m.db ≡ none
      → sql.open_db m.datasource_name m.world ≡ (w, ok db)
      → sql.create_table db w ≡ (w', some e)
      → lite_ensure_memory_init m
        ≡ (record m { db = some db; world = w' }, some (wrapped "init memory table failed" e))
  unfolding lite_ensure_memory_init memory_init
  init_failed m db w w' e n o c = simp (lite_ensure_memory_init, memory_init, n, o, c) refl

  exec_done :
      (message : String) (statement : W → W × Option Error) (m m' : LiteMemory W D)
      → exec message statement m ≡ (m', none)
      → (w' : W) × (statement m.world ≡ (w', none)) × (m' ≡ record m { world = w' })
  exec_done message statement m m' r = by_outcome (statement m.world) refl r
    where
      by_outcome :
          (p : W × Option Error)
          → statement m.world ≡ p
          → Path
              (LiteMemory W D × Option Error)
              (record m { world = p.0 }, option_map (wrapped message) p.1)
              (m', none)
          → (w' : W) × (statement m.world ≡ (w', none)) × (m' ≡ record m { world = w' })
      by_outcome (w', some e) q r' = cc (ap (λ x. x.1) r')
      by_outcome (w', none) q r' = (w', q, sym (ap (λ x. x.0) r'))

  closed_at :
      (m m' : LiteMemory W D) (p : W × Option Error)
      → m.keep_memory ≡ false
      → close_at p m ≡ (m', none)
      → (w w' : W) × (sql.remove_file m.datasource_name w ≡ (w', none))
        × (m' ≡ record m { db = none; world = w' })
  closed_at m m' (w, some e) keep r = cc (ap (λ q. q.1) r)
  closed_at m m' (w, none) keep r =
      let m1 = record m { db = none; world = w } in
      let (w', q, e) =
        exec_done "Error while deleting database file" (sql.remove_file m.datasource_name) m1 m'
          (rw (keep) refl ∙ r) in
      (w, w', q, e)

  opened_table :
      (m m' : LiteMemory W D) (p : W × Result D)
      → sql.open_db m.datasource_name m.world ≡ p
      → init_table p m ≡ (m', none)
      → (db : D) × (w w' : W) × (p ≡ (w, ok db))
        × (sql.create_table db w ≡ (w', none))
        × (m' ≡ record m { db = some db; world = w' })
  opened_table m m' (w, err e) q r = cc (ap (λ q. q.1) r)
  opened_table m m' (w, ok db) q r =
      let m1 = record m { db = some db; world = w } in
      let (w', c, e) = exec_done "init memory table failed" (sql.create_table db) m1 m' r in
      (db, w, w', refl, c, e)

  empty_found :
      (db : D) (m : LiteMemory W D) (k : Any)
      → m.db ≡ some db
      → ((h : ℤ) → sql.select_row db h m.world ≡ no_rows)
      → (lite_get_memory m k ≡ nil_value) × (lite_exist_memory m k ≡ false)
  empty_found db m k e h =
      let (gets, exists) = found-at_hash db m k e in
      let none_there = empty-at_hash (hash_key k) (contents db m.world) (λ x. ap value_at (h x)) in
      (gets ∙ ap value_or_nil none_there, exists ∙ ap is_some none_there)

  -- A lite memory that is not to be kept, and that `Close` closes without an error, comes back empty:
  -- once it is initialised again, `GetMemory` finds nothing under any key.
  pub memory_close-empty :
      (laws : IsSqlite sql) (db : D) (k : Any) (m m1 m2 : LiteMemory W D)
      → m.keep_memory ≡ false
      → memory_close db m ≡ (m1, none)
      → lite_ensure_memory_init m1 ≡ (m2, none)
      → (m1.db ≡ none)
        × (is_some m2.db ≡ true)
        × (lite_get_memory m2 k ≡ nil_value)
        × (lite_exist_memory m2 k ≡ false)
  unfolding memory_close lite_ensure_memory_init memory_init
  memory_close-empty laws db k m m1 m2 keep c i =
      let (w, w1, rm, e1) = closed_at m m1 (sql.close_db db m.world) keep c in
      let closed : LiteMemory W D = record m { db = none; world = w1 } in
      let (db', w2, w3, o, t, e2) =
        opened_table closed m2 (sql.open_db m.datasource_name w1) refl
          (ap (λ x. lite_ensure_memory_init x) (sym e1) ∙ i) in
      let (gets, exists) = empty_found db' m2 k (ap (λ x. x.db) e2) (λ h.
        ap (λ x. sql.select_row db' h x.world) e2
        ∙ laws.removed_fresh db' h m.datasource_name w w1 w2 w3 rm o t) in
      (ap (λ x. x.db) e1, ap (λ x. is_some x.db) e2, gets, exists)
