-- ===== src/Examples/Tables.antt =====
-- A file system with SQLite tables, for the memory of a lite brain: a handle is the name of its file.
use rmodel.Errors.{Error, memory_failed, ok, ok-injective}
use rmodel.Lite.{SelectedRow, Sqlite, no_rows, query_failed, row_found}
use rmodel.Lite.Laws.{IsSqlite}
use rmodel.Shared.{
  Bool, Option, String, ap, eq_refl, false, if◌then◌else◌, int_eq, none, refl, some, sym, true, ℤ,
  ◌==◌, ◌∙◌, ◌≡◌,
}

abbrev pub Table : Type 0
Table = ℤ → Option (String × String)

abbrev pub Files : Type 0
Files = String → Option Table

abbrev pub store_table : String → Option Table → Files → Files
store_table name t w path = if name == path then t else w path

abbrev no_table : Error
no_table = memory_failed "no such table: memory"

-- A statement on a table that is there.
abbrev on_table : String → (Table → Table) → Files → Option Table → Files × Option Error
on_table name f w none = (w, some no_table)
on_table name f w (some t) = (store_table name (some (f t)) w, none)

abbrev row_of : Option (String × String) → SelectedRow
row_of none = no_rows
row_of (some (json, type)) = row_found json type

abbrev select_from : Option Table → ℤ → SelectedRow
select_from none h = query_failed no_table
select_from (some t) h = row_of (t h)

abbrev made : Option Table → Option Table
made none = some (λ h. none)
made (some t) = some t

instance unfoldable pub file_tables : Sqlite Files String
file_tables = record {
  open_db = λ name w. (w, ok name);
  create_table = λ db w. (store_table db (made (w db)) w, none);
  replace_row = λ db h json type w.
      on_table db (λ t h'. if int_eq h h' then some (json, type) else t h') w (w db);
  select_row = λ db h w. select_from (w db) h;
  delete_row = λ db h w. on_table db (λ t h'. if int_eq h h' then none else t h') w (w db);
  delete_rows = λ db w. on_table db (λ t h. none) w (w db);
  close_db = λ db w. (w, none);
  remove_file = λ name w. (store_table name none w, none);
}

store_same : (name : String) (t : Option Table) (w : Files) → store_table name t w name ≡ t
store_same name t w = simp (eq_refl name) refl

-- What a statement that is done has written, row by row.
table_done :
    (name : String) (f : Table → Table) (w w' : Files) (o : Option Table) (h : ℤ)
    → w name ≡ o
    → on_table name f w o ≡ (w', none)
    → (t : Table) × (w name ≡ some t) × (select_from (w' name) h ≡ row_of (f t h))
table_done name f w w' none h q e = cc (ap (λ p. p.1) e)
table_done name f w w' (some t) h q e = (
  t,
  q,
  ap (λ p. select_from (p.0 name) h) (sym e)
      ∙ ap (λ o. select_from o h) (store_same name (some (f t)) w),
)

table_failed :
    (name : String) (f : Table → Table) (w w' : Files) (o : Option Table) (h : ℤ) (x : Error)
    → on_table name f w o ≡ (w', some x)
    → select_from (w' name) h ≡ select_from (w name) h
table_failed name f w w' none h x e = ap (λ p. select_from (p.0 name) h) (sym e)
table_failed name f w w' (some t) h x e = cc (ap (λ p. p.1) e)

gone : (name db : String) (w : Files) → name ≡ db → store_table name none w db ≡ none
gone name db w e = ap (λ n. store_table name none w n) (sym e) ∙ store_same name none w

row_of-if :
    (b : Bool) (p q : Option (String × String))
    → row_of (if b then p else q) ≡ (if b then row_of p else row_of q)
row_of-if true p q = refl
row_of-if false p q = refl

pub file_tables-IsSqlite : IsSqlite file_tables
unfolding file_tables
file_tables-IsSqlite = record {
  replace_done = λ db h h' json type w w' e.
      let (t, there, r) =
        table_done db (λ t h2. if int_eq h h2 then some (json, type) else t h2) w w' (w db) h' refl
          e in
      r
      ∙ row_of-if (int_eq h h') (some (json, type)) (t h')
      ∙ ap (λ o. if int_eq h h' then row_found json type else select_from o h') (sym there);
  replace_failed = λ db h h' json type w w' x e.
      table_failed db (λ t h2. if int_eq h h2 then some (json, type) else t h2) w w' (w db) h' x e;
  delete_done = λ db h h' w w' e.
      let (t, there, r) =
        table_done db (λ t h2. if int_eq h h2 then none else t h2) w w' (w db) h' refl e in
      r
      ∙ row_of-if (int_eq h h') none (t h')
      ∙ ap (λ o. if int_eq h h' then no_rows else select_from o h') (sym there);
  delete_failed = λ db h h' w w' x e.
      table_failed db (λ t h2. if int_eq h h2 then none else t h2) w w' (w db) h' x e;
  clear_done =
      λ db h w w' e. let (t, there, r) = table_done db (λ t h2. none) w w' (w db) h refl e in r;
  clear_failed = λ db h w w' x e. table_failed db (λ t h2. none) w w' (w db) h x e;
  removed_fresh = λ db h name w w1 w2 w3 r o c.
      let empty : w2 db ≡ none =
        ap (λ p. p.0 db) (sym o)
        ∙ ap (λ p. p.0 db) (sym r)
        ∙ gone name db w (ok-injective (ap (λ p. p.1) o)) in
      ap (λ p. select_from (p.0 db) h) (sym c)
      ∙ ap (λ t. select_from t h) (store_same db (made (w2 db)) w2)
      ∙ ap (λ t. select_from (made t) h) empty;
}
