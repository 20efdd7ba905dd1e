-- ===== src/Lite/Laws.antt =====
-- memory.go of brainlite: what it relies on in the packages that it calls.
use rmodel.Core.{NumberType, bool, float, number, text}
use rmodel.Errors.{Error, ok}
use rmodel.Lite.{Encoding, Sqlite, no_rows, row_found}
use rmodel.Shared.{
  All, Bool, String, if◌then◌else◌, int_eq, is_int64, length, none, some, true, ℕ, ℤ, ◌<◌, ◌≡◌, ◌≤◌,
}

-- JSON keeps a string, an int64, a float64 that it can write, and a Boolean, each where it is read
-- as its own type; a digest has at least eight bytes.
pub record IsEncoding (enc : Encoding) : Type 0 where
  pub text_json : (s j : String) → enc.marshal (text s) ≡ ok j → enc.to_any j ≡ ok (text s)
  pub int_json :
      (t : NumberType) (n : ℤ) (j : String)
      → is_int64 n ≡ true
      → enc.marshal (number t n) ≡ ok j
      → enc.to_int64 j ≡ ok n
  pub float_json :
      (bits : ℕ) (j : String) → enc.marshal (float bits) ≡ ok j → enc.to_float64 j ≡ ok bits
  pub bool_json : (b : Bool) (j : String) → enc.marshal (bool b) ≡ ok j → enc.to_bool j ≡ ok b
  pub digest_long : (s : String) → 8 ≤ length (enc.sum256 s)
  pub digest_bytes : (s : String) → All (λ byte. byte < 256) (enc.sum256 s)

-- A statement on a table that fails leaves every row as it was; a table that is made in a new file
-- has no rows.
pub record IsSqlite {W D : Type 0} (sql : Sqlite W D) : Type 0 where
  pub replace_done :
      (db : D) (h h' : ℤ) (json type : String) (w w' : W)
      → sql.replace_row db h json type w ≡ (w', none)
      → sql.select_row db h' w'
        ≡ (if int_eq h h' then row_found json type else sql.select_row db h' w)
  pub replace_failed :
      (db : D) (h h' : ℤ) (json type : String) (w w' : W) (e : Error)
      → sql.replace_row db h json type w ≡ (w', some e)
      → sql.select_row db h' w' ≡ sql.select_row db h' w
  pub delete_done :
      (db : D) (h h' : ℤ) (w w' : W)
      → sql.delete_row db h w ≡ (w', none)
      → sql.select_row db h' w' ≡ (if int_eq h h' then no_rows else sql.select_row db h' w)
  pub delete_failed :
      (db : D) (h h' : ℤ) (w w' : W) (e : Error)
      → sql.delete_row db h w ≡ (w', some e)
      → sql.select_row db h' w' ≡ sql.select_row db h' w
  pub clear_done :
      (db : D) (h : ℤ) (w w' : W)
      → sql.delete_rows db w ≡ (w', none)
      → sql.select_row db h w' ≡ no_rows
  pub clear_failed :
      (db : D) (h : ℤ) (w w' : W) (e : Error)
      → sql.delete_rows db w ≡ (w', some e)
      → sql.select_row db h w' ≡ sql.select_row db h w
  pub removed_fresh :
      (db : D) (h : ℤ) (name : String) (w w1 w2 w3 : W)
      → sql.remove_file name w ≡ (w1, none)
      → sql.open_db name w1 ≡ (w2, ok db)
      → sql.create_table db w2 ≡ (w3, none)
      → sql.select_row db h w3 ≡ no_rows
