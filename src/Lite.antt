-- ===== src/Lite.antt =====
-- memory.go of brainlite: the state of its memory, and the packages that it is written over.
pub mod Key
pub mod Codec
pub mod Memory
pub mod Laws
pub mod Refine
pub mod Pairs
pub mod Trip
pub mod Whole
pub mod Digest
pub mod Return
pub mod Restart
pub mod Run
pub mod Cycle
pub mod Lawful
use rmodel.Core.{Any}
use rmodel.Errors.{Error, Result}
use rmodel.Shared.{Bool, List, Option, String, ℕ, ℤ}

-- `encoding/json`, `fmt` and `crypto/sha256` as the memory calls them. A JSON document and a
-- formatted value are texts, a digest is a list of bytes, and a float64 is its bit pattern.
pub record Encoding : Type 0 where
  pub marshal : Any → Result String
  pub to_any : String → Result Any
  pub to_int64 : String → Result ℤ
  pub to_float64 : String → Result ℕ
  pub to_bool : String → Result Bool
  -- `%v` and `%T`.
  pub value_text : Any → String
  pub type_text : Any → String
  pub sum256 : String → List ℕ

-- What a `SELECT` of one row gives.
pub data SelectedRow : Type 0 where
  row_found : String → String → SelectedRow
  no_rows : SelectedRow
  query_failed : Error → SelectedRow

-- `database/sql` with SQLite, and `os.Remove`: `W` is the file system and `D` a handle. Each
-- statement is that of the memory's source.
pub record Sqlite (W D : Type 0) : Type 0 where
  pub open_db : String → W → W × Result D
  pub create_table : D → W → W × Option Error
  pub replace_row : D → ℤ → String → String → W → W × Option Error
  pub select_row : D → ℤ → W → SelectedRow
  pub delete_row : D → ℤ → W → W × Option Error
  pub delete_rows : D → W → W × Option Error
  pub close_db : D → W → W × Option Error
  pub remove_file : String → W → W × Option Error

-- `BrainMemory`, with the world that its calls act on: a nil handle is `none`.
pub record LiteMemory (W D : Type 0) : Type 0 where
  pub db : Option D
  pub datasource_name : String
  pub keep_memory : Bool
  pub world : W
