-- ===== src/Lite/Refine.antt =====
-- memory.go of brainlite: the memory as a map from the hashes of the keys to values.
use rmodel.Core.{Any}
use rmodel.Errors.{Error, Result, err, ok}
use rmodel.Lite.{Encoding, LiteMemory, SelectedRow, Sqlite, no_rows, query_failed, row_found}
use rmodel.Lite.Codec.{decode, stored, value_type}
use rmodel.Lite.Key.{hash_key}
use rmodel.Lite.Laws.{IsSqlite}
use rmodel.Lite.Memory.{exec, memory_clear, memory_del, memory_set, remove, store, store_json}
use rmodel.Shared.{
  Bool, List, Option, String, ap, false, if◌then◌else◌, int_eq, is_some, none, refl, some, true, ℤ,
  ◌∙◌, ◌∷◌, ◌≡◌,
}

abbrev pub Contents : Type 0
Contents = ℤ → Option Any

abbrev pub Agrees : Contents → Contents → Type 0
Agrees c c' = (h : ℤ) → c h ≡ c' h

-- A new value at one hash, or none.
abbrev pub put : ℤ → Option Any → Contents → Contents
put h v c h' = if int_eq h h' then v else c h'

abbrev pub to_option {ℓ} : {A : Type ℓ} → Result A → Option A
to_option (err e) = none
to_option (ok a) = some a

abbrev pub value_at : ⦃enc : Encoding⦄ → SelectedRow → Option Any
value_at (row_found json type) = to_option (decode json type)
value_at no_rows = none
value_at (query_failed e) = none

-- The value of a key with the given hash, or none where the key has none.
abbrev pub at_hash : Result ℤ → Contents → Option Any
at_hash (err e) c = none
at_hash (ok h) c = c h

abbrev pub put_at : Result ℤ → Option Any → Contents → Contents
put_at (err e) v c = c
put_at (ok h) v c = put h v c

-- What `Set` and `Del` do to the contents, and what `SetMemory` does with its pairs.
abbrev pub put_value : ⦃enc : Encoding⦄ → Any → Any → Contents → Contents
put_value k v = put_at (hash_key k) (to_option (stored v))

abbrev pub drop_value : ⦃enc : Encoding⦄ → Any → Contents → Contents
drop_value k = put_at (hash_key k) none

abbrev pub put_pairs : ⦃enc : Encoding⦄ → List Any → Contents → Contents
put_pairs (k ∷ v ∷ rest) c = put_pairs rest (put_value k v c)
put_pairs _ c = c

ap_if {ℓ κ} :
    {A : Type ℓ} {B : Type κ} (f : A → B) (b : Bool) (x y : A)
    → f (if b then x else y) ≡ (if b then f x else f y)
ap_if f true x y = refl
ap_if f false x y = refl

pub stored_json :
    ⦃enc : Encoding⦄ (v : Any) (j : String)
    → enc.marshal v ≡ ok j
    → decode j (value_type v) ≡ stored v
unfolding stored
stored_json v j e = rw (e) refl

module _ {W D : Type 0} ⦃enc : Encoding⦄ ⦃sql : Sqlite W D⦄ where
  abbrev pub contents : D → W → Contents
  contents db w h = value_at (sql.select_row db h w)

  -- A call on the memory has done what `f` does to the contents, or has failed and changed nothing.
  abbrev pub Does :
      D → (Contents → Contents) → LiteMemory W D → LiteMemory W D × Option Error → Type 0
  Does db f m (m', failure) =
      (m'.db ≡ m.db)
      × Agrees (contents db m'.world)
          (if is_some failure then contents db m.world else f (contents db m.world))

  module _ (laws : IsSqlite sql) where
    exec-Does :
        (db : D) (f : Contents → Contents) (message : String) (statement : W → W × Option Error)
        (m : LiteMemory W D) (p : W × Option Error)
        → statement m.world ≡ p
        → ((w' : W) → p ≡ (w', none) → Agrees (contents db w') (f (contents db m.world)))
        → ((w' : W) (e : Error)
            → p ≡ (w', some e)
            → (h : ℤ) → sql.select_row db h w' ≡ sql.select_row db h m.world)
        → Does db f m (exec message statement m)
    exec-Does db f message statement m (w', none) q done failed = rw (q) (refl, done w' refl)
    exec-Does db f message statement m (w', some e) q done failed =
        rw (q) (refl, λ h. ap value_at (failed w' e refl h))

    store_json-Does :
        (db : D) (h : ℤ) (v : Any) (r : Result String) (m : LiteMemory W D)
        → enc.marshal v ≡ r
        → Does db (put h (to_option (stored v))) m (store_json db h v r m)
    store_json-Does db h v (err x) m e = (refl, λ h'. refl)
    store_json-Does db h v (ok j) m e =
        exec-Does db (put h (to_option (stored v))) "Error while storing data"
          (sql.replace_row db h j (value_type v)) m _ refl
          (λ w' q h'.
            ap value_at (laws.replace_done db h h' j (value_type v) m.world w' q)
            ∙ ap_if value_at (int_eq h h') (row_found j (value_type v))
                (sql.select_row db h' m.world)
            ∙ ap (λ r. if int_eq h h' then to_option r else contents db m.world h')
                (stored_json v j e))
          (λ w' x q h'. laws.replace_failed db h h' j (value_type v) m.world w' x q)

    store-Does :
        (db : D) (r : Result ℤ) (v : Any) (m : LiteMemory W D)
        → Does db (put_at r (to_option (stored v))) m (store db r v m)
    store-Does db (err x) v m = (refl, λ h'. refl)
    store-Does db (ok h) v m = store_json-Does db h v (enc.marshal v) m refl

    pub set-Does :
        (db : D) (k v : Any) (m : LiteMemory W D) → Does db (put_value k v) m (memory_set db k v m)
    unfolding memory_set
    set-Does db k v m = store-Does db (hash_key k) v m

    remove-Does :
        (db : D) (r : Result ℤ) (m : LiteMemory W D) → Does db (put_at r none) m (remove db r m)
    remove-Does db (err x) m = (refl, λ h'. refl)
    remove-Does db (ok h) m =
        exec-Does db (put h none) "An error occurred while deleting data" (sql.delete_row db h) m _
          refl
          (λ w' q h'.
            ap value_at (laws.delete_done db h h' m.world w' q)
            ∙ ap_if value_at (int_eq h h') no_rows (sql.select_row db h' m.world))
          (λ w' x q h'. laws.delete_failed db h h' m.world w' x q)

    pub del-Does :
        (db : D) (k : Any) (m : LiteMemory W D) → Does db (drop_value k) m (memory_del db k m)
    unfolding memory_del
    del-Does db k m = remove-Does db (hash_key k) m

    pub clear-Does : (db : D) (m : LiteMemory W D) → Does db (λ c h. none) m (memory_clear db m)
    unfolding memory_clear
    clear-Does db m =
        exec-Does db (λ c h. none) "An error occurred while clearing data" (sql.delete_rows db) m _
          refl (λ w' q h'. ap value_at (laws.clear_done db h' m.world w' q))
          (λ w' x q h'. laws.clear_failed db h' m.world w' x q)
