-- ===== src/Lite/Pairs.antt =====
-- brain_lite.go of brainlite: `SetMemory`, a pair at a time.
use rmodel.Core.{Any}
use rmodel.Errors.{Error, Result, err, ok}
use rmodel.Lite.{Encoding, LiteMemory, Sqlite}
use rmodel.Lite.Codec.{stored}
use rmodel.Lite.Key.{hash_key}
use rmodel.Lite.Laws.{IsSqlite}
use rmodel.Lite.Memory.{lite_set_pairs, memory_set, unless_failed}
use rmodel.Lite.Refine.{
  Agrees, Contents, Does, contents, put_at, put_pairs, put_value, set-Does, to_option,
}
use rmodel.Shared.{
  List, Option, [], ap, arith, if◌then◌else◌, int_eq, is_some, none, refl, some, suc, ℕ, ℤ, ◌<◌,
  ◌∙◌, ◌∷◌, ◌≡◌,
}

abbrev pub take_pairs : ℕ → List Any → List Any
take_pairs (suc n) (k ∷ v ∷ rest) = k ∷ v ∷ take_pairs n rest
take_pairs _ _ = []

abbrev pub count_pairs : List Any → ℕ
count_pairs (k ∷ v ∷ rest) = suc (count_pairs rest)
count_pairs _ = 0

module _ ⦃enc : Encoding⦄ where
  put_at-Agrees :
      (r : Result ℤ) (v : Option Any) (c c' : Contents)
      → Agrees c c'
      → Agrees (put_at r v c) (put_at r v c')
  put_at-Agrees (err x) v c c' a = a
  put_at-Agrees (ok h) v c c' a = λ h'. ap (λ o. if int_eq h h' then v else o) (a h')

  put_pairs-Agrees :
      (kvs : List Any) (c c' : Contents) → Agrees c c' → Agrees (put_pairs kvs c) (put_pairs kvs c')
  put_pairs-Agrees (k ∷ v ∷ rest) c c' a =
      put_pairs-Agrees rest _ _ (put_at-Agrees (hash_key k) (to_option (stored v)) c c' a)
  put_pairs-Agrees (k ∷ []) c c' a = a
  put_pairs-Agrees [] c c' a = a

one_more :
    (failure : Option Error) (n c : ℕ)
    → (if is_some failure then n < c else n ≡ c)
    → (if is_some failure then suc n < suc c else suc n ≡ suc c)
one_more none n c h = ap suc h
one_more (some e) n c h = omega (arith, h)

module _ {W D : Type 0} ⦃enc : Encoding⦄ ⦃sql : Sqlite W D⦄ where
  -- The pairs in front of the first that fails are stored, and no more.
  abbrev pub Stores : D → List Any → LiteMemory W D → LiteMemory W D × Option Error → Type 0
  Stores db kvs m (m', failure) =
      (m'.db ≡ m.db)
      × (n : ℕ) × Agrees (contents db m'.world) (put_pairs (take_pairs n kvs) (contents db m.world))
      × (if is_some failure then n < count_pairs kvs else n ≡ count_pairs kvs)

  then_rest :
      (db : D) (k v : Any) (rest : List Any) (m : LiteMemory W D)
      (p : LiteMemory W D × Option Error)
      → Does db (put_value k v) m p
      → ((m' : LiteMemory W D) → Stores db rest m' (lite_set_pairs db rest m'))
      → Stores db (k ∷ v ∷ rest) m (unless_failed p (λ m'. lite_set_pairs db rest m'))
  then_rest db k v rest m (m', some e) (same, agrees) go = (same, 0, agrees, omega arith)
  then_rest db k v rest m (m', none) (same, agrees) go =
      let (same', n, agrees', all) = go m' in
      (
        same' ∙ same,
        suc n,
        λ h. agrees' h ∙ put_pairs-Agrees (take_pairs n rest) _ _ agrees h,
        one_more (lite_set_pairs db rest m').1 n (count_pairs rest) all,
      )

  module _ (laws : IsSqlite sql) where
    pub set_pairs-Stores :
        (db : D) (kvs : List Any) (m : LiteMemory W D) → Stores db kvs m (lite_set_pairs db kvs m)
    unfolding lite_set_pairs
    set_pairs-Stores db [] m = (refl, 0, λ h. refl, refl)
    set_pairs-Stores db (k ∷ []) m = (refl, 0, λ h. refl, refl)
    set_pairs-Stores db (k ∷ v ∷ rest) m =
        then_rest db k v rest m (memory_set db k v m) (set-Does laws db k v m)
          (λ m'. set_pairs-Stores db rest m')
