-- ===== src/Examples/Caches.antt =====
-- A cache for the memory of a local brain, that never drops a write before it is closed.
use rmodel.Brain.Local.{IsCache, Ristretto}
use rmodel.Core.{Any, text}
use rmodel.Errors.{ok}
use rmodel.Shared.{
  Bool, Option, false, if◌then◌else◌, inl, inr, none, refl, some, some-injective, sym, true, ◌==◌,
  ◌≡◌, ◌⊎◌,
}

abbrev pub same_text : Any → Any → Bool
same_text (text s) (text t) = s == t
same_text _ _ = false

pub record MapCache : Type 0 where
  pub shut : Bool
  pub entry : Any → Option Any

abbrev pub found_in : MapCache → Any → Option Any
found_in c k = if c.shut then none else c.entry k

instance unfoldable pub map_cache : Ristretto MapCache
map_cache = record {
  new_cache = λ n m. ok (record { shut = false; entry = λ k. none });
  set = λ k v c. record c { entry = λ k'. if same_text k k' then some v else c.entry k' };
  wait_writes = λ c. c;
  get = found_in;
  del = λ k c. record c { entry = λ k'. if same_text k k' then none else c.entry k' };
  clear = λ c. record c { entry = λ k. none };
  close_cache = λ c. record c { shut = true };
}

set_found :
    (same shut : Bool) (v v' : Any) (o : Option Any)
    → (if shut then none else if same then some v else o) ≡ some v'
    → ((same ≡ true) × (v' ≡ v)) ⊎ ((if shut then none else o) ≡ some v')
set_found same true v v' o e = cc e
set_found true false v v' o e = inl (refl, sym (some-injective v v' e))
set_found false false v v' o e = inr e

del_found :
    (same shut : Bool) (v : Any) (o : Option Any)
    → (if shut then none else if same then none else o) ≡ some v
    → (same ≡ false) × ((if shut then none else o) ≡ some v)
del_found same true v o e = cc e
del_found true false v o e = cc e
del_found false false v o e = (refl, e)

nothing_found : (shut : Bool) (v : Any) → (if shut then none else none) ≡ some v → ⊥
nothing_found true v e = cc e
nothing_found false v e = cc e

pub map_cache-IsCache : IsCache map_cache
unfolding map_cache
map_cache-IsCache = record {
  Holds = λ c k v. found_in c k ≡ some v;
  same_key = same_text;
  is_closed = λ c. c.shut;
  get_found = λ c k v e. e;
  new_empty = λ n m c k v e h. cc (e, h);
  set_held = λ c k v k' v' h. set_found (same_text k k') c.shut v v' (c.entry k') h;
  wait_held = λ c k v h. h;
  del_held = λ c k k' v h. del_found (same_text k k') c.shut v (c.entry k') h;
  clear_held = λ c k v h. nothing_found c.shut v h;
  close_held = λ c k v h. cc h;
  close_closed = λ c. refl;
  set_closed = λ c k v h. h;
  wait_closed = λ c h. h;
  get_closed = λ c k h. rw (h) refl;
}
