-- ===== src/Brain/Local/Lawful.antt =====
-- brain_local.go of brainlocal: the memory of a local brain keeps the promises of a memory.
use rmodel.Brain.Local.{
  LocalMemory, Ristretto, keep_cache, local_ensure_memory_init, local_init_memory, local_memory,
  local_set_memory, set_pairs, set_ready,
}
use rmodel.Brain.Remember.{IsMemory}
use rmodel.Brain.Step.{Step, returned}
use rmodel.Core.{Any}
use rmodel.Errors.{Error, Result, err, ok, unpaired_memory}
use rmodel.Shared.{
  Bool-cases, List, Option, inl, inr, is_some, length, nat_eq, none, refl, some, true, ◌%◌, ◌≡◌,
}

module _ {C : Type 0} ⦃lib : Ristretto C⦄ where
  -- A memory with a cache is initialised.
  kept_cache : (m : LocalMemory C) → is_some m.cache ≡ true → local_ensure_memory_init m ≡ (m, none)
  unfolding local_ensure_memory_init
  kept_cache m e = simp (local_ensure_memory_init, e) refl

  abbrev Ready : Step (LocalMemory C) (Option Error) → Type 0
  Ready x =
      (failure : Option Error) × (m' : LocalMemory C) × (x ≡ returned failure m')
      × (failure ≡ none → local_ensure_memory_init m' ≡ (m', none))

  keep_cache-Ready :
      (kvs : List Any) (r : Result C) (m : LocalMemory C) → Ready (set_ready kvs (keep_cache r m))
  keep_cache-Ready kvs (err e) m = (some e, m, refl, λ x. cc x)
  keep_cache-Ready kvs (ok c) m = (
    none,
    record m { cache = some (lib.wait_writes (set_pairs kvs c)) },
    refl,
    λ x. kept_cache _ refl,
  )

  cache-Ready :
      (kvs : List Any) (m : LocalMemory C) (o : Option C)
      → m.cache ≡ o
      → is_some o ≡ true
      → Ready (set_ready kvs (m, none))
  cache-Ready kvs m none e h = cc h
  cache-Ready kvs m (some c) e h = rw (e) (
    none,
    record m { cache = some (lib.wait_writes (set_pairs kvs c)) },
    refl,
    λ x. kept_cache _ refl,
  )

  set_ready-Ready :
      (kvs : List Any) (m : LocalMemory C) → Ready (set_ready kvs (local_ensure_memory_init m))
  unfolding local_ensure_memory_init local_init_memory
  set_ready-Ready kvs m = elim (Bool-cases (is_some m.cache)) [
    | inr e ↦ rw (e) (keep_cache-Ready kvs (lib.new_cache m.num_counters m.max_cost) m)
    | inl e ↦ rw (e) (cache-Ready kvs m m.cache refl e)
  ]

  pub local_memory-IsMemory : IsMemory (local_memory {C = C})
  unfolding local_memory local_set_memory
  local_memory-IsMemory = record {
    set_returns = λ kvs m. elim (Bool-cases (nat_eq (length kvs % 2) 0)) [
      | inl e ↦ rw (e) (set_ready-Ready kvs m)
      | inr e ↦ rw (e) (some unpaired_memory, m, refl, λ x. cc x)
    ];
  }
