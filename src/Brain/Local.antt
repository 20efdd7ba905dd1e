-- ===== src/Brain/Local.antt =====
-- brain_local.go and options.go of brainlocal: the memory of a local brain, over the cache of the
-- package ristretto.
pub mod Kept
pub mod Closed
pub mod Lawful
use rmodel.Brain.{Brain, Memory}
use rmodel.Brain.Step.{Go, Step, panicked, returned}
use rmodel.Core.{Any, nil_value}
use rmodel.Errors.{Error, Result, err, ok, unpaired_memory}
use rmodel.Shared.{
  Bool, List, Option, false, if◌then◌else◌, is_some, length, nat_eq, none, option_map, pos, some,
  true, ℤ, ◌%◌, ◌^◌, ◌∷◌, ◌≡◌, ◌⊎◌,
}

-- `ristretto.Cache`, on the keys that it can hash: `new_cache` takes NumCounters and MaxCost, and
-- each write has the cost 1.
pub record Ristretto (C : Type 0) : Type 0 where
  pub new_cache : ℤ → ℤ → Result C
  pub set : Any → Any → C → C
  pub wait_writes : C → C
  pub get : C → Any → Option Any
  pub del : Any → C → C
  pub clear : C → C
  pub close_cache : C → C

-- `BrainMemory`: a nil cache is `none`.
pub record LocalMemory (C : Type 0) : Type 0 where
  pub cache : Option C
  pub num_counters : ℤ
  pub max_cost : ℤ

-- The setting of `BuildBrain`.
unfoldable pub default_memory : {C : Type 0} → LocalMemory C
default_memory = record { cache = none; num_counters = pos (10 ^ 7); max_cost = pos (2 ^ 30) }

unfoldable pub with_memory_setting :
    {C : Type 0} → ℤ → ℤ → Brain (LocalMemory C) → Brain (LocalMemory C)
with_memory_setting memory_num_counters memory_max_cost brain = record brain {
  memory = record brain.memory { num_counters = memory_num_counters; max_cost = memory_max_cost };
}

module _ {C : Type 0} ⦃lib : Ristretto C⦄ where
  abbrev pub keep_cache : Result C → LocalMemory C → LocalMemory C × Option Error
  keep_cache (err e) m = (m, some e)
  keep_cache (ok c) m = (record m { cache = some c }, none)

  unfoldable pub local_init_memory : LocalMemory C → LocalMemory C × Option Error
  local_init_memory m = keep_cache (lib.new_cache m.num_counters m.max_cost) m

  unfoldable pub local_ensure_memory_init : LocalMemory C → LocalMemory C × Option Error
  unfolding local_init_memory
  local_ensure_memory_init m = if is_some m.cache then (m, none) else local_init_memory m

  -- The loop over the pairs of keys and values, of which there is an even number.
  unfoldable pub set_pairs : List Any → C → C
  set_pairs (k ∷ v ∷ rest) c = set_pairs rest (lib.set k v c)
  set_pairs _ c = c

  -- The part of `SetMemory` behind the initialisation; a nil cache would make it panic.
  abbrev pub set_ready :
      List Any → LocalMemory C × Option Error → Step (LocalMemory C) (Option Error)
  set_ready keys_and_values (m, some e) = returned (some e) m
  set_ready keys_and_values (m, none) = elim m.cache [
    | none ↦ panicked m
    | some c ↦
        returned none (record m { cache = some (lib.wait_writes (set_pairs keys_and_values c)) })
  ]

  unfoldable pub local_set_memory : List Any → Go (LocalMemory C) (Option Error)
  unfolding local_ensure_memory_init set_pairs
  local_set_memory keys_and_values m =
      if nat_eq (length keys_and_values % 2) 0
      then set_ready keys_and_values (local_ensure_memory_init m)
      else returned (some unpaired_memory) m

  unfoldable pub local_get_memory : LocalMemory C → Any → Any
  local_get_memory m key = elim m.cache [
    | none ↦ nil_value
    | some c ↦ elim (lib.get c key) [ none ↦ nil_value | some v ↦ v ]
  ]

  unfoldable pub local_exist_memory : LocalMemory C → Any → Bool
  local_exist_memory m key = elim m.cache [ none ↦ false | some c ↦ is_some (lib.get c key) ]

  unfoldable pub local_delete_memory : Any → LocalMemory C → LocalMemory C
  local_delete_memory key m = record m { cache = option_map (lib.del key) m.cache }

  unfoldable pub local_clear_memory : LocalMemory C → LocalMemory C
  local_clear_memory m = record m { cache = option_map lib.clear m.cache }

  -- `cache.Close()`, which a nil cache takes for a call that does nothing.
  unfoldable pub local_close_memory : LocalMemory C → LocalMemory C
  local_close_memory m = record m { cache = option_map lib.close_cache m.cache }

  instance unfoldable pub local_memory : Memory (LocalMemory C)
  unfolding local_ensure_memory_init local_set_memory local_get_memory local_exist_memory
      local_delete_memory local_clear_memory local_close_memory
  local_memory = record {
    ensure_init = local_ensure_memory_init;
    set_memory = local_set_memory;
    get_memory = local_get_memory;
    exist_memory = local_exist_memory;
    delete_memory = local_delete_memory;
    clear_memory = local_clear_memory;
    close = λ m. returned tt (local_close_memory m);
  }

-- What the documentation of ristretto tells of a cache: `Holds c k v` where the cache, with the
-- writes that it buffers, may give `v` for `k`. A cache may drop any write, and it takes keys of the
-- same two hashes for the same key. Once closed, it does nothing and finds nothing.
pub record IsCache {C : Type 0} (lib : Ristretto C) : Type 1 where
  pub Holds : C → Any → Any → Type 0
  pub same_key : Any → Any → Bool
  pub is_closed : C → Bool
  pub get_found : (c : C) (k v : Any) → lib.get c k ≡ some v → Holds c k v
  pub new_empty : (n m : ℤ) (c : C) (k v : Any) → lib.new_cache n m ≡ ok c → Holds c k v → ⊥
  pub set_held :
      (c : C) (k v k' v' : Any)
      → Holds (lib.set k v c) k' v'
      → ((same_key k k' ≡ true) × (v' ≡ v)) ⊎ Holds c k' v'
  pub wait_held : (c : C) (k v : Any) → Holds (lib.wait_writes c) k v → Holds c k v
  pub del_held :
      (c : C) (k k' v : Any) → Holds (lib.del k c) k' v → (same_key k k' ≡ false) × Holds c k' v
  pub clear_held : (c : C) (k v : Any) → Holds (lib.clear c) k v → ⊥
  pub close_held : (c : C) (k v : Any) → Holds (lib.close_cache c) k v → ⊥
  pub close_closed : (c : C) → is_closed (lib.close_cache c) ≡ true
  pub set_closed : (c : C) (k v : Any) → is_closed c ≡ true → is_closed (lib.set k v c) ≡ true
  pub wait_closed : (c : C) → is_closed c ≡ true → is_closed (lib.wait_writes c) ≡ true
  pub get_closed : (c : C) (k : Any) → is_closed c ≡ true → lib.get c k ≡ none
