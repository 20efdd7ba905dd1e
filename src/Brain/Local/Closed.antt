-- ===== src/Brain/Local/Closed.antt =====
-- brain_local.go of brainlocal: the memory of a local brain behind a shutdown.
use rmodel.Brain.{Brain}
use rmodel.Brain.Context.{context_exist_memory, context_get_memory, context_set_memory}
use rmodel.Brain.Invariant.{IsBrain}
use rmodel.Brain.Invariant.Start.{shutdown-IsStopped}
use rmodel.Brain.Local.{
  IsCache, LocalMemory, Ristretto, local_close_memory, local_ensure_memory_init, local_exist_memory,
  local_get_memory, local_memory, local_set_memory, set_pairs,
}
use rmodel.Brain.Power.{on_memory, shutdown}
use rmodel.Brain.Step.{returned}
use rmodel.Core.{Any, nil_value}
use rmodel.Shared.{
  Bool, List, String, [], ap, false, length, nat_eq, none, option_map, refl, some, true, ◌%◌, ◌∙◌,
  ◌∷◌, ◌≡◌,
}

module _ {C : Type 0} ⦃lib : Ristretto C⦄ (laws : IsCache lib) where
  -- The cache is there, and closed.
  abbrev HasClosed : LocalMemory C → Type 0
  HasClosed m = (c : C) × (m.cache ≡ some c) × (laws.is_closed c ≡ true)

  set_pairs-closed :
      (kvs : List Any) (c : C) → laws.is_closed c ≡ true → laws.is_closed (set_pairs kvs c) ≡ true
  unfolding set_pairs
  set_pairs-closed [] c h = h
  set_pairs-closed (a ∷ []) c h = h
  set_pairs-closed (a ∷ x ∷ rest) c h =
      set_pairs-closed rest (lib.set a x c) (laws.set_closed c a x h)

  closed_found :
      (m : LocalMemory C) (k : Any)
      → HasClosed m
      → (local_get_memory m k ≡ nil_value) × (local_exist_memory m k ≡ false)
  unfolding local_get_memory local_exist_memory
  closed_found m k (c, e, h) =
      simp (local_get_memory, local_exist_memory, e, laws.get_closed c k h) (refl, refl)

  closed_kept : (m : LocalMemory C) → HasClosed m → local_ensure_memory_init m ≡ (m, none)
  unfolding local_ensure_memory_init
  closed_kept m (c, e, h) = simp (local_ensure_memory_init, e) refl

  closed_set :
      (kvs : List Any) (m : LocalMemory C)
      → nat_eq (length kvs % 2) 0 ≡ true
      → HasClosed m
      → (m' : LocalMemory C) × (local_set_memory kvs m ≡ returned none m') × HasClosed m'
  unfolding local_set_memory
  closed_set kvs m even (c, e, h) = (
    record m { cache = some (lib.wait_writes (set_pairs kvs c)) },
    simp (local_set_memory, even, e) refl,
    (
      lib.wait_writes (set_pairs kvs c),
      refl,
      laws.wait_closed (set_pairs kvs c) (set_pairs-closed kvs c h),
    ),
  )

  -- `Shutdown` of an awake local brain whose memory was in use leaves a memory that is dead for
  -- good: the next start keeps it, `SetMemory` of any pairs returns no error, and no key is found
  -- behind it.
  pub shutdown-HasClosed :
      (ids : String → Bool) (b : Brain (LocalMemory C)) (c : C) (kvs : List Any) (k : Any)
      → IsBrain ids b
      → b.memory.cache ≡ some c
      → nat_eq (length kvs % 2) 0 ≡ true
      → (b' b'' : Brain (LocalMemory C)) × (shutdown b ≡ returned tt b')
        × (local_ensure_memory_init b'.memory ≡ (b'.memory, none))
        × (context_set_memory kvs b' ≡ returned none b'')
        × (context_get_memory k b'' ≡ nil_value)
        × (context_exist_memory k b'' ≡ false)
  unfolding local_memory local_close_memory context_set_memory on_memory context_get_memory
      context_exist_memory
  shutdown-HasClosed ids b c kvs k w e even =
      let (b', r, v, bc, nc, ls, ns, ms, qs) =
        shutdown-IsStopped ids b (local_close_memory b.memory) w refl in
      let h : HasClosed b'.memory = (
        lib.close_cache c,
        ap (λ m. m.cache) ms ∙ ap (option_map lib.close_cache) e,
        laws.close_closed c,
      ) in
      let (m, s, h') = closed_set kvs b'.memory even h in
      (
        b',
        record b' { memory = m },
        r,
        closed_kept b'.memory h,
        simp (context_set_memory, on_memory, s) refl,
        (closed_found m k h').0,
        (closed_found m k h').1,
      )
