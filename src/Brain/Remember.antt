-- ===== src/Brain/Remember.antt =====
-- brain_local.go of brainlocal: `EntryWithMemory`, for every memory that keeps two promises.
use rmodel.Brain.{Brain, Memory, is_chan_len}
use rmodel.Brain.Context.{context_set_memory, entry_with_memory}
use rmodel.Brain.Ensures.{Safe}
use rmodel.Brain.Invariant.{IsBrain}
use rmodel.Brain.Invariant.Start.{IsStopped, trig_ids-IsBrain}
use rmodel.Brain.Life.{entry, entry_ids, trig_ids}
use rmodel.Brain.Power.{on_memory}
use rmodel.Brain.Step.{Step, blocked, panicked, pure, returned}
use rmodel.Core.{Any}
use rmodel.Errors.{Error}
use rmodel.Shared.{
  Bool, List, Option, String, [], if◌then◌else◌, inl, inr, is_some, none, refl, some, true, ◌∷◌,
  ◌≡◌, ◌⊎◌,
}

-- What a brain relies on in its memory: a call of `SetMemory` returns, and one without an error
-- leaves the memory initialised.
pub record IsMemory {M : Type 0} (mem : Memory M) : Type 0 where
  pub set_returns :
      (kvs : List Any) (m : M)
      → (failure : Option Error) × (m' : M) × (mem.set_memory kvs m ≡ returned failure m')
        × (failure ≡ none → mem.ensure_init m' ≡ (m', none))

-- A brain that is shut down or awake, and well formed either way.
abbrev pub IsSound : {M : Type 0} → (String → Bool) → Brain M → Type 0
IsSound ids b = IsStopped ids b ⊎ IsBrain ids b

module _ {M : Type 0} ⦃mem : Memory M⦄ (ids : String → Bool) where
  IsSound-memory : (b : Brain M) (m : M) → IsSound ids b → IsSound ids (record b { memory = m })
  IsSound-memory b m (inl v) = inl (record { wired = v.wired; stopped = v.stopped })
  IsSound-memory b m (inr v) = inr (record {
    wired = v.wired;
    awake = v.awake;
    sized = v.sized;
    b_open = v.b_open;
    n_open = v.n_open;
  })

  Safe-IsSound : {A : Type 0} (x : Step (Brain M) A) → Safe (IsBrain ids) x → Safe (IsSound ids) x
  Safe-IsSound (returned a s) w = inr w
  Safe-IsSound (blocked s) w = inr w
  Safe-IsSound (panicked s) w = w

  entry-IsSound :
      (b : Brain M)
      → mem.ensure_init b.memory ≡ (b.memory, none)
      → is_chan_len b.n_queue_len ≡ true
      → IsSound ids b
      → Safe (IsSound ids) (entry b)
  unfolding entry
  entry-IsSound b e fits w = by_ids (entry_ids b.links)
    where
      by_ids : (ks : List String) → Safe (IsSound ids) (trig_ids ks b)
      by_ids [] = w
      by_ids (k ∷ ks) =
          Safe-IsSound (trig_ids (k ∷ ks) b) (trig_ids-IsBrain ids k ks b b.memory e fits w)

  -- `EntryWithMemory` does not panic, on a brain that is shut down or awake and whose workers' channel
  -- has a length that a channel can have, over any memory that keeps its promises, and the brain is well formed after it, whether setting the memory fails or not.
  pub entry_with_memory-IsSound :
      (laws : IsMemory mem) (kvs : List Any) (b : Brain M)
      → is_chan_len b.n_queue_len ≡ true
      → IsSound ids b
      → Safe (IsSound ids) (entry_with_memory kvs b)
  unfolding entry_with_memory context_set_memory on_memory
  entry_with_memory-IsSound laws kvs b fits w =
      let (failure, m', e, k) = laws.set_returns kvs b.memory in
      simp (entry_with_memory, context_set_memory, on_memory, e) (by_failure failure m' k)
    where
      by_failure :
          (failure : Option Error) (m' : M)
          → (failure ≡ none → mem.ensure_init m' ≡ (m', none))
          → Safe
              (IsSound ids)
              ((if is_some failure then pure failure else entry) (record b { memory = m' }))
      by_failure (some e) m' k = IsSound-memory b m' w
      by_failure none m' k =
          entry-IsSound (record b { memory = m' }) (k refl) fits (IsSound-memory b m' w)
