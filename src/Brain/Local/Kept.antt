-- ===== src/Brain/Local/Kept.antt =====
-- brain_local.go of brainlocal: what the memory of a local brain can give back.
use rmodel.Brain.Local.{
  IsCache, LocalMemory, Ristretto, keep_cache, local_clear_memory, local_close_memory,
  local_delete_memory, local_ensure_memory_init, local_exist_memory, local_get_memory,
  local_init_memory, local_set_memory, set_pairs, set_ready,
}
use rmodel.Brain.Step.{Step, blocked, panicked, returned}
use rmodel.Core.{Any, nil_value}
use rmodel.Errors.{Error, Result, err, ok}
use rmodel.Shared.{
  Bool, Bool-cases, List, Option, Option-cases, [], false, inl, inr, is_some, length, nat_eq, none,
  option_map-some, refl, some, some-injective, subst, sym, true, ◌%◌, ◌∷◌, ◌≡◌, ◌⊎◌,
}

-- A call of a method of the memory.
pub data MemoryCall : Type 0 where
  sets : List Any → MemoryCall
  deletes : Any → MemoryCall
  clears closes : MemoryCall

abbrev pub state_after {ℓ κ} : {S : Type ℓ} {A : Type κ} → Step S A → S
state_after (returned a s) = s
state_after (blocked s) = s
state_after (panicked s) = s

-- The pair stands in the list of keys and values.
abbrev pub Paired : (Any → Any → Bool) → List Any → Any → Any → Type 0
Paired same (k ∷ v ∷ rest) k' v' = ((same k k' ≡ true) × (v' ≡ v)) ⊎ Paired same rest k' v'
Paired same _ k' v' = ⊥

-- The calls, the last one first, have given the value for the key and not taken it back.
abbrev pub Given : (Any → Any → Bool) → List MemoryCall → Any → Any → Type 0
Given same [] k v = ⊥
Given same (sets kvs ∷ calls) k v = Paired same kvs k v ⊎ Given same calls k v
Given same (deletes key ∷ calls) k v = (same key k ≡ false) × Given same calls k v
Given same (clears ∷ calls) k v = ⊥
Given same (closes ∷ calls) k v = ⊥

module _ {C : Type 0} ⦃lib : Ristretto C⦄ where
  abbrev pub call : MemoryCall → LocalMemory C → LocalMemory C
  call (sets kvs) m = state_after (local_set_memory kvs m)
  call (deletes key) m = local_delete_memory key m
  call clears m = local_clear_memory m
  call closes m = local_close_memory m

  abbrev pub calls_on : List MemoryCall → LocalMemory C → LocalMemory C
  calls_on [] m = m
  calls_on (c ∷ calls) m = call c (calls_on calls m)

  module _ (laws : IsCache lib) where
    -- Everything in the cache of the memory is in `P`.
    abbrev Within : (Any → Any → Type 0) → LocalMemory C → Type 0
    Within P m = (c : C) (k v : Any) → m.cache ≡ some c → laws.Holds c k v → P k v

    set_pairs-held :
        (kvs : List Any) (c : C) (k v : Any)
        → laws.Holds (set_pairs kvs c) k v
        → Paired laws.same_key kvs k v ⊎ laws.Holds c k v
    unfolding set_pairs
    set_pairs-held [] c k v h = inr h
    set_pairs-held (a ∷ []) c k v h = inr h
    set_pairs-held (a ∷ x ∷ rest) c k v h = elim (set_pairs-held rest (lib.set a x c) k v h) [
      | inl p ↦ inl (inr p)
      | inr q ↦ elim (laws.set_held c a x k v q) [ inl p ↦ inl (inl p) | inr q' ↦ inr q' ]
    ]

    kept-Within :
        (P : Any → Any → Type 0) (r : Result C) (m : LocalMemory C)
        → lib.new_cache m.num_counters m.max_cost ≡ r
        → Within P m
        → Within P (keep_cache r m).0
    kept-Within P (err x) m e w = w
    kept-Within P (ok c) m e w = λ c' k v e' h.
        elim (laws.new_empty m.num_counters m.max_cost c k v e
          (subst (λ d. laws.Holds d k v) (sym (some-injective c c' e')) h)) [ ]

    ensured-Within :
        (P : Any → Any → Type 0) (m : LocalMemory C)
        → Within P m
        → Within P (local_ensure_memory_init m).0
    unfolding local_ensure_memory_init local_init_memory
    ensured-Within P m w = elim (Bool-cases (is_some m.cache)) [
      | inl e ↦ rw (e) w
      | inr e ↦ rw (e) (kept-Within P _ m refl w)
    ]

    ready-Within :
        (P : Any → Any → Type 0) (kvs : List Any) (x : LocalMemory C × Option Error)
        → Within P x.0
        → Within (λ k v. Paired laws.same_key kvs k v ⊎ P k v) (state_after (set_ready kvs x))
    ready-Within P kvs (m, some e) w = λ c k v e' h. inr (w c k v e' h)
    ready-Within P kvs (m, none) w = elim (Option-cases m.cache) [
      | inl e ↦ rw (e) (λ c k v e' h. cc e')
      | inr (c, e) ↦ rw (e) (λ c' k v e' h.
          elim (set_pairs-held kvs c k v (
            laws.wait_held _ k v
              (subst (λ d. laws.Holds d k v) (sym (some-injective _ c' e')) h))) [
                | inl p ↦ inl p
                | inr q ↦ inr (w c k v e q)
              ])
    ]

    set-Within :
        (kvs : List Any) (calls : List MemoryCall) (m : LocalMemory C)
        → Within (Given laws.same_key calls) m
        → Within (Given laws.same_key (sets kvs ∷ calls)) (call (sets kvs) m)
    unfolding local_set_memory
    set-Within kvs calls m w = elim (Bool-cases (nat_eq (length kvs % 2) 0)) [
      | inl e ↦ rw (e) (
          ready-Within (Given laws.same_key calls) kvs (local_ensure_memory_init m)
            (ensured-Within (Given laws.same_key calls) m w))
      | inr e ↦ rw (e) (λ c k v e' h. inr (w c k v e' h))
    ]

    call-Within :
        (c : MemoryCall) (calls : List MemoryCall) (m : LocalMemory C)
        → Within (Given laws.same_key calls) m
        → Within (Given laws.same_key (c ∷ calls)) (call c m)
    unfolding local_delete_memory local_clear_memory local_close_memory
    call-Within (sets kvs) calls m w = set-Within kvs calls m w
    call-Within (deletes key) calls m w = λ c k v e h.
        let (c', e', p) = option_map-some (lib.del key) m.cache c e in
        let (differ, held) = laws.del_held c' key k v (subst (λ x. laws.Holds x k v) (sym p) h) in
        (differ, w c' k v e' held)
    call-Within clears calls m w = λ c k v e h.
        let (c', e', p) = option_map-some lib.clear m.cache c e in
        laws.clear_held c' k v (subst (λ x. laws.Holds x k v) (sym p) h)
    call-Within closes calls m w = λ c k v e h.
        let (c', e', p) = option_map-some lib.close_cache m.cache c e in
        laws.close_held c' k v (subst (λ x. laws.Holds x k v) (sym p) h)

    calls-Within :
        (calls : List MemoryCall) (m : LocalMemory C)
        → m.cache ≡ none
        → Within (Given laws.same_key calls) (calls_on calls m)
    calls-Within [] m e = λ c k v e' h. cc (e, e')
    calls-Within (c ∷ calls) m e = call-Within c calls (calls_on calls m) (calls-Within calls m e)

    -- Whatever methods of the memory are called on a local brain, and however often: a key that
    -- exists has a value that a `SetMemory` gave for it, or for a key of the same hashes, and that no
    -- deletion of such a key, no clearing and no shutdown came after; a key that does not exist has
    -- the value nil.
    pub calls-Given :
        (calls : List MemoryCall) (m : LocalMemory C) (k : Any)
        → m.cache ≡ none
        → (local_exist_memory (calls_on calls m) k ≡ true
            → Given laws.same_key calls k (local_get_memory (calls_on calls m) k))
          × (local_exist_memory (calls_on calls m) k ≡ false
              → local_get_memory (calls_on calls m) k ≡ nil_value)
    unfolding local_exist_memory local_get_memory
    calls-Given calls m k e = found (calls_on calls m) (calls-Within calls m e)
      where
        found :
            (m' : LocalMemory C)
            → Within (Given laws.same_key calls) m'
            → (local_exist_memory m' k ≡ true → Given laws.same_key calls k (local_get_memory m' k))
              × (local_exist_memory m' k ≡ false → local_get_memory m' k ≡ nil_value)
        found m' w = elim (Option-cases m'.cache) [
          | inl e' ↦ simp (local_exist_memory, local_get_memory, e') (λ x. cc x, λ x. refl)
          | inr (c, e') ↦ elim (Option-cases (lib.get c k)) [
            | inl g ↦ simp (local_exist_memory, local_get_memory, e', g) (λ x. cc x, λ x. refl)
            | inr (v, g) ↦
                simp (local_exist_memory, local_get_memory, e', g)
                  (λ x. w c k v e' (laws.get_found c k v g), λ x. cc x)
          ]
        ]
