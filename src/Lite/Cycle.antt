-- ===== src/Lite/Cycle.antt =====
-- brain_lite.go of brainlite: a lite brain that is shut down, and started again.
use rmodel.Brain.{is_chan_len}
use rmodel.Brain.Ensures.{Safe}
use rmodel.Brain.Invariant.{IsBrain}
use rmodel.Brain.Invariant.Start.{shutdown-IsStopped, trig_ids-IsBrain}
use rmodel.Brain.Step.{gets, returned}
use rmodel.Core.{Any, nil_value}
use rmodel.Lite.{Encoding, LiteMemory, Sqlite}
use rmodel.Lite.Laws.{IsSqlite}
use rmodel.Lite.Memory.{
  lite_close_memory, lite_ensure_memory_init, lite_exist_memory, lite_get_memory, lite_memory,
  memory_close,
}
use rmodel.Lite.Restart.{memory_close-empty}
use rmodel.Lite.Run.{LiteBrain, lite_shutdown, lite_trig_ids}
use rmodel.Shared.{Bool, List, String, ap, false, inl, none, refl, some, ◌∙◌, ◌∷◌, ◌≡◌}

module _ {W D : Type 0} ⦃enc : Encoding⦄ ⦃sql : Sqlite W D⦄ where
  -- An awake lite brain whose memory is not to be kept, and closes without an error, shuts down, and
  -- a later trigger of links, where the memory opens again, starts it without a panic into a well
  -- formed brain. The new memory has none of the keys of the old one.
  pub lite_shutdown-lite_trig_ids :
      (laws : IsSqlite sql) (ids : String → Bool) (db : D) (b : LiteBrain W D)
      (m1 m2 : LiteMemory W D) (k : String) (ks : List String) (key : Any)
      → IsBrain ids b
      → b.memory.db ≡ some db
      → b.memory.keep_memory ≡ false
      → memory_close db b.memory ≡ (m1, none)
      → lite_ensure_memory_init m1 ≡ (m2, none)
      → (b' : LiteBrain W D) × (lite_shutdown b ≡ returned tt b')
        × (b'.memory ≡ m1)
        × Safe (IsBrain ids) (lite_trig_ids (k ∷ ks) b')
        × (lite_get_memory m2 key ≡ nil_value)
        × (lite_exist_memory m2 key ≡ false)
  unfolding lite_memory lite_close_memory
  lite_shutdown-lite_trig_ids laws ids db b m1 m2 k ks key w o keep c i =
      let (gone, there, gets, exists) = memory_close-empty laws db key b.memory m1 m2 keep c i in
      let (b', r, v, bc, nc, ls, ns, ms, qs) =
        shutdown-IsStopped ids b m1 w (simp (lite_close_memory, o, c) refl) in
      (
        b',
        r,
        ms,
        trig_ids-IsBrain ids k ks b' m2 (ap lite_ensure_memory_init ms ∙ i)
            (ap is_chan_len qs ∙ w.sized) (inl v),
        gets,
        exists,
      )
