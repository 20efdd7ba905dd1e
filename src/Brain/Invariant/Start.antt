-- ===== src/Brain/Invariant/Start.antt =====
-- brain_local.go and maintain.go of brainlocal: starting a brain that is shut down, and shutting
-- down one that is awake.
use rmodel.Brain.{Brain, BrainLink, Chan, Memory, b_queue_len, chan_len, is_chan_len, make_chan}
use rmodel.Brain.Cast.{ready_link}
use rmodel.Brain.Ensures.{Keeps, Keeps->>, Keeps-if, Safe, Safe-continue_with, Safe-returned}
use rmodel.Brain.Invariant.{IsBrain, IsWired}
use rmodel.Brain.Invariant.Casts.{ready_link-Safe}
use rmodel.Brain.Invariant.Handlers.{refresh_state-IsBrain}
use rmodel.Brain.Life.{start_and_trig, trig_each, trig_ids, trig_link, with_memory}
use rmodel.Brain.Power.{
  close_chan, close_memory, ensure_maintainer_start, is_ready, maintainer_start, make_n_queue,
  on_memory, refresh_state, set_state, shutdown,
}
use rmodel.Brain.Queue.{is_shutdown}
use rmodel.Brain.Step.{panicked, pure, returned, ◌>>◌}
use rmodel.Core.{brain_shutdown}
use rmodel.Errors.{Error}
use rmodel.Shared.{
  Bool, Bool-cases, List, Option, Option-cases, String, [], ap, arith, false, inl, inr, is_some,
  none, refl, some, sym, true, ◌∙◌, ◌∷◌, ◌≡◌, ◌⊎◌,
}
use rmodel.Shared.Maps.{lookup}

-- What `Shutdown` leaves: the maps are kept, and the channels are closed.
pub record IsStopped {M : Type 0} (ids : String → Bool) (b : Brain M) : Type 0 where
  pub wired : IsWired ids b.links b.neurons
  pub stopped : is_shutdown b.state ≡ true

-- The channel is there and closed.
abbrev pub IsClosed {ℓ} : {A : Type ℓ} → Option (Chan A) → Type ℓ
IsClosed {A = A} o = (c : Chan A) × (o ≡ some c) × (c.is_closed ≡ true)

module _ {M : Type 0} (ids : String → Bool) where
  trig_link-IsBrain : (l : BrainLink) → ids l.id ≡ true → Keeps (IsBrain ids) (trig_link {M = M} l)
  unfolding trig_link
  trig_link-IsBrain l h =
      Keeps-if (IsBrain ids) (is_ready l.state) (pure tt) (ready_link l) (λ b w. w)
        (ready_link-Safe ids l h)

  pub trig_each-IsBrain : (ks : List String) → Keeps (IsBrain ids) (trig_each {M = M} ks)
  unfolding trig_each
  trig_each-IsBrain [] b w = w
  trig_each-IsBrain (k ∷ ks) b w = elim (Option-cases (lookup k b.links)) [
    | inl e ↦ simp (trig_each, e) (trig_each-IsBrain ks b w)
    | inr (l, e) ↦
        simp (trig_each, e)
          (Safe-continue_with (IsBrain ids) (trig_link l b) _
            (trig_link-IsBrain l
              (ap ids (w.wired.links_keyed k l e) ∙ sym (w.wired.links_there k) ∙ ap is_some e) b w)
            (λ _. trig_each-IsBrain ks))
  ]

  module _ ⦃mem : Memory M⦄ where
    -- A start gives a stopped brain new channels, whatever became of the old ones.
    ensure_maintainer_start-IsBrain :
        (b : Brain M)
        → is_chan_len b.n_queue_len ≡ true
        → IsStopped ids b
        → Safe (IsBrain ids) (ensure_maintainer_start b)
    unfolding ensure_maintainer_start maintainer_start set_state make_n_queue
    ensure_maintainer_start-IsBrain b fits w =
        simp (ensure_maintainer_start, maintainer_start, w.stopped, make_n_queue, fits)
          (record {
            wired = w.wired;
            awake = refl;
            sized = fits;
            b_open = (make_chan b_queue_len, refl, refl, refl, omega arith);
            n_open = (make_chan (chan_len b.n_queue_len), refl, refl, refl, omega arith);
          })

    -- It panics where the length that is set is none of a channel.
    start_and_trig_misfit :
        (ks : List String) (b : Brain M)
        → is_chan_len b.n_queue_len ≡ false
        → IsStopped ids b
        → start_and_trig ks b ≡ panicked b
    unfolding start_and_trig ensure_maintainer_start maintainer_start make_n_queue
    start_and_trig_misfit ks b misfit w =
        simp
          (
            start_and_trig, ensure_maintainer_start, maintainer_start, w.stopped, make_n_queue,
            misfit,
          )
          refl

    ensure_awake :
        (b : Brain M)
        → is_chan_len b.n_queue_len ≡ true
        → IsStopped ids b ⊎ IsBrain ids b
        → Safe (IsBrain ids) (ensure_maintainer_start b)
    unfolding ensure_maintainer_start
    ensure_awake b fits (inl w) = ensure_maintainer_start-IsBrain b fits w
    ensure_awake b fits (inr w) = simp (ensure_maintainer_start, w.awake) w

    pub start_and_trig-IsBrain :
        (ks : List String) (b : Brain M)
        → is_chan_len b.n_queue_len ≡ true
        → IsStopped ids b ⊎ IsBrain ids b
        → Safe (IsBrain ids) (start_and_trig ks b)
    unfolding start_and_trig
    start_and_trig-IsBrain ks b fits w =
        Safe-continue_with (IsBrain ids) (ensure_maintainer_start b) _ (ensure_awake b fits w) (λ _.
          Keeps->> (IsBrain ids) (trig_each ks) _ (trig_each-IsBrain ks) (
            Keeps->> (IsBrain ids) refresh_state (pure none) (refresh_state-IsBrain ids)
              (λ b' w'. w')))

    -- A start that returns has made the channels.
    pub start_and_trig-returned :
        (ks : List String) (b : Brain M) (result : Option Error) (b' : Brain M)
        → IsStopped ids b ⊎ IsBrain ids b
        → start_and_trig ks b ≡ returned result b'
        → IsBrain ids b'
    start_and_trig-returned ks b result b' w r = elim (Bool-cases (is_chan_len b.n_queue_len)) [
      | inl fits ↦ Safe-returned (IsBrain ids) r (start_and_trig-IsBrain ks b fits w)
      | inr misfit ↦ elim w [
        | inl v ↦ let p = start_and_trig_misfit ks b misfit v in cc (p, r)
        | inr v ↦ let fits = v.sized in cc (fits, misfit)
      ]
    ]

    -- Triggering links of a brain, with its memory ready and with a length set for the workers'
    -- channel that a channel can have, starts it where it is stopped, and leaves it awake and well
    -- formed; it does not panic then. A channel that is full can hold the caller back.
    pub trig_ids-IsBrain :
        (k : String) (ks : List String) (b : Brain M) (m : M)
        → mem.ensure_init b.memory ≡ (m, none)
        → is_chan_len b.n_queue_len ≡ true
        → IsStopped ids b ⊎ IsBrain ids b
        → Safe (IsBrain ids) (trig_ids (k ∷ ks) b)
    unfolding trig_ids with_memory
    trig_ids-IsBrain k ks b m e fits w =
        simp (trig_ids, e, with_memory)
          (start_and_trig-IsBrain (k ∷ ks) (record b { memory = m }) fits (with_new w))
      where
        with_new :
            IsStopped ids b ⊎ IsBrain ids b
            → IsStopped ids (record b { memory = m }) ⊎ IsBrain ids (record b { memory = m })
        with_new (inl v) = inl (record { wired = v.wired; stopped = v.stopped })
        with_new (inr v) = inr (record {
          wired = v.wired;
          awake = v.awake;
          sized = v.sized;
          b_open = v.b_open;
          n_open = v.n_open;
        })

    -- `Shutdown` of an awake brain never panics: it returns, with both channels closed, the maps as
    -- they were, as is the length that is set, and the memory as its own `Close` leaves it, where that does not panic.
    pub shutdown-IsStopped :
        (b : Brain M) (m : M)
        → IsBrain ids b
        → mem.close b.memory ≡ returned tt m
        → (b' : Brain M) × (shutdown b ≡ returned tt b')
          × IsStopped ids b'
          × IsClosed b'.b_queue
          × IsClosed b'.n_queue
          × (b'.links ≡ b.links)
          × (b'.neurons ≡ b.neurons)
          × (b'.memory ≡ m)
          × (b'.n_queue_len ≡ b.n_queue_len)
    unfolding shutdown close_chan set_state close_memory on_memory
    shutdown-IsStopped b m w k =
        let (bc, be, bo, bcap, bn) = w.b_open in
        let (nc, ne, nopen, ncap, nn) = w.n_open in
        (
          record b {
            n_queue = some (record nc { is_closed = true });
            b_queue = some (record bc { is_closed = true });
            memory = m;
            state = brain_shutdown;
          },
          simp (shutdown, be, ne, bo, nopen, close_chan, close_memory, on_memory, k) refl,
          record { wired = w.wired; stopped = refl },
          (record bc { is_closed = true }, refl, refl),
          (record nc { is_closed = true }, refl, refl),
          refl,
          refl,
          refl,
          refl,
        )

    shutdown_closed : (b : Brain M) → IsClosed b.n_queue → shutdown b ≡ panicked b
    unfolding shutdown close_chan
    shutdown_closed b (c, e, closed) = simp (shutdown, e, close_chan, closed) refl

    -- Two calls of `Shutdown` on an awake brain: the second panics, at a channel that the first
    -- has closed.
    pub shutdown_twice :
        (b : Brain M) (m : M)
        → IsBrain ids b
        → mem.close b.memory ≡ returned tt m
        → (b' : Brain M) × ((shutdown >> shutdown) b ≡ panicked b')
    shutdown_twice b m w k =
        let (b', e, v, bc, nc, ls, ns, ms, qs) = shutdown-IsStopped b m w k in
        (b', rw (e) (shutdown_closed b' nc))
