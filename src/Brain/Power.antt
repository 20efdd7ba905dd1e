-- ===== src/Brain/Power.antt =====
-- maintain.go and brain_local.go of brainlocal: the state of the brain, its counts, sleep,
-- shutdown and start.
use rmodel.Brain.{
  Brain, BrainLink, BrainNeuron, Chan, Memory, b_queue_len, chan_len, is_chan_len, make_chan,
  sleep_event,
}
use rmodel.Brain.Cast.{is_inactive, is_wait}
use rmodel.Brain.Local.Kept.{call}
use rmodel.Brain.Queue.{is_shutdown, publish_event}
use rmodel.Brain.Step.{Go, gets, modify, panicked, pure, returned, run_on, ◌>>=◌, ◌>>◌}
use rmodel.Core.{
  BrainState, LinkState, NeuronState, brain_running, brain_shutdown, brain_sleeping, link_init,
  link_ready, neuron_activated, neuron_inactive,
}
use rmodel.Shared.{
  Bool, Option, [], false, if◌then◌else◌, nat_eq, none, some, suc, true, ℕ, ◌+◌, ◌∷◌,
}
use rmodel.Shared.Maps.{Map}

unfoldable pub set_state : {M : Type 0} → BrainState → Brain M → Brain M
set_state state b = record b { state = state }

abbrev pub is_activated : NeuronState → Bool
is_activated neuron_activated = true
is_activated neuron_inactive = false

abbrev pub is_init : LinkState → Bool
is_init link_init = true
is_init _ = false

abbrev pub is_ready : LinkState → Bool
is_ready link_ready = true
is_ready _ = false

-- The entries of a map that pass a test, counted by a loop.
unfoldable pub count_if {ℓ} : {V : Type ℓ} → (V → Bool) → Map V → ℕ
count_if p [] = 0
count_if p ((k, v) ∷ m) = let rest = count_if p m in if p v then suc rest else rest

-- `getNeuronCountByState`: the inactive and the activated neurons.
unfoldable pub get_neuron_count_by_state : {M : Type 0} → Brain M → ℕ × ℕ
get_neuron_count_by_state b =
    (count_if (λ n. is_inactive n.state) b.neurons, count_if (λ n. is_activated n.state) b.neurons)

-- `getLinkCountByState`: the links in the states Init, Wait and Ready.
unfoldable pub get_link_count_by_state : {M : Type 0} → Brain M → ℕ × ℕ × ℕ
get_link_count_by_state b = (
  count_if (λ l. is_init l.state) b.links,
  count_if (λ l. is_wait l.state) b.links,
  count_if (λ l. is_ready l.state) b.links,
)

unfoldable pub refresh_state : {M : Type 0} → Go (Brain M) (Unit {0})
unfolding get_neuron_count_by_state get_link_count_by_state set_state
refresh_state b =
    let neurons = get_neuron_count_by_state b in
    let links = get_link_count_by_state b in
    if nat_eq (neurons.1 + links.1 + links.2) 0
    then publish_event (sleep_event b.id) b
    else returned tt (set_state brain_running b)

unfoldable pub reset_links : Map BrainLink → Map BrainLink
reset_links [] = []
reset_links ((k, l) ∷ m) = (k, record l { state = link_init }) ∷ reset_links m

unfoldable pub reset_neurons : Map BrainNeuron → Map BrainNeuron
reset_neurons [] = []
reset_neurons ((k, n) ∷ m) = (k, record n { state = neuron_inactive }) ∷ reset_neurons m

unfoldable pub force_sleep : {M : Type 0} → Brain M → Brain M
unfolding reset_links reset_neurons set_state
force_sleep b =
    set_state brain_sleeping
      (record b { links = reset_links b.links; neurons = reset_neurons b.neurons })

-- `close(c)`: it panics on a nil channel and on a closed one.
unfoldable pub close_chan {ℓ κ} :
    {S : Type ℓ} {A : Type κ} → Option (Chan A) → (Chan A → S → S) → Go S (Unit {0})
close_chan none keep s = panicked s
close_chan (some c) keep s =
    if c.is_closed then panicked s else returned tt (keep (record c { is_closed = true }) s)

-- A call of a method of the memory.
unfoldable pub on_memory {ℓ} : {M : Type 0} {A : Type ℓ} → Go M A → Go (Brain M) A
on_memory call b = run_on (λ m. record b { memory = m }) (call b.memory)

-- `b.nQueue = make(chan string, b.nQueueLen)`
unfoldable pub make_n_queue : {M : Type 0} → Go (Brain M) (Unit {0})
make_n_queue b =
    if is_chan_len b.n_queue_len
    then returned tt (record b { n_queue = some (make_chan (chan_len b.n_queue_len)) })
    else panicked b

module _ {M : Type 0} ⦃mem : Memory M⦄ where
  -- The call of the memory's own `Close`.
  unfoldable pub close_memory : Go (Brain M) (Unit {0})
  close_memory = on_memory mem.close

  unfoldable pub shutdown : Go (Brain M) (Unit {0})
  unfolding close_chan set_state
  shutdown = do
    n_queue ← gets (λ b. b.n_queue)
    close_chan n_queue (λ c b. record b { n_queue = some c })
    b_queue ← gets (λ b. b.b_queue)
    close_chan b_queue (λ c b. record b { b_queue = some c })
    close_memory
    modify (set_state brain_shutdown)

  -- The worker goroutines and the maintainer run from here on; their steps are `Brain.Runner.work`
  -- and `Brain.Maintain.maintain`.
  unfoldable pub maintainer_start : Go (Brain M) (Unit {0})
  unfolding shutdown make_n_queue
  maintainer_start = do
    b ← gets (λ b. b)
    if is_shutdown b.state then pure tt else shutdown
    make_n_queue
    modify (λ b. record b { b_queue = some (make_chan b_queue_len) })

  unfoldable pub ensure_maintainer_start : Go (Brain M) (Unit {0})
  unfolding maintainer_start set_state
  ensure_maintainer_start = do
    b ← gets (λ b. b)
    let wake = maintainer_start >> modify (set_state brain_sleeping)
    if is_shutdown b.state then wake else pure tt
