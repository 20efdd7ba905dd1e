-- ===== src/Brain/Invariant.antt =====
-- brain_local.go of brainlocal: when a brain is well formed, in terms of its maps, its groups and
-- its channels.
pub mod Queues
pub mod Casts
pub mod Sleep
pub mod Handlers
pub mod Workers
pub mod Start
pub mod Build
use rmodel.Brain.{
  Brain, BrainLink, BrainNeuron, Chan, Groups, Pointer, b_queue_len, chan_len, is_chan_len,
}
use rmodel.Brain.Queue.{is_shutdown}
use rmodel.Shared.{All, Bool, Option, String, false, is_some, length, none, some, true, ℕ, ◌≡◌, ◌≤◌}
use rmodel.Shared.Maps.{Map, lookup}

-- No pointer of a group is nil, and each points to a link of the brain.
abbrev pub Points : (String → Bool) → Pointer → Type 0
Points ids none = ⊥
Points ids (some id) = ids id ≡ true

abbrev pub PointsAll : (String → Bool) → Groups → Type 0
PointsAll ids groups = All (λ g. All (Points ids) g.1) groups

-- The channel is there and open, has the given capacity, and holds no more than that.
abbrev pub IsOpen {ℓ} : {A : Type ℓ} → ℕ → Option (Chan A) → Type ℓ
IsOpen {A = A} n o =
    (c : Chan A) × (o ≡ some c) × (c.is_closed ≡ false) × (c.cap ≡ n) × (length c.items ≤ n)

-- `ids` tells the ids of the links: each map is keyed by the ids of what it holds, and the groups
-- of the neurons hold pointers to links of the brain only.
pub record IsWired (ids : String → Bool) (links : Map BrainLink) (neurons : Map BrainNeuron)
    : Type 0 where
  pub links_there : (k : String) → is_some (lookup k links) ≡ ids k
  pub links_keyed : (k : String) (l : BrainLink) → lookup k links ≡ some l → l.id ≡ k
  pub neurons_keyed : (k : String) (n : BrainNeuron) → lookup k neurons ≡ some n → n.id ≡ k
  pub triggers :
      (k : String) (n : BrainNeuron) → lookup k neurons ≡ some n → PointsAll ids n.trigger_groups
  pub casts :
      (k : String) (n : BrainNeuron) → lookup k neurons ≡ some n → PointsAll ids n.cast_groups

-- A brain that is not shut down has its two channels, and they are open; the length that is set for
-- the second is one that a channel can have.
pub record IsBrain {M : Type 0} (ids : String → Bool) (b : Brain M) : Type 0 where
  pub wired : IsWired ids b.links b.neurons
  pub awake : is_shutdown b.state ≡ false
  pub b_open : IsOpen b_queue_len b.b_queue
  pub sized : is_chan_len b.n_queue_len ≡ true
  pub n_open : IsOpen (chan_len b.n_queue_len) b.n_queue
