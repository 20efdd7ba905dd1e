-- ===== src/Brain.antt =====
-- The running brain of brainlocal (brain_local.go, neuron.go, link.go, event.go): its state, and
-- what a piece of its code does to it. brainlite holds the same code over another memory, so the
-- memory is a parameter with the interface `Memory`.
pub mod Step
pub mod Queue
pub mod Cast
pub mod Power
pub mod Maintain
pub mod Runner
pub mod Life
pub mod Context
pub mod Remember
pub mod Local
pub mod Ensures
pub mod Invariant
pub mod System
pub mod Lifetime
pub mod Sent
pub mod Firing
pub mod Quiet
pub mod Faults
pub mod Passing
pub mod Running
pub mod Ending
pub mod Drain
pub mod Reach
use rmodel.Brain.Step.{Go}
use rmodel.Core.{Any, BrainState, LinkState, NeuronState, Processor, Selector}
use rmodel.Errors.{Error}
use rmodel.Shared.{
  Bool, List, Option, String, [], false, ltb, negsuc, pos, ℕ, ℤ, ◌%◌, ◌+◌, ◌-◌, ◌^◌,
}
use rmodel.Shared.Maps.{Map}
use rmodel.Utils.{Labels}

-- `status.count`, each an int that is held as its 64-bit pattern.
pub record Count : Type 0 where
  pub process : ℕ
  pub succeed : ℕ
  pub failed : ℕ

abbrev pub no_count : Count
no_count = record { process = 0; succeed = 0; failed = 0 }

-- `count++` on an int.
abbrev pub increment : ℕ → ℕ
increment n = (n + 1) % 2 ^ 64

-- `link` with its `spec` and its `status`.
pub record BrainLink : Type 0 where
  pub id : String
  pub from : String
  pub to : String
  pub state : LinkState
  pub count : Count

-- A `*link` in a group: `none` is the nil pointer, `some id` points to the link that `b.links`
-- holds under the id.
abbrev pub Pointer : Type 0
Pointer = Option String

abbrev pub Groups : Type 0
Groups = Map (List Pointer)

-- `neuron` with its `spec` and its `status`.
pub record BrainNeuron : Type 0 where
  pub id : String
  pub labels : Labels
  pub processor : Processor
  pub trigger_groups : Groups
  pub cast_groups : Groups
  pub selector : Option Selector
  pub state : NeuronState
  pub count : Count

pub data EventKind : Type 0 where
  kind_neuron kind_link kind_brain kind_unknown : EventKind

pub data EventAction : Type 0 where
  link_init_action link_ready_action link_wait_action : EventAction
  try_activate try_inactive try_cast cast_anyway : EventAction
  brain_sleep brain_shutdown_action : EventAction

pub record Event : Type 0 where
  pub kind : EventKind
  pub action : EventAction
  pub id : String

abbrev pub link_ready_event : String → Event
link_ready_event id = record { kind = kind_link; action = link_ready_action; id = id }

abbrev pub try_activate_event : String → Event
try_activate_event id = record { kind = kind_neuron; action = try_activate; id = id }

abbrev pub try_cast_event : String → Event
try_cast_event id = record { kind = kind_neuron; action = try_cast; id = id }

abbrev pub cast_anyway_event : String → Event
cast_anyway_event id = record { kind = kind_neuron; action = cast_anyway; id = id }

abbrev pub sleep_event : String → Event
sleep_event id = record { kind = kind_brain; action = brain_sleep; id = id }

-- A buffered channel.
pub record Chan {ℓ} (A : Type ℓ) : Type ℓ where
  pub items : List A
  pub cap : ℕ
  pub is_closed : Bool

abbrev pub make_chan {ℓ} : {A : Type ℓ} → ℕ → Chan A
make_chan n = record { items = []; cap = n; is_closed = false }

-- The lengths that `make(chan string, n)` accepts; it panics at a negative one, and at one whose
-- entries of 16 bytes, with a header of 96, do not fit the 2^48 bytes that a 64-bit Go can address.
abbrev pub is_chan_len : ℤ → Bool
is_chan_len (pos n) = ltb n (2 ^ 44 - 5)
is_chan_len (negsuc n) = false

abbrev pub chan_len : ℤ → ℕ
chan_len (pos n) = n
chan_len (negsuc n) = 0

-- The constant `bQueueLen`.
abbrev pub b_queue_len : ℕ
b_queue_len = 10

-- `BrainLocal`: a nil channel is `none`. `delayed` holds what the goroutines that sleep in
-- `neuronCast` will publish; the logger and the condition variable carry no state that is read.
pub record Brain (M : Type 0) : Type 0 where
  pub id : String
  pub labels : Labels
  pub neurons : Map BrainNeuron
  pub links : Map BrainLink
  pub state : BrainState
  pub memory : M
  pub b_queue : Option (Chan Event)
  pub n_queue : Option (Chan String)
  pub n_queue_len : ℤ
  pub n_worker_num : ℕ
  pub delayed : List Event

-- `BrainMemory` with the methods of the brain that are about it. `ensure_init` and `set_memory`
-- also return the memory where they fail.
pub record Memory (M : Type 0) : Type 0 where
  pub ensure_init : M → M × Option Error
  pub set_memory : List Any → Go M (Option Error)
  pub get_memory : M → Any → Any
  pub exist_memory : M → Any → Bool
  pub delete_memory : Any → M → M
  pub clear_memory : M → M
  pub close : Go M (Unit {0})
