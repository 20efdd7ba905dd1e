-- ===== src/Core.antt =====
-- core/*.go and processor/selector.go: the names and the states that the packages share, and what
-- a selector sees of the memory.
use rmodel.Shared.{Bool, String, ℕ, ℤ}

abbrev pub end_neuron_id : String
end_neuron_id = "__END_NEURON__"

abbrev pub entry_link_from : String
entry_link_from = "__EXTERNAL_SIGNAL__"

abbrev pub end_link_to : String
end_link_to = end_neuron_id

abbrev pub default_cast_group_name : String
default_cast_group_name = "__DEFAULT_CAST_GROUP__"

pub data LinkState : Type 0 where
  link_init link_wait link_ready : LinkState

pub data NeuronState : Type 0 where
  neuron_inactive neuron_activated : NeuronState

pub data BrainState : Type 0 where
  brain_shutdown brain_sleeping brain_running : BrainState

-- The integer types of Go that the code tells apart; `byte` is `uint8`.
pub data NumberType : Type 0 where
  go_int go_int32 go_int64 go_uint32 go_uint64 go_byte : NumberType

-- A value of Go's `any`, by its dynamic type: `text` holds a string that is valid UTF-8, `float` holds the bit pattern of a float64, `bytes`
-- a byte slice as a text, and `other` stands for every value of a further type.
pub data Any : Type 0 where
  nil_value : Any
  text : String → Any
  number : NumberType → ℤ → Any
  float : ℕ → Any
  bool : Bool → Any
  bytes : String → Any
  other : String → Any

-- `processor.BrainContextReader`.
pub record Reader : Type 0 where
  pub get_memory : Any → Any
  pub exist_memory : Any → Bool
  pub current_neuron_id : String

-- `processor.Selector`: `DefaultSelector` and `FuncSelector`.
pub data Selector : Type 0 where
  default_selector : Selector
  func_selector : (Reader → String) → Selector

unfoldable pub select : Selector → Reader → String
select default_selector ctx = default_cast_group_name
select (func_selector select_fn) ctx = select_fn ctx

-- `processor.Processor`: the code of a processor is known by a name.
pub data Processor : Type 0 where
  empty_processor : Processor
  func_processor : String → Processor
