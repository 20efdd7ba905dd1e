-- ===== src/Lib.antt =====
-- rModel: a framework for workflows of agents. A program draws a blueprint, a directed graph of
-- neurons joined by links, and builds a brain from it that runs the graph.
--
-- The parts and their files (paths from the repository's root):
--
--   Shared: Go's maps as association lists (Maps), slices as sets (Sets), tests (Tests), integers
--   (Ints), texts (Texts).
--   Errors: internal/errors/errors.go. Core: core/*.go and processor/*.go.
--   Utils: internal/utils/common.go; Slices and Counts are about the two tests on slices, Labels
--   and Copies about merged and copied maps.
--   Blueprint.Link, Blueprint.Neuron, Blueprint.Neuron.Groups: link.go and neuron.go. The modules
--   Prune, Triggers and InLinks are about AddTriggerGroup, Casts and OutLinks about AddCastGroup
--   and addOutLink.
--   Blueprint.Brainprint and its child Edit: brainprint.go. Blueprint.Graph holds the invariant of
--   the graph; Linking, Ends, Links, Ops and Neurons are about the operations that change it, Built
--   about the blueprints that a program can build, Cloned about a clone of one, Views about what
--   is read of one, and Copies about `Clone`.
--   Brain: the data of brainlocal/{neuron,link,event,options}.go and the state of BrainLocal.
--   Brain.Step is the effect of Go code: it returns, blocks at a send into a full channel, or
--   panics; Brain.Ensures has the rules for it. Brain.Queue has the two channels, Brain.Cast
--   `neuronCast`, Brain.Power the state, its counts, sleep, shutdown and start, Brain.Maintain the
--   handlers of the maintainer, Brain.Runner a worker's run of a neuron, Brain.Life `BuildBrain`,
--   `TrigLinks` and `Entry`.
--   Brain.Invariant: when a brain is well formed. Its children are about that and the calls:
--   Queues the sends, Casts the casts, Sleep `ForceSleep`, Handlers the maintainer, Workers the
--   runner, Start the start and the shutdown, Build (with Groups, Lookups and Content)
--   `BuildBrain`.
--   Brain.System: the goroutines together, as a step relation whose turns are handlers.
--   Brain.Lifetime adds shutdowns by a caller, and the starts behind them.
--   Brain.Sent says the sends of an awake brain of its channels. Brain.Firing is about
--   `tryActivateNeuron`, Brain.Quiet about `refreshState` and `ForceSleep`, Brain.Passing
--   (Change, Links, Select, Relax, Whole) about the link states that `neuronCast` leaves,
--   Brain.Running and Brain.Ending about a worker's run of a neuron, and Brain.Faults about
--   histories that the callers do not expect. Brain.Drain (Sends, Casts, Rounds, Loop) is about
--   the loop of the maintainer: its rounds are fuel, and a measure of the work in a brain tells
--   how many are enough. Brain.Reach is about the way of a neuron into the workers' channel.
--   Brain.Context: what a processor asks of its context (brain_context.go), `Wait` and
--   `EntryWithMemory`; Brain.Remember is about the last, over any memory. Brain.Local: the memory
--   of a local brain over the cache of the package ristretto; Kept is about what it gives back,
--   Closed about a shutdown, Lawful about what a brain relies on in it.
--   Lite: the memory of brainlite (memory.go) and the interfaces of the packages below it. Lite.Key
--   is `hashKey`, Lite.Codec the two switches on types, Lite.Memory the methods of memory.go and of
--   brain_lite.go, Lite.Laws what they rely on. Lite.Refine, Pairs and Whole are about the memory
--   as a map, Digest about the bounds of a hash, Trip and Return about a value that is set and got,
--   Restart and Cycle about closing and opening it again, Lawful about what a brain relies on in
--   it. Lite.Run names the functions of the other files of brainlite, whose text is that of
--   brainlocal.
--   Examples: sample blueprints and brains, tests by evaluation, and the theorems at them.
--
-- How the source is read. A method that changes its receiver returns the new record. A pointer to
-- a neuron or a link is the key of the object in the map that holds it. A nil map is `none` where
-- the code can tell it from an empty one. A loop over a map runs in the order of the association
-- list, and the theorems hold for every list, hence for every order of the runtime. Ids that
-- utils.GenID and utils.GenIDShort draw from github.com/rs/xid are arguments; that they are new in
-- the blueprint is a hypothesis where it is needed (GenIDShort keeps the last five characters of an
-- xid, which hold a counter that comes round again after 2^24 ids). Counters are ints, held as
-- 64-bit patterns that wrap. A handler runs as one step. A send by the maintainer into its own
-- full channel never ends, since nobody else receives from it; the step is then `blocked`, with
-- what it did before. A send that waits for a receive by another goroutine, at a full channel or
-- at one of length 0, is `blocked` too: a history goes on with the turns that return, so that a
-- trigger of more than ten links at once, or a send into a channel of length 0, stands in none. The
-- length of the workers' channel is an int that an option sets, and the start panics where `make` refuses
-- it. The memory of a brain is a parameter with the interface `Memory`, which the memories of
-- brainlocal and of brainlite fill. What a processor does, together with the other goroutines
-- meanwhile, is an argument of `activate_neuron`. Brain.System takes a run apart into its begin
-- and its end, with any turns of the others between; there, a handler is one turn, and
-- interleavings inside of a handler are not modelled.
-- The packages below the memories are interfaces, with what their documentation tells as records of
-- laws: `Ristretto` and `IsCache`, `Sqlite` and `IsSqlite`, `Encoding` and `IsEncoding`. A
-- float64 is its bit pattern, a string is valid UTF-8 (what json.Marshal puts for other bytes is
-- not modelled), a query leaves the file system as it is, and a statement acts at once.
--
-- Not modelled: formatting and the logger; pyprocessor, which is not in the repository (the
-- processor that it loads is an argument); the panic of ristretto at a key of a type that it does
-- not hash; the client program under examples, which calls a language model over the network, and
-- the tests; `Clone` of a nil blueprint; the timing of the goroutine that `neuronCast` starts,
-- whose later event stands in `delayed`.
pub mod Shared
pub mod Errors
pub mod Utils
pub mod Core
pub mod Blueprint
pub mod Brain
pub mod Lite
mod Examples
