-- ===== src/Lite/Return.antt =====
-- memory.go and brain_lite.go of brainlite: a value that is set is got back.
use rmodel.Brain.Step.{Step}
