-- ===== src/Blueprint.antt =====
-- The blueprint of a brain: neuron.go, link.go and brainprint.go.
pub mod Link
pub mod Neuron
pub mod Brainprint
pub mod Graph
