-- ===== src/Examples.antt =====
-- Concrete blueprints and brains, tests by evaluation, and the theorems at concrete inputs.
mod Sample
mod Groups
mod Graphs
mod Brains
mod Histories
mod Lifetimes
mod Faults
mod Caches
mod Unary
mod Json
mod Tables
mod Memories
mod Values
