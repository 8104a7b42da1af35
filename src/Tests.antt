-- ===== src/Tests.antt =====
-- Runs of the modelled functions on small inputs, and the theorems at concrete inputs.
mod Allocator
mod Defects
mod Checks
mod Traces
mod Reader
mod Clock
mod Options
mod Cache
mod Main
