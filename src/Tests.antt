-- ===== src/Tests.antt =====
-- Runs of the modelled code on small inputs, and the theorems at concrete inputs.
pub mod Samples
pub mod Control
pub mod Pipelines
pub mod Numbers
pub mod Graphs
pub mod Witnesses
pub mod PrinterSamples
pub mod PassWitnesses
pub mod PrinterWitnesses
