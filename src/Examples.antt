-- ===== src/Examples.antt =====
-- Concrete libraries for the interfaces, and the theorems at concrete inputs.
mod Values
mod Stores
mod Small
mod Plain
mod Pipelines
mod Passes
mod Sharing
mod Gauges
mod Faults
mod Exports
mod Proms
mod Lifecycles
mod Requests
