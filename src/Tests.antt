-- ===== src/Tests.antt =====
-- Runs of the definitions on small applications, and the theorems at those inputs.
mod Samples
mod Streams
mod Deliveries
mod Calls
mod Jets
mod Graphs
mod Modules
mod Starts
mod Limits
mod Caching
