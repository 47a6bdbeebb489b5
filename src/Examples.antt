-- ===== src/Examples.antt =====
-- Concrete runs of the models, and the theorems at concrete inputs.
mod Runs
mod Concurrency
mod Slots
mod Arcs
mod Tasks
mod Readers
mod Values
mod Words
mod Benchmark
mod Programs
mod Runner
mod Backends
mod Clients
mod Threads
