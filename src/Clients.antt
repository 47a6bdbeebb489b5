-- ===== src/Clients.antt =====
-- examples/: programs on oox/oox.h, each with a serial statement and a version by tasks.
pub mod Dataflow
pub mod Fibonacci
pub mod Filesystem
pub mod Wavefront
