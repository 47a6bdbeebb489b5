-- ===== src/TaskBench.antt =====
-- benchmarks/taskbench: a benchmark of task graphs, with its shared configuration, kernels,
-- dependency patterns and graph, and the serial runner.
pub mod Config
pub mod Kernels
pub mod Patterns
pub mod Graph
