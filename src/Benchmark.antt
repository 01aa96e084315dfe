-- ===== src/Benchmark.antt =====
-- The benchmark of the queue: benchmarks/benchmark_utils.cpp and benchmarks/mpsc_queue_benchmark.cpp.
pub mod Switch
pub mod X86
pub mod Arm
pub mod Names
pub mod CpuInfo
pub mod Json
pub mod Run
pub mod Sizes
pub mod Load
pub mod Report
pub mod Main
pub mod Results
mod Tests
