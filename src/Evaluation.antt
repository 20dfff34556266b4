-- ===== src/Evaluation.antt =====
-- What judges a run: oracle.py and benchmark_metrics.py.
pub mod Oracle
pub mod Benchmark
pub mod Effects
mod Examples
