-- ===== src/Loadtest.antt =====
-- cmd/loadtest/runner.go: the command that measures the library.
pub mod Config
pub mod Report
pub mod Publisher
pub mod Stride
pub mod Published
pub mod Processors
pub mod Wiring
pub mod Handle
pub mod Drain
pub mod Deadline
pub mod Once
pub mod Verdict
