-- ===== src/Processor.antt =====
-- processor.go: a consumer that runs a handler over batches of events.
pub mod Batch
pub mod Delivery
pub mod Run
pub mod Bounds
pub mod Progress
pub mod Life
pub mod Lifetime
