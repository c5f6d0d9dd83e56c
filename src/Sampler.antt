-- ===== src/Sampler.antt =====
-- crates/fusecraft-core/src/sampler: the deterministic samplers. Each is a function of its profile
-- or rules and of a `SampleKey`; the generator of the rand crate is the stream `draw` of `Float`.
pub mod Key
pub mod Fault
pub mod Latency
