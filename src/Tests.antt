-- ===== src/Tests.antt =====
-- Concrete inputs, and for each theorem that has conditions an example in which they hold.
mod Samples
mod Limiter
mod Sampler
mod Namespace
mod Engine
mod Session
mod Threads
mod Interleaved
mod Cli
mod Fuse
