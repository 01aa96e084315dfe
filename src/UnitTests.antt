-- ===== src/UnitTests.antt =====
-- The tests of the queue in test/mpsc_test.cpp: what they expect holds, however their calls go.
pub mod Single
pub mod Concurrent
mod Tests
