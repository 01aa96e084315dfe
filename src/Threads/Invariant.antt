-- ===== src/Threads/Invariant.antt =====
-- What holds of the cells and of every thread, at the start and after every step.
mod Defs
mod Stay
mod Cover
mod Push
mod Pop
mod Step
pub use Defs.*
pub use Stay.{thread, sequence-lt}
pub use Pop.{held}
pub use Step.{Reach-Holds, act-Holds}
