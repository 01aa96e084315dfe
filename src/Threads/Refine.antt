-- ===== src/Threads/Refine.antt =====
-- The queue of src/sigmax/mpsc_queue.hpp under threads, against the list that they share.
mod Stretch
mod Shared
mod Claims
mod Steps
unfoldable pub use Shared.{phase_of, shared, turn_event, call_event, event_of, history}
pub use Steps.{Reach-Runs}
