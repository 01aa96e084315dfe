-- ===== src/QueueState.antt =====
-- The status codes of src/sigmax/mpsc_queue.hpp.

-- `enum class QueueState`
pub data QueueState : Type 0 where
  success queue_is_empty queue_is_full : QueueState
