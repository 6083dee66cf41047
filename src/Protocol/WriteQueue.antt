-- ===== src/Protocol/WriteQueue.antt =====
-- pkg/protocol/write_queue.go: outgoing frames, control before data.
pub mod Order
use atlax.Base.{ℕ, Bool, true, false, List, [], ◌∷◌, ◌++◌, ◌==◌, if◌then◌else◌}
use atlax.Protocol.Frame.{Frame}

abbrev pub priority_control : ℕ
priority_control = 0

abbrev pub priority_data : ℕ
priority_data = 1

pub record WriteQueue : Type 0 where
  pub control : List Frame
  pub data_frames : List Frame
  pub closed : Bool

unfoldable pub new_write_queue : WriteQueue
new_write_queue = record { control = []; data_frames = []; closed = false }

unfoldable pub enqueue : WriteQueue → Frame → ℕ → WriteQueue
enqueue q f priority =
    if q.closed
    then q
    else if priority == priority_control
    then record q { control = q.control ++ (f ∷ []) }
    else record q { data_frames = q.data_frames ++ (f ∷ []) }

-- One round of `Dequeue`: a frame and the queue without it, an error, or a wait on the condition.
pub data Dequeued : Type 0 where
  frame : Frame → WriteQueue → Dequeued
  canceled : Dequeued
  go_away : Dequeued
  waiting : Dequeued

dequeue_empty : Bool → Bool → Dequeued
dequeue_empty ctx_done true = if ctx_done then canceled else go_away
dequeue_empty ctx_done false = if ctx_done then canceled else waiting

dequeue_lists : Bool → WriteQueue → List Frame → List Frame → Dequeued
unfolding dequeue_empty
dequeue_lists ctx_done q (f ∷ rest) ds = frame f (record q { control = rest })
dequeue_lists ctx_done q [] (f ∷ rest) = frame f (record q { data_frames = rest })
dequeue_lists ctx_done q [] [] = dequeue_empty ctx_done q.closed

unfoldable pub dequeue : Bool → WriteQueue → Dequeued
unfolding dequeue_lists
dequeue ctx_done q = dequeue_lists ctx_done q q.control q.data_frames

unfoldable pub close : WriteQueue → WriteQueue
close q = record q { closed = true }
