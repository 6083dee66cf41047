-- ===== src/Protocol/WriteQueue/Order.antt =====
-- What a write queue promises: each priority is a FIFO, and control frames go first.
use mathlib.Core.List.{append_assoc}
use atlax.Base.{
  ℕ, zero, suc, ◌<◌, ◌≡◌, ◌⊎◌, refl, Bool, false, List, [], ◌∷◌, ◌++◌, ◌==◌, length, if◌then◌else◌,
  arith,
}
use atlax.Protocol.Frame.{Frame}
use atlax.Protocol.WriteQueue.{
  WriteQueue, priority_control, enqueue, Dequeued, frame, go_away, waiting, dequeue, dequeue_lists,
}

-- The order in which the frames of the queue will leave it if nothing more comes in.
abbrev pub pending : WriteQueue → List Frame
pending q = q.control ++ q.data_frames

-- `Enqueue` puts a control frame behind the control frames and ahead of all data, any other frame at
-- the end; a closed queue drops it.
pub pending-enqueue :
    (q : WriteQueue) (f : Frame) (p : ℕ)
    → pending (enqueue q f p) ≡ (
        if q.closed
        then pending q
        else if p == priority_control
        then q.control ++ (f ∷ q.data_frames)
        else pending q ++ (f ∷ []))
unfolding enqueue
pending-enqueue q f p = ground (
  arith,
  append_assoc q.control (f ∷ []) q.data_frames,
  append_assoc q.control q.data_frames (f ∷ []),
)

-- Repeated `Dequeue` calls with a live context, until one gives no frame.
pub dequeue_all : ℕ → WriteQueue → List Frame × Dequeued
dequeue_all zero q = ([], waiting)
dequeue_all (suc n) q = elim (dequeue false q) [
  | frame f q' ↦ let r = dequeue_all n q' in (f ∷ r.0, r.1)
  | other ↦ ([], other)
]

drain_data :
    (ds : List Frame) (b : Bool) (n : ℕ)
    → length ds < n
    → dequeue_all n (record { control = []; data_frames = ds; closed = b })
      ≡ (ds, if b then go_away else waiting)
unfolding dequeue_all dequeue
drain_data [] b zero h = absurd (omega arith)
drain_data [] b (suc n) h = ground arith
drain_data (f ∷ ds) b zero h = absurd (omega arith)
drain_data (f ∷ ds) b (suc n) h = ground (arith, drain_data ds b n)

drain_control :
    (cs ds : List Frame) (b : Bool) (n : ℕ)
    → length (cs ++ ds) < n
    → dequeue_all n (record { control = cs; data_frames = ds; closed = b })
      ≡ (cs ++ ds, if b then go_away else waiting)
unfolding dequeue_all dequeue
drain_control [] ds b n h = drain_data ds b n h
drain_control (f ∷ cs) ds b zero h = absurd (omega arith)
drain_control (f ∷ cs) ds b (suc n) h = ground (arith, drain_control cs ds b n)

-- With one call more than there are frames, the frames come out in the order of `pending`: all control
-- frames, oldest first, then all data frames, oldest first. Then the queue reports ErrGoAway if it
-- is closed, and makes the caller wait if it is not.
pub dequeue_all-pending :
    (q : WriteQueue) (n : ℕ)
    → length (pending q) < n
    → dequeue_all n q ≡ (pending q, if q.closed then go_away else waiting)
dequeue_all-pending q n h = drain_control q.control q.data_frames q.closed n h

serves_lists :
    (done : Bool) (q q' : WriteQueue) (f : Frame) (cs ds : List Frame)
    → q.control ≡ cs
    → q.data_frames ≡ ds
    → dequeue_lists done q cs ds ≡ frame f q'
    → ((q.control ≡ f ∷ q'.control) × (q'.data_frames ≡ q.data_frames))
      ⊎ ((q.control ≡ []) × (q'.control ≡ []) × (q.data_frames ≡ f ∷ q'.data_frames))
unfolding dequeue_lists
serves_lists done q q' f (c ∷ cs) ds p r e = ground arith
serves_lists done q q' f [] (d ∷ ds) p r e = ground arith
serves_lists done q q' f [] [] p r e = absurd (ground arith)

-- A frame that `Dequeue` hands out is the oldest control frame, or, only when no control frame is
-- queued, the oldest data frame; the rest of the queue stays as it was.
pub dequeue_control_first :
    (done : Bool) (q q' : WriteQueue) (f : Frame)
    → dequeue done q ≡ frame f q'
    → ((q.control ≡ f ∷ q'.control) × (q'.data_frames ≡ q.data_frames))
      ⊎ ((q.control ≡ []) × (q'.control ≡ []) × (q.data_frames ≡ f ∷ q'.data_frames))
unfolding dequeue
dequeue_control_first done q q' f e = serves_lists done q q' f q.control q.data_frames refl refl e
