-- ===== src/Queue/Valid.antt =====
-- The representation invariant of `ChannelFrameQueue`, and that every operation keeps it.
use sim_vision_sdk.Prelude.{
  ℕ, ◌+◌, ◌-◌, ◌%◌, ◌≤◌, ◌<◌, ◌≡◌, Option, none, some, arith, length, length-set, length-replicate,
}
use sim_vision_sdk.Queue.{Queue, word, make, try_push, try_pop, size}

-- The counters have not wrapped, the buffer has `capacity` slots, and at most so many are used.
pub record IsValid {A : Type 0} (q : Queue A) : Type 0 where
  pub positive : 1 ≤ q.capacity
  pub slots : length q.buffer ≡ q.capacity
  pub ordered : q.tail ≤ q.head
  pub fits : q.head - q.tail ≤ q.capacity
  pub bounded : q.head < word
  pub counted : q.pushed ≤ q.head

module _ {A : Type 0} where
  pub size_lem : (q : Queue A) → IsValid q → size q ≡ q.head - q.tail
  unfolding size
  size_lem q v = omega arith

  -- A new queue is valid, whatever capacity was asked for.
  pub make-IsValid : (capacity : ℕ) → IsValid (make {A = A} capacity)
  unfolding make
  make-IsValid capacity = ground (arith, length-replicate {0} {A = Option A} capacity none)

  -- `try_push` keeps a valid queue valid, as long as `head` does not reach the largest `size_t`.
  pub try_push-IsValid :
      (q : Queue A) (frame : Option A)
      → q.head + 1 < word
      → IsValid q
      → IsValid (try_push q frame).0
  unfolding try_push
  try_push-IsValid q frame room v = ground (arith, length-set q.buffer (q.head % q.capacity) frame)

  -- A successful `try_pop` keeps a valid queue valid.
  pub try_pop-IsValid :
      (q : Queue A) {frame : Option A} {q' : Queue A}
      → IsValid q
      → try_pop q ≡ some (frame, q')
      → IsValid q'
  unfolding try_pop
  try_pop-IsValid q v e = ground (arith, length-set q.buffer (q.tail % q.capacity) none)
