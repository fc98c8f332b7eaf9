-- ===== src/Server/Pending.antt =====
-- api/AdminServer.cpp: `accept_loop`, `dequeue_connection` and `worker_loop`. A connection is its descriptor. Each
-- stretch of code that holds `qmtx_` is one step; what the accepting thread and the workers do is any sequence of
-- steps.
use sim_vision_sdk.Prelude.{
  ℕ, ◌≤◌, ◌≡◌, ◌↔◌, refl, Bool, true, false, ◌||◌, not, Option, none, some, List, [], ◌∷◌, ◌++◌,
  if◌then◌else◌, arith, length, leb, length-append, append_assoc, append-nil,
}

abbrev pub max_pending : ℕ
max_pending = 100

-- The queue and the flags; `served` are the connections that workers took, in order.
pub record Pending : Type 0 where
  pub running : Bool
  pub stopping : Bool
  pub queue : List ℕ
  pub served : List ℕ

-- `start`, of the parts above
abbrev pub started : Pending
started = record { running = true; stopping = false; queue = []; served = [] }

-- The stretch of `accept_loop` that holds the mutex: is the connection closed at once, and the new queue.
unfoldable pub enqueue : ℕ → Pending → Bool × Pending
enqueue fd s =
    if leb max_pending (length s.queue)
    then (true, s)
    else (false, record s { queue = s.queue ++ fd ∷ [] })

abbrev pub is_nil : List ℕ → Bool
is_nil [] = true
is_nil (_ ∷ _) = false

-- What the predicate of `wait` says.
abbrev pub is_ready : Pending → Bool
is_ready s = not (is_nil s.queue) || s.stopping

-- `dequeue_connection` once its predicate holds.
abbrev take_front : List ℕ → Pending → Option ℕ × Pending
take_front [] s = (none, s)
take_front (fd ∷ rest) s = (some fd, record s { queue = rest; served = s.served ++ fd ∷ [] })

unfoldable pub dequeue : Pending → Option ℕ × Pending
dequeue s = take_front s.queue s

-- `worker_loop` with a failed `dequeue_connection`: does the worker leave its loop?
abbrev pub leaves : Option ℕ → Pending → Bool
leaves none s = not s.running
leaves (some _) s = false

-- The first two statements of `stop`, each by itself.
abbrev pub end_running : Pending → Pending
end_running s = record s { running = false }

abbrev pub begin_stopping : Pending → Pending
begin_stopping s = record s { stopping = true }

-- The connection, unless it was closed at once.
abbrev pub admitted : ℕ → Bool → List ℕ
admitted fd true = []
admitted fd false = fd ∷ []

-- One step of some thread, with the connections that it admits.
pub data Step : Pending → List ℕ → Pending → Type 0 where
  accepts : {s : Pending} (fd : ℕ) → Step s (admitted fd (enqueue fd s).0) (enqueue fd s).1
  dequeues : {s : Pending} → is_ready s ≡ true → Step s [] (dequeue s).1
  ends_running : {s : Pending} → Step s [] (end_running s)
  begins_stopping : {s : Pending} → s.running ≡ false → Step s [] (begin_stopping s)

-- What any order of the steps reaches, with the connections admitted on the way, in order.
pub data Reach : List ℕ → Pending → Type 0 where
  start : Reach [] started
  later : {fds new : List ℕ} {s t : Pending} → Reach fds s → Step s new t → Reach (fds ++ new) t

-- At most 100 connections wait; those admitted are the served and then the waiting ones; and `stopping_` is set
-- after `running_` is cleared.
pub record IsValid (fds : List ℕ) (s : Pending) : Type 0 where
  pub bound : length s.queue ≤ max_pending
  pub order : fds ≡ s.served ++ s.queue
  pub ended : s.stopping ≡ true → s.running ≡ false

enqueue-IsValid :
    (fd : ℕ) (fds : List ℕ) (s : Pending)
    → IsValid fds s
    → IsValid (fds ++ admitted fd (enqueue fd s).0) (enqueue fd s).1
unfolding enqueue
enqueue-IsValid fd fds s v = ground (
  arith,
  v.bound,
  v.order,
  v.ended,
  length-append s.queue (fd ∷ []),
  append-nil fds,
  append_assoc s.served s.queue (fd ∷ []),
)

take_front-IsValid :
    (fds queue : List ℕ) (s : Pending)
    → s.queue ≡ queue
    → IsValid fds s
    → IsValid fds (take_front queue s).1
take_front-IsValid fds [] s e v = v
take_front-IsValid fds (fd ∷ rest) s e v =
    ground (arith, e, v.bound, v.order, v.ended, append_assoc s.served (fd ∷ []) rest)

dequeue-IsValid : (fds : List ℕ) (s : Pending) → IsValid fds s → IsValid fds (dequeue s).1
unfolding dequeue
dequeue-IsValid fds s = take_front-IsValid fds s.queue s refl

Step-IsValid :
    {s t : Pending} {new : List ℕ} (fds : List ℕ)
    → Step s new t
    → IsValid fds s
    → IsValid (fds ++ new) t
Step-IsValid fds (accepts {s} fd) v = enqueue-IsValid fd fds s v
Step-IsValid fds (dequeues {s} e) v = rw (append-nil fds) (dequeue-IsValid fds s v)
Step-IsValid fds (ends_running {s}) v =
    rw (append-nil fds) (record { bound = v.bound; order = v.order; ended = λ h. refl })
Step-IsValid fds (begins_stopping {s} e) v =
    rw (append-nil fds) (record { bound = v.bound; order = v.order; ended = λ h. e })

-- In any order of the steps of the accepting thread, the workers and `stop`, at most 100 connections wait, the
-- connections that were admitted are those served and then those that wait, in their order, and `stopping_` is
-- set only after `running_` is cleared.
pub reach-IsValid : {fds : List ℕ} {s : Pending} → Reach fds s → IsValid fds s
reach-IsValid start = record { bound = omega arith; order = refl; ended = λ h. ground (arith, h) }
reach-IsValid (later {fds} r move) = Step-IsValid fds move (reach-IsValid r)

leaves_lem :
    (queue : List ℕ) (s : Pending)
    → s.queue ≡ queue
    → (s.stopping ≡ true → s.running ≡ false)
    → is_ready s ≡ true
    → (leaves (take_front queue s).0 s ≡ true) ↔ (s.queue ≡ [])
leaves_lem [] s e ended ready = ground (arith, e, ended, ready)
leaves_lem (fd ∷ rest) s e ended ready = ground (arith, e, ended, ready)

-- A worker that is past its wait leaves its loop exactly if no connection waits: none is left behind, and no
-- worker spins.
pub dequeue-leaves :
    {fds : List ℕ} {s : Pending}
    → Reach fds s
    → is_ready s ≡ true
    → (leaves (dequeue s).0 s ≡ true) ↔ (s.queue ≡ [])
unfolding dequeue
dequeue-leaves {fds} {s} r ready = leaves_lem s.queue s refl ((reach-IsValid r).ended) ready
