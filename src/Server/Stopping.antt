-- ===== src/Server/Stopping.antt =====
-- api/AdminServer.cpp: `stop` against a worker that waits in `dequeue_connection`, in steps of the two threads. The
-- worker finds no connection. A worker holds `qmtx_` from its test of the predicate until it blocks; `stop` takes
-- no mutex.
use sim_vision_sdk.Prelude.{
  ◌≡◌, ◌⊎◌, inl, inr, refl, Bool, true, false, List, [], ◌∷◌, arith, Bool-cases,
}

-- The worker tests the predicate, or found it false and is about to block, or is blocked, or left its loop.
pub data WorkerAt : Type 0 where
  testing deciding blocked gone : WorkerAt

-- `stop` is about to store `stopping_`, to notify all, to join the worker, or has joined it.
pub data StopAt : Type 0 where
  storing notifying joining joined : StopAt

pub record Threads : Type 0 where
  pub worker : WorkerAt
  pub stop : StopAt
  pub stopping : Bool

-- Whose turn it is.
pub data Thread : Type 0 where
  worker_turn stop_turn : Thread
  -- The worker is woken by something else: spuriously, or by the `notify_one` of the accept thread for a
  -- connection that another worker takes.
  woken : Thread

-- With `running_` cleared, a worker that finds the queue empty and `stopping_` set leaves its loop.
abbrev pub work : Bool → WorkerAt → WorkerAt
work false testing = deciding
work true testing = gone
work stopping deciding = blocked
work stopping blocked = blocked
work stopping gone = gone

-- `notify_all` reaches who is blocked.
abbrev pub notified : WorkerAt → WorkerAt
notified blocked = testing
notified w = w

abbrev join : WorkerAt → StopAt
join gone = joined
join w = joining

unfoldable pub turn : Thread → Threads → Threads
turn worker_turn s = record s { worker = work s.stopping s.worker }
turn stop_turn s = elim s.stop [
  | storing ↦ record s { stop = notifying; stopping = true }
  | notifying ↦ record s { stop = joining; worker = notified s.worker }
  | joining ↦ record s { stop = join s.worker }
  | joined ↦ s
]
turn woken s = record s { worker = notified s.worker }

unfoldable pub run : List Thread → Threads → Threads
run [] s = s
run (t ∷ ts) s = run ts (turn t s)

-- `stop` has cleared `running_`, and the worker comes to its test.
abbrev pub at_stop : Threads
at_stop = record { worker = testing; stop = storing; stopping = false }

-- Once `stop` has notified, `stopping_` is set.
abbrev pub Stored : Threads → Type 0
Stored s = (s.stop ≡ storing) ⊎ (s.stopping ≡ true)

turn-Stored : (t : Thread) (s : Threads) → Stored s → Stored (turn t s)
unfolding turn
turn-Stored worker_turn s h = h
turn-Stored stop_turn s h = ground (arith, h)
turn-Stored woken s h = h

run-Stored : (ts : List Thread) (s : Threads) → Stored s → Stored (run ts s)
unfolding run
run-Stored [] s h = h
run-Stored (t ∷ ts) s h = run-Stored ts (turn t s) (turn-Stored t s h)

-- The worker is about to block, or is blocked, and nobody will wake it.
abbrev pub lost : WorkerAt → Bool
lost testing = false
lost deciding = true
lost blocked = true
lost gone = false

-- Nothing but `stop` wakes the worker.
abbrev pub undisturbed : List Thread → Bool
undisturbed [] = true
undisturbed (worker_turn ∷ ts) = undisturbed ts
undisturbed (stop_turn ∷ ts) = undisturbed ts
undisturbed (woken ∷ ts) = false

run-lost :
    (ts : List Thread) (s : Threads)
    → undisturbed ts ≡ true
    → lost s.worker ≡ true
    → s.stop ≡ joining
    → (run ts s).stop ≡ joining
unfolding run turn
run-lost [] s u l j = j
run-lost (worker_turn ∷ ts) s u l j =
    run-lost ts (turn worker_turn s) u (ground (arith, l)) (ground (arith, j))
run-lost (stop_turn ∷ ts) s u l j =
    run-lost ts (turn stop_turn s) u (ground (arith, l, j)) (ground (arith, l, j))
run-lost (woken ∷ ts) s u l j = ground (arith, u)

-- The worker has found the predicate false and is about to block.
abbrev pub is_deciding : WorkerAt → Bool
is_deciding testing = false
is_deciding deciding = true
is_deciding blocked = false
is_deciding gone = false

run-woken :
    (s : Threads)
    → is_deciding s.worker ≡ false
    → s.stop ≡ notifying
    → s.stopping ≡ true
    → (run (stop_turn ∷ worker_turn ∷ stop_turn ∷ []) s).stop ≡ joined
unfolding run turn
run-woken s d n e = ground (arith, d, n, e)

run-missed :
    (later : List Thread) (s : Threads)
    → undisturbed later ≡ true
    → is_deciding s.worker ≡ true
    → s.stop ≡ notifying
    → (run (stop_turn ∷ later) s).stop ≡ joining
unfolding run turn
run-missed later s u d n =
    run-lost later (turn stop_turn s) u (ground (arith, d, n)) (ground (arith, d, n))

notifying-Stored : (s : Threads) → Stored s → s.stop ≡ notifying → s.stopping ≡ true
notifying-Stored s h n = ground (arith, h, n)

-- In whatever order the two threads came to where `stop` is about to notify: unless the worker has found the
-- predicate false and not blocked yet, `stop` returns once the worker has had its next turn; otherwise `stop`
-- waits for the worker in every order that follows, as long as nothing else wakes the worker.
pub stop_lem :
    (before later : List Thread)
    → (run before at_stop).stop ≡ notifying
    → undisturbed later ≡ true
    → ((is_deciding (run before at_stop).worker ≡ false)
        × ((run (stop_turn ∷ worker_turn ∷ stop_turn ∷ []) (run before at_stop)).stop ≡ joined))
      ⊎ ((is_deciding (run before at_stop).worker ≡ true)
          × ((run (stop_turn ∷ later) (run before at_stop)).stop ≡ joining))
stop_lem before later n u =
    let s = run before at_stop in
    elim (Bool-cases (is_deciding s.worker)) [
      | inl d ↦ inr (d, run-missed later s u d n)
      | inr d ↦
          inl (d, run-woken s d n (notifying-Stored s (run-Stored before at_stop (inl refl)) n))
    ]
