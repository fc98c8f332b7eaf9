-- ===== src/Queue/Alone.antt =====
-- The steps of one call, run without interruption, are the call itself.
use sim_vision_sdk.Prelude.{
  ◌≡◌, refl, Option, some, none, List, [], ◌∷◌, ◌++◌, if◌then◌else◌, leb, nat_eq, Bool-cases, inl,
  inr,
}
use sim_vision_sdk.Queue.{Queue, sub, try_push, try_pop}
use sim_vision_sdk.Queue.Threads.{
  Threads, Event, idle, resting, produce, consume, push_step, pop_step, step, run,
}

module _ {A : Type 0} where
  -- A call of `try_push` is three steps if the queue is full and five if not, and they do what it does.
  pub run-try_push :
      (s : Threads A) (frame : Option A)
      → let (q, ok) = try_push s.queue frame in
        let call = produce frame ∷ produce frame ∷ produce frame ∷ [] in
        run
          (record s { producer = idle })
          (if ok then call ++ produce frame ∷ produce frame ∷ [] else call)
        ≡ record s {
          queue = q;
          producer = idle;
          accepted = if ok then s.accepted ++ frame ∷ [] else s.accepted;
        }
  unfolding run step push_step try_push
  run-try_push s frame = elim (Bool-cases (leb s.queue.capacity (sub s.queue.head s.queue.tail))) [
    | inl e ↦ rw e (rw e refl)
    | inr e ↦ rw e (rw e refl)
  ]

  -- What a result of `try_pop` leaves, and in how many steps.
  abbrev after_pop : Threads A → Option (Option A × Queue A) → Threads A
  after_pop s none = record s { consumer = resting }
  after_pop s (some (frame, q)) = record s {
    queue = q;
    consumer = resting;
    returned = s.returned ++ frame ∷ [];
  }

  abbrev pop_steps : Option (Option A × Queue A) → List (Event A)
  pop_steps none = consume ∷ consume ∷ consume ∷ []
  pop_steps (some _) = consume ∷ consume ∷ consume ∷ consume ∷ []

  -- A call of `try_pop` is three steps if the queue is empty and four if not, and they do what it does.
  pub run-try_pop :
      (s : Threads A)
      → run (record s { consumer = resting }) (pop_steps (try_pop s.queue))
        ≡ after_pop s (try_pop s.queue)
  unfolding run step pop_step try_pop
  run-try_pop s = elim (Bool-cases (nat_eq s.queue.head s.queue.tail)) [
    | inl e ↦ rw e (rw e refl)
    | inr e ↦ rw e (rw e refl)
  ]
