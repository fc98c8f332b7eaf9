-- ===== src/Queue/Loop.antt =====
-- The loop `while (try_pop(f))` takes all that the queue holds, in order, and leaves it empty.
use sim_vision_sdk.Prelude.{
  ℕ, zero, suc, ◌-◌, ◌<◌, ◌≡◌, refl, sym, ap, ◌∙◌, true, ◌⊎◌, inl, inr, Option, none, some, List,
  [], ◌∷◌, arith, length,
}
use sim_vision_sdk.Queue.{Queue, try_pop, empty, size, pop_loop, pop_while, clear}
use sim_vision_sdk.Queue.Fifo.{Fifo, pop, pop_from}
use sim_vision_sdk.Queue.Valid.{IsValid, size_lem, try_pop-IsValid}
use sim_vision_sdk.Queue.Refine.{contents, length-window, try_pop_refines}

-- What `try_pop` does to a queue that holds a frame.
pub record Pops {A : Type 0} (q : Queue A) (frame : Option A) (q' : Queue A) : Type 0 where
  pub result : try_pop q ≡ some (frame, q')
  pub valid : IsValid q'
  pub front : contents q ≡ frame ∷ contents q'
  pub same_head : q'.head ≡ q.head
  pub same_capacity : q'.capacity ≡ q.capacity
  pub same_pushed : q'.pushed ≡ q.pushed
  pub same_dropped : q'.dropped ≡ q.dropped

module _ {A : Type 0} where
  pub length-contents : (q : Queue A) → length (contents q) ≡ q.head - q.tail
  length-contents q = length-window q.buffer q.capacity q.tail (q.head - q.tail)

  Fifo-front :
      (s t : Fifo A) (frame : Option A) → pop s ≡ some (frame, t) → s.frames ≡ frame ∷ t.frames
  unfolding pop
  Fifo-front s t frame e = front s.frames refl e
    where
      front :
          (xs : List (Option A))
          → s.frames ≡ xs
          → pop_from s xs ≡ some (frame, t)
          → s.frames ≡ frame ∷ t.frames
      front [] h e = ground arith
      front (x ∷ xs) h e = ground arith

  Fifo-empty : (s : Fifo A) → pop s ≡ none → s.frames ≡ []
  unfolding pop
  Fifo-empty s e = gone s.frames refl e
    where
      gone : (xs : List (Option A)) → s.frames ≡ xs → pop_from s xs ≡ none → s.frames ≡ []
      gone [] h e = h
      gone (x ∷ xs) h e = ground arith

  try_pop_fields :
      (q : Queue A) {frame : Option A} {q' : Queue A}
      → try_pop q ≡ some (frame, q')
      → (q'.head ≡ q.head)
        × (q'.capacity ≡ q.capacity)
        × (q'.pushed ≡ q.pushed)
        × (q'.dropped ≡ q.dropped)
  unfolding try_pop
  try_pop_fields q e = ground arith

  -- On a valid queue `try_pop` fails exactly when it holds nothing, and else takes the oldest frame.
  pub try_pop-Pops :
      (q : Queue A)
      → IsValid q
      → ((try_pop q ≡ none) × (contents q ≡ []))
        ⊎ ((frame : Option A) × (q' : Queue A) × Pops q frame q')
  try_pop-Pops q v = elim (try_pop_refines q v) [
    | inl (e, e') ↦ inl (e, Fifo-empty _ e')
    | inr (frame, q', e, e') ↦ inr (
      frame,
      q',
      record {
        result = e;
        valid = try_pop-IsValid q v e;
        front = Fifo-front _ _ frame e';
        same_head = (try_pop_fields q e).0;
        same_capacity = (try_pop_fields q e).1;
        same_pushed = (try_pop_fields q e).2;
        same_dropped = (try_pop_fields q e).3;
      },
    )
  ]

-- What a loop that empties the queue leaves.
pub record Drained {A : Type 0} (q : Queue A) (out : List (Option A) × Queue A) : Type 0 where
  pub taken : out.0 ≡ contents q
  pub left : contents out.1 ≡ []
  pub stops : try_pop out.1 ≡ none
  pub valid : IsValid out.1
  pub same_head : out.1.head ≡ q.head
  pub same_capacity : out.1.capacity ≡ q.capacity
  pub same_pushed : out.1.pushed ≡ q.pushed
  pub same_dropped : out.1.dropped ≡ q.dropped

module _ {A : Type 0} where
  Drained-stop : (q : Queue A) → IsValid q → try_pop q ≡ none → contents q ≡ [] → Drained q ([], q)
  Drained-stop q v e e' = record {
    taken = sym e';
    left = e';
    stops = e;
    valid = v;
    same_head = refl;
    same_capacity = refl;
    same_pushed = refl;
    same_dropped = refl;
  }

  Drained-cons :
      (q : Queue A) (frame : Option A) (q' : Queue A) {out : List (Option A) × Queue A}
      → Pops q frame q'
      → Drained q' out
      → Drained q (frame ∷ out.0, out.1)
  Drained-cons q frame q' p d = record {
    taken = ap (◌∷◌ frame) d.taken ∙ sym p.front;
    left = d.left;
    stops = d.stops;
    valid = d.valid;
    same_head = d.same_head ∙ p.same_head;
    same_capacity = d.same_capacity ∙ p.same_capacity;
    same_pushed = d.same_pushed ∙ p.same_pushed;
    same_dropped = d.same_dropped ∙ p.same_dropped;
  }

  pub pop_loop-Drained :
      (fuel : ℕ) (q : Queue A)
      → IsValid q
      → length (contents q) < fuel
      → Drained q (pop_loop fuel q)
  unfolding pop_loop
  pop_loop-Drained zero q v lt = absurd (omega arith)
  pop_loop-Drained (suc fuel) q v lt = elim (try_pop-Pops q v) [
    | inl (e, e') ↦ rw (e, pop_loop) (Drained-stop q v e e')
    | inr (frame, q', p) ↦
        rw (p.result, pop_loop)
          (Drained-cons q frame q' p
            (pop_loop-Drained fuel q' p.valid (omega (arith, ap length p.front))))
  ]

  -- On a valid queue the loop takes every frame, oldest first, and ends with a valid empty queue on which
  -- `try_pop` fails, the counts of pushed and dropped frames unchanged.
  pub pop_while-Drained : (q : Queue A) → IsValid q → Drained q (pop_while q)
  unfolding pop_while
  pop_while-Drained q v =
      pop_loop-Drained (suc (size q)) q v (omega (arith, size_lem q v, length-contents q))

  -- On an empty queue the loop changes nothing.
  pub pop_while_empty : (q : Queue A) → IsValid q → contents q ≡ [] → pop_while q ≡ ([], q)
  unfolding pop_while pop_loop
  pop_while_empty q v e = elim (try_pop-Pops q v) [
    | inl (stop, _) ↦ rw (stop, pop_loop)
    | inr (frame, q', p) ↦ ground (arith, p.front)
  ]

  -- On a valid queue `clear` leaves a valid empty queue, and the counts of pushed and dropped frames as
  -- they were.
  pub clear_lem :
      (q : Queue A)
      → IsValid q
      → (empty (clear q) ≡ true)
        × (contents (clear q) ≡ [])
        × IsValid (clear q)
        × ((clear q).pushed ≡ q.pushed)
        × ((clear q).dropped ≡ q.dropped)
  unfolding clear empty
  clear_lem q v = (emptied, d.left, d.valid, d.same_pushed, d.same_dropped)
    where
      d : Drained q (pop_while q)
      d = pop_while-Drained q v

      emptied : empty (pop_while q).1 ≡ true
      emptied = ground (arith, ap length d.left, length-contents (pop_while q).1, d.valid)
