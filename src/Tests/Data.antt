-- ===== src/Tests/Data.antt =====
-- The queue, the pipeline and the data types at concrete inputs.
use sim_vision_sdk.Prelude.{
  ℕ, ◌≡◌, ◌⊎◌, refl, false, Option, none, some, List, [], ◌∷◌, ◌++◌, ◌≤◌, length, text, arith,
}
use sim_vision_sdk.Types.{DataGroup, depth_map, visual_2d, sensor_data, data_type_from_string}
use sim_vision_sdk.Types.Table.{DataType-eq}
use sim_vision_sdk.Queue.{Queue, try_push, try_pop, size, pop_loop, pop_while}
use sim_vision_sdk.Queue.Fifo
use sim_vision_sdk.Queue.Valid.{IsValid, try_push-IsValid}
use sim_vision_sdk.Queue.Refine.{view, contents, try_push_refines, try_pop_refines}
use sim_vision_sdk.Queue.Threads.{
  Threads, Event, produce, consume, run, started, step, push_step, pop_step,
}
use sim_vision_sdk.Queue.Sound.{held}
use sim_vision_sdk.Queue.Interleaving.{run_in_order}
use sim_vision_sdk.Pipeline.{Pipeline, push, pushes, sweep, pop_all, is_nonempty}
use sim_vision_sdk.Pipeline.Valid.{AllValid}
use sim_vision_sdk.Pipeline.PopAll.{pending, after_wait, pop_all_waited}

-- A queue of two slots after three pushes, of which two were taken and another was refused.
abbrev one : Queue ℕ
one = record {
  capacity = 2;
  buffer = some 7 ∷ none ∷ [];
  head = 3;
  tail = 2;
  pushed = 3;
  dropped = 1;
}

-- The queue once the last frame is taken as well.
abbrev taken : Queue ℕ
taken = record one { buffer = none ∷ none ∷ []; tail = 3 }

one-IsValid : IsValid one
one-IsValid = record {
  positive = omega arith;
  slots = refl;
  ordered = omega arith;
  fits = omega arith;
  bounded = omega arith;
  counted = omega arith;
}

taken-IsValid : IsValid taken
taken-IsValid = record {
  positive = omega arith;
  slots = refl;
  ordered = omega arith;
  fits = omega arith;
  bounded = omega arith;
  counted = omega arith;
}

pop_one : try_pop one ≡ some (some 7, taken)
unfolding try_pop
pop_one = refl

push_full : (try_push (try_push one (some 8)).0 (some 9)).1 ≡ false
unfolding try_push
push_full = refl

try_push_refines_example :
    (let (q', ok) = try_push one (some 8) in (view q', ok)) ≡ Fifo.push 2 (view one) (some 8)
try_push_refines_example = try_push_refines one one-IsValid (some 8) (omega arith) (omega arith)

try_pop_refines_example :
    ((try_pop one ≡ none) × (Fifo.pop (view one) ≡ none))
    ⊎ ((frame : Option ℕ) × (q' : Queue ℕ) × (try_pop one ≡ some (frame, q'))
        × (Fifo.pop (view one) ≡ some (frame, view q')))
try_pop_refines_example = try_pop_refines one one-IsValid

-- A push and a pop whose steps alternate.
abbrev alternating : List (Event ℕ)
alternating =
    produce (some 8)
    ∷ consume
    ∷ produce (some 8)
    ∷ consume
    ∷ produce (some 8)
    ∷ consume
    ∷ produce (some 8)
    ∷ consume
    ∷ []

run-alternating : (run (started one (contents one)) alternating).returned ≡ some 7 ∷ []
unfolding run step push_step pop_step
run-alternating = refl

run_in_order_example :
    let s = run (started one (contents one)) alternating in
    (s.returned ++ held s.queue s.consumer ≡ s.accepted)
    × (length (held s.queue s.consumer) ≤ s.queue.capacity)
run_in_order_example = run_in_order one alternating one-IsValid (omega arith)

abbrev before : Threads ℕ
before = started one (contents one)

-- A frame waits for the 3D group.
abbrev waiting : Pipeline ℕ
waiting = record { q2d = taken; q3d = one; qsensor = taken; notified = false }

abbrev quiet : Pipeline ℕ
quiet = record { q2d = taken; q3d = taken; qsensor = taken; notified = false }

waiting-AllValid : AllValid waiting
waiting-AllValid = (taken-IsValid, one-IsValid, taken-IsValid)

quiet-AllValid : AllValid quiet
quiet-AllValid = (taken-IsValid, taken-IsValid, taken-IsValid)

-- The pushes of two producers while the consumer waits.
abbrev arriving : List (DataGroup × Option ℕ)
arriving = (sensor_data, some 5) ∷ (visual_2d, some 6) ∷ []

arriving-AllValid : AllValid (after_wait quiet arriving [])
unfolding pushes push
arriving-AllValid = (
  try_push-IsValid taken (some 6) (omega arith) taken-IsValid,
  taken-IsValid,
  try_push-IsValid taken (some 5) (omega arith) taken-IsValid,
)

pop_all_waited_example :
    let (got, out, p') = pop_all quiet arriving [] in
    (got ≡ is_nonempty out) × (out ≡ pending (after_wait quiet arriving [])) × (pending p' ≡ [])
pop_all_waited_example = pop_all_waited quiet arriving [] quiet-AllValid arriving-AllValid refl

-- Both frames come out in one call, the 2D group's first.
pop_all-arriving : (pop_all quiet arriving []).1 ≡ some 6 ∷ some 5 ∷ []
unfolding pop_all pushes push sweep try_push pop_while pop_loop try_pop size
pop_all-arriving = refl

depth_map_name : data_type_from_string (text "depth_map") ≡ some depth_map
unfolding data_type_from_string
depth_map_name = refl
