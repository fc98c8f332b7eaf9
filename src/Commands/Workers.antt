-- ===== src/Commands/Workers.antt =====
-- Several worker threads of api/AdminServer.cpp in `CommandHandler::handle` at once: between two calls of one
-- command any number of calls of others may come.
use sim_vision_sdk.Prelude.{
  Bool, false, nat_eq, if◌then◌else◌, ℕ, zero, suc, List, [], ◌∷◌, ◌++◌, Text,
}
use sim_vision_sdk.Types.{DataGroup}
use sim_vision_sdk.Types.Frame.{ChannelFrame}
use sim_vision_sdk.Pipeline.{queue_of, with_queue}
use sim_vision_sdk.Queue.Threads.{
  Consumer, resting, loaded_tail, loaded_head, took, Threads, idle, pop_step,
}
use sim_vision_sdk.Json.{Json}
use sim_vision_sdk.Commands.Objects.{World}
use sim_vision_sdk.Commands.Program.{Program, halt, call, popping, program}

module _ (J : Json) where
  -- The objects, and what is left of each command that a worker has begun.
  pub record Site : Type 0 where
    pub world : World J
    pub workers : List (Program J)

  -- A worker begins a command, or the worker with this number makes its next call.
  pub data Event : Type 0 where
    begin : Text → J.Value → Text → Event
    next : ℕ → Event

  -- The step of `try_pop` that comes next, on the queue of a group as it is now.
  abbrev pub pop_of : World J → DataGroup → Consumer ChannelFrame → Threads ChannelFrame
  pop_of w g c =
      pop_step
        (record {
          queue = queue_of w.pipeline g;
          producer = idle;
          consumer = c;
          accepted = [];
          returned = [];
        })
        c

  abbrev pub popped : World J → DataGroup → Consumer ChannelFrame → World J
  popped w g c = record w { pipeline = with_queue w.pipeline g (pop_of w g c).queue }

  -- `try_pop` finds the queue empty and returns false.
  abbrev pub finds_none : Consumer ChannelFrame → Bool
  finds_none resting = false
  finds_none (loaded_tail t) = false
  finds_none (loaded_head t h) = nat_eq h t
  finds_none (took t frame) = false

  -- the next call of a command, or the next step of its drain
  unfoldable pub advance : Program J → World J → World J × Program J
  advance (halt r) w = (w, halt r)
  advance (call f rest) w = (f w, rest w)
  advance (popping g c rest) w =
      (popped w g c, if finds_none c then rest else popping g (pop_of w g c).consumer rest)

  unfoldable pub advance_at : ℕ → List (Program J) → World J → World J × List (Program J)
  unfolding advance
  advance_at i [] w = (w, [])
  advance_at zero (p ∷ ps) w = let (w', p') = advance p w in (w', p' ∷ ps)
  advance_at (suc i) (p ∷ ps) w = let (w', ps') = advance_at i ps w in (w', p ∷ ps')

  unfoldable pub happen : Site → Event → Site
  unfolding advance_at
  happen s (begin command body c) = record s {
    workers = s.workers ++ program J command body c ∷ [];
  }
  happen s (next i) =
      let (w, ps) = advance_at i s.workers s.world in record { world = w; workers = ps }

  -- The events in the order in which they happen.
  unfoldable pub happens : Site → List Event → Site
  unfolding happen
  happens s [] = s
  happens s (e ∷ more) = happens (happen s e) more

  abbrev pub quiet : World J → Site
  quiet w = record { world = w; workers = [] }
