-- ===== src/Queue/Fifo.antt =====
-- What `ChannelFrameQueue` promises: a FIFO of bounded length that refuses the newest frame.
use sim_vision_sdk.Prelude.{
  ℕ, ◌+◌, Bool, true, false, Option, none, some, List, [], ◌∷◌, ◌++◌, leb, if◌then◌else◌, length,
}

-- The frames, oldest first, and how many were accepted and refused.
pub record Fifo (A : Type 0) : Type 0 where
  pub frames : List (Option A)
  pub accepted : ℕ
  pub refused : ℕ

module _ {A : Type 0} where
  unfoldable pub push : ℕ → Fifo A → Option A → Fifo A × Bool
  push cap s frame =
      if leb cap (length s.frames)
      then (record s { refused = s.refused + 1 }, false)
      else (record s { frames = s.frames ++ frame ∷ []; accepted = s.accepted + 1 }, true)

  abbrev pub pop_from : Fifo A → List (Option A) → Option (Option A × Fifo A)
  pop_from s [] = none
  pop_from s (frame ∷ rest) = some (frame, record s { frames = rest })

  unfoldable pub pop : Fifo A → Option (Option A × Fifo A)
  pop s = pop_from s s.frames
