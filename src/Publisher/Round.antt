-- ===== src/Publisher/Round.antt =====
-- data/DataPublisher.cpp: a round of `run`, from the pipeline's queues to the sockets.
use sim_vision_sdk.Prelude.{
  ℕ, ap, ◌+◌, ◌^◌, ◌≤◌, ◌<◌, ◌≡◌, refl, subst, ◌≢◌, ◌⊎◌, Bool, true, Option, none, some, List, [],
  ◌∷◌, ◌++◌, Text, if◌then◌else◌, arith, length,
}
use sim_vision_sdk.Prelude.Int.{ℤ}
use sim_vision_sdk.Json.{Json}
use sim_vision_sdk.Zmq.{Zmq, SendLaw}
use sim_vision_sdk.Types.{DataGroup, group_eq}
use sim_vision_sdk.Types.Frame.{ChannelFrame}
use sim_vision_sdk.Pipeline.{Pipeline, pop_all}
use sim_vision_sdk.Pipeline.Valid.{AllValid}
use sim_vision_sdk.Pipeline.PopAll.{pending, pop_all-pending}
use sim_vision_sdk.Publisher.Running.{Publisher, send_frames}
use sim_vision_sdk.Publisher.Counted.{is_open, HasHeader, AllHeaders}
use sim_vision_sdk.Publisher.Delivered.{on_wire, message, messages, send_frames_delivers}

-- The frames that are no null pointers, each with the time at which it is sent; the clock is read in their
-- order, from its `n`-th reading on.
unfoldable pub timed : (ℕ → ℤ × ℤ) → ℕ → List (Option ChannelFrame) → List (ChannelFrame × (ℤ × ℤ))
timed clock n [] = []
timed clock n (none ∷ more) = timed clock n more
timed clock n (some frame ∷ more) = (frame, clock n) ∷ timed clock (n + 1) more

length-timed :
    (clock : ℕ → ℤ × ℤ) (n : ℕ) (frames : List (Option ChannelFrame))
    → length (timed clock n frames) ≤ length frames
unfolding timed
length-timed clock n [] = omega arith
length-timed clock n (none ∷ more) = omega (arith, length-timed clock n more)
length-timed clock n (some frame ∷ more) = omega (arith, length-timed clock (n + 1) more)

module _ (Z : Zmq) (J : Json) where
  abbrev sent_round :
      (ℕ → ℤ × ℤ)
      → Publisher Z
      → Bool × List (Option ChannelFrame) × Pipeline ChannelFrame
      → Option (Publisher Z) × Pipeline ChannelFrame
  sent_round clock p (got, frames, pipeline) =
      (if got then send_frames Z J p (timed clock 0 frames) else some p, pipeline)

  -- One round of the loop. What is pushed while `pop_all` waits is an argument, as there; `none` is an
  -- exception.
  unfoldable pub round :
      (ℕ → ℤ × ℤ)
      → Publisher Z
      → Pipeline ChannelFrame
      → List (DataGroup × Option ChannelFrame)
      → List (DataGroup × Option ChannelFrame)
      → Option (Publisher Z) × Pipeline ChannelFrame
  round clock p pipeline during after = sent_round clock p (pop_all pipeline during after)

  module _ (law : SendLaw Z) where
    -- The messages of a group that the queued frames make: null pointers make none, and the frames of other
    -- groups only take their time.
    abbrev pub group_messages :
        (ℕ → ℤ × ℤ) → ℕ → Text → DataGroup → List (Option ChannelFrame) → List (List ℕ × Bool)
    group_messages clock n pub_id g [] = []
    group_messages clock n pub_id g (none ∷ more) = group_messages clock n pub_id g more
    group_messages clock n pub_id g (some frame ∷ more) =
        (if group_eq frame.group g then message Z J law pub_id frame (clock n) else [])
        ++ group_messages clock (n + 1) pub_id g more

    messages-timed :
        (clock : ℕ → ℤ × ℤ) (n : ℕ) (pub_id : Text) (g : DataGroup)
        (frames : List (Option ChannelFrame))
        → messages Z J law pub_id g (timed clock n frames) ≡ group_messages clock n pub_id g frames
    unfolding timed
    messages-timed clock n pub_id g [] = refl
    messages-timed clock n pub_id g (none ∷ more) = messages-timed clock n pub_id g more
    messages-timed clock n pub_id g (some frame ∷ more) =
        ap (◌++◌ (if group_eq frame.group g then message Z J law pub_id frame (clock n) else []))
          (messages-timed clock (n + 1) pub_id g more)

    -- Whenever it is sent, the header of each of the frames can be dumped.
    abbrev pub Dumpable : Text → List (Option ChannelFrame) → Type 0
    Dumpable pub_id [] = Unit {0}
    Dumpable pub_id (none ∷ more) = Dumpable pub_id more
    Dumpable pub_id (some frame ∷ more) =
        ((now : ℤ × ℤ) → HasHeader Z J pub_id frame now) × Dumpable pub_id more

    AllHeaders-timed :
        (clock : ℕ → ℤ × ℤ) (n : ℕ) (pub_id : Text) (frames : List (Option ChannelFrame))
        → Dumpable pub_id frames
        → AllHeaders Z J pub_id (timed clock n frames)
    unfolding timed
    AllHeaders-timed clock n pub_id [] d = tt
    AllHeaders-timed clock n pub_id (none ∷ more) d = AllHeaders-timed clock n pub_id more d
    AllHeaders-timed clock n pub_id (some frame ∷ more) d =
        (d.0 (clock n), AllHeaders-timed clock (n + 1) pub_id more d.1)

    -- If a failed send queues nothing and the headers of the pending frames can be dumped, then with valid queues, frames pending, all
    -- sockets open and the count of drops far from 2 ^ 64 a round returns and leaves no frame pending; a
    -- drop was counted, or each group's socket has accepted, after what it had, the messages of just the
    -- group's pending frames, in the order in which they were queued.
    pub round_delivers :
        (clock : ℕ → ℤ × ℤ) (p : Publisher Z) (pipeline : Pipeline ChannelFrame)
        (during after : List (DataGroup × Option ChannelFrame)) (g : DataGroup)
        → AllValid pipeline
        → pending pipeline ≢ []
        → is_open Z p ≡ true
        → Dumpable p.pub_id (pending pipeline)
        → p.stats.dropped_hwm + length (pending pipeline) < 2 ^ 64
        → let (result, left) = round clock p pipeline during after in
          (pending left ≡ [])
          × ((p' : Publisher Z) × (result ≡ some p')
              × ((p.stats.dropped_hwm < p'.stats.dropped_hwm)
                  ⊎ ((p'.stats.dropped_hwm ≡ p.stats.dropped_hwm)
                      × (on_wire Z p' g
                          ≡ on_wire Z p g
                            ++ group_messages clock 0 p.pub_id g (pending pipeline)))))
    unfolding round
    round_delivers clock p pipeline during after g v ne up headers lt =
        let (got, out, left) = pop_all-pending pipeline during after v ne in
        let (p', e, rest) =
          send_frames_delivers Z J law p (timed clock 0 (pending pipeline)) g up
            (AllHeaders-timed clock 0 p.pub_id (pending pipeline) headers)
            (omega (arith, lt, length-timed clock 0 (pending pipeline))) in
        let same = messages-timed clock 0 p.pub_id g (pending pipeline) in
        (
          left,
          (
            p',
            rw (got, out, round) e,
            subst
                (λ ms.
                  (p.stats.dropped_hwm < p'.stats.dropped_hwm)
                  ⊎ ((p'.stats.dropped_hwm ≡ p.stats.dropped_hwm)
                      × (on_wire Z p' g ≡ on_wire Z p g ++ ms)))
                same rest,
          ),
        )
