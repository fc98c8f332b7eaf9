-- ===== src/Capture/Rounds.antt =====
-- capture/CaptureEngine.cpp: `start`, `stop` and the loop of `run`, in rounds. What a round reads of the channels, the
-- parameters and the clocks is an argument, since other threads change them between two rounds.
use sim_vision_sdk.Prelude.{
  ℕ, ◌+◌, ◌*◌, ◌-◌, ◌^◌, ◌<◌, ◌≤◌, ◌≡◌, refl, ◌∙◌, Bool, true, false, Option, some, List, [], ◌∷◌,
  arith, length, if◌then◌else◌, Bool-cases, inl, inr,
}
use sim_vision_sdk.Prelude.Int.{ℤ}
use sim_vision_sdk.Json.{Json}
use sim_vision_sdk.Types.{DataGroup, visual_2d, visual_3d, sensor_data}
use sim_vision_sdk.Types.Frame.{ChannelFrame}
use sim_vision_sdk.Queue.{Queue, inc, try_push}
use sim_vision_sdk.Pipeline.{Pipeline, push, is_nonempty}
use sim_vision_sdk.Pipeline.Valid.{AllValid, push-AllValid}
use sim_vision_sdk.Channels.{ChannelManager, group_active}
use sim_vision_sdk.Parameters.{Parameters}
use sim_vision_sdk.Source.{Source}
use sim_vision_sdk.Capture.{Generators, period, capture_group, capture_groups}
use sim_vision_sdk.Source.Read.{◌>>=◌}
use sim_vision_sdk.Capture.Generating.{Generates, Generates-size, built_frame}
use sim_vision_sdk.Capture.Pace.{period_lem}

-- `CaptureEngine` with what it owns or writes; `frame_index` is the loop's.
pub record Engine : Type 0 where
  pub source : Source
  pub pipeline : Pipeline ChannelFrame
  pub running : Bool
  pub frame_index : ℕ
  pub frames_produced : ℕ

-- `start`: the thread's loop begins with the index 0.
unfoldable pub start : Engine → Engine × Bool
start e = if e.running then (e, false) else (record e { running = true; frame_index = 0 }, true)

module _ (J : Json) (G : Generators) where
  -- What one round reads.
  pub record Tick : Type 0 where
    pub channels : ChannelManager
    pub params : Parameters J
    pub ts_sec : ℤ
    pub ts_nsec : ℤ
    pub elapsed : ℕ

  abbrev rounded : Tick → Engine → Source × Pipeline ChannelFrame → Engine × ℕ
  rounded t e (source, pipeline) = (
    record e {
      source = source;
      pipeline = pipeline;
      frame_index = inc e.frame_index;
      frames_produced = inc e.frames_produced;
    },
    period J t.params - t.elapsed,
  )

  -- One round, and how many milliseconds it sleeps in the end; `none` is an exception, which leaves the thread
  -- and ends the process.
  unfoldable pub round : Tick → Engine → Option (Engine × ℕ)
  round t e = do
    captured ←
        capture_groups J G t.channels t.params t.ts_sec t.ts_nsec e.frame_index
          (e.source, e.pipeline)
    some (rounded t e captured)

  -- The rounds until `running_` is cleared.
  unfoldable pub run : List Tick → Engine → Option Engine
  run [] e = some (record e { running = false })
  run (t ∷ more) e = do (e', sleep) ← round t e; run more e'

  -- The queues are valid and take this many pushes more before a counter wraps.
  abbrev pub Room : ℕ → Pipeline ChannelFrame → Type 0
  Room n p =
      AllValid p
      × (p.q2d.head + n < 2 ^ 64)
      × (p.q3d.head + n < 2 ^ 64)
      × (p.qsensor.head + n < 2 ^ 64)

  try_push-head :
      (q : Queue ChannelFrame) (frame : Option ChannelFrame)
      → q.head + 1 < 2 ^ 64
      → (try_push q frame).0.head ≤ q.head + 1
  unfolding try_push
  try_push-head q frame lt = ground (arith, lt)

  push-Room :
      (n : ℕ) (p : Pipeline ChannelFrame) (g : DataGroup) (frame : Option ChannelFrame)
      → Room (n + 1) p
      → Room n (push p g frame).0
  unfolding push
  push-Room n p visual_2d frame v = (
    push-AllValid p visual_2d frame (omega (arith, v.1)) v.0,
    omega (arith, v.1, try_push-head p.q2d frame),
    omega (arith, v.2),
    omega (arith, v.3),
  )
  push-Room n p visual_3d frame v = (
    push-AllValid p visual_3d frame (omega (arith, v.2)) v.0,
    omega (arith, v.1),
    omega (arith, v.2, try_push-head p.q3d frame),
    omega (arith, v.3),
  )
  push-Room n p sensor_data frame v = (
    push-AllValid p sensor_data frame (omega (arith, v.3)) v.0,
    omega (arith, v.1),
    omega (arith, v.2),
    omega (arith, v.3, try_push-head p.qsensor frame),
  )

  Room-less : (n : ℕ) (p : Pipeline ChannelFrame) → Room (n + 1) p → Room n p
  Room-less n p v = (v.0, omega (arith, v.1), omega (arith, v.2), omega (arith, v.3))

  Room-if :
      (n : ℕ) (t : Bool) (p q : Pipeline ChannelFrame)
      → Room n p
      → Room n q
      → Room n (if t then p else q)
  Room-if n true p q a b = a
  Room-if n false p q a b = b

  -- A step that returns leaves room, and the size of the source.
  abbrev Passed : ℕ → Source → Option (Source × Pipeline ChannelFrame) → Type 0
  Passed n src o =
      (src' : Source) × (p' : Pipeline ChannelFrame) × (o ≡ some (src', p'))
      × (src'.width ≡ src.width)
      × (src'.height ≡ src.height)
      × Room n p'

  capture_group-Passed :
      (n : ℕ) (cm : ChannelManager) (params : Parameters J) (sec nsec : ℤ) (index : ℕ)
      (g : DataGroup) (src : Source) (p : Pipeline ChannelFrame)
      → Generates G src.width src.height
      → Room (n + 1) p
      → Passed n src (capture_group J G cm params sec nsec index g (src, p))
  unfolding capture_group
  capture_group-Passed n cm params sec nsec index g src p well v =
      elim (Bool-cases (group_active cm g)) [
        | inl e ↦
            let (frame, src', q, _, _, _, _, same) =
              built_frame J G cm params src g sec nsec index [] well in
            (
              src',
              (if is_nonempty frame.bundles then (push p g (some frame)).0 else p),
              rw (e, q) refl,
              same.1,
              same.2,
              Room-if n (is_nonempty frame.bundles) (push p g (some frame)).0 p
                  (push-Room n p g (some frame) v) (Room-less n p v),
            )
        | inr e ↦ (src, p, rw e refl, refl, refl, Room-less n p v)
      ]

  pub capture_groups-Passed :
      (n : ℕ) (cm : ChannelManager) (params : Parameters J) (sec nsec : ℤ) (index : ℕ)
      (src : Source) (p : Pipeline ChannelFrame)
      → Generates G src.width src.height
      → Room (n + 1 + 1 + 1) p
      → Passed n src (capture_groups J G cm params sec nsec index (src, p))
  unfolding capture_groups
  capture_groups-Passed n cm params sec nsec index src p well v =
      let (src1, p1, q1, w1, h1, v1) =
        capture_group-Passed (n + 1 + 1) cm params sec nsec index visual_2d src p well v in
      let well1 = Generates-size G src src1 w1 h1 well in
      let (src2, p2, q2, w2, h2, v2) =
        capture_group-Passed (n + 1) cm params sec nsec index visual_3d src1 p1 well1 v1 in
      let well2 = Generates-size G src1 src2 w2 h2 well1 in
      let (src3, p3, q3, w3, h3, v3) =
        capture_group-Passed n cm params sec nsec index sensor_data src2 p2 well2 v2 in
      (src3, p3, rw (q1, q2) q3, w3 ∙ w2 ∙ w1, h3 ∙ h2 ∙ h1, v3)

  -- After this many rounds: the queues are valid, and each round was counted.
  pub record Ran (n : ℕ) (e e' : Engine) : Type 0 where
    pub queues : AllValid e'.pipeline
    pub produced : e'.frames_produced ≡ e.frames_produced + n
    pub index : e'.frame_index ≡ e.frame_index + n
    pub stopped : e'.running ≡ false

  -- If the generators do not throw for the size of the source, then whatever the channels and the parameters are in
  -- each round, the loop returns, keeps the queues valid and counts each round once in the frame index and in
  -- `frames_produced`, while these and three pushes to each queue's counter for each round stay below 2 ^ 64.
  pub run-Ran :
      (ticks : List Tick) (e : Engine)
      → Generates G e.source.width e.source.height
      → Room (3 * length ticks) e.pipeline
      → e.frames_produced + length ticks < 2 ^ 64
      → e.frame_index + length ticks < 2 ^ 64
      → (e' : Engine) × (run ticks e ≡ some e') × Ran (length ticks) e e'
  unfolding run round
  run-Ran [] e well v lt lt' = (
    record e { running = false },
    refl,
    record { queues = v.0; produced = omega arith; index = omega arith; stopped = refl },
  )
  run-Ran (t ∷ more) e well v lt lt' =
      let n = 3 * length more in
      let room : Room (n + 1 + 1 + 1) e.pipeline =
        (v.0, omega (arith, v.1), omega (arith, v.2), omega (arith, v.3)) in
      let (src', p', q, w, h, room') =
        capture_groups-Passed n t.channels t.params t.ts_sec t.ts_nsec e.frame_index e.source
          e.pipeline well room in
      let next = (rounded t e (src', p')).0 in
      let (e', q', known) =
        run-Ran more next (Generates-size G e.source src' w h well) room' (omega (arith, lt))
          (omega (arith, lt')) in
      (
        e',
        rw q q',
        record {
          queues = known.queues;
          produced = omega (arith, known.produced, lt);
          index = omega (arith, known.index, lt');
          stopped = known.stopped;
        },
      )

  -- A round that returns sleeps for at most a second, and with the work it lasts as long as its period, unless the
  -- work alone lasts longer.
  pub round_lem :
      (t : Tick) (e : Engine) (captured : Source × Pipeline ChannelFrame)
      → ((rounded t e captured).1 ≤ 1000)
        × (period J t.params ≤ (rounded t e captured).1 + t.elapsed)
  round_lem t e captured = (omega (arith, (period_lem J t.params).1), omega arith)
