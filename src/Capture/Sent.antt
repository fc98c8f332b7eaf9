-- ===== src/Capture/Sent.antt =====
-- capture/CaptureEngine.cpp and data/DataPublisher.cpp together: what a round of the capture's `run` captures, a round
-- of the publisher's sends.
use sim_vision_sdk.Prelude.{
  ℕ, ◌+◌, ◌<◌, ◌^◌, ◌≡◌, ◌≢◌, ◌⊎◌, sym, subst, ap, none, ◌∙◌, true, Option, some, List, [], ◌++◌,
  arith, length,
}
use sim_vision_sdk.Prelude.Int.{ℤ}
use sim_vision_sdk.Json.{Json}
use sim_vision_sdk.Zmq.{Zmq, SendLaw}
use sim_vision_sdk.Types.{DataType, DataGroup, visual_2d, visual_3d, sensor_data}
use sim_vision_sdk.Types.Frame.{ChannelFrame}
use sim_vision_sdk.Pipeline.{Pipeline, queue_of, pushes}
use sim_vision_sdk.Pipeline.Valid.{AllValid}
use sim_vision_sdk.Pipeline.PopAll.{pending}
use sim_vision_sdk.Channels.{ChannelManager, is_active}
use sim_vision_sdk.Parameters.{Parameters}
use sim_vision_sdk.Source.{Source}
use sim_vision_sdk.Capture.{Generators, capture_groups}
use sim_vision_sdk.Capture.Frames.{available}
use sim_vision_sdk.Capture.Generating.{Generates}
use sim_vision_sdk.Capture.Wanted.{shots-wanted}
use sim_vision_sdk.Capture.Rounds.{capture_groups-Passed}
use sim_vision_sdk.Capture.Pushes.{frames, shots, capture_groups_lem, capture_groups-pending}
use sim_vision_sdk.Publisher.Running.{Publisher}
use sim_vision_sdk.Publisher.Counted.{is_open}
use sim_vision_sdk.Publisher.Delivered.{on_wire}
use sim_vision_sdk.Publisher.Round as Publishing

module _ (Z : Zmq) (J : Json) (G : Generators) (law : SendLaw Z) where
  -- Let a failed send queue nothing, the generators throw for no type at the source's size, the queues be valid
  -- and empty, and their counts and the count of drops be far from 2 ^ 64. Then with some active type, and a
  -- pair loaded if it needs one, a round of the capture returns; if the headers of its frames can be
  -- dumped, the publisher's round after it, with all sockets open, returns and leaves no frame pending; a
  -- drop was counted, or each group's socket has accepted, after what it had, the messages of the frame
  -- that was built for the group, if it is active and the frame holds anything, and of no other.
  pub captured_sent :
      (cm : ChannelManager) (params : Parameters J) (sec nsec : ℤ) (index : ℕ) (src : Source)
      (clock : ℕ → ℤ × ℤ) (p : Publisher Z) (pipeline : Pipeline ChannelFrame)
      (during after : List (DataGroup × Option ChannelFrame)) (t : DataType) (g : DataGroup)
      → Generates G src.width src.height
      → AllValid pipeline
      → ((h : DataGroup) → (queue_of pipeline h).head + 3 < 2 ^ 64)
      → pending pipeline ≡ []
      → is_active cm t ≡ true
      → available src.pairs t ≡ true
      → is_open Z p ≡ true
      → Publishing.Dumpable Z J law p.pub_id (frames (shots J G cm params sec nsec index src))
      → p.stats.dropped_hwm + length (frames (shots J G cm params sec nsec index src)) < 2 ^ 64
      → (src' : Source) × (filled : Pipeline ChannelFrame) × (capture_groups J G cm params sec nsec
            index
            (src, pipeline)
          ≡ some (src', filled))
        × (let (result, left) = Publishing.round Z J clock p filled during after in
            (pending left ≡ [])
            × ((p' : Publisher Z) × (result ≡ some p')
                × ((p.stats.dropped_hwm < p'.stats.dropped_hwm)
                    ⊎ ((p'.stats.dropped_hwm ≡ p.stats.dropped_hwm)
                        × (on_wire Z p' g
                            ≡ on_wire Z p g
                              ++ Publishing.group_messages Z J law clock 0 p.pub_id g
                                  (frames (shots J G cm params sec nsec index src)))))))
  captured_sent cm params sec nsec index src clock p pipeline during after t g well v room
        none_waits on can up headers lt =
      let pushed = shots J G cm params sec nsec index src in
      let filled = pushes pipeline pushed in
      let (src', done) = capture_groups_lem J G cm params sec nsec index src pipeline well in
      let e =
        capture_groups-pending J G cm params sec nsec index src pipeline v
          (λ h. omega (arith, room h)) none_waits in
      let valid = captured_valid cm params sec nsec index src pipeline well v room done in
      let (left, (p', sent, rest)) =
        Publishing.round_delivers Z J law clock p filled during after g valid
          (subst (λ fs. fs ≢ []) (sym e)
            (shots-wanted J G cm params sec nsec index src t well on can))
          up (subst (λ fs. Publishing.Dumpable Z J law p.pub_id fs) (sym e) headers)
          (subst (λ fs. p.stats.dropped_hwm + length fs < 2 ^ 64) (sym e) lt) in
      (
        src',
        filled,
        done,
        (
          left,
          (
            p',
            sent,
            subst
                (λ fs.
                  (p.stats.dropped_hwm < p'.stats.dropped_hwm)
                  ⊎ ((p'.stats.dropped_hwm ≡ p.stats.dropped_hwm)
                      × (on_wire Z p' g
                          ≡ on_wire Z p g
                            ++ Publishing.group_messages Z J law clock 0 p.pub_id g fs)))
                e rest,
          ),
        ),
      )
    where
      second : Option (Source × Pipeline ChannelFrame) → Pipeline ChannelFrame
      second none = pipeline
      second (some (s, q)) = q

      captured_valid :
          (cm : ChannelManager) (params : Parameters J) (sec nsec : ℤ) (index : ℕ) (src : Source)
          (pipeline : Pipeline ChannelFrame) {src' : Source} {filled : Pipeline ChannelFrame}
          → Generates G src.width src.height
          → AllValid pipeline
          → ((h : DataGroup) → (queue_of pipeline h).head + 3 < 2 ^ 64)
          → capture_groups J G cm params sec nsec index (src, pipeline) ≡ some (src', filled)
          → AllValid filled
      captured_valid cm params sec nsec index src pipeline well v room done =
          let (s, q, e, _, _, kept) =
            capture_groups-Passed J G 0 cm params sec nsec index src pipeline well
              (v, room visual_2d, room visual_3d, room sensor_data) in
          subst AllValid (ap second (sym e ∙ done)) kept.0
