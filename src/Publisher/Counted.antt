-- ===== src/Publisher/Counted.antt =====
-- What a round of the publisher's loop leaves: open sockets, and every frame counted once.
use sim_vision_sdk.Prelude.{
  ℕ, ◌+◌, ◌≡◌, inl, inr, refl, Bool, true, false, ◌&&◌, Option, none, some, List, [], ◌∷◌, Text,
  if◌then◌else◌, arith, length, Option-cases, text-eq,
}
use sim_vision_sdk.Prelude.Int.{ℤ}
use sim_vision_sdk.Json.{Json}
use sim_vision_sdk.Zmq.{Zmq}
use sim_vision_sdk.Types.{DataGroup, visual_2d, visual_3d, sensor_data, group_eq}
use sim_vision_sdk.Types.Frame.{ChannelFrame}
use sim_vision_sdk.Publisher.{PublisherStats, count_sent, header_json}
use sim_vision_sdk.Publisher.Running.{of_group, put_group, Publisher}

module _ (Z : Zmq) where
  open Z use {Socket}

  abbrev pub is_some : {A : Type 0} → Option A → Bool
  is_some none = false
  is_some (some _) = true

  -- All three sockets are there.
  abbrev pub is_open : Publisher Z → Bool
  is_open p = is_some p.sockets.for_2d && is_some p.sockets.for_3d && is_some p.sockets.for_sensor

  -- Every frame counts once, as sent or as dropped.
  abbrev pub total : PublisherStats → ℕ
  total st = st.sent_2d + st.sent_3d + st.sent_sensor + st.dropped_hwm

  -- The counter of the sent frames of a group.
  abbrev pub sent_of : DataGroup → PublisherStats → ℕ
  sent_of visual_2d st = st.sent_2d
  sent_of visual_3d st = st.sent_3d
  sent_of sensor_data st = st.sent_sensor

  -- How many frames of a group were sent, by which of the frames were; and how many were not.
  abbrev pub sent_in : DataGroup → List (ChannelFrame × (ℤ × ℤ)) → List Bool → ℕ
  sent_in g [] oks = 0
  sent_in g (_ ∷ _) [] = 0
  sent_in g ((frame, now) ∷ more) (ok ∷ oks) =
      let rest = sent_in g more oks in if ok && group_eq frame.group g then rest + 1 else rest

  abbrev pub drops : List Bool → ℕ
  drops [] = 0
  drops (ok ∷ oks) = let rest = drops oks in if ok then rest else rest + 1

  -- The counters agree with which frames were sent.
  abbrev pub Tallied :
      PublisherStats → List (ChannelFrame × (ℤ × ℤ)) → List Bool → PublisherStats → Type 0
  Tallied st frames oks st' =
      (length oks ≡ length frames)
      × ((g : DataGroup) → sent_of g st' ≡ sent_of g st + sent_in g frames oks)
      × (st'.dropped_hwm ≡ st.dropped_hwm + drops oks)

  pub count_sent-dropped :
      (g : DataGroup) (st : PublisherStats) → (count_sent g st).dropped_hwm ≡ st.dropped_hwm
  unfolding count_sent
  count_sent-dropped visual_2d st = refl
  count_sent-dropped visual_3d st = refl
  count_sent-dropped sensor_data st = refl

  pub put_group-open :
      (p : Publisher Z) (g : DataGroup) (s : Socket) (st : PublisherStats)
      → is_open p ≡ true
      → is_open (record p { sockets = put_group p.sockets g (some s); stats = st }) ≡ true
  put_group-open p visual_2d s st e = ground (arith, e)
  put_group-open p visual_3d s st e = ground (arith, e)
  put_group-open p sensor_data s st e = ground (arith, e)

  pub group-socket :
      (p : Publisher Z) (g : DataGroup)
      → is_open p ≡ true
      → (s : Socket) × (of_group p.sockets g ≡ some s)
  group-socket p g e = elim (Option-cases (of_group p.sockets g)) [
    | inl h ↦ absurd (missing g h)
    | inr found ↦ found
  ]
    where
      missing : (g : DataGroup) → of_group p.sockets g ≡ none → ⊥
      missing visual_2d h = ground (arith, e, h)
      missing visual_3d h = ground (arith, e, h)
      missing sensor_data h = ground (arith, e, h)

  module _ (J : Json) where
    -- The header of a frame can be dumped.
    abbrev pub HasHeader : Text → ChannelFrame → ℤ × ℤ → Type 0
    HasHeader pub_id frame (sec, nsec) =
        (header : Text) × (J.dump (header_json J pub_id frame sec nsec) ≡ some header)

    abbrev pub AllHeaders : Text → List (ChannelFrame × (ℤ × ℤ)) → Type 0
    AllHeaders pub_id [] = Unit {0}
    AllHeaders pub_id ((frame, now) ∷ more) = HasHeader pub_id frame now × AllHeaders pub_id more
