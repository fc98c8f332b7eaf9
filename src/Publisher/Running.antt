-- ===== src/Publisher/Running.antt =====
-- data/DataPublisher.cpp: the constructor and the destructor, `start`, `stop`, the loop over the frames that were taken from the pipeline,
-- `send_group`, `publish_shutdown` and `stats`. `zmq_socket` and `zmq_bind` are parameters.
use sim_vision_sdk.Prelude.{
  Bool, true, false, not, Option, none, some, List, [], ◌∷◌, Text, text, if◌then◌else◌, text-eq,
}
use sim_vision_sdk.Prelude.Int.{ℤ}
use sim_vision_sdk.Prelude.Map.{lookup}
use sim_vision_sdk.Json.{Json}
use sim_vision_sdk.Zmq.{Zmq}
use sim_vision_sdk.Config.{ZmqConfig}
use sim_vision_sdk.Types.{DataGroup, visual_2d, visual_3d, sensor_data}
use sim_vision_sdk.Types.Frame.{ChannelFrame}
use sim_vision_sdk.Queue.{inc}
use sim_vision_sdk.Publisher.{PublisherStats, send_frame, send_multipart}

-- the initial values of the counters
abbrev pub no_frames : PublisherStats
no_frames = record { sent_2d = 0; sent_3d = 0; sent_sensor = 0; dropped_hwm = 0; shutdown_sent = 0 }

-- one for each group
pub record PerGroup (A : Type 0) : Type 0 where
  pub for_2d : A
  pub for_3d : A
  pub for_sensor : A

abbrev pub of_group : {A : Type 0} → PerGroup A → DataGroup → A
of_group p visual_2d = p.for_2d
of_group p visual_3d = p.for_3d
of_group p sensor_data = p.for_sensor

abbrev pub put_group : {A : Type 0} → PerGroup A → DataGroup → A → PerGroup A
put_group p visual_2d a = record p { for_2d = a }
put_group p visual_3d a = record p { for_3d = a }
put_group p sensor_data a = record p { for_sensor = a }

abbrev or_default : Text → Option Text → Text
or_default fallback none = fallback
or_default fallback (some endpoint) = endpoint

-- The constructor's endpoints.
unfoldable pub endpoints : List (Text × Text) → PerGroup Text
endpoints configured = record {
  for_2d =
      or_default (text "ipc:///tmp/sim_vision_visual_2d") (lookup (text "visual_2d") configured);
  for_3d =
      or_default (text "ipc:///tmp/sim_vision_visual_3d") (lookup (text "visual_3d") configured);
  for_sensor =
      or_default (text "ipc:///tmp/sim_vision_sensor_data")
        (lookup (text "sensor_data") configured);
}

module _ (Z : Zmq) where
  open Z use {Socket}

  -- `DataPublisher`
  pub record Publisher : Type 0 where
    pub pub_id : Text
    pub bound_to : PerGroup Text
    pub sockets : PerGroup (Option Socket)
    pub running : Bool
    pub stats : PublisherStats

  -- the constructor
  unfoldable pub construct : ZmqConfig → Publisher
  unfolding endpoints
  construct cfg = record {
    pub_id = cfg.pub_id;
    bound_to = endpoints cfg.endpoints;
    sockets = record { for_2d = none; for_3d = none; for_sensor = none };
    running = false;
    stats = no_frames;
  }

  -- `stop`; the thread leaves its loop once `running_` is cleared.
  unfoldable pub stop : Publisher → Publisher
  stop p = if p.running then record p { running = false } else p

  -- the destructor
  unfoldable pub close : Publisher → Publisher
  unfolding stop
  close p = record (stop p) { sockets = record { for_2d = none; for_3d = none; for_sensor = none } }

  module _ (bind : Socket → Text → Socket × Bool) where
    abbrev pub bind_one : Publisher → DataGroup → Socket → Publisher × Bool
    bind_one p g s =
        let (s', ok) = bind s (of_group p.bound_to g) in
        (record p { sockets = put_group p.sockets g (some s') }, ok)

    abbrev pub bind_all : Publisher → Socket → Socket → Socket → Publisher × Bool
    bind_all p a b c =
        let (p', ok) = bind_one p visual_2d a in
        let (p'', ok') = bind_one p' visual_3d b in
        let (p3, ok3) = bind_one p'' sensor_data c in
        if not ok
        then (p', false)
        else if not ok'
        then (p'', false)
        else if not ok3
        then (p3, false)
        else (record p3 { running = true }, true)

    abbrev pub with_sockets :
        Publisher → Option Socket → Option Socket → Option Socket → Publisher × Bool
    with_sockets p (some a) (some b) (some c) = bind_all p a b c
    with_sockets p _ _ _ = (p, false)

    -- `start`, with what the three calls of `zmq_socket` return
    unfoldable pub start : PerGroup (Option Socket) → Publisher → Publisher × Bool
    start created p =
        if p.running
        then (p, false)
        else with_sockets (record p { sockets = created }) created.for_2d created.for_3d
            created.for_sensor

  module _ (J : Json) where
    abbrev pub sent_on :
        Publisher → DataGroup → Option (Socket × PublisherStats × Bool) → Option Publisher
    sent_on p g none = none
    sent_on p g (some (s, st, ok)) =
        some (record p { sockets = put_group p.sockets g (some s); stats = st })

    abbrev pub send_on : Publisher → ChannelFrame → ℤ × ℤ → Option Socket → Option Publisher
    send_on p frame (sec, nsec) none = some p
    send_on p frame (sec, nsec) (some s) =
        sent_on p frame.group (send_multipart Z J p.pub_id s p.stats frame sec nsec)

    -- `send_group`, at this time; `none` is an exception
    unfoldable pub send_group : Publisher → ChannelFrame → ℤ × ℤ → Option Publisher
    send_group p frame now = send_on p frame now (of_group p.sockets frame.group)

    -- The loop over the frames that `pop_all` returned, with a time for each.
    unfoldable pub send_frames : Publisher → List (ChannelFrame × (ℤ × ℤ)) → Option Publisher
    send_frames p [] = some p
    send_frames p ((frame, now) ∷ more) = elim (send_group p frame now) [
      | none ↦ none
      | some p' ↦ send_frames p' more
    ]

    abbrev pub control_json : Text → ℤ × ℤ → J.Value
    control_json pub_id (sec, nsec) =
        let a = J.set_field J.object (text "event") (J.of_string (text "server_shutdown")) in
        let b = J.set_field a (text "pub_id") (J.of_string pub_id) in
        let c = J.set_field b (text "ts_sec") (J.of_integer sec) in
        J.set_field c (text "ts_nsec") (J.of_integer nsec)

    abbrev pub count_shutdown : Bool → PublisherStats → PublisherStats
    count_shutdown ok st = if ok then record st { shutdown_sent = inc st.shutdown_sent } else st

    abbrev pub control_on : Publisher → DataGroup → Option Text → Option Socket → Option Publisher
    control_on p g header none = some p
    control_on p g none (some s) = none
    control_on p g (some header) (some s) =
        let (s', ok) = send_frame Z s header false false in
        some (record p {
          sockets = put_group p.sockets g (some s');
          stats = count_shutdown ok p.stats;
        })

    unfoldable pub send_ctrl : Publisher → DataGroup → ℤ × ℤ → Option Publisher
    send_ctrl p g now = control_on p g (J.dump (control_json p.pub_id now)) (of_group p.sockets g)

    abbrev pub then_send : DataGroup → ℤ × ℤ → Option Publisher → Option Publisher
    then_send g now none = none
    then_send g now (some p) = send_ctrl p g now

    -- `publish_shutdown`, with the time of each message
    unfoldable pub publish_shutdown : Publisher → PerGroup (ℤ × ℤ) → Option Publisher
    publish_shutdown p now =
        then_send sensor_data now.for_sensor
          (then_send visual_3d now.for_3d (send_ctrl p visual_2d now.for_2d))
