-- ===== src/Startup/Main.antt =====
-- main.cpp: `main`, from the configuration to the three threads. What it reads and what the libraries
-- return are arguments.
use sim_vision_sdk.Prelude.{
  ℕ, Bool, true, false, not, Option, none, some, List, [], Text, if◌then◌else◌,
}
use sim_vision_sdk.Json.{Json}
use sim_vision_sdk.Zmq.{Zmq}
use sim_vision_sdk.Config.{Settings}
use sim_vision_sdk.Config.Load as Configuration
use sim_vision_sdk.Source.{Source, no_source, set_image_size, set_image_channels, pair_count}
use sim_vision_sdk.Source.Load as Images
use sim_vision_sdk.Source.Generate.{to_size}
use sim_vision_sdk.Channels as Channels
use sim_vision_sdk.Pipeline.{make_pipeline}
use sim_vision_sdk.Publisher as Frames
use sim_vision_sdk.Publisher.Running.{PerGroup, Publisher, no_frames, construct, publish_shutdown}
use sim_vision_sdk.Publisher.Running as Running
use sim_vision_sdk.Server.Listening.{Calls}
use sim_vision_sdk.Server.Listening as Listening
use sim_vision_sdk.Commands.Objects.{World}
use sim_vision_sdk.Startup.{register_parameters}
use sim_vision_sdk.Startup.Settings.{load_camera_setting}

module _ (J : Json) (Z : Zmq) where
  -- What `main` finds when it starts.
  pub record Surroundings : Type 0 where
    pub config_path : Text
    pub exception_text : Text
    pub config_file : Option (Option J.Value)
    pub settings_file : Option (Option J.Value)
    pub listing : Images.Listing
    pub contents : Text → Option (List ℕ)
    -- the results of `zmq_socket`, and `zmq_bind`
    pub created : PerGroup (Option Z.Socket)
    pub bind : Z.Socket → Text → Z.Socket × Bool
    pub server_calls : Calls

  -- The running process: the shared objects, the loaded images, the publisher, whether the capture thread
  -- runs, and the server's port and number of workers, `none` when it is stopped.
  pub record Node : Type 0 where
    pub world : World J
    pub source : Source
    pub publisher : Publisher Z
    pub capturing : Bool
    pub server : Option (ℕ × ℕ)

  -- How the start ends: with an exception, with an exit code, or with the process ready.
  pub data Start : Type 0 where
    crashes : Start
    exits : ℕ → Start
    ready : Node → Start

  -- The objects before any thread starts.
  unfoldable pub objects : Settings → Option (Option J.Value) → Source → World J
  objects cfg file source = record {
    sessions = [];
    channels = Channels.new;
    params = load_camera_setting J (register_parameters J cfg.capture.fps) file;
    pipeline = make_pipeline (to_size cfg.spsc.queue_size);
    publisher = no_frames;
    pair_count = pair_count source;
    frames_produced = 0;
  }

  -- `CaptureEngine::start`, of an engine that may be running
  abbrev pub start_engine : Bool → Bool × Bool
  start_engine running = (true, not running)

  abbrev pub with_server : Node → Option (ℕ × ℕ) → Start
  with_server node none = exits 1
  with_server node (some listening) = ready (record node { server = some listening })

  -- The three starts, each of which can end the process.
  unfoldable pub start_threads : Surroundings → Settings → Node → Start
  start_threads env cfg node =
      let (publisher, published) = Running.start Z env.bind env.created node.publisher in
      let (capturing, captured) = start_engine node.capturing in
      if not published
      then exits 1
      else if not captured
      then exits 1
      else with_server (record node { publisher = publisher; capturing = capturing })
          (Listening.start env.server_calls cfg.admin)

  abbrev pub with_source : Surroundings → Settings → Images.Loaded → Start
  with_source env cfg none = crashes
  with_source env cfg (some (ok, message, source)) = start_threads env cfg (record {
    world = objects cfg env.settings_file source;
    source = source;
    publisher = construct Z cfg.zmq;
    capturing = false;
    server = none;
  })

  abbrev pub sized : Settings → Source
  sized cfg =
      set_image_channels cfg.capture.image_channels
        (set_image_size cfg.capture.image_width cfg.capture.image_height no_source)

  -- `main` as far as the line that says that the process is ready. The result of `source.load` is ignored.
  unfoldable pub boot : Surroundings → Start
  boot env =
      let (cfg, fault) = Configuration.load J env.config_path env.exception_text env.config_file in
      if Frames.has_more fault
      then exits 1
      else with_source env cfg
          (Images.load env.contents cfg.capture.stereo_image_dir env.listing (sized cfg))
