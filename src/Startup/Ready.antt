-- ===== src/Startup/Ready.antt =====
-- main.cpp: what holds when the process is ready.
use sim_vision_sdk.Prelude.{
  ℕ, ◌≤◌, ◌≡◌, refl, subst, ◌∙◌, Bool, ◌&&◌, true, false, Option, none, some, [], ◌∷◌, Text, arith,
  Bool-cases, inl, inr,
}
use sim_vision_sdk.Prelude.Int.{pos, ◌≤ℤ◌}
use sim_vision_sdk.Json.{Json}
use sim_vision_sdk.Zmq.{Zmq}
use sim_vision_sdk.Config.{Settings}
use sim_vision_sdk.Config.Load as Configuration
use sim_vision_sdk.Config.Checked.{Checked, load-Checked}
use sim_vision_sdk.Source.{Source}
use sim_vision_sdk.Source.Load as Images
use sim_vision_sdk.Prelude.Map.{lookup}
use sim_vision_sdk.Channels as Channels
use sim_vision_sdk.Channels.Valid.{new-Inv}
use sim_vision_sdk.Pipeline.Valid.{make_pipeline-AllValid}
use sim_vision_sdk.Publisher as Frames
use sim_vision_sdk.Publisher.Running.{
  PerGroup, Publisher, construct, send_ctrl, control_on, count_shutdown, then_send,
  publish_shutdown,
}
use sim_vision_sdk.Publisher.Running as Running
use sim_vision_sdk.Publisher.Started.{Started, start-Started}
use sim_vision_sdk.Publisher.Counted.{is_open}
use sim_vision_sdk.Server.Listening as Listening
use sim_vision_sdk.Commands.Invariant.{WorldInv}
use sim_vision_sdk.Startup.Registered.{register_parameters-IsValid}
use sim_vision_sdk.Startup.Settings.{load_camera_setting-IsValid}
use sim_vision_sdk.Startup.Main.{
  Surroundings, Node, Start, crashes, exits, ready, objects, start_threads, with_server,
  with_source, boot,
}

module _ (J : Json) (Z : Zmq) where
  -- The objects that `main` makes are as the commands need them.
  objects-WorldInv :
      (cfg : Settings) (file : Option (Option J.Value)) (source : Source)
      → pos 1 ≤ℤ cfg.capture.fps
      → cfg.capture.fps ≤ℤ pos 120
      → WorldInv J (objects J Z cfg file source)
  unfolding objects lookup Channels.new
  objects-WorldInv cfg file source low high = record {
    counts = new-Inv;
    linked = λ c off. refl;
    queues = make_pipeline-AllValid _;
    values =
        load_camera_setting-IsValid J _ file
          (register_parameters-IsValid J cfg.capture.fps low high);
  }

  -- the configuration that was loaded, with the text of its fault
  abbrev pub configured : Surroundings J Z → Settings × Text
  configured env = Configuration.load J env.config_path env.exception_text env.config_file

  -- What a process that is ready has: valid objects, a publisher that runs with its three sockets, a capture
  -- thread, and a server with some worker.
  pub record IsReady (node : Node J Z) : Type 0 where
    pub objects_valid : WorldInv J node.world
    pub publishing : node.publisher.running ≡ true
    pub sockets_open : is_open Z node.publisher ≡ true
    pub captures : node.capturing ≡ true
    pub serves : (out : ℕ × ℕ) × (node.server ≡ some out) × (1 ≤ out.1)

  -- If the start ends with the process ready, it is as it should be.
  abbrev Ends : Start J Z → Type 0
  Ends crashes = Unit {0}
  Ends (exits code) = code ≡ 1
  Ends (ready node) = IsReady node

  module _ (env : Surroundings J Z) (fine : (configured env).1 ≡ [])
      (slow : (configured env).0.capture.fps ≤ℤ pos 120) where
    cfg : Settings
    cfg = (configured env).0

    checked : Checked J (configured env).0
    checked = load-Checked J env.config_path env.exception_text env.config_file fine

    with_server-Ends :
        (node : Node J Z) (o : Option (ℕ × ℕ))
        → Listening.start env.server_calls (configured env).0.admin ≡ o
        → WorldInv J node.world
        → node.publisher.running ≡ true
        → is_open Z node.publisher ≡ true
        → node.capturing ≡ true
        → Ends (with_server J Z node o)
    with_server-Ends node none e w p s c = refl
    with_server-Ends node (some out) e w p s c = record {
      objects_valid = w;
      publishing = p;
      sockets_open = s;
      captures = c;
      serves = (
        out,
        refl,
        (Listening.start_lem J env.config_path env.exception_text env.config_file env.server_calls
            fine e).0,
      );
    }

    with_source-Ends :
        (loaded : Images.Loaded) → Ends (with_source J Z env (configured env).0 loaded)
    unfolding start_threads construct
    with_source-Ends none = tt
    with_source-Ends (some (ok, message, source)) =
        let begun = Running.start Z env.bind env.created (construct Z (configured env).0.zmq) in
        let started : Started Z env.bind begun =
          start-Started Z env.bind env.created (construct Z (configured env).0.zmq) refl in
        elim (Bool-cases begun.1) [
          | inr e ↦ rw e refl
          | inl e ↦ rw e (
              with_server-Ends
                (record {
                  world = objects J Z (configured env).0 env.settings_file source;
                  source = source;
                  publisher = begun.0;
                  capturing = true;
                  server = none;
                })
                _ refl
                (objects-WorldInv (configured env).0 env.settings_file source checked.fps_from slow)
                (started.0 ∙ e) (all_open begun.1 e started.1) refl)
        ]
      where
        all_open : {o : Bool} (b : Bool) → b ≡ true → (b && o) ≡ b → o ≡ true
        all_open b e h = ground (arith, e, h)

  boot-Ends :
      (env : Surroundings J Z) → (configured env).0.capture.fps ≤ℤ pos 120 → Ends (boot J Z env)
  unfolding boot
  boot-Ends env slow = elim (Bool-cases (Frames.has_more (configured env).1)) [
    | inl e ↦ rw e refl
    | inr e ↦ rw e (with_source-Ends env (empty (configured env).1 e) slow _)
  ]
    where
      empty : (xs : Text) → Frames.has_more xs ≡ false → xs ≡ []
      empty [] e = refl
      empty (_ ∷ _) e = absurd (ground (arith, e))

  -- Let the configured frame rate be at most 120. If `main` comes to the line that says that it is ready, the
  -- objects that it made are as every command needs them, the publisher and the capture thread run, and
  -- the server has a worker.
  pub boot-IsReady :
      (env : Surroundings J Z) {node : Node J Z}
      → (configured env).0.capture.fps ≤ℤ pos 120
      → boot J Z env ≡ ready node
      → IsReady node
  boot-IsReady env slow e = subst Ends e (boot-Ends env slow)
