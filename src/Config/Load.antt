-- ===== src/Config/Load.antt =====
-- common/Config.cpp: `ConfigLoader::load`. A step over the configuration goes on, ends with a fault, or
-- ends with an exception, and leaves the fields that were read before.
use sim_vision_sdk.Prelude.{
  not, ◌||◌, Option, none, some, List, [], ◌∷◌, ◌++◌, Text, text, if◌then◌else◌, length, text-eq,
  ltb,
}
use sim_vision_sdk.Prelude.Int.{ℤ, pos, leb_ℤ, to_int}
use sim_vision_sdk.Prelude.Map
use sim_vision_sdk.Json.{Json}
use sim_vision_sdk.Config.{
  AdminServerConfig, CaptureConfig, ZmqConfig, SpscConfig, Settings, defaults,
}

-- What a check of `load` finds wrong, and its message.
pub data Fault : Type 0 where
  no_admin_server bad_port bad_fps few_endpoints : Fault

abbrev pub message_of : Fault → Text
message_of no_admin_server = text "missing required config field: " ++ text "admin_server"
message_of bad_port = text "invalid admin_server port"
message_of bad_fps = text "invalid capture.fps (must be 1..240)"
message_of few_endpoints = text "zmq.endpoints must define visual_2d, visual_3d, sensor_data"

pub data Outcome (A : Type 0) : Type 0 where
  going : A → Outcome A
  threw : A → Outcome A
  stopped : A → Fault → Outcome A

infixl 5 ◌>>=◌
abbrev pub ◌>>=◌ : {A : Type 0} → Outcome A → (A → Outcome A) → Outcome A
going a >>= f = f a
threw a >>= f = threw a
stopped a fault >>= f = stopped a fault

module _ (J : Json) where
  open J use {Value, contains, at, get_string, get_integer, get_bool, entries}

  -- an assignment of what `get` returned, if it did not throw
  abbrev pub put : {A B : Type 0} → Option B → (B → A → A) → A → Outcome A
  put none f a = threw a
  put (some b) f a = going (f b a)

  -- `if (j.contains(key)) field = j[key].get<T>()`
  abbrev pub field :
      {A B : Type 0} → Value → Text → (Value → Option B) → (B → A → A) → A → Outcome A
  field j key get f a = if contains j key then put (get (at j key)) f a else going a

  abbrev wrapped : Option ℤ → Option ℤ
  wrapped none = none
  wrapped (some i) = some (to_int i)

  -- `get<int>()`
  abbrev pub get_int : Value → Option ℤ
  get_int v = wrapped (get_integer v)

  unfoldable pub read_admin : Value → AdminServerConfig → Outcome AdminServerConfig
  read_admin a c =
      field a (text "host") get_string (λ v c. record c { host = v }) c
      >>= field a (text "port") get_int (λ v c. record c { port = v })
      >>= field a (text "cert_path") get_string (λ v c. record c { cert_path = v })
      >>= field a (text "key_path") get_string (λ v c. record c { key_path = v })
      >>= field a (text "worker_threads") get_int (λ v c. record c { worker_threads = v })
      >>= field a (text "server_id") get_string (λ v c. record c { server_id = v })

  unfoldable pub read_capture : Value → CaptureConfig → Outcome CaptureConfig
  read_capture j c =
      field j (text "fps") get_int (λ v c. record c { fps = v }) c
      >>= field j (text "data_source_dir") get_string (λ v c. record c { data_source_dir = v })
      >>= field j (text "stereo_image_dir") get_string (λ v c. record c { stereo_image_dir = v })
      >>= field j (text "image_width") get_int (λ v c. record c { image_width = v })
      >>= field j (text "image_height") get_int (λ v c. record c { image_height = v })
      >>= field j (text "image_channels") get_int (λ v c. record c { image_channels = v })

  abbrev add_endpoint : Text → Text → ZmqConfig → ZmqConfig
  add_endpoint key v z = record z { endpoints = Map.insert key v z.endpoints }

  abbrev pub read_endpoint : Option Text → Value → ZmqConfig → Outcome ZmqConfig
  read_endpoint none v z = threw z
  read_endpoint (some key) v z = put (get_string v) (add_endpoint key) z

  -- the loop over `z["endpoints"]`
  unfoldable pub read_endpoints : List (Option Text × Value) → ZmqConfig → Outcome ZmqConfig
  read_endpoints [] z = going z
  read_endpoints ((key, v) ∷ more) z = read_endpoint key v z >>= read_endpoints more

  unfoldable pub read_zmq : Value → ZmqConfig → Outcome ZmqConfig
  unfolding read_endpoints
  read_zmq j z =
      field j (text "transport") get_string (λ v c. record c { transport = v }) z
      >>= field j (text "hwm") get_int (λ v c. record c { hwm = v })
      >>= field j (text "immediate") get_bool (λ v c. record c { immediate = v })
      >>= field j (text "linger_ms") get_int (λ v c. record c { linger_ms = v })
      >>= field j (text "pub_id") get_string (λ v c. record c { pub_id = v })
      >>= λ c.
          if contains j (text "endpoints")
          then read_endpoints (entries (at j (text "endpoints"))) c
          else going c

  unfoldable pub read_spsc : Value → SpscConfig → Outcome SpscConfig
  read_spsc j c =
      field j (text "queue_size") get_int (λ v c. record c { queue_size = v }) c
      >>= field j (text "drop_policy") get_string (λ v c. record c { drop_policy = v })
      >>= field j (text "cv_timeout_ms") get_int (λ v c. record c { cv_timeout_ms = v })

  -- What a step over a part of the configuration makes of the whole.
  abbrev pub within : {A : Type 0} → (A → Settings) → Outcome A → Outcome Settings
  within f (going a) = going (f a)
  within f (threw a) = threw (f a)
  within f (stopped a fault) = stopped (f a) fault

  -- `if (j.contains(key)) { const auto& a = j[key]; ... }`
  abbrev pub section :
      {A : Type 0} → Value → Text → (Value → A → Outcome A) → (A → Settings) → A → Outcome Settings
  section j key read f a = if contains j key then within f (read (at j key) a) else going (f a)

  unfoldable pub check_admin : Value → Settings → Outcome Settings
  check_admin j cfg =
      if not (contains j (text "admin_server"))
      then stopped cfg no_admin_server
      else if leb_ℤ cfg.admin.port (pos 0)
      then stopped cfg bad_port
      else going cfg

  unfoldable pub check_capture : Settings → Outcome Settings
  check_capture cfg =
      if leb_ℤ cfg.capture.fps (pos 0) || leb_ℤ (pos 241) cfg.capture.fps
      then stopped cfg bad_fps
      else going cfg

  abbrev at_least_one : ℤ → ℤ
  at_least_one i = if leb_ℤ i (pos 0) then pos 1 else i

  unfoldable pub check_zmq : Settings → Outcome Settings
  check_zmq cfg =
      let z = record (cfg.zmq) { hwm = at_least_one cfg.zmq.hwm } in
      if ltb (length z.endpoints) 3
      then stopped (record cfg { zmq = z }) few_endpoints
      else going (record cfg { zmq = z })

  unfoldable pub raise_queue_size : Settings → Outcome Settings
  raise_queue_size cfg =
      going
        (record cfg { spsc = record (cfg.spsc) { queue_size = at_least_one cfg.spsc.queue_size } })

  abbrev pub version_step : Value → Settings → Outcome Settings
  version_step j cfg = field j (text "version") get_int (λ v c. record c { version = v }) cfg

  abbrev pub admin_step : Value → Settings → Outcome Settings
  admin_step j cfg =
      section j (text "admin_server") read_admin (λ a. record cfg { admin = a }) cfg.admin

  abbrev pub capture_step : Value → Settings → Outcome Settings
  capture_step j cfg =
      section j (text "capture") read_capture (λ a. record cfg { capture = a }) cfg.capture

  abbrev pub zmq_step : Value → Settings → Outcome Settings
  zmq_step j cfg = section j (text "zmq") read_zmq (λ a. record cfg { zmq = a }) cfg.zmq

  abbrev pub spsc_step : Value → Settings → Outcome Settings
  spsc_step j cfg = section j (text "spsc") read_spsc (λ a. record cfg { spsc = a }) cfg.spsc

  abbrev pub log_level_step : Value → Settings → Outcome Settings
  log_level_step j cfg =
      field j (text "log_level") get_string (λ v c. record c { log_level = v }) cfg

  -- the `try` block
  unfoldable pub read_config : Value → Settings → Outcome Settings
  unfolding read_admin read_capture read_zmq read_spsc check_admin check_capture check_zmq
      raise_queue_size
  read_config j cfg =
      version_step j cfg
      >>= admin_step j
      >>= check_admin j
      >>= capture_step j
      >>= check_capture
      >>= zmq_step j
      >>= check_zmq
      >>= spsc_step j
      >>= raise_queue_size
      >>= log_level_step j

  -- the configuration and `err`, which is empty after a success
  abbrev pub finish : Text → Outcome Settings → Settings × Text
  finish what (going cfg) = (cfg, [])
  finish what (threw cfg) = (cfg, text "config field error: " ++ what)
  finish what (stopped cfg fault) = (cfg, message_of fault)

  unfoldable pub load : Text → Text → Option (Option Value) → Settings × Text
  unfolding read_config
  load path what none = (defaults, text "cannot open config file: " ++ path)
  load path what (some none) = (defaults, text "config parse error: " ++ what)
  load path what (some (some j)) = finish what (read_config j defaults)
