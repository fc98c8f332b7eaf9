-- ===== src/Config.antt =====
-- common/Config.h and common/Config.cpp: the configuration and `ConfigLoader::load`. What the file holds is
-- an argument: `none` if it cannot be opened, `some none` if it is no JSON. So is the text of an exception.
pub mod Load
pub mod Checked
use sim_vision_sdk.Prelude.{ℕ, Bool, true, false, List, [], Text, text}
use sim_vision_sdk.Prelude.Int.{ℤ, pos}

pub record AdminServerConfig : Type 0 where
  pub host : Text
  pub port : ℤ
  pub cert_path : Text
  pub key_path : Text
  pub worker_threads : ℤ
  pub server_id : Text

pub record CaptureConfig : Type 0 where
  pub fps : ℤ
  pub data_source_dir : Text
  pub stereo_image_dir : Text
  pub image_width : ℤ
  pub image_height : ℤ
  pub image_channels : ℤ

pub record ZmqConfig : Type 0 where
  pub transport : Text
  pub hwm : ℤ
  pub immediate : Bool
  pub linger_ms : ℤ
  pub pub_id : Text
  pub endpoints : List (Text × Text)

pub record SpscConfig : Type 0 where
  pub queue_size : ℤ
  pub drop_policy : Text
  pub cv_timeout_ms : ℤ

-- `Config`
pub record Settings : Type 0 where
  pub version : ℤ
  pub admin : AdminServerConfig
  pub capture : CaptureConfig
  pub zmq : ZmqConfig
  pub spsc : SpscConfig
  pub log_level : Text

-- the values of the initializers
abbrev pub defaults : Settings
defaults = record {
  version = pos 1;
  admin = record {
    host = text "0.0.0.0";
    port = pos 8443;
    cert_path = text "certs/server.crt";
    key_path = text "certs/server.key";
    worker_threads = pos 4;
    server_id = text "sim_vision_01";
  };
  capture = record {
    fps = pos 15;
    data_source_dir = text "DataSource";
    stereo_image_dir = text "DataSource/StereoImage";
    image_width = pos 1280;
    image_height = pos 720;
    image_channels = pos 4;
  };
  zmq = record {
    transport = text "ipc";
    hwm = pos 10;
    immediate = true;
    linger_ms = pos 1000;
    pub_id = text "sim_vision_pub_01";
    endpoints = [];
  };
  spsc = record { queue_size = pos 8; drop_policy = text "newest"; cv_timeout_ms = pos 10 };
  log_level = text "info";
}
