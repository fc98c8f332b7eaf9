-- ===== src/Commands/Objects.antt =====
-- What the command handler works on: the objects that its constructor is given, all of them present, as
-- `main` wires it. `DataPublisher::drain` drains the same pipeline.
use sim_vision_sdk.Prelude.{ℕ}
use sim_vision_sdk.Json.{Json}
use sim_vision_sdk.Types.Frame.{ChannelFrame}
use sim_vision_sdk.Sessions.{Sessions}
use sim_vision_sdk.Channels.{ChannelManager}
use sim_vision_sdk.Parameters.{Parameters}
use sim_vision_sdk.Pipeline.{Pipeline, drain}
use sim_vision_sdk.Publisher.{PublisherStats}

pub record World (J : Json) : Type 0 where
  pub sessions : Sessions
  pub channels : ChannelManager
  pub params : Parameters J
  pub pipeline : Pipeline ChannelFrame
  pub publisher : PublisherStats
  pub pair_count : ℕ
  pub frames_produced : ℕ

-- `pipeline_->drain(); publisher_->drain();`
unfoldable pub flush : {A : Type 0} → Pipeline A → Pipeline A
flush p = drain (drain p)
