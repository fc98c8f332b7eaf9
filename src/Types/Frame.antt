-- ===== src/Types/Frame.antt =====
-- common/Types.h: what the capture engine hands to the publisher. An `int` or `int64_t` that the sources
-- only copy is an integer; a `uint64_t` is a number.
use sim_vision_sdk.Prelude.{ℕ, Bool, List, Text}
use sim_vision_sdk.Prelude.Int.{ℤ}
use sim_vision_sdk.Types.{DataType, DataGroup}

-- `DataBundle`, its bytes in `bytes`
pub record DataBundle : Type 0 where
  pub type : DataType
  pub part_id : Text
  pub bytes : List ℕ
  pub ts_sec : ℤ
  pub ts_nsec : ℤ
  pub source : Text
  pub format : Text
  pub is_encoded : Bool
  pub channels : ℤ
  pub code : Text
  pub right_channels : ℤ
  pub right_code : Text
  pub width : ℤ
  pub height : ℤ

pub record ChannelFrame : Type 0 where
  pub group : DataGroup
  pub ts_sec : ℤ
  pub ts_nsec : ℤ
  pub pair_id : ℕ
  pub frame_index : ℕ
  pub pub_id : Text
  pub bundles : List DataBundle
