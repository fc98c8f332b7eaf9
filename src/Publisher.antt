-- ===== src/Publisher.antt =====
-- data/DataPublisher.h and data/DataPublisher.cpp: how a frame becomes a multipart message. The clock's
-- readings are arguments. `none` is the exception of a header that cannot be dumped.
pub mod Wire
pub mod Running
pub mod Counted
pub mod Started
pub mod Delivered
pub mod Round
use sim_vision_sdk.Prelude.{
  ℕ, Bool, true, false, not, Option, none, some, List, [], ◌∷◌, ◌++◌, map, Text, text,
  if◌then◌else◌, length,
}
use sim_vision_sdk.Prelude.Int.{ℤ, pos, leb_ℤ}
use sim_vision_sdk.Json.{Json}
use sim_vision_sdk.Zmq.{Zmq}
use sim_vision_sdk.Types.{DataGroup, visual_2d, visual_3d, sensor_data, group_to_string}
use sim_vision_sdk.Types.Frame.{DataBundle, ChannelFrame}
use sim_vision_sdk.Queue.{inc}
use sim_vision_sdk.Source.{version_tag}

-- `PublisherStats`
pub record PublisherStats : Type 0 where
  pub sent_2d : ℕ
  pub sent_3d : ℕ
  pub sent_sensor : ℕ
  pub dropped_hwm : ℕ
  pub shutdown_sent : ℕ

-- the counter of the group, one up
unfoldable pub count_sent : DataGroup → PublisherStats → PublisherStats
count_sent visual_2d st = record st { sent_2d = inc st.sent_2d }
count_sent visual_3d st = record st { sent_3d = inc st.sent_3d }
count_sent sensor_data st = record st { sent_sensor = inc st.sent_sensor }

abbrev pub count_dropped : PublisherStats → PublisherStats
count_dropped st = record st { dropped_hwm = inc st.dropped_hwm }

abbrev pub has_more : {A : Type 0} → List A → Bool
has_more [] = false
has_more (_ ∷ _) = true

module _ (J : Json) where
  open J use {Value, object, set_field, of_string, of_integer, of_nat, of_bool, of_list, dump}

  abbrev positive : ℤ → Bool
  positive i = leb_ℤ (pos 1) i

  -- the entry of a bundle in `parts`
  unfoldable pub part_json : DataBundle → Value
  part_json b =
      let p =
        set_field
          (set_field (set_field object (text "id") (of_string b.part_id)) (text "size")
            (of_nat (length b.bytes)))
          (text "format") (of_string b.format) in
      let image =
        set_field
          (set_field
            (set_field
              (set_field (set_field p (text "is_encoded") (of_bool b.is_encoded)) (text "channels")
                (of_integer b.channels))
              (text "channel_layout") (of_string b.code))
            (text "width") (of_integer b.width))
          (text "height") (of_integer b.height) in
      let right =
        if positive b.right_channels
        then set_field image (text "right_channels") (of_integer b.right_channels)
        else image in
      if positive b.width
      then (if has_more b.right_code
          then set_field right (text "right_channel_layout") (of_string b.right_code)
          else right)
      else p

  -- the header of a frame
  unfoldable pub header_json : Text → ChannelFrame → ℤ → ℤ → Value
  header_json pub_id frame pub_sec pub_nsec =
      let a = set_field object (text "group") (of_string (group_to_string frame.group)) in
      let b = set_field a (text "ts_sec") (of_integer frame.ts_sec) in
      let c = set_field b (text "ts_nsec") (of_integer frame.ts_nsec) in
      let d = set_field c (text "pair_id") (of_nat frame.pair_id) in
      let e = set_field d (text "active") (of_bool true) in
      let f =
        set_field e (text "pub_id")
          (of_string (if has_more frame.pub_id then frame.pub_id else pub_id)) in
      let g = set_field f (text "frame_index") (of_nat frame.frame_index) in
      let h = set_field g (text "source") (of_string version_tag) in
      let i = set_field h (text "pub_ts_sec") (of_integer pub_sec) in
      let j = set_field i (text "pub_ts_nsec") (of_integer pub_nsec) in
      set_field j (text "parts") (of_list (map part_json frame.bundles))

module _ (Z : Zmq) where
  open Z use {Socket, new_hint, msg_init_data, msg_init_size, msg_send}

  -- `send_frame`: a part that is kept alive is passed on without a copy.
  unfoldable pub send_frame : Socket → List ℕ → Bool → Bool → Socket × Bool
  send_frame s bytes more keep =
      if keep
      then (if not (new_hint s)
          then (s, false)
          else if not (msg_init_data s bytes)
          then (s, false)
          else msg_send s bytes more)
      else if not (msg_init_size s (length bytes))
      then (s, false)
      else msg_send s bytes more

  -- The loop over the payloads, which stops at the first failure.
  unfoldable pub send_payloads : Socket → List DataBundle → Socket × Bool
  send_payloads s [] = (s, true)
  send_payloads s (b ∷ more) =
      let (s', ok) = send_frame s b.bytes (has_more more) true in
      let rest = send_payloads s' more in if ok then rest else (s', false)

  -- The parts of a message behind its dumped header, and the counters.
  unfoldable pub send_parts :
      Socket → PublisherStats → ChannelFrame → Text → Socket × PublisherStats × Bool
  send_parts s st frame header =
      let (s', ok) = send_frame s header (has_more frame.bundles) false in
      let (s'', ok') = send_payloads s' frame.bundles in
      if not ok
      then (s', count_dropped st, false)
      else if not ok'
      then (s'', count_dropped st, false)
      else (s'', count_sent frame.group st, true)

  unfoldable pub send_multipart :
      (J : Json)
      → Text
      → Socket
      → PublisherStats
      → ChannelFrame
      → ℤ
      → ℤ
      → Option (Socket × PublisherStats × Bool)
  send_multipart J pub_id s st frame pub_sec pub_nsec =
      elim (J.dump (header_json J pub_id frame pub_sec pub_nsec)) [
        | none ↦ none
        | some header ↦ some (send_parts s st frame header)
      ]
