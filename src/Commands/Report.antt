-- ===== src/Commands/Report.antt =====
-- The answers of the query commands, and `ChannelManager::status_json`.
use sim_vision_sdk.Prelude.{ℕ, true, List, [], ◌∷◌, map, Text, text, length, ltb, if◌then◌else◌}
use sim_vision_sdk.Json.{Json}
use sim_vision_sdk.Source.{version_tag}
use sim_vision_sdk.Types.{
  DataType, stereo_image, depth_map, point_cloud, imu, disparity_map, confidence_map, temperature,
  magnetometer, barometer, data_type_to_string, data_type_to_group, group_to_string, all_data_types,
}
use sim_vision_sdk.Sessions.{session_count}
use sim_vision_sdk.Channels.{State, ChannelManager, state_active, is_active, subscriber_count}
use sim_vision_sdk.Pipeline.{stats}
use sim_vision_sdk.Parameters.{
  ParamValue, integer, float, enum, Parameter, param_variant_type_name, all,
}
use sim_vision_sdk.Response.{Response, respond, success}
use sim_vision_sdk.Commands.Objects.{World}

-- `static_cast<DataType>(k)`. Only the nine keys of the types are ever stored.
abbrev pub key_type : ℕ → DataType
key_type k =
    if ltb k 1
    then stereo_image
    else if ltb k 2
    then depth_map
    else if ltb k 3
    then point_cloud
    else if ltb k 4
    then imu
    else if ltb k 5
    then disparity_map
    else if ltb k 6
    then confidence_map
    else if ltb k 7
    then temperature
    else if ltb k 8
    then magnetometer
    else barometer

module _ (J : Json) where
  open J use {Value, object, set_field, of_string, of_integer, of_nat, of_float, of_bool, of_list}

  -- `j = {}; j[k] = v; …`
  abbrev fields : Value → List (Text × Value) → Value
  fields j [] = j
  fields j ((k, v) ∷ more) = fields (set_field j k v) more

  unfoldable pub value_to_json : ParamValue J → Value
  value_to_json (integer i) = of_integer i
  value_to_json (float x) = of_float x
  value_to_json (enum s) = of_string s

  abbrev bounds : Parameter J → ParamValue J → Value → Value
  bounds p (enum s) j = j
  bounds p _ j =
      set_field (set_field j (text "min") (value_to_json p.min)) (text "max") (value_to_json p.max)

  abbrev options : List Text → Value → Value
  options [] j = j
  options (o ∷ os) j = set_field j (text "enum_options") (of_list (map (λ s. of_string s) (o ∷ os)))

  unfoldable pub param_to_json : Parameter J → Value
  param_to_json p = options p.enum_options (
      bounds p p.value (
        fields object (
          (text "name", of_string p.name)
          ∷ (text "type", of_string (param_variant_type_name J p.value))
          ∷ (text "value", value_to_json p.value)
          ∷ (text "default", value_to_json p.default_value)
          ∷ (text "is_readonly", of_bool p.is_readonly)
          ∷ (text "is_available", of_bool p.is_available)
          ∷ (text "needs_reopen", of_bool p.needs_reopen)
          ∷ [])))

  abbrev channel_status : ℕ × State → Value
  channel_status (k, s) = fields object (
      (text "data_type", of_string (data_type_to_string (key_type k)))
      ∷ (text "group", of_string (group_to_string (data_type_to_group (key_type k))))
      ∷ (text "subscribers", of_nat s.subscriber_count)
      ∷ (text "activated", of_bool (state_active s))
      ∷ (text "force_active", of_bool s.force_active)
      ∷ [])

  unfoldable pub status_json : ChannelManager → Value
  status_json cm = fields object (
      (text "total_clients", of_nat (length cm.clients))
      ∷ (text "channels", of_list (map channel_status cm.states))
      ∷ [])

  unfoldable pub check_status : World J → Response J
  check_status w =
      let s = stats w.pipeline in
      let p = w.publisher in
      respond J success (text "Status") (
        fields object (
          (text "initialized", of_bool true)
          ∷ (text "sessions", of_nat (session_count w.sessions))
          ∷ (text "simulator", of_string version_tag)
          ∷ (text "stereo_pairs_loaded", of_nat w.pair_count)
          ∷ (text "frames_produced", of_nat w.frames_produced)
          ∷ (text "channels", status_json w.channels)
          ∷ (
            text "publisher",
            fields object (
                (text "sent_2d", of_nat p.sent_2d)
                ∷ (text "sent_3d", of_nat p.sent_3d)
                ∷ (text "sent_sensor", of_nat p.sent_sensor)
                ∷ (text "dropped_hwm", of_nat p.dropped_hwm)
                ∷ (text "shutdown_sent", of_nat p.shutdown_sent)
                ∷ []),
          )
          ∷ (
            text "pipeline",
            fields object (
                (text "pushed_2d", of_nat s.pushed_2d)
                ∷ (text "pushed_3d", of_nat s.pushed_3d)
                ∷ (text "pushed_sensor", of_nat s.pushed_sensor)
                ∷ (text "dropped_2d", of_nat s.dropped_2d)
                ∷ (text "dropped_3d", of_nat s.dropped_3d)
                ∷ (text "dropped_sensor", of_nat s.dropped_sensor)
                ∷ (text "queue_2d", of_nat s.queue_2d)
                ∷ (text "queue_3d", of_nat s.queue_3d)
                ∷ (text "queue_sensor", of_nat s.queue_sensor)
                ∷ []),
          )
          ∷ []))

  abbrev listed : ChannelManager → DataType → Value
  listed cm t = fields object (
      (text "data_type", of_string (data_type_to_string t))
      ∷ (text "group", of_string (group_to_string (data_type_to_group t)))
      ∷ (text "supported", of_bool true)
      ∷ (text "activated", of_bool (is_active cm t))
      ∷ (text "subscribers", of_nat (subscriber_count cm t))
      ∷ [])

  unfoldable pub list_channels : World J → Response J
  list_channels w =
      respond J success (text "Channels")
        (set_field object (text "channels") (of_list (map (listed w.channels) all_data_types)))

  unfoldable pub list_parameters : World J → Response J
  list_parameters w =
      respond J success (text "Parameters")
        (set_field object (text "parameters") (of_list (map param_to_json (all J w.params))))
