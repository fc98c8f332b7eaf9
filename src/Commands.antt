-- ===== src/Commands.antt =====
-- api/CommandHandler.h and api/CommandHandler.cpp: the commands. A command returns the new state and its
-- response, or `none` where a `nlohmann::json::exception` leaves it; nothing on the way catches one.
pub mod Objects
pub mod Parse
pub mod Report
pub mod Linked
pub mod Invariant
pub mod Flushes
pub mod Throws
pub mod Names
pub mod Program
pub mod Workers
pub mod Kept
pub mod Interleaved
pub mod Race
use sim_vision_sdk.Prelude.{
  ℕ, Bool, true, false, not, ◌||◌, Option, none, some, List, [], ◌∷◌, ◌++◌, map, Text, text,
  text_eq, to_lower, if◌then◌else◌,
}
use sim_vision_sdk.Prelude.Int.{ℤ}
use sim_vision_sdk.Json.{Json}
use sim_vision_sdk.Types.{DataType, data_type_to_string, data_type_from_string, data_type_to_group}
use sim_vision_sdk.Sessions.{connect, disconnect, is_connected}
use sim_vision_sdk.Channels.{
  start_capture, stop_capture, disconnect_client, activate_channel, deactivate_channel,
  group_active, any_subscriber,
}
use sim_vision_sdk.Pipeline.{drain_group}
use sim_vision_sdk.Parameters.{
  ParamValue, integer, float, enum, Parameter, set_value, SetResult, accepted, refused, get,
}
use sim_vision_sdk.Response.{
  Response, respond, from_error, success, error, not_ready, already_init, invalid_param,
}
use Objects.{World, flush}
use Parse.{expand_types}
use Report.{value_to_json, param_to_json, check_status, list_channels, list_parameters}

module _ (J : Json) where
  open J use {
    Value, contains, at, get_string, get_integer, get_float, object, set_field, of_string, of_bool,
    of_list,
  }

  -- a command's result
  abbrev pub Result : Type 0
  Result = Option (World J × Response J)

  abbrev pub done : World J → Response J → Result
  done w r = some (w, r)

  -- The command returns, and what it returns satisfies `P`.
  abbrev pub Returns : Result → (World J → Response J → Type 0) → Type 0
  Returns none P = ⊥
  Returns (some (w, r)) P = P w r

  unfoldable pub cmd_connect : World J → Text → Result
  cmd_connect w client_id =
      if is_connected w.sessions client_id
      then done w (respond J already_init (text "Already connected") object)
      else done (record w { sessions = (connect w.sessions client_id).0 })
          (respond J success (text "Connected") object)

  -- `if (!channels_.any_subscriber())`, drain the pipeline and the publisher
  unfoldable pub flush_if_idle : World J → World J
  flush_if_idle w =
      if any_subscriber w.channels then w else record w { pipeline = flush w.pipeline }

  unfoldable pub cmd_disconnect : World J → Text → Result
  cmd_disconnect w client_id =
      if not (is_connected w.sessions client_id)
      then done w (from_error J not_ready (text "Not connected"))
      else done
          (flush_if_idle (record w {
            channels = (disconnect_client w.channels client_id).0;
            sessions = (disconnect w.sessions client_id).0;
          }))
          (respond J success (text "Disconnected") object)

  -- `r.detail["data_types"]` for the types of the request
  abbrev pub types_detail : List DataType → Value
  types_detail types =
      set_field object (text "data_types")
        (of_list (map (λ t. of_string (data_type_to_string t)) types))

  abbrev pub is_nil : List DataType → Bool
  is_nil [] = true
  is_nil (_ ∷ _) = false

  unfoldable pub cmd_start_capture : World J → Value → Text → Result
  cmd_start_capture w body client_id =
      if not (is_connected w.sessions client_id)
      then done w (from_error J not_ready (text "not connected — call connect first"))
      else if is_nil (expand_types J body)
      then done w (from_error J invalid_param (text "no valid data_types"))
      else done (record w { channels = start_capture w.channels client_id (expand_types J body) })
          (respond J success (text "Capture started") (types_detail (expand_types J body)))

  unfoldable pub cmd_stop_capture : World J → Value → Text → Result
  cmd_stop_capture w body client_id =
      if is_nil (expand_types J body)
      then done w (from_error J invalid_param (text "no valid data_types"))
      else done
          (flush_if_idle
            (record w { channels = stop_capture w.channels client_id (expand_types J body) }))
          (respond J success (text "Capture stopped") (types_detail (expand_types J body)))

  abbrev from_lower : Option Text → Option (Option DataType)
  from_lower none = none
  from_lower (some s) = some (data_type_from_string (to_lower s))

  -- `!body.contains("data_type") || !data_type_from_string(to_lower(...), t)`: the outer option is the
  -- exception of `get<std::string>()`, the inner one the type, if it is one.
  unfoldable pub channel_type : Value → Option (Option DataType)
  channel_type body =
      if not (contains body (text "data_type"))
      then some none
      else from_lower (get_string (at body (text "data_type")))

  -- `r.detail` of the two channel commands
  abbrev pub channel_detail : DataType → Bool → Value
  channel_detail t restart =
      set_field (set_field object (text "data_type") (of_string (data_type_to_string t)))
        (text "restart_required") (of_bool restart)

  unfoldable pub cmd_activate_channel : World J → Value → Result
  cmd_activate_channel w body = elim (channel_type body) [
    | none ↦ none
    | some none ↦ done w (from_error J invalid_param (text "invalid data_type"))
    | some (some t) ↦
        let (channels, changed) = activate_channel w.channels t in
        done (record w { channels = channels })
          (respond J success
            (if changed then text "Channel activated" else text "Channel already active")
            (channel_detail t false))
  ]

  -- `if (!channels_.group_active(...))`, drain the group's queue
  unfoldable pub drain_if_inactive : World J → DataType → World J
  drain_if_inactive w t =
      if group_active w.channels (data_type_to_group t)
      then w
      else record w { pipeline = drain_group w.pipeline (data_type_to_group t) }

  unfoldable pub cmd_deactivate_channel : World J → Value → Result
  cmd_deactivate_channel w body = elim (channel_type body) [
    | none ↦ none
    | some none ↦ done w (from_error J invalid_param (text "invalid data_type"))
    | some (some t) ↦
        done (drain_if_inactive (record w { channels = (deactivate_channel w.channels t).0 }) t)
          (respond J success (text "Channel deactivated") (channel_detail t true))
  ]

  -- `cmd_get_parameter` on the name that was read
  abbrev get_found : World J → Option (Parameter J) → Result
  get_found w none = done w (from_error J invalid_param (text "unknown parameter"))
  get_found w (some p) = done w (respond J success (text "Success") (param_to_json J p))

  abbrev get_named : World J → Option Text → Result
  get_named w none = none
  get_named w (some name) = get_found w (get J w.params name)

  unfoldable pub cmd_get_parameter : World J → Value → Result
  cmd_get_parameter w body =
      if not (contains body (text "name"))
      then done w (from_error J invalid_param (text "missing 'name'"))
      else get_named w (get_string (at body (text "name")))

  abbrev to_integer : Option ℤ → Option (ParamValue J)
  to_integer none = none
  to_integer (some i) = some (integer i)

  abbrev to_float : Option J.Float → Option (ParamValue J)
  to_float none = none
  to_float (some x) = some (float x)

  abbrev to_enum : Option Text → Option (ParamValue J)
  to_enum none = none
  to_enum (some s) = some (enum s)

  -- `body["value"].get<T>()` for the alternative of the parameter's value
  unfoldable pub read_value : ParamValue J → Value → Option (ParamValue J)
  read_value (integer _) v = to_integer (get_integer v)
  read_value (float _) v = to_float (get_float v)
  read_value (enum _) v = to_enum (get_string v)

  -- the answer to an accepted or refused `set_value`
  abbrev set_answer : World J → Text → Parameter J → ParamValue J → SetResult J → Result
  set_answer w name p v (refused err) = done w (from_error J invalid_param err)
  set_answer w name p v (accepted params) =
      done (record w { params = params })
        (respond J success (text "Parameter set") (
          set_field
            (set_field (set_field object (text "name") (of_string name)) (text "value")
              (value_to_json J v))
            (text "needs_reopen") (of_bool p.needs_reopen)))

  abbrev set_read : World J → Text → Parameter J → Option (ParamValue J) → Result
  set_read w name p none = none
  set_read w name p (some v) = set_answer w name p v (set_value J w.params name v)

  abbrev set_found : World J → Value → Text → Option (Parameter J) → Result
  set_found w body name none = done w (from_error J invalid_param (text "unknown parameter"))
  set_found w body name (some p) = set_read w name p (read_value p.value (at body (text "value")))

  abbrev set_named : World J → Value → Option Text → Result
  set_named w body none = none
  set_named w body (some name) = set_found w body name (get J w.params name)

  unfoldable pub cmd_set_parameter : World J → Value → Result
  cmd_set_parameter w body =
      if not (contains body (text "name")) || not (contains body (text "value"))
      then done w (from_error J invalid_param (text "missing 'name' or 'value'"))
      else set_named w body (get_string (at body (text "name")))

  -- `handle`: the first name that fits decides.
  unfoldable pub handle : World J → Text → Value → Text → Result
  handle w command body client_id =
      if text_eq command (text "connect")
      then cmd_connect w client_id
      else if text_eq command (text "disconnect")
      then cmd_disconnect w client_id
      else if text_eq command (text "start_capture")
      then cmd_start_capture w body client_id
      else if text_eq command (text "stop_capture")
      then cmd_stop_capture w body client_id
      else if text_eq command (text "activate_channel")
      then cmd_activate_channel w body
      else if text_eq command (text "deactivate_channel")
      then cmd_deactivate_channel w body
      else if text_eq command (text "check_status")
      then done w (check_status J w)
      else if text_eq command (text "list_channels")
      then done w (list_channels J w)
      else if text_eq command (text "list_parameters")
      then done w (list_parameters J w)
      else if text_eq command (text "get_parameter")
      then cmd_get_parameter w body
      else if text_eq command (text "set_parameter")
      then cmd_set_parameter w body
      else if text_eq command (text "init")
      then done w (from_error J already_init (text "Already initialized"))
      else if text_eq command (text "dispose")
      then done w (from_error J error (text "Not permitted via API"))
      else done w (from_error J invalid_param (text "unknown command: " ++ command))
