-- ===== src/Commands/Program.antt =====
-- api/CommandHandler.cpp as one worker thread runs it: a command is a sequence of calls of the other objects,
-- each of which holds its mutex throughout. The other threads may run between two calls. The drains of the
-- pipeline take no mutex: they run in the steps of `try_pop`.
use sim_vision_sdk.Prelude.{
  true, false, not, ◌||◌, Option, none, some, Text, text, text_eq, ◌++◌, if◌then◌else◌,
}
use sim_vision_sdk.Json.{Json}
use sim_vision_sdk.Types.{
  DataType, DataGroup, visual_2d, visual_3d, sensor_data, data_type_to_group,
}
use sim_vision_sdk.Types.Frame.{ChannelFrame}
use sim_vision_sdk.Sessions.{connect, disconnect, is_connected}
use sim_vision_sdk.Channels.{
  start_capture, stop_capture, disconnect_client, activate_channel, deactivate_channel,
  group_active, any_subscriber,
}
use sim_vision_sdk.Queue.Threads.{Consumer, resting}
use sim_vision_sdk.Parameters.{ParamValue, Parameter, set_value, SetResult, accepted, refused, get}
use sim_vision_sdk.Response.{
  Response, respond, from_error, success, error, not_ready, already_init, invalid_param,
}
use sim_vision_sdk.Commands.Objects.{World}
use sim_vision_sdk.Commands.Parse.{expand_types}
use sim_vision_sdk.Commands.Report.{
  value_to_json, param_to_json, check_status, list_channels, list_parameters,
}
use sim_vision_sdk.Commands.{is_nil, types_detail, channel_type, channel_detail, read_value}

module _ (J : Json) where
  open J use {Value, contains, at, get_string}

  -- What is left of a command: `halt` with its response, or with `none` for an exception; or a call, by
  -- what it does to the objects and by what follows. What follows can depend on what the call saw.
  pub data Program : Type 0 where
    halt : Option (Response J) → Program
    call : (World J → World J) → (World J → Program) → Program
    -- `while (queue.try_pop(tmp)) {}`, inside `try_pop` where it is, and what follows
    popping : DataGroup → Consumer ChannelFrame → Program → Program

  abbrev pub answer : Response J → Program
  answer r = halt (some r)

  -- a call that only reads
  abbrev pub query : (World J → Program) → Program
  query next = call (λ w. w) next

  -- a call whose result is not used
  abbrev pub perform : (World J → World J) → Program → Program
  perform f next = call f (λ w. next)

  unfoldable pub connect_program : Text → Program
  connect_program c = query (λ w.
      if is_connected w.sessions c
      then answer (respond J already_init (text "Already connected") J.object)
      else perform (λ v. record v { sessions = (connect v.sessions c).0 })
          (answer (respond J success (text "Connected") J.object)))

  -- `DataPipeline::drain_group`
  abbrev pub drain_group_program : DataGroup → Program → Program
  drain_group_program g next = popping g resting next

  -- `DataPipeline::drain`
  abbrev pub drain_program : Program → Program
  drain_program next =
      drain_group_program visual_2d
        (drain_group_program visual_3d (drain_group_program sensor_data next))

  -- `if (!channels_.any_subscriber())`, and the two drains
  abbrev pub flush_then : Program → Program
  flush_then next =
      query (λ w. if any_subscriber w.channels then next else drain_program (drain_program next))

  unfoldable pub disconnect_program : Text → Program
  disconnect_program c = query (λ w.
      if not (is_connected w.sessions c)
      then answer (from_error J not_ready (text "Not connected"))
      else perform (λ v. record v { channels = (disconnect_client v.channels c).0 })
          (perform (λ v. record v { sessions = (disconnect v.sessions c).0 })
            (flush_then (answer (respond J success (text "Disconnected") J.object)))))

  -- `start_capture` once the client is known to be connected
  abbrev pub start_checked : Value → Text → Program
  start_checked body c =
      if is_nil J (expand_types J body)
      then answer (from_error J invalid_param (text "no valid data_types"))
      else perform (λ v. record v { channels = start_capture v.channels c (expand_types J body) })
          (answer
            (respond J success (text "Capture started") (types_detail J (expand_types J body))))

  unfoldable pub start_capture_program : Value → Text → Program
  start_capture_program body c = query (λ w.
      if not (is_connected w.sessions c)
      then answer (from_error J not_ready (text "not connected — call connect first"))
      else start_checked body c)

  unfoldable pub stop_capture_program : Value → Text → Program
  stop_capture_program body c =
      let types = expand_types J body in
      if is_nil J types
      then answer (from_error J invalid_param (text "no valid data_types"))
      else perform (λ v. record v { channels = stop_capture v.channels c types })
          (flush_then (answer (respond J success (text "Capture stopped") (types_detail J types))))

  abbrev pub activate_read : Option (Option DataType) → Program
  activate_read none = halt none
  activate_read (some none) = answer (from_error J invalid_param (text "invalid data_type"))
  activate_read (some (some t)) =
      call (λ v. record v { channels = (activate_channel v.channels t).0 })
        (λ w. answer (
          respond J success
            (if (activate_channel w.channels t).1
              then text "Channel activated"
              else text "Channel already active")
            (channel_detail J t false)))

  unfoldable pub activate_program : Value → Program
  activate_program body = activate_read (channel_type J body)

  -- `if (!channels_.group_active(...))`, drain the group's queue. `group_active` locks once for each type of
  -- the group; it is one call here.
  abbrev pub drain_group_then : DataType → Program → Program
  drain_group_then t next = query (λ w.
      if group_active w.channels (data_type_to_group t)
      then next
      else drain_group_program (data_type_to_group t) next)

  abbrev pub deactivate_read : Option (Option DataType) → Program
  deactivate_read none = halt none
  deactivate_read (some none) = answer (from_error J invalid_param (text "invalid data_type"))
  deactivate_read (some (some t)) =
      perform (λ v. record v { channels = (deactivate_channel v.channels t).0 })
        (drain_group_then t
          (answer (respond J success (text "Channel deactivated") (channel_detail J t true))))

  unfoldable pub deactivate_program : Value → Program
  deactivate_program body = deactivate_read (channel_type J body)

  -- What `set_value` makes of the parameters.
  abbrev pub after_set : World J → SetResult J → World J
  after_set w (refused message) = w
  after_set w (accepted params) = record w { params = params }

  abbrev pub set_response : Text → Parameter J → ParamValue J → SetResult J → Response J
  set_response name p v (refused message) = from_error J invalid_param message
  set_response name p v (accepted params) = respond J success (text "Parameter set") (
      J.set_field
        (J.set_field (J.set_field J.object (text "name") (J.of_string name)) (text "value")
          (value_to_json J v))
        (text "needs_reopen") (J.of_bool p.needs_reopen))

  abbrev pub set_read_program : Text → Parameter J → Option (ParamValue J) → Program
  set_read_program name p none = halt none
  set_read_program name p (some x) =
      call (λ v. after_set v (set_value J v.params name x))
        (λ w. answer (set_response name p x (set_value J w.params name x)))

  abbrev pub set_found_program : Value → Text → Option (Parameter J) → Program
  set_found_program body name none = answer (from_error J invalid_param (text "unknown parameter"))
  set_found_program body name (some p) =
      set_read_program name p (read_value J p.value (at body (text "value")))

  abbrev pub set_named_program : Value → Option Text → Program
  set_named_program body none = halt none
  set_named_program body (some name) =
      query (λ w. set_found_program body name (get J w.params name))

  unfoldable pub set_parameter_program : Value → Program
  set_parameter_program body =
      if not (contains body (text "name")) || not (contains body (text "value"))
      then answer (from_error J invalid_param (text "missing 'name' or 'value'"))
      else set_named_program body (get_string (at body (text "name")))

  -- A command that only reads. `check_status` and `list_channels` lock several times; they are one call
  -- here.
  abbrev pub report : (World J → Response J) → Program
  report f = query (λ w. answer (f w))

  abbrev pub get_response : Option (Parameter J) → Response J
  get_response none = from_error J invalid_param (text "unknown parameter")
  get_response (some p) = respond J success (text "Success") (param_to_json J p)

  abbrev pub get_named_program : Option Text → Program
  get_named_program none = halt none
  get_named_program (some name) = report (λ w. get_response (get J w.params name))

  unfoldable pub get_parameter_program : Value → Program
  get_parameter_program body =
      if not (contains body (text "name"))
      then answer (from_error J invalid_param (text "missing 'name'"))
      else get_named_program (get_string (at body (text "name")))

  -- `handle`: the first name that fits decides.
  unfoldable pub program : Text → Value → Text → Program
  program command body c =
      if text_eq command (text "connect")
      then connect_program c
      else if text_eq command (text "disconnect")
      then disconnect_program c
      else if text_eq command (text "start_capture")
      then start_capture_program body c
      else if text_eq command (text "stop_capture")
      then stop_capture_program body c
      else if text_eq command (text "activate_channel")
      then activate_program body
      else if text_eq command (text "deactivate_channel")
      then deactivate_program body
      else if text_eq command (text "check_status")
      then report (check_status J)
      else if text_eq command (text "list_channels")
      then report (list_channels J)
      else if text_eq command (text "list_parameters")
      then report (list_parameters J)
      else if text_eq command (text "get_parameter")
      then get_parameter_program body
      else if text_eq command (text "set_parameter")
      then set_parameter_program body
      else if text_eq command (text "init")
      then answer (from_error J already_init (text "Already initialized"))
      else if text_eq command (text "dispose")
      then answer (from_error J error (text "Not permitted via API"))
      else answer (from_error J invalid_param (text "unknown command: " ++ command))
