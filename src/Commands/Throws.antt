-- ===== src/Commands/Throws.antt =====
-- Which commands can end in an exception, and which change nothing.
use sim_vision_sdk.Prelude.{
  ◌≡◌, refl, Bool, true, false, ◌||◌, Option, none, some, Text, text, text_eq, arith, Bool-cases,
  ◌⊎◌, inl, inr,
}
use sim_vision_sdk.Json.{Json, StringLaw}
use sim_vision_sdk.Parameters.{Parameter, get}
use sim_vision_sdk.Commands.Objects.{World}
use sim_vision_sdk.Commands.{
  Result, cmd_activate_channel, cmd_deactivate_channel, cmd_get_parameter, channel_type, handle,
  get_found, get_named,
}

-- The commands that read a field of the body with `get<std::string>()` and no check of its type.
abbrev pub reads_field : Text → Bool
reads_field command =
    text_eq command (text "activate_channel")
    || text_eq command (text "deactivate_channel")
    || text_eq command (text "get_parameter")
    || text_eq command (text "set_parameter")

-- The commands that may change the state.
abbrev pub is_writer : Text → Bool
is_writer command =
    text_eq command (text "connect")
    || text_eq command (text "disconnect")
    || text_eq command (text "start_capture")
    || text_eq command (text "stop_capture")
    || text_eq command (text "activate_channel")
    || text_eq command (text "deactivate_channel")
    || text_eq command (text "set_parameter")

module _ (J : Json) where
  open J use {contains, at, is_string, get_string}

  channel_type_throws :
      (body : J.Value)
      → StringLaw J
      → contains body (text "data_type") ≡ true
      → is_string (at body (text "data_type")) ≡ false
      → channel_type J body ≡ none
  unfolding channel_type
  channel_type_throws body law has no_string =
      ground (arith, has, law (at body (text "data_type")) no_string)

  -- If `get<std::string>()` fails on what is no string, a request to activate or deactivate a channel whose
  -- `data_type` is no string ends in an exception.
  pub channel_command_throws :
      (w : World J) (command : Text) (body : J.Value) (c : Text)
      → StringLaw J
      → (command ≡ text "activate_channel") ⊎ (command ≡ text "deactivate_channel")
      → contains body (text "data_type") ≡ true
      → is_string (at body (text "data_type")) ≡ false
      → handle J w command body c ≡ none
  unfolding handle cmd_activate_channel cmd_deactivate_channel
  channel_command_throws w command body c law (inl e) has no_string =
      rw (e, handle) (rw (channel_type_throws body law has no_string, cmd_activate_channel))
  channel_command_throws w command body c law (inr e) has no_string =
      rw (e, handle) (rw (channel_type_throws body law has no_string, cmd_deactivate_channel))

  -- If the command returns, the state is as before.
  abbrev pub Unchanged : World J → Result J → Type 0
  Unchanged w none = Unit {0}
  Unchanged w (some (w', r)) = w' ≡ w

  get_parameter-Unchanged :
      (w : World J) (body : J.Value) → Unchanged w (cmd_get_parameter J w body)
  unfolding cmd_get_parameter
  get_parameter-Unchanged w body = elim (Bool-cases (contains body (text "name"))) [
    | inr e ↦ rw e refl
    | inl e ↦ rw e (named (get_string (at body (text "name"))))
  ]
    where
      found : (o : Option (Parameter J)) → Unchanged w (get_found J w o)
      found none = refl
      found (some p) = refl

      named : (o : Option Text) → Unchanged w (get_named J w o)
      named none = tt
      named (some name) = found (get J w.params name)

  -- The queries, `init`, `dispose` and unknown commands leave the state as it was, if they return.
  pub handle_pure :
      (w : World J) (command : Text) (body : J.Value) (c : Text)
      → is_writer command ≡ false
      → Unchanged w (handle J w command body c)
  unfolding handle
  handle_pure w command body c h = ground (arith, get_parameter-Unchanged w body, h)
