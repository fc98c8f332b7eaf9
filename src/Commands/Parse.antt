-- ===== src/Commands/Parse.antt =====
-- api/CommandHandler.cpp: from a request to a command and its data types.
use sim_vision_sdk.Prelude.{
  Bool, true, false, not, ◌&&◌, ◌||◌, Option, none, some, List, [], ◌∷◌, ◌++◌, Text, text, text_eq,
  text-eq, to_lower, nat_eq, if◌then◌else◌,
}
use sim_vision_sdk.Prelude.Map.{lookup}
use sim_vision_sdk.Json.{Json}
use sim_vision_sdk.Types.{
  DataType, visual_2d, visual_3d, sensor_data, data_type_from_string, group_members,
}

-- `alias_map`
unfoldable pub alias_map : List (Text × Text)
alias_map =
    (text "checkstatus", text "check_status")
    ∷ (text "listchannels", text "list_channels")
    ∷ (text "listparameters", text "list_parameters")
    ∷ (text "getparameter", text "get_parameter")
    ∷ (text "setparameter", text "set_parameter")
    ∷ (text "activatechannel", text "activate_channel")
    ∷ (text "deactivatechannel", text "deactivate_channel")
    ∷ (text "startcapture", text "start_capture")
    ∷ (text "stopcapture", text "stop_capture")
    ∷ []

abbrev pub or_same : Text → Option Text → Text
or_same cmd none = cmd
or_same cmd (some name) = name

-- `to_lower`, then the alias if there is one
unfoldable pub resolve : Text → Text
unfolding alias_map lookup to_lower
resolve s = or_same (to_lower s) (lookup (to_lower s) alias_map)

-- `if (!p.empty() && p.front() == '/') p = p.substr(1)`
unfoldable pub strip_slash : Text → Text
strip_slash [] = []
strip_slash (c ∷ p) = if nat_eq c b'/' then p else c ∷ p

-- The text after a prefix, if the text starts with it.
unfoldable pub after_prefix : Text → Text → Option Text
after_prefix [] p = some p
after_prefix (c ∷ cs) [] = none
after_prefix (c ∷ cs) (d ∷ p) = if nat_eq c d then after_prefix cs p else none

-- `if (p.rfind("api/", 0) == 0) p = p.substr(4)`
unfoldable pub strip_api : Text → Text
unfolding after_prefix
strip_api p = or_same p (after_prefix (text "api/") p)

-- What follows the first `/`: `p.find('/')` and `p.substr(slash + 1)`.
unfoldable pub after_slash : Text → Option Text
after_slash [] = none
after_slash (c ∷ p) = if nat_eq c b'/' then some p else after_slash p

abbrev pub is_empty : Text → Bool
is_empty [] = true
is_empty (_ ∷ _) = false

-- the command that the path names, empty if it names none
unfoldable pub path_command : Text → Text
path_command path =
    let p = strip_api (strip_slash path) in
    if is_empty p then [] else resolve (or_same p (after_slash p))

module _ (J : Json) where
  open J use {Value, contains, at, is_string, is_array, get_string, elements}

  abbrev body_command : Option Text → Text
  body_command none = []
  body_command (some s) = resolve s

  -- `normalize_command`. `get<std::string>()` stands behind `is_string`.
  unfoldable pub normalize_command : Text → Value → Text
  unfolding path_command
  normalize_command path body =
      let cmd = path_command path in
      if is_empty cmd && contains body (text "command") && is_string (at body (text "command"))
      then body_command (get_string (at body (text "command")))
      else cmd

  abbrev pub to_list : Option DataType → List DataType
  to_list none = []
  to_list (some t) = t ∷ []

  -- one name of the array: a group, or a type
  unfoldable pub expand_name : Text → List DataType
  expand_name s =
      let ls = to_lower s in
      if text_eq ls (text "visual_2d") || text_eq ls (text "visual_geometric_2d")
      then group_members visual_2d
      else if text_eq ls (text "visual_3d") || text_eq ls (text "visual_geometric_3d")
      then group_members visual_3d
      else if text_eq ls (text "sensor_data") || text_eq ls (text "sensor_tracking")
      then group_members sensor_data
      else to_list (data_type_from_string ls)

  abbrev expand_string : Option Text → List DataType
  expand_string none = []
  expand_string (some s) = expand_name s

  -- The loop over the array skips what is no string.
  unfoldable pub expand_items : List Value → List DataType
  expand_items [] = []
  expand_items (item ∷ more) =
      (if is_string item then expand_string (get_string item) else []) ++ expand_items more

  abbrev single : Option Text → List DataType
  single none = []
  single (some s) = to_list (data_type_from_string s)

  unfoldable pub expand_types : Value → List DataType
  unfolding expand_items
  expand_types body =
      if not (contains body (text "data_types")) || not (is_array (at body (text "data_types")))
      then (if contains body (text "data_type") && is_string (at body (text "data_type"))
          then single (get_string (at body (text "data_type")))
          else [])
      else expand_items (elements (at body (text "data_types")))
