-- ===== src/Commands/Names.antt =====
-- Which requests reach which command, and which names reach which data types.
use sim_vision_sdk.Prelude.{
  ℕ, ◌≡◌, refl, ap₂, false, none, [], ◌∷◌, ◌++◌, Text, text, lower_byte, to_lower, arith,
}
use sim_vision_sdk.Prelude.Set.{contains}
use sim_vision_sdk.Prelude.{ℕ-eq}
use sim_vision_sdk.Json.{Json}
use sim_vision_sdk.Types.{
  DataType, DataGroup, stereo_image, visual_2d, data_type_to_string, group_to_string,
  group_to_channel, group_members, data_type_from_string,
}
use sim_vision_sdk.Commands.Parse.{
  strip_slash, strip_api, after_slash, after_prefix, path_command, resolve, expand_name,
}

lower_byte_idem : (c : ℕ) → lower_byte (lower_byte c) ≡ lower_byte c
lower_byte_idem c = ground arith

to_lower_idem : (s : Text) → to_lower (to_lower s) ≡ to_lower s
unfolding to_lower
to_lower_idem [] = refl
to_lower_idem (c ∷ s) = ap₂ ◌∷◌ (lower_byte_idem c) (to_lower_idem s)

-- Names of groups and types are read whatever their case.
pub expand_name-to_lower : (J : Json) (s : Text) → expand_name J (to_lower s) ≡ expand_name J s
unfolding expand_name
expand_name-to_lower J s = rw (to_lower_idem s)

-- A type's name stands for that type, and both names of a group for its members.
pub expand_name_lem :
    (J : Json) (t : DataType) (g : DataGroup)
    → (expand_name J (data_type_to_string t) ≡ t ∷ [])
      × (expand_name J (group_to_string g) ≡ group_members g)
      × (expand_name J (group_to_channel g) ≡ group_members g)
unfolding expand_name to_lower data_type_to_string group_to_string group_to_channel
    data_type_from_string
expand_name_lem J t g = (types t, groups g, channels g)
  where
    types : (t : DataType) → expand_name J (data_type_to_string t) ≡ t ∷ []
    types stereo_image = refl
    types _ = refl

    groups : (g : DataGroup) → expand_name J (group_to_string g) ≡ group_members g
    groups visual_2d = refl
    groups _ = refl

    channels : (g : DataGroup) → expand_name J (group_to_channel g) ≡ group_members g
    channels visual_2d = refl
    channels _ = refl

no_slash-after : (s : Text) → contains b'/' s ≡ false → after_slash s ≡ none
unfolding after_slash contains
no_slash-after [] h = refl
no_slash-after (c ∷ s) h = ground (arith, no_slash-after s, h)

no_slash-prefix : (s : Text) → contains b'/' s ≡ false → after_prefix (text "api/") s ≡ none
unfolding after_prefix contains
no_slash-prefix [] h = refl
no_slash-prefix (a ∷ []) h = ground arith
no_slash-prefix (a ∷ b ∷ []) h = ground arith
no_slash-prefix (a ∷ b ∷ c ∷ []) h = ground arith
no_slash-prefix (a ∷ b ∷ c ∷ d ∷ s) h = ground (arith, h)

strip_api_none : (c : ℕ) (s : Text) → contains b'/' (c ∷ s) ≡ false → strip_api (c ∷ s) ≡ c ∷ s
unfolding strip_api
strip_api_none c s h = rw (no_slash-prefix (c ∷ s) h, strip_api)

-- A path of one segment that is not empty names the same command with and without the prefix `/api/`: what
-- the segment resolves to.
pub path_command_lem :
    (c : ℕ) (s : Text)
    → contains b'/' (c ∷ s) ≡ false
    → (path_command (b'/' ∷ c ∷ s) ≡ resolve (c ∷ s))
      × (path_command (text "/api/" ++ (c ∷ s)) ≡ resolve (c ∷ s))
unfolding path_command strip_slash strip_api
path_command_lem c s h = (
  rw (strip_api_none c s h, path_command) (rw (no_slash-after (c ∷ s) h)),
  rw (no_slash-after (c ∷ s) h, path_command),
)
