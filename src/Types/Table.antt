-- ===== src/Types/Table.antt =====
-- The conversions of common/Types.cpp against one another.
use sim_vision_sdk.Prelude.{true, ◌≡◌, refl, ◌↔◌, some, Text, text, arith, text_eq_iff}
use sim_vision_sdk.Prelude.Set.{contains}
use sim_vision_sdk.Prelude.{HasEq}
use sim_vision_sdk.Types.{
  DataType, DataGroup, stereo_image, type_eq, data_type_to_string, data_type_from_string,
  data_type_to_group, group_members,
}

pub type_eq_iff : (a b : DataType) → (type_eq a b ≡ true) ↔ (a ≡ b)
unfolding type_eq
type_eq_iff stereo_image b = ground arith
type_eq_iff _ b = ground arith

instance abbrev pub DataType-eq : HasEq DataType
DataType-eq = record { eqb = type_eq; eqb_iff = type_eq_iff }

-- Printing a data type and parsing the name gives the type back.
pub from_string-to_string : (t : DataType) → data_type_from_string (data_type_to_string t) ≡ some t
unfolding data_type_from_string data_type_to_string
from_string-to_string stereo_image = refl
from_string-to_string _ = refl

-- Only the name of a data type parses to it.
pub to_string-from_string :
    (s : Text) (t : DataType) → data_type_from_string s ≡ some t → data_type_to_string t ≡ s
unfolding data_type_from_string data_type_to_string
to_string-from_string s t h = ground (
  arith,
  text_eq_iff s (text "stereo_image"),
  text_eq_iff s (text "depth_map"),
  text_eq_iff s (text "point_cloud"),
  text_eq_iff s (text "imu"),
  text_eq_iff s (text "disparity_map"),
  text_eq_iff s (text "confidence_map"),
  text_eq_iff s (text "temperature"),
  text_eq_iff s (text "magnetometer"),
  text_eq_iff s (text "barometer"),
)

-- A type is in the member list of exactly its own group.
pub group_members_iff :
    (g : DataGroup) (t : DataType)
    → (contains t (group_members g) ≡ true) ↔ (data_type_to_group t ≡ g)
unfolding group_members data_type_to_group contains
group_members_iff g t = ground arith
