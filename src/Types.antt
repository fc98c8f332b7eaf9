-- ===== src/Types.antt =====
-- common/Types.h and common/Types.cpp: the data types, their groups and the table that names them.
pub mod Table
pub mod Frame
pub mod Clock
use sim_vision_sdk.Prelude.{
  ℕ, Bool, true, false, Option, none, some, List, [], ◌∷◌, Text, text, text_eq, if◌then◌else◌,
  nat_eq,
}

-- `enum class DataType`
pub data DataType : Type 0 where
  stereo_image depth_map point_cloud imu disparity_map confidence_map temperature magnetometer
        barometer :
      DataType

-- `enum class DataGroup`
pub data DataGroup : Type 0 where
  visual_2d visual_3d sensor_data : DataGroup

-- `static_cast<int>(t)`
abbrev pub dt_key : DataType → ℕ
dt_key stereo_image = 0
dt_key depth_map = 1
dt_key point_cloud = 2
dt_key imu = 3
dt_key disparity_map = 4
dt_key confidence_map = 5
dt_key temperature = 6
dt_key magnetometer = 7
dt_key barometer = 8

abbrev pub group_key : DataGroup → ℕ
group_key visual_2d = 0
group_key visual_3d = 1
group_key sensor_data = 2

-- `==` of two enumerators
unfoldable pub type_eq : DataType → DataType → Bool
type_eq a b = nat_eq (dt_key a) (dt_key b)

abbrev pub group_eq : DataGroup → DataGroup → Bool
group_eq a b = nat_eq (group_key a) (group_key b)

pub record Entry : Type 0 where
  pub t : DataType
  pub name : Text
  pub g : DataGroup

abbrev entry : DataType → Text → DataGroup → Entry
entry t name g = record { t = t; name = name; g = g }

-- `kTable`
unfoldable pub table : List Entry
table =
    entry stereo_image (text "stereo_image") visual_2d
    ∷ entry depth_map (text "depth_map") visual_2d
    ∷ entry point_cloud (text "point_cloud") visual_3d
    ∷ entry imu (text "imu") sensor_data
    ∷ entry disparity_map (text "disparity_map") visual_3d
    ∷ entry confidence_map (text "confidence_map") visual_3d
    ∷ entry temperature (text "temperature") sensor_data
    ∷ entry magnetometer (text "magnetometer") sensor_data
    ∷ entry barometer (text "barometer") sensor_data
    ∷ []

-- The loops of the conversions, over the rest of the table.
unfoldable pub name_in : List Entry → DataType → Text
unfolding type_eq
name_in [] t = text "unknown"
name_in (e ∷ es) t = if type_eq e.t t then e.name else name_in es t

unfoldable pub type_in : List Entry → Text → Option DataType
type_in [] s = none
type_in (e ∷ es) s = if text_eq s e.name then some e.t else type_in es s

unfoldable pub group_in : List Entry → DataType → DataGroup
unfolding type_eq
group_in [] t = sensor_data
group_in (e ∷ es) t = if type_eq e.t t then e.g else group_in es t

unfoldable pub members_in : List Entry → DataGroup → List DataType
members_in [] g = []
members_in (e ∷ es) g = if group_eq e.g g then e.t ∷ members_in es g else members_in es g

unfoldable pub types_in : List Entry → List DataType
types_in [] = []
types_in (e ∷ es) = e.t ∷ types_in es

unfoldable pub data_type_to_string : DataType → Text
unfolding table name_in
data_type_to_string t = name_in table t

-- The option is the `out` argument with the returned `bool`.
unfoldable pub data_type_from_string : Text → Option DataType
unfolding table type_in
data_type_from_string s = type_in table s

unfoldable pub data_type_to_group : DataType → DataGroup
unfolding table group_in
data_type_to_group t = group_in table t

unfoldable pub group_to_string : DataGroup → Text
group_to_string visual_2d = text "visual_2d"
group_to_string visual_3d = text "visual_3d"
group_to_string sensor_data = text "sensor_data"

unfoldable pub group_to_channel : DataGroup → Text
group_to_channel visual_2d = text "visual_geometric_2d"
group_to_channel visual_3d = text "visual_geometric_3d"
group_to_channel sensor_data = text "sensor_tracking"

unfoldable pub group_members : DataGroup → List DataType
unfolding table members_in
group_members g = members_in table g

unfoldable pub all_data_types : List DataType
unfolding table types_in
all_data_types = types_in table
