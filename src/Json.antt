-- ===== src/Json.antt =====
-- nlohmann::json and `double`, as the sources use them. Both are parameters of the model: what stands here
-- are their names and, where a theorem needs one, a documented law.
pub mod Tree
use sim_vision_sdk.Prelude.{
  ℕ, ◌≡◌, Bool, true, false, Option, none, some, List, [], Text, text_eq, text-eq, if◌then◌else◌,
}
use sim_vision_sdk.Prelude.Map.{lookup, IsUnique}
use sim_vision_sdk.Prelude.Int.{ℤ}

-- The operations. `none` stands for a thrown `nlohmann::json::exception`.
pub record Json : Type 1 where
  pub Value : Type 0
  -- `double`, with `<=`
  pub Float : Type 0
  pub float_leb : Float → Float → Bool
  -- `j.contains(key)`: false on what is no object
  pub contains : Value → Text → Bool
  -- `j[key]` on a constant object that contains the key
  pub at : Value → Text → Value
  pub is_string : Value → Bool
  pub is_array : Value → Bool
  pub is_null : Value → Bool
  -- `j.get<T>()`
  pub get_string : Value → Option Text
  pub get_integer : Value → Option ℤ
  pub get_float : Value → Option Float
  pub get_bool : Value → Option Bool
  -- the items of an array, and the keys and values of an object, in the order of iteration
  pub elements : Value → List Value
  pub items : Value → List (Text × Value)
  -- what an iterator over any value passes: `it.key()`, which throws on what is no object, and `it.value()`
  pub entries : Value → List (Option Text × Value)
  -- values from C++ values
  pub of_string : Text → Value
  pub of_integer : ℤ → Value
  pub of_nat : ℕ → Value
  pub of_float : Float → Value
  pub of_bool : Bool → Value
  pub of_list : List Value → Value
  -- `json::object()` and `j[key] = v` on an object
  pub object : Value
  pub set_field : Value → Text → Value → Value
  -- `j.dump()`, which throws on a string that is not UTF-8, and `json::parse(s)`
  pub dump : Value → Option Text
  pub parse : Text → Option Value

-- `get<std::string>()` succeeds on strings and throws a type_error on anything else.
abbrev pub StringLaw : Json → Type 0
StringLaw J = (v : J.Value) → J.is_string v ≡ false → J.get_string v ≡ none

-- An object that was made by setting fields.
pub data IsBuilt (J : Json) : J.Value → Type 0 where
  no_field : IsBuilt J J.object
  one_more : {j : J.Value} (k : Text) (v : J.Value) → IsBuilt J j → IsBuilt J (J.set_field j k v)

-- What nlohmann::json documents of objects and of the conversions between values.
pub record ObjectLaw (J : Json) : Type 0 where
  pub nothing_set : J.items J.object ≡ []
  pub each_key_once : (j : J.Value) → IsBuilt J j → IsUnique (J.items j)
  pub field_set :
      (j v : J.Value) (k n : Text)
      → IsBuilt J j
      → lookup n (J.items (J.set_field j k v))
        ≡ (if text_eq k n then some v else lookup n (J.items j))
  pub integer_back : (i : ℤ) → J.get_integer (J.of_integer i) ≡ some i
  pub float_back : (x : J.Float) → J.get_float (J.of_float x) ≡ some x
  pub string_back : (s : Text) → J.get_string (J.of_string s) ≡ some s
