-- ===== src/Json/Tree.antt =====
-- A concrete instance of the interface, for tests and witnesses: the trees of JSON, with numbers for
-- `double`. Its text format is a stub that holds nothing, since no test reads it.
use sim_vision_sdk.Prelude.{
  ℕ, refl, Bool, true, false, Option, none, some, List, [], ◌∷◌, Text, text_eq, leb, arith,
  if◌then◌else◌,
}
use sim_vision_sdk.Prelude.Int.{ℤ, pos}
use sim_vision_sdk.Json.{Json, StringLaw}

mutual
  pub data Tree : Type 0 where
    null : Tree
    str : Text → Tree
    int : ℤ → Tree
    float : ℕ → Tree
    bool : Bool → Tree
    arr : Items → Tree
    obj : Fields → Tree

  pub data Items : Type 0 where
    nil : Items
    cons : Tree → Items → Items

  pub data Fields : Type 0 where
    end : Fields
    field : Text → Tree → Fields → Fields

abbrev pub list_of : Items → List Tree
list_of nil = []
list_of (cons v vs) = v ∷ list_of vs

abbrev pub items_of : List Tree → Items
items_of [] = nil
items_of (v ∷ vs) = cons v (items_of vs)

abbrev pub pairs_of : Fields → List (Text × Tree)
pairs_of end = []
pairs_of (field k v fs) = (k, v) ∷ pairs_of fs

abbrev pub has : Fields → Text → Bool
has end k = false
has (field j v fs) k = if text_eq j k then true else has fs k

abbrev pub fetch : Fields → Text → Tree
fetch end k = null
fetch (field j v fs) k = if text_eq j k then v else fetch fs k

abbrev pub store : Fields → Text → Tree → Fields
store end k v = field k v end
store (field j w fs) k v = if text_eq j k then field k v fs else field j w (store fs k v)

abbrev pub tree_contains : Tree → Text → Bool
tree_contains (obj fs) k = has fs k
tree_contains _ k = false

abbrev pub tree_at : Tree → Text → Tree
tree_at (obj fs) k = fetch fs k
tree_at _ k = null

abbrev pub tree_string : Tree → Option Text
tree_string (str s) = some s
tree_string _ = none

abbrev pub tree_integer : Tree → Option ℤ
tree_integer (int i) = some i
tree_integer _ = none

abbrev pub tree_float : Tree → Option ℕ
tree_float (float x) = some x
tree_float _ = none

abbrev pub tree_bool : Tree → Option Bool
tree_bool (bool b) = some b
tree_bool _ = none

abbrev pub tree_is_string : Tree → Bool
tree_is_string (str s) = true
tree_is_string _ = false

abbrev pub tree_is_array : Tree → Bool
tree_is_array (arr vs) = true
tree_is_array _ = false

abbrev pub tree_is_null : Tree → Bool
tree_is_null null = true
tree_is_null _ = false

abbrev pub tree_elements : Tree → List Tree
tree_elements (arr vs) = list_of vs
tree_elements _ = []

abbrev pub tree_items : Tree → List (Text × Tree)
tree_items (obj fs) = pairs_of fs
tree_items _ = []

abbrev pub keyed : List (Text × Tree) → List (Option Text × Tree)
keyed [] = []
keyed ((k, v) ∷ more) = (some k, v) ∷ keyed more

abbrev pub unkeyed : List Tree → List (Option Text × Tree)
unkeyed [] = []
unkeyed (v ∷ more) = (none, v) ∷ unkeyed more

abbrev pub tree_entries : Tree → List (Option Text × Tree)
tree_entries null = []
tree_entries (obj fs) = keyed (pairs_of fs)
tree_entries (arr vs) = unkeyed (list_of vs)
tree_entries v = (none, v) ∷ []

abbrev pub tree_set : Tree → Text → Tree → Tree
tree_set (obj fs) k v = obj (store fs k v)
tree_set _ k v = obj (field k v end)

abbrev pub tree_json : Json
tree_json = record {
  Value = Tree;
  Float = ℕ;
  float_leb = leb;
  contains = tree_contains;
  at = tree_at;
  is_string = tree_is_string;
  is_array = tree_is_array;
  is_null = tree_is_null;
  get_string = tree_string;
  get_integer = tree_integer;
  get_float = tree_float;
  get_bool = tree_bool;
  elements = tree_elements;
  items = tree_items;
  entries = tree_entries;
  of_string = str;
  of_integer = int;
  of_nat = λ n. int (pos n);
  of_float = float;
  of_bool = bool;
  of_list = λ vs. arr (items_of vs);
  object = obj end;
  set_field = tree_set;
  dump = λ v. some [];
  parse = λ s. none;
}

pub tree_json-StringLaw : StringLaw tree_json
tree_json-StringLaw (str s) e = absurd (ground (arith, e))
tree_json-StringLaw _ e = refl
