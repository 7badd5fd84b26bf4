-- ===== src/Serialization/Stored.antt =====
-- The parameters as foxglove-websocket/include/foxglove/websocket/parameter.hpp keeps them, a
-- ParameterType beside a std::any, with the constructors of foxglove-websocket/src/parameter.cpp,
-- and the to_json functions of foxglove-websocket/src/serialization.cpp that take a value out of
-- the std::any by its type.
pub mod Agreement
use dora_foxglove.Prelude.{
  ℕ, Bool, List, [], ◌∷◌, String, Result, ok, err, ◌>>=◌, ◌==◌, if◌then◌else◌,
}
use dora_foxglove.Prelude.Int.{ℤ}
use dora_foxglove.Prelude.Texts.{text_of}
use dora_foxglove.Base64.{encode}
use dora_foxglove.Server.Types.{Exn, std_error}
use dora_foxglove.Server.Payload.{JsonWriter}

pub data ParameterType : Type 0 where
  parameter_not_set parameter_bool parameter_integer parameter_double parameter_string :
      ParameterType
  parameter_array parameter_struct parameter_byte_array : ParameterType

-- `Any` is what a std::any of a ParameterValue holds; an unordered_map is a list in the order in
-- which it is read. A std::any of an `int` or of a `const char*` (the bytes from there on) is none of
-- an int64_t or of a std::string.
mutual
  pub data StoredValue : Type 0 where
    stored : ParameterType → Any → StoredValue

  pub data Any : Type 0 where
    holds_nothing : Any
    holds_bool : Bool → Any
    holds_int64 holds_int : ℤ → Any
    holds_double : ℕ → Any
    holds_string : String → Any
    holds_chars holds_bytes : List ℕ → Any
    holds_values : StoredValues → Any
    holds_fields : StoredFields → Any

  pub data StoredValues : Type 0 where
    no_elements : StoredValues
    element : StoredValue → StoredValues → StoredValues

  pub data StoredFields : Type 0 where
    no_entries : StoredFields
    entry : String → StoredValue → StoredFields → StoredFields

pub record StoredParameter : Type 0 where
  pub name : String
  pub value : StoredValue

-- The constructors of ParameterValue.
unfoldable pub of_nothing : StoredValue
of_nothing = stored parameter_not_set holds_nothing

unfoldable pub of_bool : Bool → StoredValue
of_bool b = stored parameter_bool (holds_bool b)

-- That of an `int` casts it.
unfoldable pub of_int : ℤ → StoredValue
of_int n = stored parameter_integer (holds_int64 n)

unfoldable pub of_int64 : ℤ → StoredValue
of_int64 n = stored parameter_integer (holds_int64 n)

unfoldable pub of_double : ℕ → StoredValue
of_double d = stored parameter_double (holds_double d)

unfoldable pub of_string : String → StoredValue
of_string s = stored parameter_string (holds_string s)

-- The text of a `const char*`: the bytes up to the first that is zero.
unfoldable pub before_nul : List ℕ → List ℕ
before_nul [] = []
before_nul (b ∷ bs) = let rest = before_nul bs in if b == 0 then [] else b ∷ rest

unfoldable pub of_chars : List ℕ → StoredValue
of_chars chars = stored parameter_string (holds_string (text_of (before_nul chars)))

unfoldable pub of_bytes : List ℕ → StoredValue
of_bytes bytes = stored parameter_byte_array (holds_bytes bytes)

unfoldable pub of_values : StoredValues → StoredValue
of_values vs = stored parameter_array (holds_values vs)

unfoldable pub of_fields : StoredFields → StoredValue
of_fields fs = stored parameter_struct (holds_fields fs)

-- The constructors of Parameter.
unfoldable pub of_name_value : String → StoredValue → StoredParameter
of_name_value name v = record { name = name; value = v }

unfoldable pub of_name : String → StoredParameter
of_name name = record { name = name; value = of_nothing }

unfoldable pub unnamed : StoredParameter
unnamed = record { name = ""; value = of_nothing }

unfoldable pub get_type : StoredValue → ParameterType
get_type (stored kind _) = kind

-- What std::any_cast throws when the std::any holds a value of another type.
abbrev pub bad_any_cast : {A : Type 0} → Result Exn A
bad_any_cast = err (std_error "bad any_cast")

module _ {Json : Type 0} (W : JsonWriter Json) where
  -- The branch of each type takes out a value of that type, as getValue does.
  unfoldable mutual
    pub stored_to_json : StoredValue → Result Exn Json
    stored_to_json (stored parameter_bool (holds_bool b)) = ok (W.boolean b)
    stored_to_json (stored parameter_integer (holds_int64 n)) = ok (W.integer n)
    stored_to_json (stored parameter_double (holds_double d)) = ok (W.float d)
    stored_to_json (stored parameter_string (holds_string s)) = ok (W.text s)
    stored_to_json (stored parameter_byte_array (holds_bytes bytes)) =
        ok (W.text (text_of (encode bytes)))
    stored_to_json (stored parameter_struct (holds_fields fs)) = do
      members ← stored_fields_to_json fs
      ok (W.object members)
    stored_to_json (stored parameter_array (holds_values vs)) = do
      elements ← stored_values_to_json vs
      ok (W.array elements)
    stored_to_json (stored parameter_not_set _) = ok W.empty
    stored_to_json (stored _ _) = bad_any_cast

    pub stored_values_to_json : StoredValues → Result Exn (List Json)
    stored_values_to_json no_elements = ok []
    stored_values_to_json (element v vs) = do
      j ← stored_to_json v
      rest ← stored_values_to_json vs
      ok (j ∷ rest)

    pub stored_fields_to_json : StoredFields → Result Exn (List (String × Json))
    stored_fields_to_json no_entries = ok []
    stored_fields_to_json (entry key v fs) = do
      j ← stored_to_json v
      rest ← stored_fields_to_json fs
      ok ((key, j) ∷ rest)

  -- `j["type"]` of a byte array.
  abbrev pub stored_type_member : ParameterType → List (String × Json)
  stored_type_member parameter_byte_array = ("type", W.text "byte_array") ∷ []
  stored_type_member _ = []

  unfoldable pub stored_parameter_to_json : StoredParameter → Result Exn Json
  stored_parameter_to_json p = do
    v ← stored_to_json p.value
    ok (W.object (("value", v) ∷ ("name", W.text p.name) ∷ stored_type_member (get_type p.value)))
