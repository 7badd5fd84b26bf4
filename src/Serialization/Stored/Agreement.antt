-- ===== src/Serialization/Stored/Agreement.antt =====
-- The type of a value agrees with what its std::any holds, so that std::any_cast does not throw.
use dora_foxglove.Prelude.{ℕ, ◌≡◌, refl, ok, Bool, List, String}
use dora_foxglove.Prelude.Int.{ℤ}
use dora_foxglove.Prelude.Texts.{text_of}
use dora_foxglove.Server.Types.{
  ParameterValue, not_set, bool, integer, double, string, byte_array, array, struct,
  ParameterValues, no_values, value, ParameterFields, no_fields, field,
}
use dora_foxglove.Server.Payload.{JsonWriter}
use dora_foxglove.Serialization.Writer.{
  value_to_json, values_to_json, fields_to_json, parameter_to_json, type_member,
}
use dora_foxglove.Serialization.Stored.{
  StoredValue, StoredValues, no_elements, element, StoredFields, no_entries, entry, of_nothing,
  of_bool, of_int, of_int64, of_double, of_string, of_chars, before_nul, of_bytes, of_values,
  of_fields, of_name_value, stored_to_json, stored_values_to_json, stored_fields_to_json,
  stored_parameter_to_json, get_type, stored_type_member, of_name, unnamed,
}

-- The calls of the constructors of parameter.cpp that make a value, from the inside out. The members
-- of a struct and the elements of an array are values that were made.
mutual
  pub data Making : Type 0 where
    from_nothing : Making
    from_bool : Bool → Making
    from_int from_int64 : ℤ → Making
    from_double : ℕ → Making
    from_string : String → Making
    from_chars from_bytes : List ℕ → Making
    from_values : Makings → Making
    from_fields : Members → Making

  pub data Makings : Type 0 where
    no_makings : Makings
    making : Making → Makings → Makings

  pub data Members : Type 0 where
    no_members : Members
    member : String → Making → Members → Members

unfoldable mutual
  pub make : Making → StoredValue
  make from_nothing = of_nothing
  make (from_bool b) = of_bool b
  make (from_int n) = of_int n
  make (from_int64 n) = of_int64 n
  make (from_double d) = of_double d
  make (from_string s) = of_string s
  make (from_chars chars) = of_chars chars
  make (from_bytes bytes) = of_bytes bytes
  make (from_values vs) = of_values (make_values vs)
  make (from_fields fs) = of_fields (make_fields fs)

  pub make_values : Makings → StoredValues
  make_values no_makings = no_elements
  make_values (making v vs) = element (make v) (make_values vs)

  pub make_fields : Members → StoredFields
  make_fields no_members = no_entries
  make_fields (member key v fs) = entry key (make v) (make_fields fs)

-- The data that the arguments of the constructors mean.
unfoldable mutual
  pub meant : Making → ParameterValue
  meant from_nothing = not_set
  meant (from_bool b) = bool b
  meant (from_int n) = integer n
  meant (from_int64 n) = integer n
  meant (from_double d) = double d
  meant (from_string s) = string s
  meant (from_chars chars) = string (text_of (before_nul chars))
  meant (from_bytes bytes) = byte_array bytes
  meant (from_values vs) = array (meant_values vs)
  meant (from_fields fs) = struct (meant_fields fs)

  pub meant_values : Makings → ParameterValues
  meant_values no_makings = no_values
  meant_values (making v vs) = value (meant v) (meant_values vs)

  pub meant_fields : Members → ParameterFields
  meant_fields no_members = no_fields
  meant_fields (member key v fs) = field key (meant v) (meant_fields fs)

module _ {Json : Type 0} (W : JsonWriter Json) where
  mutual
    unfolding make make_values make_fields meant meant_values meant_fields of_nothing of_bool of_int
        of_int64 of_double of_string of_chars of_bytes of_values of_fields stored_to_json
        stored_values_to_json stored_fields_to_json value_to_json

    stored_to_json-make : (v : Making) → stored_to_json W (make v) ≡ ok (value_to_json W (meant v))
    stored_to_json-make from_nothing = refl
    stored_to_json-make (from_bool b) = refl
    stored_to_json-make (from_int n) = refl
    stored_to_json-make (from_int64 n) = refl
    stored_to_json-make (from_double d) = refl
    stored_to_json-make (from_string s) = refl
    stored_to_json-make (from_chars chars) = refl
    stored_to_json-make (from_bytes bytes) = refl
    stored_to_json-make (from_values vs) = rw (stored_values_to_json-make vs) refl
    stored_to_json-make (from_fields fs) = rw (stored_fields_to_json-make fs) refl

    stored_values_to_json-make :
        (vs : Makings)
        → stored_values_to_json W (make_values vs) ≡ ok (values_to_json W (meant_values vs))
    stored_values_to_json-make no_makings = refl
    stored_values_to_json-make (making v vs) =
        rw (stored_to_json-make v, stored_values_to_json-make vs) refl

    stored_fields_to_json-make :
        (fs : Members)
        → stored_fields_to_json W (make_fields fs) ≡ ok (fields_to_json W (meant_fields fs))
    stored_fields_to_json-make no_members = refl
    stored_fields_to_json-make (member key v fs) =
        rw (stored_to_json-make v, stored_fields_to_json-make fs) refl

  stored_type_member-make :
      (v : Making) → stored_type_member W (get_type (make v)) ≡ type_member W (meant v)
  unfolding get_type make meant of_nothing of_bool of_int of_int64 of_double of_string of_chars
      of_bytes of_values of_fields
  stored_type_member-make from_nothing = refl
  stored_type_member-make (from_bool b) = refl
  stored_type_member-make (from_int n) = refl
  stored_type_member-make (from_int64 n) = refl
  stored_type_member-make (from_double d) = refl
  stored_type_member-make (from_string s) = refl
  stored_type_member-make (from_chars chars) = refl
  stored_type_member-make (from_bytes bytes) = refl
  stored_type_member-make (from_values vs) = refl
  stored_type_member-make (from_fields fs) = refl

  -- The JSON of a parameter that is made by the constructors of parameter.cpp, each of which any
  -- value nested in it may come from, is that of the data that their arguments mean, and no any_cast
  -- throws on the way: also not for an `int` and a `const char*`, which a std::any of them would not
  -- give back.
  pub stored_parameter_to_json-make :
      (name : String) (v : Making)
      → stored_parameter_to_json W (of_name_value name (make v))
        ≡ ok (parameter_to_json W (record { name = name; value = meant v }))
  unfolding stored_parameter_to_json of_name_value parameter_to_json
  stored_parameter_to_json-make name v = rw (stored_to_json-make v, stored_type_member-make v) refl

  -- The JSON of a parameter that is made without a value is that of a value that is not set, and
  -- one that is made without a name has the JSON of one with the empty name.
  made_without_value :
      (name : String)
      → (stored_parameter_to_json W (of_name name)
          ≡ ok (parameter_to_json W (record { name = name; value = not_set })))
        × (stored_parameter_to_json W unnamed ≡ stored_parameter_to_json W (of_name ""))
  unfolding stored_parameter_to_json of_name unnamed of_nothing stored_to_json get_type
      parameter_to_json value_to_json
  made_without_value name = (refl, refl)
