-- ===== src/Serialization/Tests.antt =====
-- The theorems on the JSON data, with a JSON library of data.
use dora_foxglove.Prelude.{
  ℕ, ◌≡◌, ◌≢◌, refl, true, List, [], ◌∷◌, map, none, some, Result, ok, err, arith,
}
use dora_foxglove.Prelude.Int.{negsuc}
use dora_foxglove.Server.Types.{
  ServiceRequestDefinition, ServiceWithoutId, Parameter, bool, integer, byte_array, array, struct,
  no_values, value, no_fields, field, Env, Exn, not_std, out_of_bounds_read,
}
use dora_foxglove.Server.Effects.{logged}
use dora_foxglove.Server.Payload.{JsonLib, out_of_fuel}
use dora_foxglove.Server.Parameters.{handle_set_parameters}
use dora_foxglove.Server.Parameters.Nameless.{nameless_parameter_undefined}
use dora_foxglove.Server.Session.{new_server}
use dora_foxglove.Serialization.{get_parameters}
use dora_foxglove.Serialization.Writer.{parameter_to_json}
use dora_foxglove.Serialization.Parameters.{IsOrdered}
use dora_foxglove.Serialization.Stored.{of_name_value, stored_parameter_to_json}
use dora_foxglove.Serialization.Stored.Agreement.{
  Making, making, no_makings, member, no_members, from_int, from_chars, from_bytes, from_values,
  from_fields, make, meant, stored_parameter_to_json-make,
}
use dora_foxglove.Serialization.Lists.{received, get_parameters-array}
use dora_foxglove.Serialization.Defined.{get_parameters_ends}
use dora_foxglove.Serialization.Instance.{
  Value, data_json, data_writer, data_json-Reads, data_json-IsNested, items_of, members_of,
}

abbrev no_text : List ℕ → Result Exn Value
no_text bytes = err not_std

abbrev json : JsonLib
json = data_json no_text

abbrev definition : ServiceRequestDefinition
definition = record {
  encoding = "json";
  schema_name = "Empty";
  schema_encoding = "jsonschema";
  schema = "{}";
}

abbrev reset : ServiceWithoutId
reset = record {
  name = "/reset";
  kind = "Empty";
  request = some definition;
  response = none;
  request_schema = none;
  response_schema = some "";
}

abbrev blob : Parameter
blob = record { name = "blob"; value = byte_array (1 ∷ 255 ∷ []) }

-- A struct with an array and a byte array in it.
abbrev nested : Parameter
nested = record {
  name = "nested";
  value = struct (
      field "a" (array (value (integer (negsuc 4)) (value (bool true) no_values)))
        (field "b" (byte_array (1 ∷ 2 ∷ 3 ∷ [])) no_fields));
}

nested-IsOrdered : IsOrdered nested.value
unfolding IsOrdered
nested-IsOrdered = (tt, (tt, (tt, tt)), (tt, tt, tt))

get_parameters-array_example :
    get_parameters json
      (data_writer.array (map (parameter_to_json data_writer) (blob ∷ nested ∷ [])))
    ≡ ok (map received (blob ∷ nested ∷ []))
unfolding IsOrdered
get_parameters-array_example =
    get_parameters-array json data_writer (data_json-Reads no_text) (data_json-IsNested no_text)
      (blob ∷ nested ∷ []) ((tt, omega arith), ((nested-IsOrdered, tt), tt))

-- A struct of an `int` and of an array of a `const char*` and of bytes.
abbrev made : Making
made = from_fields (
    member "n" (from_int (negsuc 4)) (
      member "a"
        (from_values
          (making (from_chars (104 ∷ 105 ∷ 0 ∷ [])) (making (from_bytes (1 ∷ [])) no_makings)))
        no_members))

stored_parameter_to_json-make_example :
    stored_parameter_to_json data_writer (of_name_value "nested" (make made))
    ≡ ok (parameter_to_json data_writer (record { name = "nested"; value = meant made }))
stored_parameter_to_json-make_example = stored_parameter_to_json-make data_writer "nested" made

-- A parameter whose value is no base64.
abbrev bad_base64 : Value
bad_base64 = Value.object (
    members_of (
      ("name", Value.text "x")
      ∷ ("type", Value.text "byte_array")
      ∷ ("value", Value.text "abc")
      ∷ []))

get_parameters_ends_example :
    get_parameters json (Value.array (items_of (bad_base64 ∷ []))) ≢ err out_of_fuel
get_parameters_ends_example =
    get_parameters_ends json (data_json-IsNested no_text) (Value.array (items_of (bad_base64 ∷ [])))

abbrev env : Env
env = record {
  name = "dora";
  supported_encodings = [];
  metadata = [];
  session_id = "1";
  capabilities = "parameters" ∷ [];
  topic_whitelist = [];
  send_buffer_limit = 10_000_000;
  has_handler = λ handler. true;
  answer = λ c log. none;
  reachable = λ hdl log. true;
  buffered_amount = λ hdl log. 0;
}

nameless_parameter_undefined_example :
    handle_set_parameters json env
      (data_writer.object (("parameters", data_writer.array (data_writer.object [] ∷ [])) ∷ []))
      3
      new_server
    ≡ (ok tt, logged out_of_bounds_read new_server)
nameless_parameter_undefined_example =
    nameless_parameter_undefined json data_writer (data_json-Reads no_text) env 3 new_server
      (("parameters", data_writer.array (data_writer.object [] ∷ [])) ∷ []) [] [] refl refl
