-- ===== src/Serialization.antt =====
-- foxglove-websocket/src/serialization.cpp: to_json and from_json of the data of the protocol, over
-- the JSON library as a parameter.
pub mod Writer
pub mod Laws
pub mod RoundTrip
pub mod Parameters
pub mod Defined
pub mod Instance
pub mod Lists
pub mod Stored
mod Tests
use dora_foxglove.Prelude.{
  ℕ, zero, suc, Bool, true, false, List, [], ◌∷◌, Option, none, some, String, Result, ok, err,
  ◌>>=◌,
}
use dora_foxglove.Prelude.Texts.{bytes_of}
use dora_foxglove.Base64
use dora_foxglove.Base64.{decode, invalid_length, invalid_padding, invalid_character, past_end}
use dora_foxglove.Server.Types.{
  Exn, std_error, Channel, ChannelWithoutId, ServiceRequestDefinition, ServiceWithoutId, Parameter,
  ParameterValue, not_set, bool, integer, double, string, byte_array, array, struct,
  ParameterValues, no_values, value, ParameterFields, no_fields, field,
}
use dora_foxglove.Server.Payload.{JsonLib, Kind, Failure, thrown, undefined, out_of_fuel}

-- A call of the library that may throw.
abbrev pub throws : {A : Type 0} → Result Exn A → Result Failure A
throws (ok a) = ok a
throws (err e) = err (thrown e)

-- What base64Decode throws; a read past the end would be undefined behaviour.
abbrev pub decoded : Result Base64.Error (List ℕ) → Result Failure (List ℕ)
decoded (ok bytes) = ok bytes
decoded (err invalid_length) = err (thrown (std_error "Invalid base64 length!"))
decoded (err invalid_padding) = err (thrown (std_error "Invalid padding in base64!"))
decoded (err invalid_character) = err (thrown (std_error "Invalid character in base64!"))
decoded (err past_end) = err undefined

module _ (J : JsonLib) where
  open J use {
    Json, index, find, kind, equals, depth, get_bool, get_i64, get_u32, get_double, get_string,
    get_array, get_object,
  }

  unfoldable pub as_text : Json → Result Failure String
  as_text v = throws (get_string v)

  -- `j[key].get<...>()` on a const value.
  unfoldable pub text_at : Json → String → Result Failure String
  text_at j key = index j key >>= as_text

  unfoldable pub id_at : Json → String → Result Failure ℕ
  id_at j key = index j key >>= λ v. throws (get_u32 v)

  -- A member that may be missing.
  unfoldable pub optional :
      {A : Type 0} → (Json → Result Failure A) → Option Json → Result Failure (Option A)
  optional get none = ok none
  optional get (some v) = get v >>= λ a. ok (some a)

  unfoldable pub channel_from_json : Json → Result Failure Channel
  channel_from_json j = do
    schema_encoding ← optional as_text (find j "schemaEncoding")
    topic ← text_at j "topic"
    encoding ← text_at j "encoding"
    schema_name ← text_at j "schemaName"
    schema ← text_at j "schema"
    id ← id_at j "id"
    ok (record {
      id = id;
      without_id = record {
        topic = topic;
        encoding = encoding;
        schema_name = schema_name;
        schema = schema;
        schema_encoding = schema_encoding;
      };
    })

  unfoldable pub definition_from_json : Json → Result Failure ServiceRequestDefinition
  definition_from_json j = do
    encoding ← text_at j "encoding"
    schema_name ← text_at j "schemaName"
    schema_encoding ← text_at j "schemaEncoding"
    schema ← text_at j "schema"
    ok (record {
      encoding = encoding;
      schema_name = schema_name;
      schema_encoding = schema_encoding;
      schema = schema;
    })

  -- Into a Service whose optional members are not set.
  unfoldable pub service_from_json : Json → Result Failure (ℕ × ServiceWithoutId)
  service_from_json j = do
    id ← id_at j "id"
    name ← text_at j "name"
    type ← text_at j "type"
    request ← optional definition_from_json (find j "request")
    response ← optional definition_from_json (find j "response")
    request_schema ← optional as_text (find j "requestSchema")
    response_schema ← optional as_text (find j "responseSchema")
    ok (
      id,
      record {
        name = name;
        kind = type;
        request = request;
        response = response;
        request_schema = request_schema;
        response_schema = response_schema;
      },
    )

  -- `get<std::vector<...>>` and `get<std::unordered_map<std::string, ...>>`: from_json of each
  -- element, in order.
  unfoldable pub values_from_json :
      (Json → Result Failure ParameterValue) → List Json → Result Failure ParameterValues
  values_from_json from [] = ok no_values
  values_from_json from (j ∷ js) = do v ← from j; vs ← values_from_json from js; ok (value v vs)

  unfoldable pub fields_from_json :
      (Json → Result Failure ParameterValue) → List (String × Json) → Result Failure ParameterFields
  fields_from_json from [] = ok no_fields
  fields_from_json from ((name, j) ∷ members) = do
    v ← from j
    fs ← fields_from_json from members
    ok (field name v fs)

  -- The tests of from_json of a ParameterValue on the type of the JSON value; `from` is from_json
  -- for the values inside.
  unfoldable pub value_of :
      (Json → Result Failure ParameterValue) → Json → Kind → Result Failure ParameterValue
  value_of from j Kind.string = throws (get_string j) >>= λ s. ok (string s)
  value_of from j Kind.boolean = throws (get_bool j) >>= λ b. ok (bool b)
  value_of from j Kind.number_integer = throws (get_i64 j) >>= λ n. ok (integer n)
  value_of from j Kind.number_unsigned = throws (get_i64 j) >>= λ n. ok (integer n)
  value_of from j Kind.number_float = throws (get_double j) >>= λ d. ok (double d)
  value_of from j Kind.object =
      throws (get_object j) >>= λ members. fields_from_json from members >>= λ fs. ok (struct fs)
  value_of from j Kind.array =
      throws (get_array j) >>= λ js. values_from_json from js >>= λ vs. ok (array vs)
  value_of from j Kind.null = ok not_set
  value_of from j Kind.binary = ok not_set
  value_of from j Kind.discarded = ok not_set

  -- Into a ParameterValue that is not set. The fuel bounds the depth of the calls.
  unfoldable pub value_from_json : ℕ → Json → Result Failure ParameterValue
  value_from_json zero j = err out_of_fuel
  value_from_json (suc fuel) j = value_of (value_from_json fuel) j (kind j)

  -- Is the member `type` the text "byte_array"?
  abbrev pub is_byte_array : Option Json → Bool
  is_byte_array none = false
  is_byte_array (some t) = equals t "byte_array"

  -- A text in a byte array's clothes is decoded.
  abbrev pub revived : Bool → ParameterValue → Result Failure ParameterValue
  revived true (string s) = decoded (decode (bytes_of s)) >>= λ bytes. ok (byte_array bytes)
  revived _ v = ok v

  -- from_json of a Parameter behind the search of `value`.
  unfoldable pub value_member : ℕ → Json → String → Option Json → Result Failure Parameter
  value_member fuel j name none = ok (record { name = name; value = not_set })
  value_member fuel j name (some v) = do
    read ← value_from_json fuel v
    revived ← revived (is_byte_array (find j "type")) read
    ok (record { name = name; value = revived })

  unfoldable pub parameter_from_json : ℕ → Json → Result Failure Parameter
  parameter_from_json fuel j = do name ← text_at j "name"; value_member fuel j name (find j "value")

  unfoldable pub each_parameter : List Json → Result Failure (List Parameter)
  each_parameter [] = ok []
  each_parameter (j ∷ js) = do
    p ← parameter_from_json (suc (depth j)) j
    ps ← each_parameter js
    ok (p ∷ ps)

  -- `get<std::vector<Parameter>>`.
  unfoldable pub get_parameters : Json → Result Failure (List Parameter)
  get_parameters j = throws (get_array j) >>= each_parameter
