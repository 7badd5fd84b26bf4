-- ===== src/Serialization/Parameters.antt =====
-- from_json reads what to_json wrote: the values of parameters, and parameters.
use Prim.Native.Nat.{max}
use Prim.Native.String.{compare}
use dora_foxglove.Prelude.{ℕ, zero, suc, ◌<◌, ◌≡◌, refl, List, none, some, String, ok, arith, All}
use dora_foxglove.Prelude.Texts.{text_of, bytes_of-text_of}
use dora_foxglove.Base64.{encode}
use dora_foxglove.Base64.Characters.{encode-IsAscii}
use dora_foxglove.Base64.RoundTrip.{IsByte, decode-encode}
use dora_foxglove.Server.Types.{
  Parameter, ParameterValue, not_set, bool, integer, double, string, byte_array, array, struct,
  ParameterValues, no_values, value, ParameterFields, no_fields, field,
}
use dora_foxglove.Server.Payload.{JsonLib, JsonWriter}
use dora_foxglove.Serialization.{
  values_from_json, fields_from_json, value_of, value_from_json, value_member, parameter_from_json,
}
use dora_foxglove.Serialization.Laws.{IsLess, member, IsSorted, Reads}
use dora_foxglove.Serialization.Writer.{
  value_to_json, values_to_json, fields_to_json, parameter_members, parameter_to_json,
}
use dora_foxglove.Serialization.RoundTrip.{text_at-object}

-- A byte array comes back as the base64 text that it was written as.
unfoldable mutual
  pub reread : ParameterValue → ParameterValue
  reread (byte_array bytes) = string (text_of (encode bytes))
  reread (array vs) = array (reread_values vs)
  reread (struct fs) = struct (reread_fields fs)
  reread not_set = not_set
  reread (bool b) = bool b
  reread (integer n) = integer n
  reread (double d) = double d
  reread (string s) = string s

  pub reread_values : ParameterValues → ParameterValues
  reread_values no_values = no_values
  reread_values (value v vs) = value (reread v) (reread_values vs)

  pub reread_fields : ParameterFields → ParameterFields
  reread_fields no_fields = no_fields
  reread_fields (field name v fs) = field name (reread v) (reread_fields fs)

-- How deep arrays and structs are nested in a value; an empty one counts nothing.
unfoldable mutual
  pub height : ParameterValue → ℕ
  height (array vs) = height_values vs
  height (struct fs) = height_fields fs
  height _ = 0

  pub height_values : ParameterValues → ℕ
  height_values no_values = 0
  height_values (value v vs) = max (suc (height v)) (height_values vs)

  pub height_fields : ParameterFields → ℕ
  height_fields no_fields = 0
  height_fields (field name v fs) = max (suc (height v)) (height_fields fs)

abbrev BeforeFields : String → ParameterFields → Type 0
BeforeFields name no_fields = Unit {0}
BeforeFields name (field next v fs) = IsLess (compare name next)

-- The fields of each struct are listed in the order of their names, as an std::map lists them.
unfoldable mutual
  pub IsOrdered : ParameterValue → Type 0
  IsOrdered (array vs) = AllOrdered vs
  IsOrdered (struct fs) = FieldsOrdered fs
  IsOrdered _ = Unit {0}

  pub AllOrdered : ParameterValues → Type 0
  AllOrdered no_values = Unit {0}
  AllOrdered (value v vs) = IsOrdered v × AllOrdered vs

  pub FieldsOrdered : ParameterFields → Type 0
  FieldsOrdered no_fields = Unit {0}
  FieldsOrdered (field name v fs) = BeforeFields name fs × IsOrdered v × FieldsOrdered fs

-- What a parameter with the value comes back with.
abbrev pub kept : ParameterValue → ParameterValue
kept (byte_array bytes) = byte_array bytes
kept v = reread v

-- The bytes of a parameter's byte array are bytes.
abbrev pub HasBytes : ParameterValue → Type 0
HasBytes (byte_array bytes) = All IsByte bytes
HasBytes _ = Unit {0}

module _ (J : JsonLib) (W : JsonWriter J.Json) (L : Reads J W) where
  pub fields_to_json-IsSorted :
      (fs : ParameterFields) → FieldsOrdered fs → IsSorted (fields_to_json W fs)
  unfolding fields_to_json IsOrdered
  fields_to_json-IsSorted no_fields h = tt
  fields_to_json-IsSorted (field name v no_fields) h = (tt, tt)
  fields_to_json-IsSorted (field name v (field next w fs)) h =
      (h.0, fields_to_json-IsSorted (field next w fs) h.2)

  mutual
    unfolding value_from_json value_of values_from_json fields_from_json value_to_json reread height
        IsOrdered

    -- With fuel above the height of a value.
    value_from_json-value_to_json :
        (p : ParameterValue) (fuel : ℕ)
        → height p < fuel
        → IsOrdered p
        → value_from_json J fuel (value_to_json W p) ≡ ok (reread p)
    value_from_json-value_to_json p zero h o = absurd (omega arith)
    value_from_json-value_to_json not_set (suc fuel) h o = rw (L.kind_empty, value_of) refl
    value_from_json-value_to_json (bool b) (suc fuel) h o =
        rw (L.kind_boolean b, L.get_bool b, value_of) refl
    value_from_json-value_to_json (integer n) (suc fuel) h o =
        rw (L.kind_integer n, L.get_integer n, value_of) refl
    value_from_json-value_to_json (double d) (suc fuel) h o =
        rw (L.kind_float d, L.get_double d, value_of) refl
    value_from_json-value_to_json (string s) (suc fuel) h o =
        rw (L.kind_text s, L.get_string s, value_of) refl
    value_from_json-value_to_json (byte_array bytes) (suc fuel) h o =
        rw (L.kind_text _, L.get_string _, value_of) refl
    value_from_json-value_to_json (array vs) (suc fuel) h o =
        rw
          (
            L.kind_array _,
            L.get_array _,
            values_from_json-values_to_json vs fuel (omega arith) o,
            value_of,
          )
          refl
    value_from_json-value_to_json (struct fs) (suc fuel) h o =
        rw
          (
            L.kind_object _,
            L.get_object (fields_to_json W fs) (fields_to_json-IsSorted fs o),
            fields_from_json-fields_to_json fs fuel (omega arith) o,
            value_of,
          )
          refl

    values_from_json-values_to_json :
        (vs : ParameterValues) (fuel : ℕ)
        → height_values vs < suc fuel
        → AllOrdered vs
        → values_from_json J (value_from_json J fuel) (values_to_json W vs) ≡ ok (reread_values vs)
    values_from_json-values_to_json no_values fuel h o = refl
    values_from_json-values_to_json (value v vs) fuel h o =
        rw
          (
            value_from_json-value_to_json v fuel (omega arith) o.0,
            values_from_json-values_to_json vs fuel (omega arith) o.1,
          )
          refl

    fields_from_json-fields_to_json :
        (fs : ParameterFields) (fuel : ℕ)
        → height_fields fs < suc fuel
        → FieldsOrdered fs
        → fields_from_json J (value_from_json J fuel) (fields_to_json W fs) ≡ ok (reread_fields fs)
    fields_from_json-fields_to_json no_fields fuel h o = refl
    fields_from_json-fields_to_json (field name v fs) fuel h o =
        rw
          (
            value_from_json-value_to_json v fuel (omega arith) o.1,
            fields_from_json-fields_to_json fs fuel (omega arith) o.2,
          )
          refl

  -- Members without `type` are read as a name and a value.
  plain_parameter :
      (members : List (String × J.Json)) (name : String) (v : ParameterValue) (fuel : ℕ)
      → member "name" members ≡ some (W.text name)
      → member "value" members ≡ some (value_to_json W v)
      → member "type" members ≡ none
      → height v < fuel
      → IsOrdered v
      → parameter_from_json J fuel (W.object members)
        ≡ ok (record { name = name; value = reread v })
  unfolding parameter_from_json value_member
  plain_parameter members name v fuel named valued untyped h o =
      rw
        (
          text_at-object J W L members "name" name named,
          L.find_object members "value",
          valued,
          value_from_json-value_to_json v fuel h o,
          L.find_object members "type",
          untyped,
        )
        refl

  byte_array_parameter :
      (name : String) (bytes : List ℕ) (fuel : ℕ)
      → All IsByte bytes
      → 0 < fuel
      → parameter_from_json J fuel
          (parameter_to_json W (record { name = name; value = byte_array bytes }))
        ≡ ok (record { name = name; value = byte_array bytes })
  unfolding parameter_from_json value_member parameter_to_json
  byte_array_parameter name bytes fuel b h =
      let members = parameter_members W (record { name = name; value = byte_array bytes }) in
      let read_back : value_from_json J fuel (value_to_json W (byte_array bytes))
          ≡ ok (string (text_of (encode bytes))) =
        unfold reread in
        value_from_json-value_to_json (byte_array bytes) fuel (unfold height in h)
          (unfold IsOrdered in tt) in
      rw
        (
          text_at-object J W L members "name" name refl,
          L.find_object members "value",
          read_back,
          L.find_object members "type",
          L.equals_text "byte_array" "byte_array",
          bytes_of-text_of (encode bytes) (encode-IsAscii bytes),
          decode-encode bytes b,
        )
        refl

  -- A parameter is read back from its JSON as it was, a byte array as its bytes, except that a byte
  -- array inside an array or a struct comes back as its base64 text. The bytes of the parameter are
  -- below 256, the fields of each struct are listed in the order of their names, and the fuel is
  -- above the height of the value.
  pub parameter_from_json-parameter_to_json :
      (p : Parameter) (fuel : ℕ)
      → height p.value < fuel
      → IsOrdered p.value
      → HasBytes p.value
      → parameter_from_json J fuel (parameter_to_json W p)
        ≡ ok (record { name = p.name; value = kept p.value })
  unfolding parameter_to_json
  parameter_from_json-parameter_to_json p fuel h o b = by_value p.value h o b
    where
      by_value :
          (v : ParameterValue)
          → height v < fuel
          → IsOrdered v
          → HasBytes v
          → parameter_from_json J fuel (parameter_to_json W (record { name = p.name; value = v }))
            ≡ ok (record { name = p.name; value = kept v })
      by_value not_set h o b = plain_parameter _ p.name not_set fuel refl refl refl h o
      by_value (bool x) h o b = plain_parameter _ p.name (bool x) fuel refl refl refl h o
      by_value (integer n) h o b = plain_parameter _ p.name (integer n) fuel refl refl refl h o
      by_value (double d) h o b = plain_parameter _ p.name (double d) fuel refl refl refl h o
      by_value (string s) h o b = plain_parameter _ p.name (string s) fuel refl refl refl h o
      by_value (array vs) h o b = plain_parameter _ p.name (array vs) fuel refl refl refl h o
      by_value (struct fs) h o b = plain_parameter _ p.name (struct fs) fuel refl refl refl h o
      by_value (byte_array bytes) h o b = byte_array_parameter p.name bytes fuel b (omega arith)
