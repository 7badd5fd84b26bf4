-- ===== src/Serialization/Writer.antt =====
-- The to_json functions of foxglove-websocket/src/serialization.cpp, and that of
-- ClientAdvertisement in foxglove-websocket/include/foxglove/websocket/websocket_client.hpp.
use dora_foxglove.Prelude.{ℕ, List, [], ◌∷◌, Option, none, some, String}
use dora_foxglove.Prelude.Texts.{text_of}
use dora_foxglove.Base64.{encode}
use dora_foxglove.Server.Types.{
  Channel, ServiceRequestDefinition, ServiceWithoutId, Parameter, ParameterValue, not_set, bool,
  integer, double, string, byte_array, array, struct, ParameterValues, no_values, value,
  ParameterFields, no_fields, field, ClientAdvertisement,
}
use dora_foxglove.Server.Payload.{JsonWriter}

module _ {Json : Type 0} (W : JsonWriter Json) where
  -- `if (o) j[key] = *o;`, before the members that follow.
  abbrev pub member_if :
      {A : Type 0} → String → (A → Json) → Option A → List (String × Json) → List (String × Json)
  member_if key to none others = others
  member_if key to (some a) others = (key, to a) ∷ others

  abbrev pub channel_members : Channel → List (String × Json)
  channel_members c =
      ("id", W.unsigned c.id)
      ∷ ("topic", W.text c.without_id.topic)
      ∷ ("encoding", W.text c.without_id.encoding)
      ∷ ("schemaName", W.text c.without_id.schema_name)
      ∷ ("schema", W.text c.without_id.schema)
      ∷ member_if "schemaEncoding" W.text c.without_id.schema_encoding []

  unfoldable pub channel_to_json : Channel → Json
  channel_to_json c = W.object (channel_members c)

  abbrev pub definition_members : ServiceRequestDefinition → List (String × Json)
  definition_members r =
      ("encoding", W.text r.encoding)
      ∷ ("schemaName", W.text r.schema_name)
      ∷ ("schemaEncoding", W.text r.schema_encoding)
      ∷ ("schema", W.text r.schema)
      ∷ []

  unfoldable pub definition_to_json : ServiceRequestDefinition → Json
  definition_to_json r = W.object (definition_members r)

  -- The members of a service behind its request.
  abbrev pub response_members : ServiceWithoutId → List (String × Json)
  response_members service = member_if "response" definition_to_json service.response (
      member_if "requestSchema" W.text service.request_schema
        (member_if "responseSchema" W.text service.response_schema []))

  abbrev pub service_members : ℕ × ServiceWithoutId → List (String × Json)
  service_members (id, service) =
      ("id", W.unsigned id)
      ∷ ("name", W.text service.name)
      ∷ ("type", W.text service.kind)
      ∷ member_if "request" definition_to_json service.request (response_members service)

  unfoldable pub service_to_json : ℕ × ServiceWithoutId → Json
  service_to_json service = W.object (service_members service)

  -- to_json of a vector and of a map is that of the elements.
  unfoldable mutual
    pub value_to_json : ParameterValue → Json
    value_to_json not_set = W.empty
    value_to_json (bool b) = W.boolean b
    value_to_json (integer n) = W.integer n
    value_to_json (double d) = W.float d
    value_to_json (string s) = W.text s
    value_to_json (byte_array bytes) = W.text (text_of (encode bytes))
    value_to_json (array vs) = W.array (values_to_json vs)
    value_to_json (struct fs) = W.object (fields_to_json fs)

    pub values_to_json : ParameterValues → List Json
    values_to_json no_values = []
    values_to_json (value v vs) = value_to_json v ∷ values_to_json vs

    pub fields_to_json : ParameterFields → List (String × Json)
    fields_to_json no_fields = []
    fields_to_json (field name v fs) = (name, value_to_json v) ∷ fields_to_json fs

  abbrev pub type_member : ParameterValue → List (String × Json)
  type_member (byte_array bytes) = ("type", W.text "byte_array") ∷ []
  type_member _ = []

  abbrev pub parameter_members : Parameter → List (String × Json)
  parameter_members p =
      ("value", value_to_json p.value) ∷ ("name", W.text p.name) ∷ type_member p.value

  unfoldable pub parameter_to_json : Parameter → Json
  parameter_to_json p = W.object (parameter_members p)

  unfoldable pub advertisement_to_json : ClientAdvertisement → Json
  advertisement_to_json a = W.object (
      ("id", W.unsigned a.channel_id)
      ∷ ("topic", W.text a.topic)
      ∷ ("encoding", W.text a.encoding)
      ∷ ("schemaName", W.text a.schema_name)
      ∷ [])
