-- ===== src/Serialization/RoundTrip.antt =====
-- from_json reads what to_json wrote: channels and services.
use dora_foxglove.Prelude.{
  ℕ, ◌<◌, ◌^◌, ◌≡◌, refl, ◌∙◌, false, List, [], Option, none, some, String, Result, ok,
}
use dora_foxglove.Prelude.Maps.{map_some}
use dora_foxglove.Prelude.Texts.{eq_refl, str_eq}
use dora_foxglove.Server.Types.{Channel, ServiceRequestDefinition, ServiceWithoutId}
use dora_foxglove.Server.Payload.{JsonLib, JsonWriter, Failure}
use dora_foxglove.Serialization.{
  as_text, text_at, id_at, optional, channel_from_json, definition_from_json, service_from_json,
}
use dora_foxglove.Serialization.Laws.{member, Reads}
use dora_foxglove.Serialization.Writer.{
  member_if, channel_members, definition_members, service_members, channel_to_json,
  definition_to_json, service_to_json,
}

module _ {A Json : Type 0} (W : JsonWriter Json) (key : String) where
  -- A member that is written if it is there, before members without its name.
  member-member_if :
      (to : A → Json) (o : Option A) (others : List (String × Json))
      → member key others ≡ none
      → member key (member_if W key to o others) ≡ map_some to o
  member-member_if to none others e = e
  member-member_if to (some a) others e = rw (eq_refl key) refl

  -- A member with another name is passed over.
  member-skip :
      (name : String) (to : A → Json) (o : Option A) (others : List (String × Json))
      → str_eq name key ≡ false
      → member key (member_if W name to o others) ≡ member key others
  member-skip name to none others e = refl
  member-skip name to (some a) others e = rw e refl

module _ (J : JsonLib) (W : JsonWriter J.Json) (L : Reads J W) where
  pub text_at-object :
      (members : List (String × J.Json)) (key s : String)
      → member key members ≡ some (W.text s)
      → text_at J (W.object members) key ≡ ok s
  unfolding text_at as_text
  text_at-object members key s e = rw (L.index_object members key _ e, L.get_string s) refl

  id_at-object :
      (members : List (String × J.Json)) (key : String) (n : ℕ)
      → n < 2 ^ 32
      → member key members ≡ some (W.unsigned n)
      → id_at J (W.object members) key ≡ ok n
  unfolding id_at
  id_at-object members key n h e = rw (L.index_object members key _ e, L.get_unsigned n h) refl

  -- A member that was written if it is there.
  optional-object :
      {A : Type 0} (to : A → J.Json) (from : J.Json → Result Failure A)
      → ((a : A) → from (to a) ≡ ok a)
      → (members : List (String × J.Json)) (key : String) (o : Option A)
      → member key members ≡ map_some to o
      → optional J from (J.find (W.object members) key) ≡ ok o
  unfolding optional
  optional-object to from back members key none e = rw (L.find_object members key, e) refl
  optional-object to from back members key (some a) e =
      rw (L.find_object members key, e, back a) refl

  as_text-text : (s : String) → as_text J (W.text s) ≡ ok s
  unfolding as_text
  as_text-text s = rw (L.get_string s) refl

  -- A Channel with an id of a uint32_t is read back from its JSON as it was, with and without an
  -- encoding of the schema.
  channel_from_json-channel_to_json :
      (c : Channel) → c.id < 2 ^ 32 → channel_from_json J (channel_to_json W c) ≡ ok c
  unfolding channel_from_json channel_to_json
  channel_from_json-channel_to_json c h =
      let without = c.without_id in
      let members = channel_members W c in
      rw
        (
          optional-object W.text (as_text J) as_text-text members "schemaEncoding"
              without.schema_encoding (member-member_if W _ _ _ [] refl),
          text_at-object members "topic" _ refl,
          text_at-object members "encoding" _ refl,
          text_at-object members "schemaName" _ refl,
          text_at-object members "schema" _ refl,
          id_at-object members "id" _ h refl,
        )
        refl

  definition_from_json-definition_to_json :
      (r : ServiceRequestDefinition) → definition_from_json J (definition_to_json W r) ≡ ok r
  unfolding definition_from_json definition_to_json
  definition_from_json-definition_to_json r =
      let members = definition_members W r in
      rw
        (
          text_at-object members "encoding" _ refl,
          text_at-object members "schemaName" _ refl,
          text_at-object members "schemaEncoding" _ refl,
          text_at-object members "schema" _ refl,
        )
        refl

  -- The optional members of a service in its JSON.
  module _ (id : ℕ) (service : ServiceWithoutId) where
    found_request :
        member "request" (service_members W (id, service))
        ≡ map_some (definition_to_json W) service.request
    found_request = member-member_if W "request" (definition_to_json W) service.request _ (
        member-skip W "request" "response" _ service.response _ refl
        ∙ (member-skip W "request" "requestSchema" _ service.request_schema _ refl
            ∙ member-skip W "request" "responseSchema" _ service.response_schema _ refl))

    found_response :
        member "response" (service_members W (id, service))
        ≡ map_some (definition_to_json W) service.response
    found_response =
        member-skip W "response" "request" (definition_to_json W) service.request _ refl
        ∙ member-member_if W "response" (definition_to_json W) service.response _ (
            member-skip W "response" "requestSchema" _ service.request_schema _ refl
            ∙ member-skip W "response" "responseSchema" _ service.response_schema _ refl)

    found_request_schema :
        member "requestSchema" (service_members W (id, service))
        ≡ map_some W.text service.request_schema
    found_request_schema =
        member-skip W "requestSchema" "request" (definition_to_json W) service.request _ refl
        ∙ (member-skip W "requestSchema" "response" (definition_to_json W) service.response _ refl
            ∙ member-member_if W "requestSchema" W.text service.request_schema _
                (member-skip W "requestSchema" "responseSchema" _ service.response_schema _ refl))

    found_response_schema :
        member "responseSchema" (service_members W (id, service))
        ≡ map_some W.text service.response_schema
    found_response_schema =
        member-skip W "responseSchema" "request" (definition_to_json W) service.request _ refl
        ∙ (member-skip W "responseSchema" "response" (definition_to_json W) service.response _ refl
            ∙ (member-skip W "responseSchema" "requestSchema" W.text service.request_schema _ refl
                ∙ member-member_if W "responseSchema" W.text service.response_schema [] refl))

  -- A service with an id of a uint32_t is read back from its JSON as it was, whichever of its
  -- request, response and schemas it has.
  service_from_json-service_to_json :
      (id : ℕ) (service : ServiceWithoutId)
      → id < 2 ^ 32
      → service_from_json J (service_to_json W (id, service)) ≡ ok (id, service)
  unfolding service_from_json service_to_json
  service_from_json-service_to_json id service h =
      let members = service_members W (id, service) in
      let definition =
        optional-object (definition_to_json W) (definition_from_json J)
          definition_from_json-definition_to_json members in
      let schema = optional-object W.text (as_text J) as_text-text members in
      rw
        (
          id_at-object members "id" _ h refl,
          text_at-object members "name" _ refl,
          text_at-object members "type" _ refl,
          definition "request" _ (found_request id service),
          definition "response" _ (found_response id service),
          schema "requestSchema" _ (found_request_schema id service),
          schema "responseSchema" _ (found_response_schema id service),
        )
        refl
