-- ===== src/Client/Handled.antt =====
-- The handlers of the server at the JSON of a client: each does what the request means.
use dora_foxglove.Prelude.{
  ℕ, ◌<◌, ◌^◌, ◌≡◌, refl, ◌∙◌, Bool, List, [], ◌∷◌, some, String, ok, map, All, Option-cases, inl,
  inr, ◌>>=◌ as result_bind,
}
use dora_foxglove.Prelude.Maps.{lookup}
use dora_foxglove.Server.Types.{Server, Env, ClientAdvertisement}
use dora_foxglove.Server.Effects.{◌>>=◌, lift, get, update}
use dora_foxglove.Server.Payload.{JsonLib, JsonWriter}
use dora_foxglove.Server.Running.{bind_same, lift_bind, for_each-map}
use dora_foxglove.Server.Status.{client_at}
use dora_foxglove.Server.Subscriptions.{subscribe_one, handle_subscribe, handle_unsubscribe}
use dora_foxglove.Server.ClientChannels.{advertise_one, handle_advertise, handle_unadvertise}
use dora_foxglove.Serialization.Laws.{member, Reads}
use dora_foxglove.Client.Requests.{
  subscribe, unsubscribe, advertise, unadvertise, subscription_to_json, subscriptions_json, payload,
  payload_members,
}
use dora_foxglove.Client.Effect.{advertise_channel, effect}
use dora_foxglove.Serialization.Writer.{advertisement_to_json}

-- An id is a uint32_t.
abbrev pub IsId : ℕ → Type 0
IsId n = n < 2 ^ 32

module _ (J : JsonLib) (W : JsonWriter J.Json) (L : Reads J W) where
  pub u32_at :
      (members : List (String × J.Json)) (key : String) (n : ℕ)
      → IsId n
      → member key members ≡ some (W.unsigned n)
      → result_bind (J.at (W.object members) key) J.get_u32 ≡ ok n
  u32_at members key n h e = rw (L.at_object members key _ e, L.get_unsigned n h) refl

  pub string_at :
      (members : List (String × J.Json)) (key s : String)
      → member key members ≡ some (W.text s)
      → result_bind (J.at (W.object members) key) J.get_string ≡ ok s
  string_at members key s e = rw (L.at_object members key _ e, L.get_string s) refl

  elements-subscriptions_json :
      (subscriptions : List (ℕ × ℕ))
      → J.elements (subscriptions_json W subscriptions) ≡ map (subscription_to_json W) subscriptions
  elements-subscriptions_json [] = L.elements_empty
  elements-subscriptions_json (x ∷ xs) = L.elements_array _

  module _ (env : Env) (hdl : ℕ) where
    subscription_read :
        (snapshot : List (ℕ × ℕ)) (x : ℕ × ℕ) (s : Server)
        → IsId x.0 × IsId x.1
        → (lift (result_bind (J.at (subscription_to_json W x) "id") J.get_u32) >>= λ id.
              lift (result_bind (J.at (subscription_to_json W x) "channelId") J.get_u32)
              >>= λ channel. subscribe_one env hdl snapshot id channel)
            s
          ≡ subscribe_one env hdl snapshot x.0 x.1 s
    subscription_read snapshot (id, channel) s h =
        rw (u32_at _ "id" id h.0 refl, u32_at _ "channelId" channel h.1 refl)
          (lift_bind _ _ _ ∙ lift_bind _ _ _)

    pub subscribe_handled :
        (subscriptions : List (ℕ × ℕ)) (s : Server)
        → All (λ x. IsId x.0 × IsId x.1) subscriptions
        → handle_subscribe J env (payload W (subscribe subscriptions)) hdl s
          ≡ effect env hdl (subscribe subscriptions) s
    unfolding handle_subscribe effect payload
    subscribe_handled subscriptions s h = bind_same (client_at hdl) _ _ s λ client t.
        rw
          (
            L.at_object (payload_members W (subscribe subscriptions)) "subscriptions" _ refl,
            lift_bind,
            elements-subscriptions_json subscriptions,
          )
          (for_each-map (λ x. IsId x.0 × IsId x.1) (subscription_to_json W) _ _
            (subscription_read client.subscriptions_by_channel) subscriptions t h)

    pub unsubscribe_handled :
        (ids : List ℕ) (s : Server)
        → All IsId ids
        → handle_unsubscribe J env (payload W (unsubscribe ids)) hdl s
          ≡ effect env hdl (unsubscribe ids) s
    unfolding handle_unsubscribe effect payload
    unsubscribe_handled ids s h = bind_same (client_at hdl) _ _ s λ client t.
        rw
          (
            L.at_object (payload_members W (unsubscribe ids)) "subscriptionIds" _ refl,
            lift_bind,
            L.elements_array (map W.unsigned ids),
          )
          (for_each-map IsId W.unsigned _ _ (λ id u p. rw (L.get_unsigned id p) (lift_bind _ _ _))
            ids t h)

    advertisement_read :
        (first : Bool) (a : ClientAdvertisement) (s : Server)
        → IsId a.channel_id
        → advertise_one J env hdl first (advertisement_to_json W a) s
          ≡ advertise_channel env hdl first a s
    unfolding advertise_one advertise_channel advertisement_to_json ◌>>=◌ lift
    advertisement_read first a s h =
        rw
          (
            u32_at _ "id" a.channel_id h refl,
            string_at _ "topic" a.topic refl,
            string_at _ "encoding" a.encoding refl,
            string_at _ "schemaName" a.schema_name refl,
          )
          refl

    pub advertise_handled :
        (channels : List ClientAdvertisement) (s : Server)
        → All (λ a. IsId a.channel_id) channels
        → handle_advertise J env hdl (payload W (advertise channels)) s
          ≡ effect env hdl (advertise channels) s
    unfolding handle_advertise effect payload
    advertise_handled channels s h = bind_same get _ _ s λ t u. bind_same (update _) _ _ u λ _ v.
        rw
          (
            L.at_object (payload_members W (advertise channels)) "channels" _ refl,
            lift_bind,
            L.elements_array (map (advertisement_to_json W) channels),
          )
          (for_each-map (λ a. IsId a.channel_id) (advertisement_to_json W) _ _
            (advertisement_read _) channels v h)

    pub unadvertise_handled :
        (ids : List ℕ) (s : Server)
        → All IsId ids
        → handle_unadvertise J env hdl (payload W (unadvertise ids)) s
          ≡ effect env hdl (unadvertise ids) s
    unfolding handle_unadvertise effect payload
    unadvertise_handled ids s h = bind_same get _ _ s λ t u.
        elim (Option-cases (lookup hdl t.client_channels)) [
          | inl e ↦ rw e refl
          | inr (publications, e) ↦
              rw
                (
                  e,
                  L.at_object (payload_members W (unadvertise ids)) "channelIds" _ refl,
                  lift_bind,
                  L.elements_array (map W.unsigned ids),
                )
                (for_each-map IsId W.unsigned _ _
                  (λ id v p. rw (L.get_unsigned id p) (lift_bind _ _ _)) ids u h)
        ]
