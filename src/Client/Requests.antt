-- ===== src/Client/Requests.antt =====
-- The JSON that the methods of the client put together.
use dora_foxglove.Prelude.{ℕ, List, [], ◌∷◌, Option, String, map}
use dora_foxglove.Server.Types.{ClientAdvertisement, Parameter}
use dora_foxglove.Server.Payload.{JsonWriter}
use dora_foxglove.Serialization.Writer.{member_if, advertisement_to_json, parameter_to_json}

-- The methods that send JSON, with their arguments; a subscription is its id and its channel's.
pub data Request : Type 0 where
  subscribe : List (ℕ × ℕ) → Request
  unsubscribe : List ℕ → Request
  advertise : List ClientAdvertisement → Request
  unadvertise : List ℕ → Request
  get_parameters : List String → Option String → Request
  set_parameters : List Parameter → Option String → Request
  subscribe_parameter_updates : List String → Request
  unsubscribe_parameter_updates : List String → Request
  fetch_asset : String → ℕ → Request

-- The "op" of the message.
abbrev pub op : Request → String
op (subscribe subscriptions) = "subscribe"
op (unsubscribe ids) = "unsubscribe"
op (advertise channels) = "advertise"
op (unadvertise ids) = "unadvertise"
op (get_parameters names id) = "getParameters"
op (set_parameters parameters id) = "setParameters"
op (subscribe_parameter_updates names) = "subscribeParameterUpdates"
op (unsubscribe_parameter_updates names) = "unsubscribeParameterUpdates"
op (fetch_asset uri id) = "fetchAsset"

module _ {Json : Type 0} (W : JsonWriter Json) where
  abbrev pub subscription_to_json : ℕ × ℕ → Json
  subscription_to_json (id, channel_id) =
      W.object (("id", W.unsigned id) ∷ ("channelId", W.unsigned channel_id) ∷ [])

  -- A json that nothing was pushed to is null.
  abbrev pub subscriptions_json : List (ℕ × ℕ) → Json
  subscriptions_json [] = W.empty
  subscriptions_json (x ∷ xs) = W.array (subscription_to_json x ∷ map subscription_to_json xs)

  abbrev pub arguments : Request → List (String × Json)
  arguments (subscribe subscriptions) = ("subscriptions", subscriptions_json subscriptions) ∷ []
  arguments (unsubscribe ids) = ("subscriptionIds", W.array (map W.unsigned ids)) ∷ []
  arguments (advertise channels) =
      ("channels", W.array (map (advertisement_to_json W) channels)) ∷ []
  arguments (unadvertise ids) = ("channelIds", W.array (map W.unsigned ids)) ∷ []
  arguments (get_parameters names id) =
      ("parameterNames", W.array (map W.text names)) ∷ member_if W "id" W.text id []
  arguments (set_parameters parameters id) =
      ("parameters", W.array (map (parameter_to_json W) parameters)) ∷ member_if W "id" W.text id []
  arguments (subscribe_parameter_updates names) =
      ("parameterNames", W.array (map W.text names)) ∷ []
  arguments (unsubscribe_parameter_updates names) =
      ("parameterNames", W.array (map W.text names)) ∷ []
  arguments (fetch_asset uri id) = ("uri", W.text uri) ∷ ("requestId", W.unsigned id) ∷ []

  abbrev pub payload_members : Request → List (String × Json)
  payload_members r = ("op", W.text (op r)) ∷ arguments r

  unfoldable pub payload : Request → Json
  payload r = W.object (payload_members r)
