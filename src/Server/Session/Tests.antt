-- ===== src/Server/Session/Tests.antt =====
-- The theorems on sessions, at one in which two clients subscribe to the connection graph, the first
-- advertises a channel and subscribes to one of the server, with a JSON library of data that reads a
-- text as one of three messages.
use dora_foxglove.Prelude.{
  ℕ, ◌≤◌, ◌≡◌, ◌⊎◌, refl, true, List, [], ◌∷◌, none, String, Result, ok, err, is_some, length,
}
use dora_foxglove.Prelude.Int.{pos}
use dora_foxglove.Prelude.Maps.{lookup}
use dora_foxglove.Server.Types.{Env, Exn, ChannelWithoutId, not_std}
use dora_foxglove.Server.ClientChannels.{member, publications}
use dora_foxglove.Server.ClientChannels.Agreement.{advertised_by}
use dora_foxglove.Server.Graph.{graph_subscribers}
use dora_foxglove.Server.Dispatch.{text_frame}
use dora_foxglove.Server.Session.{Action, opened, closed, received, channels_added, run, new_server}
use dora_foxglove.Server.Session.OneSubscriber.{has_overflowed, run-OneSubscriber}
use dora_foxglove.Server.Session.ChannelsAgree.{run-ChannelsAgree}
use dora_foxglove.Server.Session.Telling.{Told}
use dora_foxglove.Server.Session.Told.{run-Told}
use dora_foxglove.Serialization.Instance.{
  Value, object, array, text, unsigned, items_of, members_of, data_json,
}

abbrev env : Env
env = record {
  name = "dora";
  supported_encodings = "json" ∷ [];
  metadata = [];
  session_id = "1";
  capabilities = "connectionGraph" ∷ "clientPublish" ∷ [];
  topic_whitelist = (λ topic. true) ∷ [];
  send_buffer_limit = 1000;
  has_handler = λ h. true;
  answer = λ c log. none;
  reachable = λ hdl log. true;
  buffered_amount = λ hdl log. 0;
}

abbrev message : String → List (String × Value) → Value
message op members = object (members_of (("op", text op) ∷ members))

abbrev joystick : Value
joystick = object (
    members_of (
      ("id", unsigned 7)
      ∷ ("topic", text "joy")
      ∷ ("encoding", text "json")
      ∷ ("schemaName", text "Joy")
      ∷ []))

-- To the channel 1 under the id 5.
abbrev subscription : Value
subscription = object (members_of (("id", unsigned 5) ∷ ("channelId", unsigned 1) ∷ []))

abbrev meaning : List ℕ → Result Exn Value
meaning [] = ok (message "subscribeConnectionGraph" [])
meaning (b ∷ []) = ok (message "advertise" (("channels", array (items_of (joystick ∷ []))) ∷ []))
meaning (b ∷ c ∷ []) =
    ok (message "subscribe" (("subscriptions", array (items_of (subscription ∷ []))) ∷ []))
meaning _ = err not_std

abbrev scan : ChannelWithoutId
scan = record {
  topic = "/scan";
  encoding = "json";
  schema_name = "LaserScan";
  schema = "";
  schema_encoding = none;
}

abbrev actions : List Action
actions =
    channels_added (scan ∷ [])
    ∷ opened 3
    ∷ opened 4
    ∷ received 0 (0, 0) 3 (text_frame [])
    ∷ received 0 (0, 0) 4 (text_frame [])
    ∷ received 0 (0, 0) 3 (text_frame (0 ∷ []))
    ∷ received 0 (0, 0) 3 (text_frame (0 ∷ 0 ∷ []))
    ∷ closed 4
    ∷ []

run-OneSubscriber_example :
    let s = run (data_json meaning) env actions new_server in
    (has_overflowed s.log ≡ true)
    ⊎ ((length (graph_subscribers s.clients) ≤ 1)
        × ((n : ℕ) × (s.graph.subscription_count ≡ pos n)
            × (length (graph_subscribers s.clients) ≤ n)))
run-OneSubscriber_example = run-OneSubscriber (data_json meaning) env actions

run-ChannelsAgree_example :
    let s = run (data_json meaning) env actions new_server in
    member 7 (advertised_by (lookup 3 s.clients)) ≡ is_some (lookup 7 (publications 3 s))
run-ChannelsAgree_example =
    run-ChannelsAgree (data_json meaning) env actions 3 7
      (refl, (refl, (refl, (refl, (refl, (refl, (refl, (refl, tt))))))))

run-Told_example : Told (run (data_json meaning) env actions new_server)
run-Told_example = run-Told env (λ channel hdl log. refl) (data_json meaning) actions
