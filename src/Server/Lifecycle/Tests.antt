-- ===== src/Server/Lifecycle/Tests.antt =====
-- The theorems on stop, at a server with one client that never closes.
use dora_foxglove.Prelude.{
  ℕ, ◌+◌, ◌≤◌, ◌≡◌, refl, Bool, true, false, List, [], ◌∷◌, none, some, Result, err,
}
use dora_foxglove.Server.Types.{Env, Exn, not_std}
use dora_foxglove.Server.Payload.{JsonLib}
use dora_foxglove.Server.Session.{new_server}
use dora_foxglove.Server.Lifecycle.{
  Event, thread_started, stop_called, Transport, Service, connections, stop_accepting, wait, stop,
}
use dora_foxglove.Server.Status.{handles}
use dora_foxglove.Prelude.Texts.{filter_by}
use dora_foxglove.Server.Lifecycle.Stopping.{polls, StopsRun, stop_ends}
use dora_foxglove.Server.Lifecycle.Leftovers.{stop_leaves}
use dora_foxglove.Serialization.Instance.{Value, data_json}

abbrev no_text : List ℕ → Result Exn Value
no_text bytes = err not_std

abbrev json : JsonLib
json = data_json no_text

abbrev env : Env
env = record {
  name = "dora";
  supported_encodings = [];
  metadata = [];
  session_id = "1";
  capabilities = [];
  topic_whitelist = [];
  send_buffer_limit = 10_000_000;
  has_handler = λ handler. true;
  answer = λ c log. none;
  reachable = λ hdl log. true;
  buffered_amount = λ hdl log. 0;
}

-- The run loop ends when it has been told to.
abbrev is_told : List Event → Bool
is_told [] = false
is_told (stop_called ∷ history) = true
is_told (_ ∷ history) = is_told history

abbrev busy : Transport
busy = record {
  stopped = λ history. false;
  run_ends = is_told;
  is_listening = λ history. true;
  attached = λ history hdl. true;
  handled = λ history. [];
  listen_error = λ host port history. none;
  accept_error = λ history. none;
  endpoint_error = λ history. none;
  success = "Success";
  to_string = λ n. "8765";
}

-- Client 3 is connected and subscribed to a parameter.
abbrev serving : Service
serving = record {
  server = record new_server {
    clients =
        (
          3,
          record {
            subscriptions_by_channel = [];
            advertised_channels = [];
            subscribed_to_connection_graph = false;
          },
        )
        ∷ [];
    client_param_subscriptions = (3, "rate" ∷ []) ∷ [];
  };
  has_thread = true;
  history = thread_started ∷ [];
}

busy-StopsRun : StopsRun busy
busy-StopsRun = record { stopped_ends = λ history e. cc; stop_called_ends = λ history. refl }

stop_ends_example :
    ((hdl : ℕ) (hdls : List ℕ)
      → connections busy (stop_accepting busy serving) ≡ hdl ∷ hdls
      → (m : Service) × (stop json env busy serving ≡ some m)
        × (polls m.history ≤ polls serving.history + 100)
        × (m.server.clients ≡ [])
        × (m.has_thread ≡ false))
    × (connections busy (stop_accepting busy serving) ≡ []
        → (stop_accepting busy serving).has_thread ≡ true
        → busy.run_ends (stop_accepting busy serving).history ≡ false
        → stop json env busy serving ≡ none)
    × ((more : ℕ) (m : Service) → wait json env busy (101 + more) 0 m ≡ wait json env busy 101 0 m)
stop_ends_example = stop_ends json env busy serving busy-StopsRun refl

stop_leaves_example :
    (m : Service) × (stop json env busy serving ≡ some m)
    × (m.server ≡ record new_server { client_param_subscriptions = (3, "rate" ∷ []) ∷ [] })
unfolding connections stop_accepting filter_by handles
stop_leaves_example =
    stop_leaves json env busy (λ history. refl) serving 3 [] busy-StopsRun refl refl
