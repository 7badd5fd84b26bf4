-- ===== src/Server/Lifecycle.antt =====
-- setHandlers, start and stop of the server. The endpoint of websocketpp is a parameter, whose
-- answers depend on what was called on it. Error codes that are only written to the log are left
-- out.
pub mod Stopping
pub mod Leftovers
mod Tests
use Prim.Native.String.{◌++◌ as ◌<>◌}
use dora_foxglove.Prelude.{
  ℕ, zero, suc, ◌+◌, Bool, true, false, List, [], ◌∷◌, Option, none, some, String, Result, ok, err,
  ◌&&◌, not, ltb, if◌then◌else◌,
}
use dora_foxglove.Prelude.Texts.{filter_by}
use dora_foxglove.Server.Types.{Server, Env, Exn, std_error, Handler}
use dora_foxglove.Server.Status.{handles}
use dora_foxglove.Server.Payload.{JsonLib}
use dora_foxglove.Server.Session.{Action, run}

-- The calls on the endpoint, its connections and the thread of the run loop.
pub data Event : Type 0 where
  listened : String → ℕ → Event
  accepting thread_started perpetual_stopped listening_stopped slept polled stop_called joined :
      Event
  close_begun terminated : ℕ → Event

-- `attached` says for which handles get_con_from_hdl gives a connection. `handled` are the calls of
-- the server's methods that the run loop, its thread and the other threads make while stop sleeps
-- and polls once. `run_ends` says whether `run`, in the thread of the server, returns in the end when
-- no further call is made. The errors are the messages of error codes; `success` is that of none.
pub record Transport : Type 0 where
  pub stopped : List Event → Bool
  pub run_ends : List Event → Bool
  pub is_listening : List Event → Bool
  pub attached : List Event → ℕ → Bool
  pub handled : List Event → List Action
  pub listen_error : String → ℕ → List Event → Option String
  pub accept_error : List Event → Option String
  pub endpoint_error : List Event → Option String
  pub success : String
  pub to_string : ℕ → String

-- The server with its thread, if it runs, and the events so far, the newest first.
pub record Service : Type 0 where
  pub server : Server
  pub has_thread : Bool
  pub history : List Event

abbrev pub noted : Event → Service → Service
noted e l = record l { history = e ∷ l.history }

-- `_handlers = handlers`.
abbrev pub set_handlers : (Handler → Bool) → Env → Env
set_handlers handlers env = record env { has_handler = handlers }

-- MAX_SHUTDOWN_MS and SLEEP_MS.
abbrev pub max_shutdown_ms : ℕ
max_shutdown_ms = 1000

abbrev pub sleep_ms : ℕ
sleep_ms = 10

-- The close handshakes.
unfoldable pub begin_close : List ℕ → Service → Service
begin_close [] l = l
begin_close (hdl ∷ hdls) l = begin_close hdls (noted (close_begun hdl) l)

module _ (T : Transport) where
  -- Behind `start_accept`.
  unfoldable pub run_thread : ℕ → Service → Result Exn (Unit {0}) × Service
  run_thread port l =
      if not (T.is_listening l.history)
      then (err (std_error ("WebSocket server failed to listen on port " <> T.to_string port)), l)
      else elim (T.endpoint_error l.history) [
        | some message ↦
            (err (std_error ("Failed to resolve the local endpoint: " <> T.success)), l)
        | none ↦ (ok tt, l)
      ]

  unfoldable pub start : String → ℕ → Service → Result Exn (Unit {0}) × Service
  start host port l =
      if l.has_thread
      then (err (std_error "Server already started"), l)
      else elim (T.listen_error host port l.history) [
        | some message ↦ (
          err (std_error ("Failed to listen on port " <> (T.to_string port <> (": " <> message)))),
          l,
        )
        | none ↦ elim (T.accept_error (listened host port ∷ l.history)) [
          | some message ↦ (
            err (std_error ("Failed to start accepting connections: " <> message)),
            noted (listened host port) l,
          )
          | none ↦ run_thread port (record l {
            has_thread = true;
            history = thread_started ∷ accepting ∷ listened host port ∷ l.history;
          })
        ]
      ]

  -- The thread is joined, which returns only when its run loop does, and `_clients` is emptied: none
  -- if stop hangs in the join.
  unfoldable pub finish : Service → Option Service
  finish l =
      if l.has_thread && not (T.run_ends l.history)
      then none
      else some (record l {
        server = record l.server { clients = [] };
        has_thread = false;
        history = if l.has_thread then joined ∷ l.history else l.history;
      })

  unfoldable pub terminate : List ℕ → Service → Service
  terminate [] l = l
  terminate (hdl ∷ hdls) l =
      terminate hdls (if T.attached l.history hdl then noted (terminated hdl) l else l)

  -- What is done if the wait was in vain.
  unfoldable pub force : List ℕ → Service → Service
  force hdls l = if T.stopped l.history then l else noted stop_called (terminate hdls l)

  -- stop up to the list of the connections.
  unfoldable pub stop_accepting : Service → Service
  stop_accepting l =
      if T.is_listening (perpetual_stopped ∷ l.history)
      then noted listening_stopped (noted perpetual_stopped l)
      else noted perpetual_stopped l

  unfoldable pub connections : Service → List ℕ
  connections l = filter_by (T.attached l.history) (handles l.server.clients)

module _ (J : JsonLib) (env : Env) (T : Transport) where
  -- One round of the wait.
  unfoldable pub poll : Service → Service
  poll l = record l {
    server = run J env (T.handled (polled ∷ slept ∷ l.history)) l.server;
    history = polled ∷ slept ∷ l.history;
  }

  -- The `while` loop; `duration` is durationMs.
  unfoldable pub wait : ℕ → ℕ → Service → Service
  wait zero duration l = l
  wait (suc fuel) duration l = elim (not (T.stopped l.history) && ltb duration max_shutdown_ms) [
    | true ↦ wait fuel (duration + sleep_ms) (poll l)
    | false ↦ l
  ]

  -- With fuel for the hundred rounds that there can be and the last test.
  unfoldable pub close_all : List ℕ → Service → Service
  close_all [] l = l
  close_all (hdl ∷ hdls) l = force T (hdl ∷ hdls) (wait 101 0 (begin_close (hdl ∷ hdls) l))

  -- None if it hangs.
  unfoldable pub stop : Service → Option Service
  stop l =
      if T.stopped l.history
      then some l
      else finish T (close_all (connections T (stop_accepting T l)) (stop_accepting T l))
