-- ===== src/Programs/Viewer/Ending.antt =====
-- How the server program ends.
use Prim.Native.String.{◌++◌ as ◌<>◌}
use dora_foxglove.Prelude.{
  ℕ, ◌≡◌, refl, ◌∙◌, ap, true, false, List, [], ◌∷◌, ◌++◌, none, some, String, Result, ok, err,
}
use dora_foxglove.Server.Types.{Server, Env, Exn, std_error}
use dora_foxglove.Server.Payload.{JsonLib}
use dora_foxglove.Server.Session.{new_server}
use dora_foxglove.Server.Construction.{create_server, construct}
use dora_foxglove.Server.Lifecycle.{
  Event, listened, accepting, thread_started, Transport, Service, set_handlers, start, run_thread,
}
use dora_foxglove.Programs.Viewer.{Data, receive_all}
use dora_foxglove.Programs.Viewer.Serving.{Readable, IsUnread, Throws-serve_data}
use dora_foxglove.Programs.Viewer.Main.{
  World, Schedule, uncaught, viewer_handlers, serve_data, shut_down, with_started, with_server,
  with_data, main,
}

-- The events behind a start on the port of the program.
abbrev pub started_history : List Event
started_history = thread_started ∷ accepting ∷ listened "0.0.0.0" 8765 ∷ []

-- The endpoint listens and accepts, and its run loop runs.
pub record Starts (T : Transport) : Type 0 where
  pub listens : T.listen_error "0.0.0.0" 8765 [] ≡ none
  pub accepts : T.accept_error (listened "0.0.0.0" 8765 ∷ []) ≡ none
  pub listening : T.is_listening started_history ≡ true
  pub resolved : T.endpoint_error started_history ≡ none
  pub runs : T.stopped started_history ≡ false

abbrev new_service : Service
new_service = record { server = new_server; has_thread = false; history = [] }

abbrev started_service : Service
started_service = record { server = new_server; has_thread = true; history = started_history }

start_ok :
    (T : Transport) → Starts T → start T "0.0.0.0" 8765 new_service ≡ (ok tt, started_service)
unfolding start run_thread
start_ok T h = rw (h.listens, h.accepts, h.listening, h.resolved) refl

-- The three schemas can be read, and the library can be initialised.
pub record IsReady (W : World) (laser cloud path : String) (f1 f2 f3 : List ℕ) : Type 0 where
  pub laser_there : Readable W laser f1
  pub cloud_there : Readable W cloud f2
  pub path_there : Readable W path f3
  pub initialised : W.library.init_error ≡ none
  pub starts : Starts W.transport

module _ (J : JsonLib) (W : World) where
  created : W.library.init_error ≡ none → (create_server W.library false).1 ≡ ok new_server
  unfolding create_server construct
  created e = rw e refl

  module _ (env : Env) where
    shut_down_threw :
        (l : Service) (r : Result Exn (Unit {0}) × Server) (x : Exn)
        → r.0 ≡ err x
        → shut_down J W env l r ≡ (uncaught x, some (record l { server = r.1 }))
    unfolding shut_down
    shut_down_threw l (ok u, s) x e = cc
    shut_down_threw l (err y, s) x e = cc

-- When one of the three files cannot be opened, the program ends by an exception with the name of
-- the file that nothing catches, and only behind the start of its server, whose thread runs and is
-- not stopped. The three receivers have their data, the library can be initialised, and the endpoint
-- listens, accepts and runs. The files that are read before it are smaller than 2 GiB.
pub main_unread :
    (J : JsonLib) (W : World) (env : Env) (schedule : Schedule) (d : Data)
    (program laser cloud path : String) (rest : List String) (name : String)
    → receive_all W.first W.second W.third ≡ ok d
    → W.library.init_error ≡ none
    → Starts W.transport
    → IsUnread W laser cloud path name
    → (l : Service) × (main J W env schedule (program ∷ laser ∷ cloud ∷ path ∷ rest)
        ≡ (uncaught (std_error ("Could not open file " <> name)), some l))
      × (l.has_thread ≡ true)
      × (l.history ≡ started_history)
unfolding main with_data with_server with_started
main_unread J W env schedule d program laser cloud path rest name all initialised starts missing =
    let handled = set_handlers viewer_handlers env in
    let serving = serve_data J W handled laser cloud path d schedule new_server in
    (
      record started_service { server = serving.1 },
      ap (with_data J W env laser cloud path schedule) all
          ∙ ap (with_server J W env laser cloud path d schedule) (created J W initialised)
          ∙ ap (with_started J W handled laser cloud path d schedule) (start_ok W.transport starts)
          ∙ shut_down_threw J W handled started_service serving _ (
              (Throws-serve_data J W handled laser cloud path name d schedule missing).throws
                new_server),
      refl,
      refl,
    )
