-- ===== src/Programs/Viewer/Main.antt =====
-- main of examples/src/laser_scan_server.cpp: the receivers, the making and the start of the server,
-- the channels, the rounds until the signal, and the stop. The files, the connections, the libraries
-- and what the network thread does meanwhile are parameters.
use Prim.Native.String.{◌++◌ as ◌<>◌}
use dora_foxglove.Prelude.{
  ℕ, zero, suc, ◌%◌, ◌^◌, length, ltb, if◌then◌else◌, Bool, true, false, List, [], ◌∷◌, Option,
  none, some, String, Result, ok, err,
}
use dora_foxglove.Dora.Transport.{ReceiveError}
use dora_foxglove.Server.Types.{
  Server, Env, Exn, std_error, ChannelWithoutId, Handler, subscribe_handler, unsubscribe_handler,
}
use dora_foxglove.Server.Effects.{M, ◌>>=◌, ◌>>◌, return, lift, for_each}
use dora_foxglove.Server.Payload.{JsonLib}
use dora_foxglove.Server.Subscriptions.{add_channels}
use dora_foxglove.Server.Session.{Action, run}
use dora_foxglove.Server.Construction.{Library, create_server}
use dora_foxglove.Server.Lifecycle.{Transport, Service, set_handlers, start, stop}
use dora_foxglove.Programs.Viewer.{
  Floats, Builder, Data, receive_all, laser_channel, cloud_channel, path_channel, front,
  broadcast_round,
}

-- One round: what the clock says before each of its three broadcasts, and to the server in it, and
-- what the network thread runs during the pause.
pub record Round : Type 0 where
  pub clocks : ℕ × ℕ × ℕ
  pub server_clocks : ℕ × ℕ × ℕ
  pub meanwhile : List Action

-- What the network thread runs behind the start and behind each new channel, and the rounds that
-- there are until the signal.
pub record Schedule : Type 0 where
  pub started : List Action
  pub first_added : List Action
  pub second_added : List Action
  pub third_added : List Action
  pub rounds : List Round

-- The contents of a file that can be opened, and the bytes on the three connections.
pub record World : Type 0 where
  pub library : Library
  pub transport : Transport
  pub files : String → Option (List ℕ)
  pub first : List ℕ
  pub second : List ℕ
  pub third : List ℕ
  pub floats : Floats
  pub builder : Builder

-- How far main comes: to its return statement with a status, behind which the destructor of the server
-- joins the worker of the CallbackQueue; into the join of stop, for ever; or to its end by a receiver's
-- thread that throws, or by an exception that nothing catches.
pub data Outcome : Type 0 where
  returning : ℕ → Outcome
  stop_hung : Outcome
  receiver_threw : ReceiveError → Outcome
  uncaught : Exn → Outcome

-- What `stop` gives.
abbrev pub stopped_with : Option Service → Outcome × Option Service
stopped_with none = (stop_hung, none)
stopped_with (some l) = (returning 0, some l)

-- The handlers that the program sets.
abbrev pub viewer_handlers : Handler → Bool
viewer_handlers subscribe_handler = true
viewer_handlers unsubscribe_handler = true
viewer_handlers _ = false

unfoldable pub take : ℕ → List ℕ → List ℕ
take zero bytes = []
take (suc n) [] = []
take (suc n) (b ∷ bytes) = b ∷ take n bytes

module _ (J : JsonLib) (W : World) where
  -- getFileContents; `length` is an int. A size that it cannot hold wraps around: a negative one is
  -- too large for the std::string, whose exception has the text of libstdc++, and of a file of 4 GiB
  -- or more only as many bytes are read as are left of its size.
  unfoldable pub file_contents : String → Result Exn (List ℕ)
  file_contents path = elim (W.files path) [
    | none ↦ err (std_error ("Could not open file " <> path))
    | some bytes ↦
        if ltb (length bytes % 2 ^ 32) (2 ^ 31)
        then ok (take (length bytes % 2 ^ 32) bytes)
        else err (std_error "basic_string::_M_create")
  ]

  module _ (env : Env) where
    abbrev pub others : List Action → M (Unit {0})
    others actions s = (ok tt, run J env actions s)

    -- addChannels with one channel, and its id.
    unfoldable pub add_one : ChannelWithoutId → M ℕ
    add_one c = add_channels env (c ∷ []) >>= λ ids. return (front ids)

    unfoldable pub play : Data → ℕ × ℕ × ℕ → List Round → M (Unit {0})
    play d channels rounds = for_each rounds λ r. do
      broadcast_round env W.floats W.builder channels r.server_clocks r.clocks d
      others r.meanwhile

    -- main from the first addChannels to the signal.
    unfoldable pub serve_data : String → String → String → Data → Schedule → M (Unit {0})
    serve_data laser cloud path d schedule = do
      others schedule.started
      laser_schema ← lift (file_contents laser)
      first ← add_one (laser_channel laser_schema)
      others schedule.first_added
      cloud_schema ← lift (file_contents cloud)
      second ← add_one (cloud_channel cloud_schema)
      others schedule.second_added
      path_schema ← lift (file_contents path)
      third ← add_one (path_channel path_schema)
      others schedule.third_added
      play d (first, second, third) schedule.rounds

    -- Behind the last round, or behind an exception.
    unfoldable pub shut_down : Service → Result Exn (Unit {0}) × Server → Outcome × Option Service
    shut_down l (err e, s) = (uncaught e, some (record l { server = s }))
    shut_down l (ok u, s) = stopped_with (stop J env W.transport (record l { server = s }))

    -- Behind `start`.
    unfoldable pub with_started :
        String
        → String
        → String
        → Data
        → Schedule
        → Result Exn (Unit {0}) × Service
        → Outcome × Option Service
    with_started laser cloud path d schedule (err e, l) = (uncaught e, some l)
    with_started laser cloud path d schedule (ok u, l) =
        shut_down l (serve_data laser cloud path d schedule l.server)

  -- Behind the receivers.
  unfoldable pub with_server :
      Env
      → String
      → String
      → String
      → Data
      → Schedule
      → Result Exn Server
      → Outcome × Option Service
  with_server env laser cloud path d schedule (err e) = (uncaught e, none)
  with_server env laser cloud path d schedule (ok s) =
      with_started (set_handlers viewer_handlers env) laser cloud path d schedule
        (start W.transport "0.0.0.0" 8765 (record { server = s; has_thread = false; history = [] }))

  unfoldable pub with_data :
      Env
      → String
      → String
      → String
      → Schedule
      → Result ReceiveError Data
      → Outcome × Option Service
  with_data env laser cloud path schedule (err e) = (receiver_threw e, none)
  with_data env laser cloud path schedule (ok d) =
      with_server env laser cloud path d schedule (create_server W.library false).1

  -- `args` and what main makes of them; the server is what is left when the program ends.
  unfoldable pub main : Env → Schedule → List String → Outcome × Option Service
  main env schedule (program ∷ laser ∷ cloud ∷ path ∷ rest) =
      with_data env laser cloud path schedule (receive_all W.first W.second W.third)
  main env schedule _ = (returning 1, none)
