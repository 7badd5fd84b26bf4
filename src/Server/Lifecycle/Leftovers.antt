-- ===== src/Server/Lifecycle/Leftovers.antt =====
-- What stop does not undo.
use dora_foxglove.Prelude.{
  ℕ, zero, suc, ◌≡◌, refl, ap, ◌∙◌, Bool, true, false, List, [], ◌∷◌, some, ◌&&◌, not, ltb,
  if◌then◌else◌, Bool-cases, inl, inr,
}
use dora_foxglove.Server.Types.{Server, Env}
use dora_foxglove.Server.Payload.{JsonLib}
use dora_foxglove.Server.Session.{run}
use dora_foxglove.Server.Lifecycle.Stopping.{StopsRun, force-ends, finish-ends}
use dora_foxglove.Server.Lifecycle.{
  Event, terminated, stop_called, listening_stopped, perpetual_stopped, Transport, Service, noted,
  max_shutdown_ms, begin_close, terminate, force, stop_accepting, connections, poll, wait,
  close_all, stop,
}

begin_close-server : (hdls : List ℕ) (l : Service) → (begin_close hdls l).server ≡ l.server
unfolding begin_close
begin_close-server [] l = refl
begin_close-server (hdl ∷ hdls) l = begin_close-server hdls _

-- A choice between two states with the same members.
choice_server :
    (b : Bool) (l m : Service) {s : Server}
    → l.server ≡ s
    → m.server ≡ s
    → (if b then l else m).server ≡ s
choice_server true l m p q = p
choice_server false l m p q = q

module _ (T : Transport) where
  terminate-server : (hdls : List ℕ) (l : Service) → (terminate T hdls l).server ≡ l.server
  unfolding terminate
  terminate-server [] l = refl
  terminate-server (hdl ∷ hdls) l =
      terminate-server hdls _
      ∙ choice_server (T.attached l.history hdl) (noted (terminated hdl) l) l refl refl

  force-server : (hdls : List ℕ) (l : Service) → (force T hdls l).server ≡ l.server
  unfolding force
  force-server hdls l =
      choice_server (T.stopped l.history) l (noted stop_called (terminate T hdls l)) refl
        (terminate-server hdls l)

  stop_accepting-server : (l : Service) → (stop_accepting T l).server ≡ l.server
  unfolding stop_accepting
  stop_accepting-server l =
      choice_server (T.is_listening (perpetual_stopped ∷ l.history))
        (noted listening_stopped (noted perpetual_stopped l)) (noted perpetual_stopped l) refl refl

module _ (J : JsonLib) (env : Env) (T : Transport)
    (quiet : (history : List Event) → T.handled history ≡ []) where
  poll-server : (l : Service) → (poll J env T l).server ≡ l.server
  unfolding poll run
  poll-server l = rw (quiet, run) refl

  wait-server : (fuel duration : ℕ) (l : Service) → (wait J env T fuel duration l).server ≡ l.server
  unfolding wait
  wait-server zero duration l = refl
  wait-server (suc fuel) duration l =
      elim (Bool-cases (not (T.stopped l.history) && ltb duration max_shutdown_ms)) [
        | inl e ↦ rw (e, wait) (wait-server fuel _ (poll J env T l) ∙ poll-server l)
        | inr e ↦ rw (e, wait) refl
      ]

  close_all-server : (hdls : List ℕ) (l : Service) → (close_all J env T hdls l).server ≡ l.server
  unfolding close_all
  close_all-server [] l = refl
  close_all-server (hdl ∷ hdls) l =
      force-server T (hdl ∷ hdls) _ ∙ (wait-server 101 0 _ ∙ begin_close-server (hdl ∷ hdls) l)

  -- If no method of the server runs while stop waits, as when no client answers the close handshake
  -- within the second, then stop on a running endpoint with the connection of a client ends, empties
  -- _clients and changes nothing else of the server: the clients' advertised channels, their
  -- subscriptions to parameters and the counter of the connection graph stay. A run loop ends that
  -- is stopped or has been told to stop.
  pub stop_leaves :
      (l : Service) (hdl : ℕ) (hdls : List ℕ)
      → StopsRun T
      → T.stopped l.history ≡ false
      → connections T (stop_accepting T l) ≡ hdl ∷ hdls
      → (m : Service) × (stop J env T l ≡ some m) × (m.server ≡ record l.server { clients = [] })
  unfolding stop close_all
  stop_leaves l hdl hdls h e some_open =
      let halted = stop_accepting T l in
      let closed = force T (hdl ∷ hdls) (wait J env T 101 0 (begin_close (hdl ∷ hdls) halted)) in
      let (m, ended, polled_as, left, joined_now) =
        finish-ends T closed (force-ends T h (hdl ∷ hdls) _) in
      (
        m,
        rw (e, some_open) ended,
        left
            ∙ ap (λ (s : Server). record s { clients = [] })
                (close_all-server (hdl ∷ hdls) halted ∙ stop_accepting-server T l),
      )
