-- ===== src/Client/Connection.antt =====
-- Runs of the client: on which connections its messages go out.
use dora_foxglove.Prelude.{
  ℕ, ◌≡◌, refl, sym, Bool, true, false, List, [], ◌∷◌, Option, none, some, String, arith, ◌==◌,
  Result, ok, if◌then◌else◌, Option-cases, inl, inr,
}
use mathlib.Core.Path.{subst}
use dora_foxglove.Server.Types.{Exn, ServiceResponse}
use dora_foxglove.Server.Dispatch.{Frame, text_frame, binary_frame, other_frame}
use dora_foxglove.Server.Payload.{JsonWriter}
use dora_foxglove.Client.{
  Output, connecting, closing, sent, Client, Endpoint, start_client, destroy, connect, close, send,
  request, publish, send_service_request, message_handler, set_text_message_handler,
  set_binary_message_handler,
}
use dora_foxglove.Client.Requests.{Request}

-- What the owner of the client does, and a message that comes in.
pub data Action : Type 0 where
  connected : String → Bool → Bool → Action
  closed : Action
  requested : Request → Action
  published : ℕ → List ℕ → Action
  service_requested : ServiceResponse → Action
  text_handler_set binary_handler_set : Bool → Action
  received : Frame → Action

-- Has the connection been opened, and not been closed since?
abbrev pub is_open : ℕ → List Output → Bool
is_open k [] = false
is_open k (connecting j o c ∷ log) = if j == k then true else is_open k log
is_open k (closing j ∷ log) = if j == k then false else is_open k log
is_open k (_ ∷ log) = is_open k log

-- Each message went out on a connection that was open then.
abbrev pub SentOpen : List Output → Type 0
SentOpen [] = Unit {0}
SentOpen (sent k frame ∷ log) = (is_open k log ≡ true) × SentOpen log
SentOpen (_ ∷ log) = SentOpen log

-- The connection of a client is open.
abbrev HeldOpen : Option ℕ → List Output → Type 0
HeldOpen none log = Unit {0}
HeldOpen (some k) log = is_open k log ≡ true

record IsSound (c : Client) : Type 0 where
  pub held : HeldOpen c.connection c.log
  pub sent_open : SentOpen c.log

module _ (E : Endpoint) {Json : Type 0} (W : JsonWriter Json) where
  -- What a throw leaves is the client as it was changed until then.
  unfoldable pub step : Action → Client → Client
  step (connected uri o x) c = (connect E uri o x c).1
  step closed c = (close E c).1
  step (requested r) c = (request E W r c).1
  step (published id buffer) c = (publish E id buffer c).1
  step (service_requested r) c = (send_service_request E r c).1
  step (text_handler_set b) c = set_text_message_handler b c
  step (binary_handler_set b) c = set_binary_message_handler b c
  step (received frame) c = message_handler frame c

  unfoldable pub run : List Action → Client → Client
  run [] c = c
  run (a ∷ actions) c = run actions (step a c)

  send-IsSound : (frame : Frame) (c : Client) → IsSound c → IsSound (send E frame c).1
  unfolding send
  send-IsSound frame c s = elim (Option-cases c.connection) [
    | inl e ↦ rw (e, send) s
    | inr (k, e) ↦
        let opened : is_open k c.log ≡ true = subst (λ o. HeldOpen o c.log) e s.held in
        elim (Option-cases (E.send_error k frame c.log)) [
          | inr (x, e') ↦ rw (e, send, e') s
          | inl e' ↦
              rw (e, send, e')
                (record {
                  held = subst (λ o. HeldOpen o (sent k frame ∷ c.log)) (sym e) opened;
                  sent_open = (opened, s.sent_open);
                })
        ]
  ]

  connect-IsSound :
      (uri : String) (o x : Bool) (c : Client) → IsSound c → IsSound (connect E uri o x c).1
  unfolding connect
  connect-IsSound uri o x c s = elim (Option-cases (E.get_connection uri c.log)) [
    | inl e ↦ rw (e, connect) (record { held = tt; sent_open = s.sent_open })
    | inr (k, e) ↦ rw (e, connect) (record { held = opened k; sent_open = s.sent_open })
  ]
    where
      opened : (k : ℕ) → (if k == k then true else is_open k c.log) ≡ true
      opened k = ground arith

  close-IsSound : (c : Client) → IsSound c → IsSound (close E c).1
  unfolding close
  close-IsSound c s = elim (Option-cases c.connection) [
    | inl e ↦ rw (e, close) s
    | inr (k, e) ↦ rw (e, close) (record { held = tt; sent_open = s.sent_open })
  ]

  message_handler-IsSound :
      (frame : Frame) (c : Client) → IsSound c → IsSound (message_handler frame c)
  unfolding message_handler
  message_handler-IsSound (text_frame m) c s = ground arith
  message_handler-IsSound (binary_frame m) c s = ground arith
  message_handler-IsSound (other_frame m) c s = s

  step-IsSound : (a : Action) (c : Client) → IsSound c → IsSound (step a c)
  unfolding step request publish send_service_request set_text_message_handler
      set_binary_message_handler
  step-IsSound (connected uri o x) c s = connect-IsSound uri o x c s
  step-IsSound closed c s = close-IsSound c s
  step-IsSound (requested r) c s = send-IsSound _ c s
  step-IsSound (published id buffer) c s = send-IsSound _ c s
  step-IsSound (service_requested r) c s = send-IsSound _ c s
  step-IsSound (text_handler_set b) c s = record { held = s.held; sent_open = s.sent_open }
  step-IsSound (binary_handler_set b) c s = record { held = s.held; sent_open = s.sent_open }
  step-IsSound (received frame) c s = message_handler-IsSound frame c s

  run-IsSound : (actions : List Action) (c : Client) → IsSound c → IsSound (run actions c)
  unfolding run
  run-IsSound [] c s = s
  run-IsSound (a ∷ actions) c s = run-IsSound actions (step a c) (step-IsSound a c s)

  constructed-IsSound : (c : Client) → start_client none ≡ ok c → IsSound c
  unfolding start_client
  constructed-IsSound c e = subst IsSound (ok-same e) (record { held = tt; sent_open = tt })
    where
      ok-same : {a b : Client} → Path (Result Exn Client) (ok a) (ok b) → a ≡ b
      ok-same h = cc

  destroy-closed :
      (c : Client) (k : ℕ) → c.connection ≡ some k → is_open k (destroy E c).log ≡ false
  unfolding destroy close
  destroy-closed c k e = rw (e, close) (ground arith)

  -- In every run of a client that has been constructed, whatever the endpoint answers, each message
  -- of the client goes out on a connection that the client has opened and has not closed since; and
  -- if the client is destroyed then, the connection that it holds is closed.
  pub run-SentOpen :
      (c : Client) (actions : List Action)
      → start_client none ≡ ok c
      → SentOpen (run actions c).log
        × ((k : ℕ)
            → (run actions c).connection ≡ some k
            → is_open k (destroy E (run actions c)).log ≡ false)
  run-SentOpen c actions e =
      ((run-IsSound actions c (constructed-IsSound c e)).sent_open, destroy-closed (run actions c))

-- A second connection leaves the first one open: after `connect` on a client with an open
-- connection, whose new connection is another one, the old one is still open, and `close` then
-- closes only the new one. The endpoint gives a connection for the URI.
pub reconnect_leaks :
    (E : Endpoint) (uri : String) (o x : Bool) (c : Client) (k j : ℕ)
    → c.connection ≡ some k
    → is_open k c.log ≡ true
    → E.get_connection uri c.log ≡ some j
    → (j == k) ≡ false
    → let after = (close E (connect E uri o x c).1).1 in
      (after.connection ≡ none) × (is_open j after.log ≡ false) × (is_open k after.log ≡ true)
unfolding connect close
reconnect_leaks E uri o x c k j held opened e other =
    rw (e, connect) (refl, ground arith, rw other opened)
