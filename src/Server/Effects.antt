-- ===== src/Server/Effects.antt =====
-- The effects of a method of the server: it reads and changes the members, sends, calls handlers,
-- and returns or throws. What was changed before a throw stays changed.
use dora_foxglove.Prelude.{ℕ, List, [], ◌∷◌, Option, none, some, Result, ok, err, if◌then◌else◌}
use dora_foxglove.Server.Types.{
  Server, Env, Exn, std_error, Event, sent, called, Call, Handler, Message, subscribe_handler,
  unsubscribe_handler, client_advertise_handler, client_unadvertise_handler, client_message_handler,
  parameter_request_handler, parameter_change_handler, parameter_subscription_handler,
  service_request_handler, connection_graph_handler, fetch_asset_handler, subscribe_call,
  unsubscribe_call, client_advertise_call, client_unadvertise_call, client_message_call,
  parameter_request_call, parameter_change_call, parameter_subscription_call, service_request_call,
  connection_graph_call, fetch_asset_call,
}

abbrev pub M : Type 0 → Type 0
M A = Server → Result Exn A × Server

abbrev pub and_then : {A B : Type 0} → Result Exn A × Server → (A → M B) → Result Exn B × Server
and_then (ok a, s) f = f a s
and_then (err e, s) f = (err e, s)

infixl 5 ◌>>=◌ ◌>>◌
unfoldable pub ◌>>=◌ : {A B : Type 0} → M A → (A → M B) → M B
◌>>=◌ m f s = and_then (m s) f

abbrev pub ◌>>◌ : {B : Type 0} → M (Unit {0}) → M B → M B
m >> k = m >>= λ _. k

unfoldable pub return : {A : Type 0} → A → M A
return a s = (ok a, s)

unfoldable pub done : M (Unit {0})
done s = (ok tt, s)

unfoldable pub throw : {A : Type 0} → Exn → M A
throw e s = (err e, s)

-- A result that a library call gave, or the exception that it threw.
unfoldable pub lift : {A : Type 0} → Result Exn A → M A
lift r s = (r, s)

-- A look at the members, and a change of them.
unfoldable pub get : M Server
get s = (ok s, s)

unfoldable pub update : (Server → Server) → M (Unit {0})
update f s = (ok tt, f s)

-- `try { m } catch ...`, with a handler for every exception.
abbrev pub caught : {A : Type 0} → Result Exn A × Server → (Exn → M A) → Result Exn A × Server
caught (ok a, s) h = (ok a, s)
caught (err e, s) h = h e s

unfoldable pub try : {A : Type 0} → M A → (Exn → M A) → M A
try m h s = caught (m s) h

-- `for (const auto& x : xs) { body }`.
unfoldable pub for_each : {A : Type 0} → List A → (A → M (Unit {0})) → M (Unit {0})
for_each [] body s = (ok tt, s)
for_each (x ∷ xs) body s = and_then (body x s) (λ _. for_each xs body)

abbrev pub handler_of : Call → Handler
handler_of (subscribe_call c h) = subscribe_handler
handler_of (unsubscribe_call c h) = unsubscribe_handler
handler_of (client_advertise_call a h) = client_advertise_handler
handler_of (client_unadvertise_call c h) = client_unadvertise_handler
handler_of (client_message_call m h) = client_message_handler
handler_of (parameter_request_call n i h) = parameter_request_handler
handler_of (parameter_change_call p i h) = parameter_change_handler
handler_of (parameter_subscription_call n o h) = parameter_subscription_handler
handler_of (service_request_call r h) = service_request_handler
handler_of (connection_graph_call b) = connection_graph_handler
handler_of (fetch_asset_call u r h) = fetch_asset_handler

abbrev answered : Option Exn → Result Exn (Unit {0})
answered none = ok tt
answered (some e) = err e

abbrev pub logged : Event → Server → Server
logged e s = record s { log = e ∷ s.log }

module _ (env : Env) where
  -- A call of a handler of the user. An empty std::function throws.
  unfoldable pub call : Call → M (Unit {0})
  call c s =
      if env.has_handler (handler_of c)
      then (answered (env.answer c s.log), logged (called c) s)
      else (err (std_error "bad_function_call"), s)

  -- sendJson, sendJsonRaw and sendBinary: a failure is only logged.
  unfoldable pub send : ℕ → Message → M (Unit {0})
  send hdl m s = if env.reachable hdl s.log then (ok tt, logged (sent hdl m) s) else (ok tt, s)
