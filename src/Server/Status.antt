-- ===== src/Server/Status.antt =====
-- sendStatusAndLogMsg, sendStatus and removeStatus, and the access to the entry of a client.
use dora_foxglove.Prelude.{ℕ, List, [], ◌∷◌, Option, none, some, String, ok, err}
use dora_foxglove.Prelude.Maps.{Map, lookup, modify}
use dora_foxglove.Server.Types.{
  Env, StatusLevel, Notice, text, Message, status, remove_status, ClientInfo, std_error,
}
use dora_foxglove.Server.Effects.{M, for_each, send}

-- The handles of a map over clients, in the order of an iteration.
unfoldable pub handles : {V : Type 0} → Map V → List ℕ
handles [] = []
handles ((h, v) ∷ m) = h ∷ handles m

-- `_clients.at(hdl)`.
unfoldable pub client_at : ℕ → M ClientInfo
client_at hdl s = elim (lookup hdl s.clients) [
  | none ↦ (err (std_error "map::at"), s)
  | some c ↦ (ok c, s)
]

-- A change of a member of `_clients.at(hdl)`.
unfoldable pub change_client : ℕ → (ClientInfo → ClientInfo) → M (Unit {0})
change_client hdl f s = elim (lookup hdl s.clients) [
  | none ↦ (err (std_error "map::at"), s)
  | some c ↦ (ok tt, record s { clients = modify hdl f s.clients })
]

module _ (env : Env) where
  -- The log message has no effect on the clients.
  unfoldable pub send_status_and_log_msg : ℕ → StatusLevel → Notice → M (Unit {0})
  unfolding send
  send_status_and_log_msg hdl level notice = send env hdl (status level notice none)

  -- The loop over `_clients` that sends one message to each.
  unfoldable pub broadcast : Message → M (Unit {0})
  unfolding send for_each handles
  broadcast m s = for_each (handles s.clients) (λ h. send env h m) s

  unfoldable pub send_status : StatusLevel → String → Option String → M (Unit {0})
  unfolding broadcast
  send_status level message id = broadcast (status level (text message) id)

  -- sendStatus with a handle.
  unfoldable pub send_status_to : ℕ → StatusLevel → String → Option String → M (Unit {0})
  unfolding send
  send_status_to hdl level message id = send env hdl (status level (text message) id)

  unfoldable pub remove_statuses : List String → M (Unit {0})
  unfolding broadcast
  remove_statuses ids = broadcast (remove_status ids)
