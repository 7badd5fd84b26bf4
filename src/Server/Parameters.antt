-- ===== src/Server/Parameters.antt =====
-- Parameters: publishParameterValues, updateParameterValues, isParameterSubscribed,
-- unsubscribeParamsWithoutSubscriptions and the handlers of the parameter operations.
pub mod Sharing
pub mod Nameless
use dora_foxglove.Prelude.{
  ℕ, Bool, true, false, List, [], ◌∷◌, Option, none, some, String, Result, ok, err, ◌&&◌, ◌||◌, not,
  if◌then◌else◌, is_some, ◌>>=◌ as result_bind,
}
use dora_foxglove.Prelude.Maps.{Map, lookup, assign, or_else}
use dora_foxglove.Prelude.Texts.{contains, filter_by, insert_all, to_set, remove_all}
use dora_foxglove.Server.Types.{
  Server, Env, out_of_bounds_read, Exn, not_std, error, Notice, what, text, Parameter,
  ParameterValue, not_set, Message, parameter_values, subscribe, unsubscribe,
  parameter_subscription_handler, parameter_request_call, parameter_change_call,
  parameter_subscription_call,
}
use dora_foxglove.Server.Effects.{
  M, ◌>>=◌, ◌>>◌, return, done, throw, logged, lift, get, update, try, for_each, call, send,
}
use dora_foxglove.Server.Payload.{JsonLib, Failure, thrown, undefined, out_of_fuel}
use dora_foxglove.Serialization.{get_parameters}
use dora_foxglove.Server.Status.{send_status_and_log_msg}

abbrev is_set : Parameter → Bool
is_set p = elim (p.value) [ not_set ↦ false | _ ↦ true ]

-- Is some client subscribed to the parameter?
unfoldable pub any_contains : String → Map (List String) → Bool
any_contains name [] = false
any_contains name ((hdl, names) ∷ m) = contains names name || any_contains name m

unfoldable pub is_parameter_subscribed : String → Server → Bool
unfolding any_contains contains
is_parameter_subscribed name s = any_contains name s.client_param_subscriptions

-- The texts that `names` holds and nobody is subscribed to.
unfoldable pub unsubscribed_names : List String → Server → List String
unfolding filter_by is_parameter_subscribed
unsubscribed_names names s = filter_by (λ name. not (is_parameter_subscribed name s)) names

-- The parameters that a client is subscribed to.
unfoldable pub subscribed_names : ℕ → Server → List String
subscribed_names hdl s = or_else (lookup hdl s.client_param_subscriptions) []

-- `auto& clientSubscribedParams = _clientParamSubscriptions[hdl];` and a change of it.
unfoldable pub change_subscribed : ℕ → (List String → List String) → Server → Server
unfolding subscribed_names
change_subscribed hdl f s = record s {
  client_param_subscriptions = assign hdl (f (subscribed_names hdl s)) s.client_param_subscriptions;
}

abbrev pub non_empty : List String → Bool
non_empty [] = false
non_empty (x ∷ xs) = true

abbrev pub unsubscribe_failed : Exn → Notice
unsubscribe_failed not_std = text "Failed to unsubscribe from one more more parameters"
unsubscribe_failed e = what e

module _ (env : Env) where
  unfoldable pub publish_parameter_values : ℕ → List Parameter → Option String → M (Unit {0})
  unfolding filter_by
  publish_parameter_values hdl parameters request_id =
      send env hdl (parameter_values (filter_by is_set parameters) request_id)

  -- One round of the loop over the clients' subscriptions.
  unfoldable pub update_client : List Parameter → ℕ × List String → M (Unit {0})
  unfolding filter_by contains
  update_client parameters (hdl, names) = elim (filter_by (λ p. contains names p.name) parameters) [
    | [] ↦ done
    | p ∷ ps ↦ publish_parameter_values hdl (p ∷ ps) none
  ]

  unfoldable pub update_parameter_values : List Parameter → M (Unit {0})
  update_parameter_values parameters = do
    s ← get
    for_each s.client_param_subscriptions (update_client parameters)

  unfoldable pub unsubscribe_params_without_subscriptions : ℕ → List String → M (Unit {0})
  unsubscribe_params_without_subscriptions hdl names = do
    s ← get
    let orphans = unsubscribed_names names s
    if env.has_handler parameter_subscription_handler && non_empty orphans
        then try (call env (parameter_subscription_call orphans unsubscribe hdl))
            (λ e. send_status_and_log_msg env hdl error (unsubscribe_failed e))
        else done

  -- handleSubscribeParameterUpdates behind the reading of the names.
  unfoldable pub subscribe_params : ℕ → List String → M (Unit {0})
  subscribe_params hdl names = do
    s ← get
    let fresh = unsubscribed_names names s
    update (change_subscribed hdl (insert_all names))
    if non_empty fresh then call env (parameter_subscription_call fresh subscribe hdl) else done

  -- handleUnsubscribeParameterUpdates behind the reading of the names.
  unfoldable pub unsubscribe_params : ℕ → List String → M (Unit {0})
  unsubscribe_params hdl names = do
    update (change_subscribed hdl (remove_all names))
    unsubscribe_params_without_subscriptions hdl names

module _ (J : JsonLib) (env : Env) where
  open J use {Json, at, find, get_string, get_strings}

  abbrev optional_string : Option Json → Result Exn (Option String)
  optional_string none = ok none
  optional_string (some v) = result_bind (get_string v) (λ t. ok (some t))

  unfoldable pub handle_get_parameters : Json → ℕ → M (Unit {0})
  handle_get_parameters payload hdl = do
    names ← lift (result_bind (at payload "parameterNames") get_strings)
    request_id ← lift (optional_string (find payload "id"))
    call env (parameter_request_call names request_id hdl)

  -- handleSetParameters behind the reading of the parameters, which may end in undefined behaviour.
  unfoldable pub change_parameters : Json → ℕ → Result Failure (List Parameter) → M (Unit {0})
  change_parameters payload hdl (ok parameters) = do
    request_id ← lift (optional_string (find payload "id"))
    call env (parameter_change_call parameters request_id hdl)
  change_parameters payload hdl (err (thrown e)) = throw e
  change_parameters payload hdl (err _) = update (logged out_of_bounds_read)

  unfoldable pub handle_set_parameters : Json → ℕ → M (Unit {0})
  handle_set_parameters payload hdl = do
    parameters ← lift (at payload "parameters")
    change_parameters payload hdl (get_parameters J parameters)

  unfoldable pub handle_subscribe_parameter_updates : Json → ℕ → M (Unit {0})
  handle_subscribe_parameter_updates payload hdl = do
    names ← lift (result_bind (at payload "parameterNames") get_strings)
    subscribe_params env hdl (to_set names)

  unfoldable pub handle_unsubscribe_parameter_updates : Json → ℕ → M (Unit {0})
  handle_unsubscribe_parameter_updates payload hdl = do
    names ← lift (result_bind (at payload "parameterNames") get_strings)
    unsubscribe_params env hdl (to_set names)
