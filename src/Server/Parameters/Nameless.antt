-- ===== src/Server/Parameters/Nameless.antt =====
-- A message of setParameters with a parameter that has no name.
use dora_foxglove.Prelude.{ℕ, ◌≡◌, refl, List, ◌∷◌, none, some, String, ok}
use dora_foxglove.Server.Types.{Server, Env, out_of_bounds_read}
use dora_foxglove.Server.Effects.{logged, ◌>>=◌, lift, update}
use dora_foxglove.Server.Payload.{JsonLib, JsonWriter}
use dora_foxglove.Server.Parameters.{change_parameters, handle_set_parameters}
use dora_foxglove.Serialization.{get_parameters, each_parameter, parameter_from_json, text_at}
use dora_foxglove.Serialization.Laws.{member, Reads}

module _ (J : JsonLib) (W : JsonWriter J.Json) (L : Reads J W) where
  -- A message whose first parameter is an object without the member `name` leads handleSetParameters
  -- into undefined behaviour: from_json uses operator[] of a const value for a key that is missing.
  -- Nothing is sent to the client and no handler is called.
  pub nameless_parameter_undefined :
      (env : Env) (hdl : ℕ) (s : Server) (message parameter : List (String × J.Json))
      (others : List J.Json)
      → member "parameters" message ≡ some (W.array (W.object parameter ∷ others))
      → member "name" parameter ≡ none
      → handle_set_parameters J env (W.object message) hdl s ≡ (ok tt, logged out_of_bounds_read s)
  unfolding handle_set_parameters ◌>>=◌ lift get_parameters each_parameter parameter_from_json
      text_at change_parameters update
  nameless_parameter_undefined env hdl s message parameter others e nameless =
      rw
        (
          L.at_object message "parameters" _ e,
          L.get_array (W.object parameter ∷ others),
          L.index_missing parameter "name" nameless,
        )
        refl
