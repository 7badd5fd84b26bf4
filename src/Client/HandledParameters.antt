-- ===== src/Client/HandledParameters.antt =====
-- The handlers of the server for parameters and assets at the JSON of a client.
use dora_foxglove.Prelude.{
  ℕ, ◌≡◌, refl, ◌∙◌, List, Option, none, some, String, ok, map, All, ◌>>=◌ as result_bind,
}
use dora_foxglove.Server.Types.{Server, Env, Parameter}
use dora_foxglove.Server.Effects.{◌>>=◌, lift}
use dora_foxglove.Server.Running.{lift_bind}
use dora_foxglove.Server.Payload.{JsonLib, JsonWriter}
use dora_foxglove.Server.Parameters.{
  handle_get_parameters, change_parameters, handle_set_parameters,
  handle_subscribe_parameter_updates, handle_unsubscribe_parameter_updates,
}
use dora_foxglove.Server.Dispatch.{handle_fetch_asset}
use dora_foxglove.Serialization.Laws.{member, Reads, IsNested}
use dora_foxglove.Serialization.Lists.{IsReadable, get_parameters-array}
use dora_foxglove.Client.Requests.{
  get_parameters, set_parameters, subscribe_parameter_updates, unsubscribe_parameter_updates,
  fetch_asset, payload, payload_members,
}
use dora_foxglove.Client.Effect.{effect}
use dora_foxglove.Client.Handled.{IsId, u32_at, string_at}

module _ (J : JsonLib) (W : JsonWriter J.Json) (L : Reads J W) where
  strings_at :
      (members : List (String × J.Json)) (key : String) (ss : List String)
      → member key members ≡ some (W.array (map W.text ss))
      → result_bind (J.at (W.object members) key) J.get_strings ≡ ok ss
  strings_at members key ss e = rw (L.at_object members key _ e, L.get_strings_array ss) refl

  module _ (env : Env) (hdl : ℕ) where
    pub get_parameters_handled :
        (names : List String) (id : Option String) (s : Server)
        → handle_get_parameters J env (payload W (get_parameters names id)) hdl s
          ≡ effect env hdl (get_parameters names id) s
    unfolding handle_get_parameters effect payload ◌>>=◌ lift
    get_parameters_handled names none s =
        let members = payload_members W (get_parameters names none) in
        rw (strings_at members "parameterNames" names refl, L.find_object members "id") refl
    get_parameters_handled names (some id) s =
        let members = payload_members W (get_parameters names (some id)) in
        rw
          (
            strings_at members "parameterNames" names refl,
            L.find_object members "id",
            L.get_string id,
          )
          refl

    pub set_parameters_handled :
        (N : IsNested J) (parameters : List Parameter) (id : Option String) (s : Server)
        → All IsReadable parameters
        → handle_set_parameters J env (payload W (set_parameters parameters id)) hdl s
          ≡ effect env hdl (set_parameters parameters id) s
    unfolding handle_set_parameters change_parameters effect payload ◌>>=◌ lift
    set_parameters_handled N parameters none s h =
        let members = payload_members W (set_parameters parameters none) in
        rw
          (
            L.at_object members "parameters" _ refl,
            get_parameters-array J W L N parameters h,
            change_parameters,
            L.find_object members "id",
          )
          refl
    set_parameters_handled N parameters (some id) s h =
        let members = payload_members W (set_parameters parameters (some id)) in
        rw
          (
            L.at_object members "parameters" _ refl,
            get_parameters-array J W L N parameters h,
            change_parameters,
            L.find_object members "id",
            L.get_string id,
          )
          refl

    pub subscribe_parameter_updates_handled :
        (names : List String) (s : Server)
        → handle_subscribe_parameter_updates J env
            (payload W (subscribe_parameter_updates names))
            hdl
            s
          ≡ effect env hdl (subscribe_parameter_updates names) s
    unfolding handle_subscribe_parameter_updates effect payload
    subscribe_parameter_updates_handled names s =
        rw
          (strings_at (payload_members W (subscribe_parameter_updates names)) "parameterNames" names
            refl)
          (lift_bind _ _ _)

    pub unsubscribe_parameter_updates_handled :
        (names : List String) (s : Server)
        → handle_unsubscribe_parameter_updates J env
            (payload W (unsubscribe_parameter_updates names))
            hdl
            s
          ≡ effect env hdl (unsubscribe_parameter_updates names) s
    unfolding handle_unsubscribe_parameter_updates effect payload
    unsubscribe_parameter_updates_handled names s =
        rw
          (strings_at (payload_members W (unsubscribe_parameter_updates names)) "parameterNames"
            names refl)
          (lift_bind _ _ _)

    pub fetch_asset_handled :
        (uri : String) (id : ℕ) (s : Server)
        → IsId id
        → handle_fetch_asset J env (payload W (fetch_asset uri id)) hdl s
          ≡ effect env hdl (fetch_asset uri id) s
    unfolding handle_fetch_asset effect payload
    fetch_asset_handled uri id s h =
        let members = payload_members W (fetch_asset uri id) in
        rw (string_at J W L members "uri" uri refl, u32_at J W L members "requestId" id h refl)
          (lift_bind _ _ _ ∙ lift_bind _ _ _)
