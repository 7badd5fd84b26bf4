-- ===== src/Server/Operations.antt =====
-- The operations of the clients and what they need: StringHash, the capabilities and the handlers by
-- operation, and the statuses for what a handler throws.
use Prim.Native.Nat.{bit_xor}
use dora_foxglove.Prelude.{
  ℕ, ◌+◌, ◌-◌, ◌*◌, ◌%◌, ◌^◌, List, [], ◌∷◌, Option, none, some, String, ltb, ◌==◌, if◌then◌else◌,
}
use dora_foxglove.Prelude.Texts.{bytes_of, contains, str_eq}
use dora_foxglove.Server.Types.{
  Exn, std_error, channel_error, client_channel_error, service_error, not_std, Notice, text, what,
  what_op, what_op_id, handler_failed, Handler, subscribe_handler, unsubscribe_handler,
  client_advertise_handler, client_unadvertise_handler, parameter_request_handler,
  parameter_change_handler, parameter_subscription_handler, connection_graph_handler,
  fetch_asset_handler,
}

-- What `resize` throws for a size beyond max_size, with the text of libstdc++.
abbrev pub resize_error : Exn
resize_error = std_error "vector::_M_default_append"

-- `static_cast<uint32_t>` of a char, which is signed.
abbrev of_char : ℕ → ℕ
of_char c = if ltb c 128 then c else c + (2 ^ 32 - 256)

unfoldable pub hash_from : ℕ → List ℕ → ℕ
hash_from result [] = result
hash_from result (c ∷ cs) = hash_from (bit_xor (of_char c) result * 0x01000193 % 2 ^ 32) cs

-- StringHash: FNV-1a.
unfoldable pub string_hash : String → ℕ
unfolding hash_from bytes_of
string_hash op = hash_from 0x811C9DC5 (bytes_of op)

pub data Operation : Type 0 where
  subscribe unsubscribe advertise unadvertise get_parameters set_parameters : Operation
  subscribe_parameter_updates unsubscribe_parameter_updates : Operation
  subscribe_connection_graph unsubscribe_connection_graph fetch_asset : Operation

-- The cases of the two `switch` statements over a hash.
unfoldable pub operation_of : ℕ → Option Operation
unfolding string_hash
operation_of h =
    if h == string_hash "subscribe"
    then some subscribe
    else if h == string_hash "unsubscribe"
    then some unsubscribe
    else if h == string_hash "advertise"
    then some advertise
    else if h == string_hash "unadvertise"
    then some unadvertise
    else if h == string_hash "getParameters"
    then some get_parameters
    else if h == string_hash "setParameters"
    then some set_parameters
    else if h == string_hash "subscribeParameterUpdates"
    then some subscribe_parameter_updates
    else if h == string_hash "unsubscribeParameterUpdates"
    then some unsubscribe_parameter_updates
    else if h == string_hash "subscribeConnectionGraph"
    then some subscribe_connection_graph
    else if h == string_hash "unsubscribeConnectionGraph"
    then some unsubscribe_connection_graph
    else if h == string_hash "fetchAsset"
    then some fetch_asset
    else none

-- CAPABILITY_BY_CLIENT_OPERATION, which is keyed by the text of the operation.
abbrev capability_by_client_operation : List (String × String)
capability_by_client_operation =
    ("advertise", "clientPublish")
    ∷ ("unadvertise", "clientPublish")
    ∷ ("getParameters", "parameters")
    ∷ ("setParameters", "parameters")
    ∷ ("subscribeParameterUpdates", "parametersSubscribe")
    ∷ ("unsubscribeParameterUpdates", "parametersSubscribe")
    ∷ ("subscribeConnectionGraph", "connectionGraph")
    ∷ ("unsubscribeConnectionGraph", "connectionGraph")
    ∷ ("fetchAsset", "assets")
    ∷ []

abbrev find_text : String → List (String × String) → Option String
find_text op [] = none
find_text op ((o, capability) ∷ rest) = if str_eq o op then some capability else find_text op rest

unfoldable pub required_capability : String → Option String
required_capability op = find_text op capability_by_client_operation

-- CAPABILITY_BY_CLIENT_BINARY_OPERATION.
abbrev pub required_binary_capability : ℕ → Option String
required_binary_capability op =
    if op == 1 then some "clientPublish" else if op == 2 then some "services" else none

abbrev pub handler_for : Operation → Handler
handler_for subscribe = subscribe_handler
handler_for unsubscribe = unsubscribe_handler
handler_for advertise = client_advertise_handler
handler_for unadvertise = client_unadvertise_handler
handler_for get_parameters = parameter_request_handler
handler_for set_parameters = parameter_change_handler
handler_for subscribe_parameter_updates = parameter_subscription_handler
handler_for unsubscribe_parameter_updates = parameter_subscription_handler
handler_for subscribe_connection_graph = connection_graph_handler
handler_for unsubscribe_connection_graph = connection_graph_handler
handler_for fetch_asset = fetch_asset_handler

-- The three `catch` clauses of handleTextMessage.
abbrev pub text_failure : String → Exn → Notice
text_failure op (channel_error id t) = what_op_id (channel_error id t) op id
text_failure op (client_channel_error id t) = what_op_id (client_channel_error id t) op id
text_failure op (service_error id t) = what_op_id (service_error id t) op id
text_failure op not_std = handler_failed op
text_failure op e = what_op e op

-- The `catch` clauses of handleMessage.
abbrev pub message_failure : Exn → Notice
message_failure not_std = text "Exception occurred when executing message handler"
message_failure e = what e

-- Is the capability that an operation needs, if any, missing?
abbrev pub missing : List String → Option String → Option String
missing capabilities none = none
missing capabilities (some c) = if contains capabilities c then none else some c
