-- ===== src/Server/Types.antt =====
-- The data that the server keeps, gets and sends: common.hpp, parameter.hpp, server_interface.hpp
-- and the private part of class Server in websocket_server.hpp, all under
-- foxglove-websocket/include/foxglove/websocket. A handle and an id are numbers; the ids are of
-- type uint32_t.
use dora_foxglove.Prelude.{ℕ, Bool, List, Option, String}
use dora_foxglove.Prelude.Maps.{Map}
use dora_foxglove.Prelude.Int.{ℤ}

pub record ChannelWithoutId : Type 0 where
  pub topic : String
  pub encoding : String
  pub schema_name : String
  pub schema : String
  pub schema_encoding : Option String

pub record Channel : Type 0 where
  pub id : ℕ
  pub without_id : ChannelWithoutId

pub record ClientAdvertisement : Type 0 where
  pub channel_id : ℕ
  pub topic : String
  pub encoding : String
  pub schema_name : String
  pub schema : List ℕ

pub record ClientMessage : Type 0 where
  pub log_time : ℕ
  pub publish_time : ℕ
  pub sequence : ℕ
  pub advertisement : ClientAdvertisement
  pub data_length : ℕ
  pub bytes : List ℕ

pub record ServiceRequestDefinition : Type 0 where
  pub encoding : String
  pub schema_name : String
  pub schema_encoding : String
  pub schema : String

pub record ServiceWithoutId : Type 0 where
  pub name : String
  pub kind : String
  pub request : Option ServiceRequestDefinition
  pub response : Option ServiceRequestDefinition
  pub request_schema : Option String
  pub response_schema : Option String

-- `ServiceRequest` is the same type.
pub record ServiceResponse : Type 0 where
  pub service_id : ℕ
  pub call_id : ℕ
  pub encoding : List ℕ
  pub payload : List ℕ

-- ParameterType and the value that the std::any holds, in one; a double is its bit pattern.
mutual
  pub data ParameterValue : Type 0 where
    not_set : ParameterValue
    bool : Bool → ParameterValue
    integer : ℤ → ParameterValue
    double : ℕ → ParameterValue
    string : String → ParameterValue
    byte_array : List ℕ → ParameterValue
    array : ParameterValues → ParameterValue
    struct : ParameterFields → ParameterValue

  pub data ParameterValues : Type 0 where
    no_values : ParameterValues
    value : ParameterValue → ParameterValues → ParameterValues

  pub data ParameterFields : Type 0 where
    no_fields : ParameterFields
    field : String → ParameterValue → ParameterFields → ParameterFields

pub record Parameter : Type 0 where
  pub name : String
  pub value : ParameterValue

pub data ParameterSubscriptionOperation : Type 0 where
  subscribe unsubscribe : ParameterSubscriptionOperation

pub data StatusLevel : Type 0 where
  info warning error : StatusLevel

-- What may be thrown: the three classes over ExeptionWithId, another std::exception with its text,
-- the std::runtime_error of hasHandler, and what is no std::exception.
pub data Exn : Type 0 where
  channel_error client_channel_error service_error : ℕ → String → Exn
  std_error : String → Exn
  unknown_operation : ℕ → Exn
  not_std : Exn

-- The text of a status message, as the template of the source with its arguments.
pub data Notice : Type 0 where
  text : String → Notice
  what : Exn → Notice
  what_op : Exn → String → Notice
  what_op_id : Exn → String → ℕ → Notice
  handler_failed : String → Notice
  capability_missing : String → String → Notice
  binary_capability_missing : ℕ → String → Notice
  handler_missing : String → Notice
  unrecognized_opcode : String → Notice
  unrecognized_binary_opcode : ℕ → Notice
  invalid_message_length : ℕ → Notice
  subscription_id_used : ℕ → Notice
  channel_not_available : ℕ → Notice
  subscription_id_unknown : ℕ → Notice
  already_advertised : ℕ → Notice
  not_whitelisted : ℕ → String → Notice
  not_advertised : ℕ → Notice
  invalid_request_length : ℕ → Notice
  service_not_advertised : ℕ → Notice

-- std::unordered_map<std::string, std::unordered_set<std::string>>.
abbrev pub MapOfSets : Type 0
MapOfSets = List (String × List String)

-- The JSON messages of the server, one for each "op", with their members, and the binary ones.
pub data Message : Type 0 where
  status : StatusLevel → Notice → Option String → Message
  remove_status : List String → Message
  server_info : String → List String → List String → List (String × String) → String → Message
  advertise : List Channel → Message
  unadvertise : List ℕ → Message
  advertise_services : List (ℕ × ServiceWithoutId) → Message
  unadvertise_services : List ℕ → Message
  parameter_values : List Parameter → Option String → Message
  service_call_failure : ℕ → ℕ → Notice → Message
  connection_graph_update : MapOfSets → MapOfSets → MapOfSets → List String → List String → Message
  binary : List ℕ → Message

-- The calls of the user's handlers.
pub data Call : Type 0 where
  subscribe_call : ℕ → ℕ → Call
  unsubscribe_call : ℕ → ℕ → Call
  client_advertise_call : ClientAdvertisement → ℕ → Call
  client_unadvertise_call : ℕ → ℕ → Call
  client_message_call : ClientMessage → ℕ → Call
  parameter_request_call : List String → Option String → ℕ → Call
  parameter_change_call : List Parameter → Option String → ℕ → Call
  parameter_subscription_call : List String → ParameterSubscriptionOperation → ℕ → Call
  service_request_call : ServiceResponse → ℕ → Call
  connection_graph_call : Bool → Call
  fetch_asset_call : String → ℕ → ℕ → Call

-- What can be seen of the server: a message that goes to a client, and the call of a handler.
-- Two stand for undefined behaviour, behind which nothing that the model says of the program holds:
-- `out_of_bounds_read`, when memory behind a message was read, and `counter_overflow`, when an int
-- was counted beyond its range.
pub data Event : Type 0 where
  out_of_bounds_read counter_overflow : Event
  sent : ℕ → Message → Event
  called : Call → Event

-- One for each member of ServerHandlers.
pub data Handler : Type 0 where
  subscribe_handler unsubscribe_handler client_advertise_handler : Handler
  client_unadvertise_handler client_message_handler parameter_request_handler : Handler
  parameter_change_handler parameter_subscription_handler service_request_handler : Handler
  connection_graph_handler fetch_asset_handler : Handler

pub record ClientInfo : Type 0 where
  pub subscriptions_by_channel : Map ℕ
  pub advertised_channels : List ℕ
  pub subscribed_to_connection_graph : Bool

pub record ConnectionGraph : Type 0 where
  pub subscription_count : ℤ
  pub published_topics : MapOfSets
  pub subscribed_topics : MapOfSets
  pub advertised_services : MapOfSets

-- The members of class Server that change, the static of sendMessage with the time of the last
-- warning, and `log`, the events so far, the newest first.
pub record Server : Type 0 where
  pub next_channel_id : ℕ
  pub clients : Map ClientInfo
  pub channels : Map Channel
  pub client_channels : Map (Map ClientAdvertisement)
  pub client_param_subscriptions : Map (List String)
  pub next_service_id : ℕ
  pub services : Map ServiceWithoutId
  pub graph : ConnectionGraph
  pub last_buffer_warning : Option ℕ
  pub log : List Event

-- What is around the server: its options, the handlers that are set, and how the world answers,
-- which may depend on all that has happened. `answer` says what a call of a handler throws, if it
-- throws; `reachable` whether websocketpp takes a message for a handle.
pub record Env : Type 0 where
  pub name : String
  pub supported_encodings : List String
  pub metadata : List (String × String)
  pub session_id : String
  pub capabilities : List String
  pub topic_whitelist : List (String → Bool)
  pub send_buffer_limit : ℕ
  pub has_handler : Handler → Bool
  pub answer : Call → List Event → Option Exn
  pub reachable : ℕ → List Event → Bool
  pub buffered_amount : ℕ → List Event → ℕ
