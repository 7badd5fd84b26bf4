-- ===== src/Lib.antt =====
-- A robot's sensor data on its way to Foxglove Studio: the repository has a program that sends laser
-- scans, point clouds and paths over TCP (dora/), one that receives them and serves them over
-- WebSockets (examples/src/), and the WebSocket library that it uses (foxglove-websocket/).
--
-- The parts and their files:
--   Dora: the classes Header, LaserScan, PointField, PointCloud2 and Path with `serialize`,
--     `deserialize`, `send...` and `receive...`. The sender is modelled from dora/*.h, the receiver
--     from examples/src/*.h. Class Path is Trajectory here. Dora.Transport has the frames: a size
--     of 32 bits, then the bytes. A socket is the list of the bytes written to it.
--   Bytes: memory as bytes, `memcpy` and the little-endian functions of
--     foxglove-websocket/include/foxglove/websocket/serialization.hpp. A reader takes bytes from
--     the front of a list; a read past its end is the value `out_of_bounds`.
--   Base64: base64Encode and base64Decode of foxglove-websocket/src/base64.cpp.
--   Callbacks: class CallbackQueue of foxglove-websocket/include/foxglove/websocket/
--     callback_queue.hpp, the queue between the network thread and the thread that runs the
--     callbacks of the messages, as a step relation over their interleavings.
--   Server: class Server of foxglove-websocket/include/foxglove/websocket/websocket_server.hpp.
--     Server.Types has its members as one record and the data of common.hpp, parameter.hpp and
--     server_interface.hpp; Server.Effects the monad of its methods, which take the members and
--     give a result or an exception with the members as they are then. Every message to a client
--     and every call of a handler is entered in `log`, the newest first.
--     Server.Subscriptions: addChannels, removeChannels, handleSubscribe, handleUnsubscribe.
--     Server.ClientChannels: handleAdvertise, handleUnadvertise, isWhitelisted.
--     Server.Parameters: the methods on parameters and their subscriptions.
--     Server.Graph: the connection graph. Server.Services: addServices, removeServices.
--     Server.Wire: the binary messages, those of websocket_client.hpp included.
--     Server.Publish: sendMessage and the other methods that send.
--     Server.Connections: validateConnection, handleConnectionOpened, handleConnectionClosed.
--     Server.Operations: StringHash, the operations and their capabilities.
--     Server.Dispatch: the handling of a message of a client.
--     Server.Session: calls of all these in any order. Server.Lifecycle: setHandlers, start, stop.
--     Server.Construction: the constructor, socketInit, getPort, and
--     foxglove-websocket/src/server_factory.cpp with the TLS handler. Server.Logging: class
--     CallbackLogger of websocket_logging.hpp.
--     Server.Keeps, Server.Takes, Server.Returns, Server.Yields and Server.Running have the rules by
--     which methods are reasoned about: what they keep, what they make of what held, that they return
--     or throw, and what they do. Server.Session.Stable is the interface between a property and the sessions: what it
--     has to withstand, once for each change of the members, to hold in every session.
--   Serialization: to_json and from_json of foxglove-websocket/src/serialization.cpp, the first in
--     Serialization.Writer. Serialization.Laws has the hypotheses on the JSON library,
--     Serialization.Instance a library of data that meets them. Serialization.Stored has the
--     parameters as parameter.hpp keeps them, with the constructors of
--     foxglove-websocket/src/parameter.cpp; elsewhere they are the data type ParameterValue.
--   Client: class Client of foxglove-websocket/include/foxglove/websocket/websocket_client.hpp.
--     Client.Requests has the JSON of its methods, Client.Effect what each means at the server, and
--     Client.Exchange the two together.
--   Programs: Programs.Sender has the test data of dora/main.cc, Programs.Viewer the receivers, the
--     channels and the loop of examples/src/laser_scan_server.cpp, Programs.Viewer.Main its main. What
--     the network thread does between the steps of main is any list of actions of a session.
--   Prelude: shared names, Boolean tests, lists, maps, sets of texts, integers and bit operations.
--
-- Numbers are natural numbers with the wrap-around of their width written out; a float is its bit
-- pattern. Loops are over lists, but for two that run on fuel, which is proved to be enough: the
-- recursion of from_json over a JSON value, value_from_json, is given the depth of the value, and the
-- wait of stop 101 rounds, one more than its thousand milliseconds have in steps of ten.
--
-- What is not under the repository is a parameter: nlohmann::json is the records JsonLib and
-- JsonWriter of Server.Payload, websocketpp and the handlers are the functions of Env, of
-- Server.Lifecycle.Transport and of Client.Endpoint, whose answers may depend on the whole log.
-- Handlers do not call back into the server. Undefined behaviour is an event in the log, behind which
-- nothing that the model says of the program holds. The code that the FlatBuffers compiler generates, the
-- arithmetic of floats in the server program and the contents of files are parameters as well.
--
-- Not modelled: the locks of the server and of the client (their methods run one after the other),
-- the type declarations of the two configurations of websocketpp, the text of a log line, the
-- threads of the sender, the pauses of the programs and what they print, and examples/src/1.cpp,
-- which is generated code.
pub mod Prelude
pub mod Bytes
pub mod Base64
pub mod Callbacks
pub mod Dora
pub mod Server
pub mod Serialization
pub mod Client
pub mod Programs
