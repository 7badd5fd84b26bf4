-- ===== src/Server/Wire.antt =====
-- The binary messages: ServiceResponse::read and write of
-- foxglove-websocket/src/serialization.cpp, and the messages that websocket_server.hpp and
-- websocket_client.hpp put together byte by byte.
pub mod RoundTrip
use dora_foxglove.Prelude.{ℕ, ◌+◌, ◌%◌, ◌^◌, Bool, List, [], ◌∷◌, ◌++◌, ok, err, length}
use dora_foxglove.Bytes.{
  put_le, u32, write_u32_le, write_u64_le, Reader, ◌>>=◌, return, read_bytes, read_u32,
  length_error,
}
use dora_foxglove.Server.Types.{ServiceResponse}

-- The bytes of a list, given as its first and the others, but the last.
unfoldable pub without_last : ℕ → List ℕ → List ℕ
without_last b [] = []
without_last b (c ∷ s) = b ∷ without_last c s

-- BinaryOpcode and ClientBinaryOpcode.
abbrev pub message_data : ℕ
message_data = 1

abbrev pub time_data : ℕ
time_data = 2

abbrev pub service_call_response : ℕ
service_call_response = 3

abbrev pub fetch_asset_response : ℕ
fetch_asset_response = 4

abbrev pub client_message_data : ℕ
client_message_data = 1

abbrev pub service_call_request : ℕ
service_call_request = 2

unfoldable pub write : ServiceResponse → List ℕ
write r =
    write_u32_le r.service_id
    ++ write_u32_le r.call_id
    ++ write_u32_le (u32 (length r.encoding))
    ++ r.encoding
    ++ r.payload

-- The payload of a message is a std::string: the byte behind it can be read and is zero. Of what is
-- left of both behind the encoding, all but that byte is the data. If nothing is left, `offset` is
-- one beyond `payloadSize`, so that their difference wraps around and `resize` throws.
unfoldable pub read_rest : Reader (List ℕ)
read_rest [] = err length_error
read_rest (b ∷ s) = ok (without_last b s, [])

unfoldable pub read_terminated : Reader ServiceResponse
read_terminated = do
  service_id ← read_u32
  call_id ← read_u32
  encoding_length ← read_u32
  encoding ← read_bytes encoding_length
  payload ← read_rest
  return (record {
    service_id = service_id;
    call_id = call_id;
    encoding = encoding;
    payload = payload;
  })

-- ServiceResponse::read on the bytes of a payload.
unfoldable pub read : Reader ServiceResponse
read payload = read_terminated (payload ++ 0 ∷ [])

-- The message of sendMessage; of broadcastTime; of sendServiceResponse.
unfoldable pub data_message : ℕ → ℕ → List ℕ → List ℕ
data_message sub_id timestamp payload =
    message_data ∷ write_u32_le sub_id ++ write_u64_le timestamp ++ payload

unfoldable pub time_message : ℕ → List ℕ
time_message timestamp = time_data ∷ write_u64_le timestamp

unfoldable pub service_response_message : ServiceResponse → List ℕ
service_response_message r = service_call_response ∷ write r

pub data FetchAssetStatus : Type 0 where
  success error : FetchAssetStatus

pub record FetchAssetResponse : Type 0 where
  pub request_id : ℕ
  pub status : FetchAssetStatus
  pub error_message : List ℕ
  pub payload : List ℕ

abbrev status_byte : FetchAssetStatus → ℕ
status_byte success = 0
status_byte error = 1

abbrev if_error : FetchAssetStatus → List ℕ → List ℕ
if_error success bytes = []
if_error error bytes = bytes

abbrev if_success : FetchAssetStatus → List ℕ → List ℕ
if_success success bytes = bytes
if_success error bytes = []

-- The size of the error message is written whatever the status is.
unfoldable pub fetch_asset_message : FetchAssetResponse → List ℕ
fetch_asset_message r =
    fetch_asset_response ∷ write_u32_le r.request_id
    ++ status_byte r.status ∷ write_u32_le (u32 (length r.error_message))
    ++ if_error r.status r.error_message
    ++ if_success r.status r.payload

-- `publish` and `sendServiceRequest` of the client.
unfoldable pub client_data_message : ℕ → List ℕ → List ℕ
client_data_message channel_id payload = client_message_data ∷ write_u32_le channel_id ++ payload

unfoldable pub service_request_message : ServiceResponse → List ℕ
service_request_message r = service_call_request ∷ write r
