-- ===== src/Server/Dispatch/Delivery.antt =====
-- What a client of the library sends in binary reaches the handlers of the server unchanged.
use dora_foxglove.Prelude.{
  ℕ, ◌^◌, ◌<◌, ◌≡◌, refl, ap, ◌∙◌, String, true, false, List, [], ◌∷◌, none, some, Bool, ok, err,
  ◌==◌, if◌then◌else◌, arith, length, length-append, ltb, not,
}
use dora_foxglove.Prelude.Maps.{Map, lookup}
use dora_foxglove.Prelude.Texts.{contains}
use dora_foxglove.Bytes.{put_le, get_le, length_error, out_of_bounds}
use dora_foxglove.Bytes.Laws.{get_le-put_le, length-put_le}
use dora_foxglove.Server.Types.{
  Server, Env, ClientAdvertisement, ClientMessage, ServiceResponse, ServiceWithoutId, called,
  client_message_call, service_request_call, client_message_handler, service_request_handler,
  out_of_bounds_read,
}
use dora_foxglove.Server.Effects.{update, logged, throw}
use dora_foxglove.Server.Running.{if_then, if_else, on_some, on_none, get_bind, try_ok, call_ok}
use dora_foxglove.Server.Wire.{client_data_message, service_request_message}
use dora_foxglove.Server.Wire.RoundTrip.{IsValid, read-write, length-write, read_eleven}
use dora_foxglove.Server.Dispatch.{
  handle_binary_message, run_binary, handle_message_data, publish_client_message, request_service,
  serve, handle_service_call_request, channel_id_of,
}
use dora_foxglove.Server.Operations.{resize_error, missing, required_binary_capability}

channel_id_of-client_data_message :
    (id : ℕ) (payload : List ℕ) → id < 2 ^ 32 → channel_id_of (client_data_message id payload) ≡ id
unfolding client_data_message put_le
channel_id_of-client_data_message id payload h = get_le-put_le 4 id h

-- Behind the test for the capability.
allowed_binary :
    (env : Env) (hdl now : ℕ) (stale : ℕ × ℕ) (op : ℕ) (body : List ℕ) (s : Server)
    → missing env.capabilities (required_binary_capability op) ≡ none
    → handle_binary_message env hdl now stale (op ∷ body) s ≡ run_binary env hdl now stale op body s
unfolding handle_binary_message
allowed_binary env hdl now stale op body s e = on_none s _ _ _ e

has :
    (capabilities : List String) (c : String)
    → contains capabilities c ≡ true
    → missing capabilities (some c) ≡ none
has capabilities c e = rw e refl

module _ (env : Env) (hdl now : ℕ) (stale : ℕ × ℕ) (s : Server) where
  -- What `publish` of a client sends for a channel id of 32 bits that it has advertised reaches
  -- the handler with the advertisement and all the bytes, if publishing is allowed, the handler
  -- is set and it does not throw.
  pub client_message_delivered :
      (id : ℕ) (payload : List ℕ) (channels : Map ClientAdvertisement) (a : ClientAdvertisement)
      → id < 2 ^ 32
      → contains env.capabilities "clientPublish" ≡ true
      → env.has_handler client_message_handler ≡ true
      → lookup hdl s.client_channels ≡ some channels
      → lookup id channels ≡ some a
      → ((c : ClientMessage) → env.answer (client_message_call c hdl) s.log ≡ none)
      → handle_binary_message env hdl now stale (client_data_message id payload) s ≡ (
        ok tt,
        logged
            (called (
              client_message_call
                (record {
                  log_time = now;
                  publish_time = now;
                  sequence = 0;
                  advertisement = a;
                  data_length = length (client_data_message id payload);
                  bytes = client_data_message id payload;
                })
                hdl))
            s,
      )
  unfolding client_data_message run_binary handle_message_data publish_client_message
  client_message_delivered id payload channels a fits allowed set e e' silent =
      allowed_binary env hdl now stale 1 _ s (has env.capabilities "clientPublish" allowed)
      ∙ (if_else s _ _ (not (env.has_handler client_message_handler)) (rw set refl)
          ∙ (if_else s _ _ (ltb (length (client_data_message id payload)) 5) long
              ∙ (get_bind s _
                  ∙ (on_some s _ _ _ channels e
                      ∙ (on_some s _ _
                            (lookup (channel_id_of (client_data_message id payload)) channels) a
                            (rw (channel_id_of-client_data_message id payload fits) e')
                          ∙ try_ok s _ _ tt _ (call_ok env s _ set (silent _)))))))
    where
      long : ltb (length (client_data_message id payload)) 5 ≡ false
      long =
          let l = length-append (put_le 4 id) payload in let k = length-put_le 4 id in ground arith

  -- What sendServiceRequest of a client sends for a request with ids of 32 bits and an encoding
  -- shorter than 4 GiB reaches the handler as it was, if services are allowed, the service is
  -- advertised, the handler is set and it does not throw.
  pub service_request_delivered :
      (r : ServiceResponse) (service : ServiceWithoutId)
      → IsValid r
      → contains env.capabilities "services" ≡ true
      → env.has_handler service_request_handler ≡ true
      → lookup r.service_id s.services ≡ some service
      → env.answer (service_request_call r hdl) s.log ≡ none
      → handle_binary_message env hdl now stale (service_request_message r) s
        ≡ (ok tt, logged (called (service_request_call r hdl)) s)
  unfolding service_request_message run_binary handle_service_call_request serve request_service
  service_request_delivered r service v allowed set e silent =
      allowed_binary env hdl now stale 2 _ s (has env.capabilities "services" allowed)
      ∙ (if_else s _ _ (ltb (length (service_request_message r)) 12) long
          ∙ (ap (λ x. serve env hdl now stale x s) (read-write r v)
              ∙ (get_bind s _
                  ∙ (on_some s _ _ _ service e
                      ∙ try_ok s _ _ tt _ (
                          if_then s _ _ (env.has_handler service_request_handler) set
                          ∙ call_ok env s _ set silent)))))
    where
      long : ltb (length (service_request_message r)) 12 ≡ false
      long = let l = length-write r in ground arith

  -- On a server with the capability for services, a service call request of twelve bytes, one too
  -- few, passes the test of its length, whatever the bytes are. Its number for the length of the
  -- encoding is made of its last three bytes and the zero behind the payload: if that is zero, the
  -- size of the data wraps around and `resize` throws, in place of the failure that the test is
  -- there to send; else memory behind the payload is read.
  pub short_request_reads_past :
      (b0 b1 b2 b3 b4 b5 b6 b7 b8 b9 b10 : ℕ)
      → contains env.capabilities "services" ≡ true
      → handle_binary_message env hdl now stale
          (2 ∷ b0 ∷ b1 ∷ b2 ∷ b3 ∷ b4 ∷ b5 ∷ b6 ∷ b7 ∷ b8 ∷ b9 ∷ b10 ∷ [])
          s
        ≡ (if get_le (b8 ∷ b9 ∷ b10 ∷ 0 ∷ []) == 0
            then (err resize_error, s)
            else (ok tt, logged out_of_bounds_read s))
  unfolding run_binary handle_service_call_request serve update throw
  short_request_reads_past b0 b1 b2 b3 b4 b5 b6 b7 b8 b9 b10 allowed =
      allowed_binary env hdl now stale 2 _ s (has env.capabilities "services" allowed)
      ∙ (ap (λ x. serve env hdl now stale x s) (read_eleven b0 b1 b2 b3 b4 b5 b6 b7 b8 b9 b10)
          ∙ served (get_le (b8 ∷ b9 ∷ b10 ∷ 0 ∷ []) == 0))
    where
      served :
          (b : Bool)
          → serve env hdl now stale (err (if b then length_error else out_of_bounds)) s
            ≡ (if b then (err resize_error, s) else (ok tt, logged out_of_bounds_read s))
      served true = refl
      served false = refl
