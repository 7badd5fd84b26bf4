-- ===== src/Server/Publish/Delivery.antt =====
-- A message on a channel reaches a client just while the client is subscribed to the channel.
use dora_foxglove.Prelude.{
  ℕ, ◌+◌, ◌%◌, ◌^◌, ◌≡◌, refl, ap, ◌∙◌, Bool, true, false, List, ◌∷◌, none, some, ok, leb, length,
}
use dora_foxglove.Prelude.Maps.{
  lookup, emplace, erase, modify, lookup-modify_self, lookup-emplace_new, lookup-erase_self,
}
use dora_foxglove.Server.Types.{
  Server, Env, Call, Event, ClientInfo, Channel, binary, sent, called, subscribe_call,
  unsubscribe_call, subscribe_handler, unsubscribe_handler,
}
use dora_foxglove.Server.Effects.{◌>>◌, call, done, logged, handler_of}
use dora_foxglove.Server.Status.{change_client}
use dora_foxglove.Server.Running.{
  if_then, if_else, on_some, on_none, get_bind, bind_ok, call_ok, send_ok,
}
use dora_foxglove.Server.Wire.{data_message}
use dora_foxglove.Server.Subscriptions.{
  find_by_sub_id, subscribe_found, subscribe_one, unsubscribe_one,
}
use dora_foxglove.Server.Publish.{send_message, send_to_subscriber}

-- Would the payload take the buffer of the client to the limit?
abbrev pub at_limit : Env → ℕ → List ℕ → List Event → Bool
at_limit env hdl payload log =
    leb env.send_buffer_limit ((env.buffered_amount hdl log + length payload) % 2 ^ 64)

module _ (env : Env) (now hdl chan_id timestamp : ℕ) (payload : List ℕ) (s : Server)
    (c : ClientInfo) where
  -- A client that can be reached, whose buffer is below the limit and that is subscribed to the
  -- channel is sent one message, with its own id of the subscription.
  pub send_message_subscribed :
      (sub_id : ℕ)
      → env.reachable hdl s.log ≡ true
      → at_limit env hdl payload s.log ≡ false
      → lookup hdl s.clients ≡ some c
      → lookup chan_id c.subscriptions_by_channel ≡ some sub_id
      → send_message env now hdl chan_id timestamp payload s
        ≡ (ok tt, logged (sent hdl (binary (data_message sub_id timestamp payload))) s)
  unfolding send_message send_to_subscriber
  send_message_subscribed sub_id reached below e e' =
      get_bind s _
      ∙ (if_then s _ _ (env.reachable hdl s.log) reached
          ∙ (if_else s _ _ (at_limit env hdl payload s.log) below
              ∙ (get_bind s _
                  ∙ (on_some s _ _ (lookup hdl s.clients) c e
                      ∙ (on_some s _ _ (lookup chan_id c.subscriptions_by_channel) sub_id e'
                          ∙ send_ok env s hdl _ reached)))))

  -- A client that is not subscribed to the channel is sent nothing, and nothing changes.
  pub send_message_unsubscribed :
      env.reachable hdl s.log ≡ true
      → at_limit env hdl payload s.log ≡ false
      → lookup hdl s.clients ≡ some c
      → lookup chan_id c.subscriptions_by_channel ≡ none
      → send_message env now hdl chan_id timestamp payload s ≡ (ok tt, s)
  unfolding send_message send_to_subscriber done
  send_message_unsubscribed reached below e e' =
      get_bind s _
      ∙ (if_then s _ _ (env.reachable hdl s.log) reached
          ∙ (if_else s _ _ (at_limit env hdl payload s.log) below
              ∙ (get_bind s _
                  ∙ (on_some s _ _ (lookup hdl s.clients) c e
                      ∙ on_none s _ _ (lookup chan_id c.subscriptions_by_channel) e'))))

-- The state behind a call of a handler and a change of a client's entry.
abbrev after : Call → ℕ → (ClientInfo → ClientInfo) → Server → Server
after c hdl f s = record (logged (called c) s) { clients = modify hdl f s.clients }

abbrev with_subscription : ℕ → ℕ → ClientInfo → ClientInfo
with_subscription chan_id sub_id c = record c {
  subscriptions_by_channel = emplace chan_id sub_id c.subscriptions_by_channel;
}

abbrev without_subscription : ℕ → ClientInfo → ClientInfo
without_subscription chan_id c = record c {
  subscriptions_by_channel = erase chan_id c.subscriptions_by_channel;
}

-- A call of a handler that is set and returns, and a change of the client's entry behind it.
call_then_change :
    (env : Env) (call_made : Call) (hdl : ℕ) (f : ClientInfo → ClientInfo) (s : Server)
    (c : ClientInfo)
    → env.has_handler (handler_of call_made) ≡ true
    → env.answer call_made s.log ≡ none
    → lookup hdl s.clients ≡ some c
    → (call env call_made >> change_client hdl f) s ≡ (ok tt, after call_made hdl f s)
unfolding change_client
call_then_change env call_made hdl f s c set silent e =
    bind_ok s _ _ tt _ (call_ok env s call_made set silent) ∙ rw (e, change_client) refl

module _ (env : Env) (now hdl sub_id chan_id timestamp : ℕ) (payload : List ℕ) (s : Server)
    (c : ClientInfo) (reached : (log : List Event) → env.reachable hdl log ≡ true)
    (below : (log : List Event) → at_limit env hdl payload log ≡ false)
    (known : lookup hdl s.clients ≡ some c) where
  -- A client that can be reached and whose buffer stays below the limit subscribes to a channel that
  -- there is and that it is not subscribed to, under an id that it does not use yet, and the handler
  -- is set and does not throw: the handler is called, and a message on the channel is then sent to
  -- the client under that id, and nothing else.
  pub subscribed_then_sent :
      (channel : Channel)
      → find_by_sub_id sub_id c.subscriptions_by_channel ≡ none
      → lookup chan_id s.channels ≡ some channel
      → lookup chan_id c.subscriptions_by_channel ≡ none
      → env.has_handler subscribe_handler ≡ true
      → env.answer (subscribe_call chan_id hdl) s.log ≡ none
      → ((subscribe_one env hdl c.subscriptions_by_channel sub_id chan_id
            >> send_message env now hdl chan_id timestamp payload)
          s).1.log
        ≡ sent hdl (binary (data_message sub_id timestamp payload))
          ∷ called (subscribe_call chan_id hdl)
          ∷ s.log
  unfolding subscribe_one subscribe_found
  subscribed_then_sent channel fresh there absent set silent =
      ap (λ r. r.1.log)
        (bind_ok s (subscribe_one env hdl c.subscriptions_by_channel sub_id chan_id) _ tt _ (
            on_none s _ _ (find_by_sub_id sub_id c.subscriptions_by_channel) fresh
            ∙ (get_bind s _
                ∙ (ap (λ o. subscribe_found env hdl sub_id chan_id o s) there
                    ∙ call_then_change env _ hdl _ s c set silent known)))
          ∙ send_message_subscribed env now hdl chan_id timestamp payload
              (after (subscribe_call chan_id hdl) hdl (with_subscription chan_id sub_id) s)
              (with_subscription chan_id sub_id c) sub_id (reached _) (below _)
              (lookup-modify_self hdl _ s.clients c known)
              (lookup-emplace_new chan_id sub_id c.subscriptions_by_channel absent))

  -- Behind an unsubscription under the id of the channel's subscription, of a client that can be
  -- reached and whose buffer stays below the limit, with a handler that is set and does not throw, a
  -- message on the channel is not sent to the client.
  pub unsubscribed_then_silent :
      find_by_sub_id sub_id c.subscriptions_by_channel ≡ some chan_id
      → env.has_handler unsubscribe_handler ≡ true
      → env.answer (unsubscribe_call chan_id hdl) s.log ≡ none
      → ((unsubscribe_one env hdl c.subscriptions_by_channel sub_id
            >> send_message env now hdl chan_id timestamp payload)
          s).1.log
        ≡ called (unsubscribe_call chan_id hdl) ∷ s.log
  unfolding unsubscribe_one
  unsubscribed_then_silent used set silent =
      ap (λ r. r.1.log)
        (bind_ok s (unsubscribe_one env hdl c.subscriptions_by_channel sub_id) _ tt _ (
            on_some s _ _ (find_by_sub_id sub_id c.subscriptions_by_channel) chan_id used
            ∙ call_then_change env _ hdl _ s c set silent known)
          ∙ send_message_unsubscribed env now hdl chan_id timestamp payload
              (after (unsubscribe_call chan_id hdl) hdl (without_subscription chan_id) s)
              (without_subscription chan_id c) (reached _) (below _)
              (lookup-modify_self hdl _ s.clients c known)
              (lookup-erase_self chan_id c.subscriptions_by_channel))
