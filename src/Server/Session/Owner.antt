-- ===== src/Server/Session/Owner.antt =====
-- Connections and the calls of the server's owner keep what is stable.
use dora_foxglove.Prelude.{ℕ, List, [], ◌∷◌, String, not, ◌&&◌, is_some, leb, Bool-cases, inl, inr}
use dora_foxglove.Prelude.Maps.{lookup}
use dora_foxglove.Server.Types.{Server, Env, ChannelWithoutId, Parameter, ServiceWithoutId}
use dora_foxglove.Server.Keeps.{
  Keeps, Keeps->>=, Keeps-send, Keeps-status, Keeps-broadcast, Keeps-for_each, Keeps-if,
  Keeps-option, Keeps-list, Keeps-get, Keeps-update, Keeps-done, Keeps-return,
}
use dora_foxglove.Server.Subscriptions.{register, add_channels, remove_channels}
use dora_foxglove.Server.Parameters.{
  publish_parameter_values, update_client, update_parameter_values,
}
use dora_foxglove.Server.Services.{
  add_service, register_services, unregister, add_services, remove_services,
}
use dora_foxglove.Server.Publish.{
  send_to_subscriber, warn_buffer_limit, send_message, broadcast_message, debounced,
}
use dora_foxglove.Server.Connections.{handle_connection_opened}
use dora_foxglove.Server.Session.Stable.{IsStable}

module _ {env : Env} {P : Server → Type 0} (S : IsStable env P) where
  registered : (cs : List ChannelWithoutId) (s : Server) → P s → P (register cs s).1
  unfolding register
  registered [] s p = p
  registered (c ∷ cs) s p = registered cs _ (S.registered c s p)

  pub add_channels-Keeps : (cs : List ChannelWithoutId) → Keeps P (add_channels env cs)
  unfolding add_channels
  add_channels-Keeps [] = Keeps-return _
  add_channels-Keeps (c ∷ cs) = record {
    kept = λ s p.
        (Keeps->>= (Keeps-broadcast S.logs env _) λ _. Keeps-return _).kept _
          (registered (c ∷ cs) s p);
  }

  pub add_service-Keeps : (service : ServiceWithoutId) → Keeps P (add_service service)
  unfolding add_service
  add_service-Keeps service = record {
    kept = λ s p.
        elim (Bool-cases (not (is_some service.request) && not (is_some service.request_schema))) [
          | inl e ↦ rw e p
          | inr e ↦
              elim (Bool-cases
                (not (is_some service.response) && not (is_some service.response_schema))) [
                  | inl e' ↦ rw (e, e') p
                  | inr e' ↦ rw (e, e') (S.services _ _ s p)
                ]
        ];
  }

  pub register_services-Keeps :
      (services : List ServiceWithoutId) → Keeps P (register_services services)
  unfolding register_services
  register_services-Keeps [] = Keeps-return _
  register_services-Keeps (service ∷ rest) =
      Keeps->>= (add_service-Keeps service)
        λ id. Keeps->>= (register_services-Keeps rest) λ others. Keeps-return _

  pub add_services-Keeps : (services : List ServiceWithoutId) → Keeps P (add_services env services)
  unfolding add_services
  add_services-Keeps [] = Keeps-return _
  add_services-Keeps (service ∷ rest) =
      Keeps->>= (register_services-Keeps (service ∷ rest))
        λ added. Keeps->>= (Keeps-broadcast S.logs env _) λ _. Keeps-return _

  pub send_message-Keeps :
      (now hdl chan_id timestamp : ℕ) (payload : List ℕ)
      → Keeps P (send_message env now hdl chan_id timestamp payload)
  unfolding send_message warn_buffer_limit send_to_subscriber
  send_message-Keeps now hdl chan_id timestamp payload = Keeps->>= Keeps-get λ s.
      Keeps-if (env.reachable hdl s.log)
        (Keeps-if (leb env.send_buffer_limit _)
          (Keeps->>= Keeps-get λ t.
            Keeps-if (debounced now t.last_buffer_warning)
              (Keeps->>= (Keeps-update _ (S.warned _)) λ _. Keeps-status S.logs env hdl _ _)
              (Keeps-update _ λ t p. S.warned _ t p))
          (Keeps->>= Keeps-get λ t. Keeps-option (lookup hdl t.clients) Keeps-done λ c.
            Keeps-option (lookup chan_id c.subscriptions_by_channel) Keeps-done
              λ id. Keeps-send S.logs env hdl _))
        Keeps-done

  pub handle_connection_opened-Keeps : (hdl : ℕ) → Keeps P (handle_connection_opened env hdl)
  unfolding handle_connection_opened
  handle_connection_opened-Keeps hdl = Keeps->>= (Keeps-update _ (S.opened hdl)) λ _.
      Keeps->>= (Keeps-send S.logs env hdl _) λ _.
        Keeps->>= Keeps-get
          λ s. Keeps->>= (Keeps-send S.logs env hdl _) λ _. Keeps-send S.logs env hdl _

  pub update_parameter_values-Keeps :
      (parameters : List Parameter) → Keeps P (update_parameter_values env parameters)
  unfolding update_parameter_values update_client publish_parameter_values
  update_parameter_values-Keeps parameters =
      Keeps->>= Keeps-get λ s. Keeps-for_each _ λ entry. client-Keeps entry
    where
      client-Keeps : (entry : ℕ × List String) → Keeps P (update_client env parameters entry)
      client-Keeps (hdl, names) = Keeps-list _ Keeps-done λ p ps. Keeps-send S.logs env hdl _

  pub remove_services-Keeps : (ks : List ℕ) → Keeps P (remove_services env ks)
  unfolding remove_services
  remove_services-Keeps ks = Keeps->>= Keeps-get λ s.
      Keeps->>= (Keeps-update _ λ t p. S.services _ _ t p)
        λ _. Keeps-list (unregister ks s.services).0 Keeps-done λ g gs. Keeps-broadcast S.logs env _

  pub broadcast_message-Keeps :
      (now chan_id timestamp : ℕ) (payload : List ℕ)
      → Keeps P (broadcast_message env now chan_id timestamp payload)
  unfolding broadcast_message
  broadcast_message-Keeps now chan_id timestamp payload =
      Keeps->>= Keeps-get
        λ s. Keeps-for_each _ λ h. send_message-Keeps now h chan_id timestamp payload

  pub remove_channels-Keeps : (ks : List ℕ) → Keeps P (remove_channels env ks)
  unfolding remove_channels
  remove_channels-Keeps [] = Keeps-done
  remove_channels-Keeps (k ∷ ks) =
      Keeps->>= (Keeps-update _ (S.dropped (k ∷ ks))) λ _. Keeps-broadcast S.logs env _
