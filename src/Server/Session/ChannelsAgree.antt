-- ===== src/Server/Session/ChannelsAgree.antt =====
-- In every session: what a client has advertised stands in `advertisedChannels` of its entry and in
-- `_clientChannels` alike.
use dora_foxglove.Prelude.{ℕ, ◌≡◌, refl, List, is_some}
use dora_foxglove.Prelude.Maps.{lookup}
use dora_foxglove.Server.Types.{Env}
use dora_foxglove.Server.Payload.{JsonLib}
use dora_foxglove.Server.Keeps.{Keeps}
use dora_foxglove.Server.ClientChannels.{member, publications}
use dora_foxglove.Server.ClientChannels.Agreement.{
  ChannelsAgree, Removing, advertised_by, agree_same, agree-registered, agree-unregistered,
  agree-opened_channels, agree-opened, agree-dropped, agree-removed,
}
use dora_foxglove.Server.Connections.{handle_connection_closed}
use dora_foxglove.Server.Connections.Closing.{closed-Keeps}
use dora_foxglove.Server.Session.{Action, run, new_server}
use dora_foxglove.Server.Session.Stable.{IsStable}
use dora_foxglove.Server.Session.Plain.{IsPlain, plain-joins, plain-leaves}
use dora_foxglove.Server.Session.Subscribing.{plain-subscribes, plain-unsubscribes}
use dora_foxglove.Server.Session.Runs.{NeverStops, run-serving}

ChannelsAgree-IsPlain : IsPlain ChannelsAgree
ChannelsAgree-IsPlain = record {
  plain_logs = λ e other s p. p;
  counted = λ n s p. p;
  flagged = λ hdl b s c p e. agree_same hdl _ s c (λ c'. refl) e p;
}

agree-closes : (env : Env) (hdl : ℕ) → Keeps ChannelsAgree (handle_connection_closed env hdl)
agree-closes env hdl =
    closed-Keeps env hdl {A = λ c. Removing hdl} {B = λ c. ChannelsAgree} {C = λ c. ChannelsAgree}
      (λ s c p e. agree-removed hdl s p)
      λ c. record {
        logs_a = λ e other s p. p;
        tells_b = λ id s p. p;
        logs_c = λ e other s p. p;
        logs_d = λ e other s p. p;
        channels = λ s p. p;
        parameters = λ s p. p;
        counted = λ e s p. p;
        uncounted = λ e s p. p;
      }

ChannelsAgree-IsStable : (env : Env) → IsStable env ChannelsAgree
ChannelsAgree-IsStable env = record {
  logs = λ e other s p. p;
  registered = λ c s p. p;
  dropped = agree-dropped;
  opened_channels = agree-opened_channels;
  advertised = agree-registered;
  unadvertised = agree-unregistered;
  parameters = λ m s p. p;
  services = λ n m s p. p;
  warned = λ w s p. p;
  published = λ t u v s p. p;
  opened = agree-opened;
  subscribes = λ hdl.
      plain-subscribes (λ e s p. p) env hdl
        (λ channel_id sub_id s c p e there. agree_same hdl _ s c (λ c'. refl) e p)
        (λ channel_id s c p e. agree_same hdl _ s c (λ c'. refl) e p);
  unsubscribes = λ hdl.
      plain-unsubscribes (λ e s p. p) env hdl
        (λ channel_id sub_id s c p e there. agree_same hdl _ s c (λ c'. refl) e p)
        (λ channel_id s c p e. agree_same hdl _ s c (λ c'. refl) e p);
  closes = agree-closes env;
  joins = plain-joins ChannelsAgree-IsPlain env;
  leaves = plain-leaves ChannelsAgree-IsPlain env;
}

agree_new : ChannelsAgree new_server
unfolding lookup member
agree_new hdl id = refl

-- Until stop is called, whatever the clients send, the handlers do and the owner calls, in any order
-- and also behind a call that throws: at every moment of the session, the ids of the channels in the
-- entry of a client are the ids under which `_clientChannels` has a channel of the client, and a
-- handle that is no client's has none.
pub run-ChannelsAgree :
    (J : JsonLib) (env : Env) (actions : List Action) (hdl id : ℕ)
    → NeverStops actions
    → let s = run J env actions new_server in
      member id (advertised_by (lookup hdl s.clients)) ≡ is_some (lookup id (publications hdl s))
unfolding publications
run-ChannelsAgree J env actions hdl id going =
    run-serving (ChannelsAgree-IsStable env) J actions new_server going agree_new hdl id
