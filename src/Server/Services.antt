-- ===== src/Server/Services.antt =====
-- Services of the server: addServices and removeServices.
use dora_foxglove.Prelude.{ℕ, List, [], ◌∷◌, none, some, ok, err, ◌&&◌, not, if◌then◌else◌, is_some}
use dora_foxglove.Prelude.Maps.{Map, lookup, emplace, erase}
use dora_foxglove.Server.Types.{
  Env, std_error, ServiceWithoutId, advertise_services, unadvertise_services,
}
use dora_foxglove.Server.Effects.{M, ◌>>=◌, ◌>>◌, return, done, get, update}
use dora_foxglove.Server.Status.{broadcast}
use dora_foxglove.Server.Subscriptions.{next_id}

-- One round of the loop of addServices.
unfoldable pub add_service : ServiceWithoutId → M ℕ
add_service service s =
    if not (is_some service.request) && not (is_some service.request_schema)
    then (
      err (
          std_error
            "Invalid service definition: Either `request` or `requestSchema` must be defined"),
      s,
    )
    else if not (is_some service.response) && not (is_some service.response_schema)
    then (
      err (
          std_error
            "Invalid service definition: Either `response` or `responseSchema` must be defined"),
      s,
    )
    else (
      ok (next_id s.next_service_id),
      record s {
        next_service_id = next_id s.next_service_id;
        services = emplace (next_id s.next_service_id) service s.services;
      },
    )

unfoldable pub register_services : List ServiceWithoutId → M (List (ℕ × ServiceWithoutId))
register_services [] = return []
register_services (service ∷ rest) = do
  id ← add_service service
  others ← register_services rest
  return ((id, service) ∷ others)

abbrev service_ids : List (ℕ × ServiceWithoutId) → List ℕ
service_ids [] = []
service_ids ((id, service) ∷ rest) = id ∷ service_ids rest

abbrev with_id : ℕ → List ℕ × Map ServiceWithoutId → List ℕ × Map ServiceWithoutId
with_id k (gone, left) = (k ∷ gone, left)

-- The loop of removeServices: the ids that were there, in order, and the services left.
unfoldable pub unregister : List ℕ → Map ServiceWithoutId → List ℕ × Map ServiceWithoutId
unregister [] m = ([], m)
unregister (k ∷ ks) m = elim (lookup k m) [
  | none ↦ unregister ks m
  | some _ ↦ with_id k (unregister ks (erase k m))
]

module _ (env : Env) where
  unfoldable pub add_services : List ServiceWithoutId → M (List ℕ)
  add_services [] = return []
  add_services (service ∷ rest) = do
    added ← register_services (service ∷ rest)
    broadcast env (advertise_services added)
    return (service_ids added)

  unfoldable pub remove_services : List ℕ → M (Unit {0})
  remove_services ks = do
    s ← get
    let (gone, left) = unregister ks s.services
    update (λ t. record t { services = left })
    elim gone [ [] ↦ done | g ∷ gs ↦ broadcast env (unadvertise_services (g ∷ gs)) ]
