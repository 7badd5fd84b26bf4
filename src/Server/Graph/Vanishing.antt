-- ===== src/Server/Graph/Vanishing.antt =====
-- A topic that loses its publishers while it is subscribed to.
use dora_foxglove.Prelude.{
  ◌≡◌, refl, true, List, [], ◌∷◌, ◌++◌, none, some, String, ok, Bool-cases, inl, inr,
}
use dora_foxglove.Prelude.Texts.{contains, filter_by, to_set, str_eq, eq_iff, eq_refl}
use dora_foxglove.Prelude.Sets.{Among, or_true, filter_by-none, Among-to_set}
use dora_foxglove.Server.Types.{Server, Env, MapOfSets}
use dora_foxglove.Server.Effects.{◌>>=◌, get, update, done}
use dora_foxglove.Server.Graph.{find_set, changed, names, removed, update_connection_graph}
use dora_foxglove.Server.Graph.Updates.{Unique, same_set_self, names-found, all_within}

-- What the one map has of a name, the other has, too.
abbrev Extends : MapOfSets → MapOfSets → Type 0
Extends old new =
    (name : String) (set : List String)
    → find_set name new ≡ some set
    → find_set name old ≡ some set

tail-Extends :
    (n : String) (set : List String) (m : MapOfSets)
    → Unique ((n, set) ∷ m)
    → Extends ((n, set) ∷ m) m
unfolding find_set
tail-Extends n set m unique name set' found = elim (Bool-cases (str_eq n name)) [
  | inl same ↦
      let none_there : find_set n m ≡ none = unique.0 in
      cc (rw ((eq_iff n name).0 same) at none_there)
  | inr other ↦ rw other found
]

-- Nothing has changed where the old map has every entry of the new one.
changed_nothing : (old new : MapOfSets) → Unique new → Extends old new → changed old new ≡ []
unfolding changed filter_by find_set
changed_nothing old [] unique extends = refl
changed_nothing old ((n, set) ∷ new) unique extends =
    let here : find_set n old ≡ some set = extends n set (rw (eq_refl n) refl) in
    rw (here, same_set_self set)
      (changed_nothing old new unique.1
        λ name set' found. extends name set' (tail-Extends n set new unique name set' found))

removed_nothing : (known used : List String) → Among (contains used) known → removed known used ≡ []
unfolding removed
removed_nothing known used a =
    filter_by-none (contains used) (to_set known) (Among-to_set (contains used) known a)

contains-append :
    (ts us : List String) (t : String) → contains us t ≡ true → contains (ts ++ us) t ≡ true
unfolding contains
contains-append [] us t e = e
contains-append (s ∷ ts) us t e =
    or_true (str_eq s t) (contains (ts ++ us) t) (contains-append ts us t e)

-- The server before and behind the update.
abbrev pub with_graph : MapOfSets → MapOfSets → MapOfSets → Server → Server
with_graph published subscribed services s = record s {
  graph = record {
    subscription_count = s.graph.subscription_count;
    published_topics = published;
    subscribed_topics = subscribed;
    advertised_services = services;
  };
}

-- When a topic that somebody subscribes to loses all its publishers, and nothing else changes,
-- updateConnectionGraph takes the new graph over and sends nothing, whoever has subscribed to the
-- updates. No topic and no service has two entries, as in the maps of the source.
pub vanished_publishers_unreported :
    (env : Env) (topic : String) (publishers subscribers : List String)
    (published subscribed services : MapOfSets) (s : Server)
    → Unique ((topic, publishers) ∷ published)
    → Unique subscribed
    → Unique services
    → find_set topic subscribed ≡ some subscribers
    → update_connection_graph env published subscribed services
        (with_graph ((topic, publishers) ∷ published) subscribed services s)
      ≡ (ok tt, with_graph published subscribed services s)
unfolding update_connection_graph ◌>>=◌ get update done
vanished_publishers_unreported env topic publishers subscribers published subscribed services s u1
      u2 u3 there =
    rw
      (
        changed_nothing ((topic, publishers) ∷ published) published u1.1
            (tail-Extends topic publishers published u1),
        changed_nothing subscribed subscribed u2 (λ name set found. found),
        changed_nothing services services u3 (λ name set found. found),
        removed_nothing (topic ∷ names published ++ names subscribed)
            (names published ++ names subscribed)
            (
              contains-append (names published) (names subscribed) topic
                  (names-found subscribed topic subscribers there),
              all_within (names published ++ names subscribed),
            ),
        removed_nothing (names services) (names services) (all_within (names services)),
      )
      refl
