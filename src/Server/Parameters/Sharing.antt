-- ===== src/Server/Parameters/Sharing.antt =====
-- The handler of the parameter subscriptions is asked once for what several clients subscribe to.
use dora_foxglove.Prelude.{
  arith, some, ◌&&◌, ℕ, ◌≡◌, refl, ap, ◌∙◌, Bool, true, false, List, [], ◌∷◌, String, Result, ok,
  err, ◌==◌, Bool-cases, inl, inr,
}
use dora_foxglove.Prelude.Maps.{Map, assign, lookup}
use dora_foxglove.Prelude.Texts.{remove_all, contains, insert_all}
use dora_foxglove.Prelude.Sets.{
  filter_by-none, or_true, or_true_left, contains-insert_self, contains-insert, Among, Among-weaken,
}
use dora_foxglove.Server.Types.{parameter_subscription_handler, Server, Env, Exn, Event}
use dora_foxglove.Server.Effects.{and_then, ◌>>=◌, ◌>>◌, get, update, done, logged}
use dora_foxglove.Server.Keeps.{IgnoresAll-IgnoresLog, Keeps-call, Keeps-if, Keeps-done}
use dora_foxglove.Server.Running.{if_else, get_bind, update_bind}
use dora_foxglove.Server.Parameters.{
  unsubscribe_params, unsubscribe_params_without_subscriptions, any_contains,
  is_parameter_subscribed, unsubscribed_names, subscribed_names, change_subscribed,
  subscribe_params, non_empty,
}

insert_all-Among : (ts set : List String) → Among (contains (insert_all ts set)) ts
unfolding insert_all
insert_all-Among [] set = tt
insert_all-Among (t ∷ ts) set = (
  contains-insert_self t (insert_all ts set),
  Among-weaken ts (λ u. contains-insert t u (insert_all ts set)) (insert_all-Among ts set),
)

any_contains-assign :
    (hdl : ℕ) (names : List String) (m : Map (List String)) (t : String)
    → contains names t ≡ true
    → any_contains t (assign hdl names m) ≡ true
unfolding any_contains assign
any_contains-assign hdl names [] t e = or_true_left _ false e
any_contains-assign hdl names ((j, old) ∷ m) t e = elim (Bool-cases (j == hdl)) [
  | inl same ↦ rw same (or_true_left _ _ e)
  | inr other ↦ rw other (or_true (contains old t) _ (any_contains-assign hdl names m t e))
]

-- Somebody is subscribed to every one of the names.
abbrev AllSubscribed : List String → Server → Type 0
AllSubscribed names s = Among (λ name. is_parameter_subscribed name s) names

subscribe_params-AllSubscribed :
    (env : Env) (hdl : ℕ) (names : List String) (s : Server)
    → AllSubscribed names (subscribe_params env hdl names s).1
unfolding subscribe_params is_parameter_subscribed change_subscribed ◌>>=◌ get update
subscribe_params-AllSubscribed env hdl names s =
    (Keeps-if {P = AllSubscribed names} (non_empty (unsubscribed_names names s))
        (Keeps-call (IgnoresAll-IgnoresLog free) env _ refl) Keeps-done).kept
      _
      (Among-weaken names
        (λ t.
          any_contains-assign hdl (insert_all names (subscribed_names hdl s))
            s.client_param_subscriptions t)
        (insert_all-Among names (subscribed_names hdl s)))
  where
    free : (e : Event) (s : Server) → AllSubscribed names s → AllSubscribed names (logged e s)
    free e s p = p

subscribed_silent :
    (env : Env) (hdl : ℕ) (names : List String) (s : Server)
    → AllSubscribed names s
    → (subscribe_params env hdl names s).1.log ≡ s.log
unfolding subscribe_params unsubscribed_names change_subscribed done
subscribed_silent env hdl names s h =
    ap (λ r. r.1.log)
      (get_bind s _
        ∙ (update_bind s _ _
            ∙ if_else _ _ _ (non_empty (unsubscribed_names names s))
                (rw (filter_by-none (λ t. is_parameter_subscribed t s) names h) refl)))

-- When a client subscribes to parameters, and then another or the same client to the same ones, the
-- handler of the subscriptions is called by the first only, and nothing is sent for the second.
second_subscriber_not_asked :
    (env : Env) (first second : ℕ) (names : List String) (s : Server)
    → ((subscribe_params env first names >> subscribe_params env second names) s).1.log
      ≡ (subscribe_params env first names s).1.log
unfolding ◌>>=◌
second_subscriber_not_asked env first second names s =
    go (subscribe_params env first names s) (subscribe_params-AllSubscribed env first names s)
  where
    go :
        (r : Result Exn (Unit {0}) × Server)
        → AllSubscribed names r.1
        → (and_then r (λ _. subscribe_params env second names)).1.log ≡ r.1.log
    go (ok x, t) h = subscribed_silent env second names t h
    go (err e, t) h = refl

any_contains-found :
    (hdl : ℕ) (m : Map (List String)) (names : List String) (t : String)
    → lookup hdl m ≡ some names
    → contains names t ≡ true
    → any_contains t m ≡ true
unfolding any_contains lookup
any_contains-found hdl [] names t e h = cc
any_contains-found hdl ((j, old) ∷ m) names t e h = elim (Bool-cases (j == hdl)) [
  | inl same ↦
      let entries : some old ≡ some names = rw same at e in
      let entry : old ≡ names = cc in or_true_left (contains old t) _ (rw entry h)
  | inr other ↦ or_true (contains old t) _ (any_contains-found hdl m names t (rw other at e) h)
]

-- What another client is subscribed to stays subscribed.
any_contains-assign_other :
    (hdl other : ℕ) (mine : List String) (m : Map (List String)) (names : List String) (t : String)
    → (hdl == other) ≡ false
    → lookup other m ≡ some names
    → contains names t ≡ true
    → any_contains t (assign hdl mine m) ≡ true
unfolding any_contains lookup assign
any_contains-assign_other hdl other mine [] names t apart e h = cc
any_contains-assign_other hdl other mine ((j, old) ∷ m) names t apart e h =
    elim (Bool-cases (j == hdl)) [
      | inl own ↦
          let skipped : (j == other) ≡ false = ground arith in
          rw own
            (or_true (contains mine t) _ (any_contains-found other m names t (rw skipped at e) h))
      | inr not_own ↦ elim (Bool-cases (j == other)) [
        | inl same ↦
            let entries : some old ≡ some names = rw same at e in
            let entry : old ≡ names = cc in
            rw not_own (or_true_left (contains old t) _ (rw entry h))
        | inr skipped ↦ rw not_own (
            or_true (contains old t) _
              (any_contains-assign_other hdl other mine m names t apart (rw skipped at e) h))
      ]
    ]

-- When a client unsubscribes from parameters that another client is subscribed to, nothing is sent
-- and no handler is called.
shared_not_unsubscribed :
    (env : Env) (hdl other : ℕ) (names theirs : List String) (s : Server)
    → (hdl == other) ≡ false
    → lookup other s.client_param_subscriptions ≡ some theirs
    → Among (contains theirs) names
    → (unsubscribe_params env hdl names s).1.log ≡ s.log
unfolding unsubscribe_params unsubscribe_params_without_subscriptions unsubscribed_names
    change_subscribed is_parameter_subscribed done
shared_not_unsubscribed env hdl other names theirs s apart e all =
    ap (λ r. r.1.log)
      (update_bind s _ _
        ∙ (get_bind after _
            ∙ if_else after _ _
                (env.has_handler parameter_subscription_handler
                  && non_empty (unsubscribed_names names after))
                (rw
                  (filter_by-none (λ t. is_parameter_subscribed t after) names
                    (Among-weaken names still all))
                  (and_false (env.has_handler parameter_subscription_handler)))))
  where
    after : Server
    after = change_subscribed hdl (remove_all names) s

    still : (t : String) → contains theirs t ≡ true → is_parameter_subscribed t after ≡ true
    still t = any_contains-assign_other hdl other _ s.client_param_subscriptions theirs t apart e

    and_false : (b : Bool) → (b && false) ≡ false
    and_false true = refl
    and_false false = refl
