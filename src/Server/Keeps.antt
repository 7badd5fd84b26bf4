-- ===== src/Server/Keeps.antt =====
-- A method keeps a property of the members if the property still holds when it has returned or
-- thrown. One rule for each way of putting methods together.
use dora_foxglove.Prelude.{
  ℕ, ◌≡◌, refl, Bool, true, false, List, [], ◌∷◌, Option, none, some, Result, ok, err,
  if◌then◌else◌, Bool-cases, inl, inr, Option-cases,
}
use dora_foxglove.Prelude.Maps.{lookup, modify}
use dora_foxglove.Server.Types.{
  Server, Env, Exn, Event, sent, called, Call, subscribe_call, unsubscribe_call, Message,
  StatusLevel, Notice, ClientInfo,
}
use dora_foxglove.Server.Effects.{
  M, and_then, caught, ◌>>=◌, try, for_each, call, send, logged, handler_of, get, update, lift,
  done, return, throw,
}
use dora_foxglove.Server.Status.{
  handles, client_at, change_client, send_status_and_log_msg, broadcast,
}

pub record Keeps (P : Server → Type 0) {A : Type 0} (m : M A) : Type 0 where
  pub kept : (s : Server) → P s → P (m s).1

-- The calls of the handlers of subscribeHandler and unsubscribeHandler.
abbrev pub is_subscription_call : Call → Bool
is_subscription_call (subscribe_call channel hdl) = true
is_subscription_call (unsubscribe_call channel hdl) = true
is_subscription_call _ = false

abbrev pub is_subscription : Event → Bool
is_subscription (called c) = is_subscription_call c
is_subscription _ = false

-- The log is no part of what the property speaks of.
abbrev pub IgnoresAll : (Server → Type 0) → Type 0
IgnoresAll P = (e : Event) (s : Server) → P s → P (logged e s)

-- Of the log, the property speaks of those calls at most.
abbrev pub IgnoresLog : (Server → Type 0) → Type 0
IgnoresLog P = (e : Event) → is_subscription e ≡ false → (s : Server) → P s → P (logged e s)

pub IgnoresAll-IgnoresLog : {P : Server → Type 0} → IgnoresAll P → IgnoresLog P
IgnoresAll-IgnoresLog free e other s p = free e s p

client_at_same : (hdl : ℕ) (s : Server) → (client_at hdl s).1 ≡ s
unfolding client_at
client_at_same hdl s = elim (Option-cases (lookup hdl s.clients)) [
  | inl e ↦ rw (e, client_at)
  | inr (c, e) ↦ rw (e, client_at)
]

module _ {P : Server → Type 0} where
  pub and_then_kept :
      {A B : Type 0} (f : A → M B) (r : Result Exn A × Server)
      → P r.1
      → ((a : A) (s : Server) → P s → P (f a s).1)
      → P (and_then r f).1
  and_then_kept f (ok a, s) p h = h a s p
  and_then_kept f (err e, s) p h = p

  pub Keeps->>= :
      {A B : Type 0} {m : M A} {f : A → M B}
      → Keeps P m
      → ((a : A) → Keeps P (f a))
      → Keeps P (m >>= f)
  unfolding ◌>>=◌
  Keeps->>= {A} {B} {m} {f} hm hf = record {
    kept = λ s p. and_then_kept f (m s) (hm.kept s p) (λ a t q. (hf a).kept t q);
  }

  -- What was looked up may be used: the state is the one that the property holds of.
  pub Keeps-get_bind :
      {B : Type 0} (f : Server → M B) → ((s : Server) → P s → P (f s s).1) → Keeps P (get >>= f)
  unfolding ◌>>=◌ get
  Keeps-get_bind f h = record { kept = h }

  pub Keeps-try :
      {A : Type 0} {m : M A} {h : Exn → M A}
      → Keeps P m
      → ((e : Exn) → Keeps P (h e))
      → Keeps P (try m h)
  unfolding try
  Keeps-try {A} {m} {h} hm hh = record { kept = λ s p. go (m s) (hm.kept s p) }
    where
      go : (r : Result Exn A × Server) → P r.1 → P (caught r h).1
      go (ok a, t) p = p
      go (err e, t) p = (hh e).kept t p

  for_each_kept :
      {A : Type 0} {body : A → M (Unit {0})} (xs : List A)
      → ((a : A) → Keeps P (body a))
      → (s : Server) → P s
      → P (for_each xs body s).1
  unfolding for_each
  for_each_kept [] h s p = p
  for_each_kept {A} {body} (x ∷ xs) h s p =
      and_then_kept (λ _. for_each xs body) (body x s) ((h x).kept s p)
        (λ _ t q. for_each_kept xs h t q)

  pub Keeps-for_each :
      {A : Type 0} {body : A → M (Unit {0})} (xs : List A)
      → ((a : A) → Keeps P (body a))
      → Keeps P (for_each xs body)
  Keeps-for_each xs h = record { kept = for_each_kept xs h }

  pub Keeps-if :
      {A : Type 0} {m n : M A} (b : Bool) → Keeps P m → Keeps P n → Keeps P (if b then m else n)
  Keeps-if true hm hn = hm
  Keeps-if false hm hn = hn

  pub Keeps-option :
      {A V : Type 0} {m : M A} {f : V → M A} (o : Option V)
      → Keeps P m
      → ((v : V) → Keeps P (f v))
      → Keeps P {A = A} (elim o [ none ↦ m | some v ↦ f v ])
  Keeps-option none hm hf = hm
  Keeps-option (some v) hm hf = hf v

  pub Keeps-list :
      {A X : Type 0} {m : M A} {f : X → List X → M A} (xs : List X)
      → Keeps P m
      → ((x : X) (rest : List X) → Keeps P (f x rest))
      → Keeps P {A = A} (elim xs [ [] ↦ m | x ∷ rest ↦ f x rest ])
  Keeps-list [] hm hf = hm
  Keeps-list (x ∷ rest) hm hf = hf x rest

  pub Keeps-get : Keeps P get
  unfolding get
  Keeps-get = record { kept = λ s p. p }

  pub Keeps-update : (f : Server → Server) → ((s : Server) → P s → P (f s)) → Keeps P (update f)
  unfolding update
  Keeps-update f h = record { kept = h }

  -- The methods that leave the members alone.
  pub Keeps-lift : {A : Type 0} (r : Result Exn A) → Keeps P (lift r)
  unfolding lift
  Keeps-lift r = record { kept = λ s p. p }

  pub Keeps-done : Keeps P done
  unfolding done
  Keeps-done = record { kept = λ s p. p }

  pub Keeps-return : {A : Type 0} (a : A) → Keeps P (return a)
  unfolding return
  Keeps-return a = record { kept = λ s p. p }

  pub Keeps-throw : {A : Type 0} (e : Exn) → Keeps P (throw {A = A} e)
  unfolding throw
  Keeps-throw e = record { kept = λ s p. p }

  -- A call of a handler, with what it leaves in the log.
  pub Keeps-told :
      (env : Env) (c : Call) → ((s : Server) → P s → P (logged (called c) s)) → Keeps P (call env c)
  unfolding call
  Keeps-told env c tell = elim (Bool-cases (env.has_handler (handler_of c))) [
    | inl e ↦ record { kept = λ s p. rw e (tell s p) }
    | inr e ↦ record { kept = λ s p. rw e p }
  ]

  module _ (free : IgnoresLog P) where
    pub Keeps-call : (env : Env) (c : Call) → is_subscription_call c ≡ false → Keeps P (call env c)
    Keeps-call env c other = Keeps-told env c (free (called c) other)

    send_kept : (env : Env) (hdl : ℕ) (m : Message) (s : Server) → P s → P (send env hdl m s).1
    unfolding send
    send_kept env hdl m s p = elim (Bool-cases (env.reachable hdl s.log)) [
      | inl e ↦ rw e (free (sent hdl m) refl s p)
      | inr e ↦ rw e p
    ]

    pub Keeps-send : (env : Env) (hdl : ℕ) (m : Message) → Keeps P (send env hdl m)
    Keeps-send env hdl m = record { kept = send_kept env hdl m }

    pub Keeps-status :
        (env : Env) (hdl : ℕ) (level : StatusLevel) (notice : Notice)
        → Keeps P (send_status_and_log_msg env hdl level notice)
    unfolding send_status_and_log_msg
    Keeps-status env hdl level notice = Keeps-send env hdl _

    pub Keeps-broadcast : (env : Env) (m : Message) → Keeps P (broadcast env m)
    unfolding broadcast
    Keeps-broadcast env m = record {
      kept = λ s p. for_each_kept (handles s.clients) (λ h. Keeps-send env h m) s p;
    }

  pub Keeps-client_at : (hdl : ℕ) → Keeps P (client_at hdl)
  Keeps-client_at hdl = record { kept = λ s p. rw (client_at_same hdl s) p }

  change_client_kept :
      (hdl : ℕ) (f : ClientInfo → ClientInfo)
      → ((s : Server) (c : ClientInfo)
          → P s
          → lookup hdl s.clients ≡ some c
          → P (record s { clients = modify hdl f s.clients }))
      → (s : Server) → P s
      → P (change_client hdl f s).1
  unfolding change_client
  change_client_kept hdl f h s p = elim (Option-cases (lookup hdl s.clients)) [
    | inl e ↦ rw (e, change_client) p
    | inr (c, e) ↦ rw (e, change_client) (h s c p e)
  ]

  pub Keeps-change_client :
      (hdl : ℕ) (f : ClientInfo → ClientInfo)
      → ((s : Server) (c : ClientInfo)
          → P s
          → lookup hdl s.clients ≡ some c
          → P (record s { clients = modify hdl f s.clients }))
      → Keeps P (change_client hdl f)
  Keeps-change_client hdl f h = record { kept = change_client_kept hdl f h }

  -- A change of a client and then one of the members behind it.
  pub Keeps-change_client_then :
      (hdl : ℕ) (f : ClientInfo → ClientInfo) (g : Server → Server)
      → ((s : Server) (c : ClientInfo)
          → P s
          → lookup hdl s.clients ≡ some c
          → P (g (record s { clients = modify hdl f s.clients })))
      → Keeps P (change_client hdl f >>= λ _. update g)
  unfolding ◌>>=◌ update change_client
  Keeps-change_client_then hdl f g h = record {
    kept = λ s p. elim (Option-cases (lookup hdl s.clients)) [
      | inl e ↦ rw (e, change_client) p
      | inr (c, e) ↦ rw (e, change_client) (h s c p e)
    ];
  }
