-- ===== src/Server/Returns.antt =====
-- Methods that always return: what they leave, from what they start with. One rule for each way of
-- putting methods together.
use dora_foxglove.Prelude.{
  ℕ, ◌≡◌, refl, Bool, true, false, List, [], ◌∷◌, String, Result, ok, err, if◌then◌else◌,
}
use dora_foxglove.Server.Types.{Server, Env, Call, Exn, called}
use dora_foxglove.Server.Dispatch.Totality.{status_returns}
use dora_foxglove.Server.Effects.{
  M, and_then, caught, for_each, ◌>>=◌, ◌>>◌, get, update, done, try, handler_of, logged,
}
use dora_foxglove.Server.Parameters.{unsubscribe_params_without_subscriptions}
use dora_foxglove.Server.Keeps.{Keeps, Keeps-call, Keeps-told, Keeps-status, IgnoresLog}
use dora_foxglove.Server.Connections.{call_quietly}

-- From `P`, the method returns and leaves `Q`.
pub record Returns (P Q : Server → Type 0) (m : M (Unit {0})) : Type 0 where
  pub returned : (s : Server) → P s → ((m s).0 ≡ ok tt) × Q (m s).1

module _ {Q R : Server → Type 0} where
  and_then-Returns :
      (r : Result Exn (Unit {0}) × Server) (k : Unit {0} → M (Unit {0}))
      → (r.0 ≡ ok tt) × Q r.1
      → Returns Q R (k tt)
      → ((and_then r k).0 ≡ ok tt) × R (and_then r k).1
  and_then-Returns (ok x, s) k h hk = hk.returned s h.1
  and_then-Returns (err e, s) k h hk = cc (h.0)

  pub Returns->> :
      {P : Server → Type 0} {m n : M (Unit {0})}
      → Returns P Q m
      → Returns Q R n
      → Returns P R (m >> n)
  unfolding ◌>>=◌
  Returns->> {P} {m} {n} hm hn = record {
    returned = λ s p. and_then-Returns (m s) (λ _. n) (hm.returned s p) hn;
  }

module _ {P : Server → Type 0} where
  pub Returns-done : Returns P P done
  unfolding done
  Returns-done = record { returned = λ s p. (refl, p) }

  pub Returns-if :
      {Q : Server → Type 0} {m n : M (Unit {0})} (b : Bool)
      → Returns P Q m
      → Returns P Q n
      → Returns P Q (if b then m else n)
  Returns-if true hm hn = hm
  Returns-if false hm hn = hn

  pub Returns-nothing : {Q : Server → Type 0} → ((s : Server) → P s → Q s) → Returns P Q done
  unfolding done
  Returns-nothing h = record { returned = λ s p. (refl, h s p) }

  -- Each branch may use how the test came out.
  pub Returns-if_known :
      {Q : Server → Type 0} {m n : M (Unit {0})} (b : Bool)
      → (b ≡ true → Returns P Q m)
      → (b ≡ false → Returns P Q n)
      → Returns P Q (if b then m else n)
  Returns-if_known true hm hn = hm refl
  Returns-if_known false hm hn = hn refl

  pub Returns-update :
      {Q : Server → Type 0} (f : Server → Server)
      → ((s : Server) → P s → Q (f s))
      → Returns P Q (update f)
  unfolding update
  Returns-update f h = record { returned = λ s p. (refl, h s p) }

  -- What was looked up may be used behind it.
  pub Returns-get :
      {Q : Server → Type 0} {f : Server → M (Unit {0})}
      → ((s : Server) → Returns P Q (f s))
      → Returns P Q (get >>= f)
  unfolding ◌>>=◌ get
  Returns-get h = record { returned = λ s p. (h s).returned s p }

  for_each_returned :
      {A : Type 0} {body : A → M (Unit {0})} (xs : List A)
      → ((a : A) → Returns P P (body a))
      → (s : Server) → P s
      → ((for_each xs body s).0 ≡ ok tt) × P (for_each xs body s).1
  unfolding for_each
  for_each_returned [] h s p = (refl, p)
  for_each_returned {A} {body} (x ∷ xs) h s p =
      and_then-Returns {Q = P} {R = P} (body x s) (λ _. for_each xs body) ((h x).returned s p)
        (record { returned = for_each_returned xs h })

  pub Returns-for_each :
      {A : Type 0} {body : A → M (Unit {0})} (xs : List A)
      → ((a : A) → Returns P P (body a))
      → Returns P P (for_each xs body)
  Returns-for_each xs h = record { returned = for_each_returned xs h }

  -- A method that keeps `P`, with a handler of every exception that returns.
  Returns-try :
      {m : M (Unit {0})} {h : Exn → M (Unit {0})}
      → Keeps P m
      → ((e : Exn) → Returns P P (h e))
      → Returns P P (try m h)
  unfolding try
  Returns-try {m} {h} hm hh = record { returned = λ s p. go (m s) (hm.kept s p) }
    where
      go :
          (r : Result Exn (Unit {0}) × Server) → P r.1 → ((caught r h).0 ≡ ok tt) × P (caught r h).1
      go (ok x, s) p = (refl, p)
      go (err e, s) p = (hh e).returned s p

  pub Returns-call_quietly :
      (env : Env) (c : Call)
      → ((s : Server) → P s → P (logged (called c) s))
      → Returns P P (call_quietly env c)
  unfolding call_quietly
  Returns-call_quietly env c tell =
      Returns-if (env.has_handler (handler_of c))
        (Returns-try (Keeps-told env c tell) λ e. Returns-done) Returns-done

  module _ (free : IgnoresLog P) (env : Env) where
    pub Returns-orphans :
        (hdl : ℕ) (names : List String)
        → Returns P P (unsubscribe_params_without_subscriptions env hdl names)
    unfolding unsubscribe_params_without_subscriptions
    Returns-orphans hdl names = Returns-get λ s.
        Returns-if _
          (Returns-try (Keeps-call free env _ refl) λ e. record {
            returned =
                λ t p. (status_returns env hdl _ _ t, (Keeps-status free env hdl _ _).kept t p);
          })
          Returns-done
