-- ===== src/Server/Takes.antt =====
-- What holds behind a method, returned or thrown, from what held before it. One rule for each way
-- of putting methods together.
use dora_foxglove.Prelude.{
  ℕ, ◌≡◌, refl, Bool, true, false, none, some, Result, ok, err, if◌then◌else◌, Option-cases,
  Bool-cases, inl, inr,
}
use dora_foxglove.Prelude.Maps.{lookup, modify}
use dora_foxglove.Server.Types.{Server, Env, Exn, Call, called, ClientInfo}
use dora_foxglove.Server.Effects.{M, and_then, ◌>>=◌, get, update, call, handler_of, logged}
use dora_foxglove.Server.Status.{client_at, change_client}
use dora_foxglove.Server.Keeps.{Keeps, and_then_kept}

pub record Takes (Q P : Server → Type 0) {A : Type 0} (m : M A) : Type 0 where
  pub took : (s : Server) → Q s → P (m s).1

module _ {Q P : Server → Type 0} where
  -- The first method keeps what held, and the second is taken from there.
  and_then_takes :
      {A B : Type 0} (f : A → M B) (r : Result Exn A × Server)
      → Q r.1
      → ((s : Server) → Q s → P s)
      → ((a : A) (s : Server) → Q s → P (f a s).1)
      → P (and_then r f).1
  and_then_takes f (ok a, s) q k h = h a s q
  and_then_takes f (err e, s) q k h = k s q

  pub Takes->>= :
      {A B : Type 0} {m : M A} {f : A → M B}
      → Keeps Q m
      → ((s : Server) → Q s → P s)
      → ((a : A) → Takes Q P (f a))
      → Takes Q P (m >>= f)
  unfolding ◌>>=◌
  Takes->>= {A} {B} {m} {f} hm k hf = record {
    took = λ s q. and_then_takes f (m s) (hm.kept s q) k (λ a t q'. (hf a).took t q');
  }

  -- The first method gives what the second keeps.
  pub Takes-then :
      {A B : Type 0} {m : M A} {f : A → M B}
      → Takes Q P m
      → ((a : A) → Keeps P (f a))
      → Takes Q P (m >>= f)
  unfolding ◌>>=◌
  Takes-then {A} {B} {m} {f} hm hf = record {
    took = λ s q. and_then_kept f (m s) (hm.took s q) (λ a t p. (hf a).kept t p);
  }

  -- What was looked up may be used.
  pub Takes-get_bind :
      {B : Type 0} (f : Server → M B) → ((s : Server) → Q s → P (f s s).1) → Takes Q P (get >>= f)
  unfolding ◌>>=◌ get
  Takes-get_bind f h = record { took = h }

  pub Takes-update : (f : Server → Server) → ((s : Server) → Q s → P (f s)) → Takes Q P (update f)
  unfolding update
  Takes-update f h = record { took = h }

  pub Takes-update_bind :
      {R : Server → Type 0} {B : Type 0} (g : Server → Server) (f : Unit {0} → M B)
      → ((s : Server) → Q s → R (g s))
      → Takes R P (f tt)
      → Takes Q P (update g >>= f)
  unfolding ◌>>=◌ update
  Takes-update_bind g f h hf = record { took = λ s q. hf.took (g s) (h s q) }

  -- A call of a handler: of one that is not set, of one that throws, and of one that returns.
  pub Takes-call_bind :
      {R : Server → Type 0} {B : Type 0} (env : Env) (c : Call) (g : Unit {0} → M B)
      → ((s : Server) → Q s → P s)
      → ((s : Server) (e : Exn) → Q s → env.answer c s.log ≡ some e → P (logged (called c) s))
      → ((s : Server) → Q s → R (logged (called c) s))
      → Takes R P (g tt)
      → Takes Q P (call env c >>= g)
  unfolding ◌>>=◌ call
  Takes-call_bind env c g unset threw told hg = record {
    took = λ s q. elim (Bool-cases (env.has_handler (handler_of c))) [
      | inr e ↦ rw e (unset s q)
      | inl e ↦ elim (Option-cases (env.answer c s.log)) [
        | inl quiet ↦ rw (e, quiet) (hg.took _ (told s q))
        | inr (x, loud) ↦ rw (e, loud) (threw s x q loud)
      ]
    ];
  }

  pub Takes-change_client :
      (hdl : ℕ) (f : ClientInfo → ClientInfo)
      → ((s : Server) → Q s → lookup hdl s.clients ≡ none → P s)
      → ((s : Server) (c : ClientInfo)
          → Q s
          → lookup hdl s.clients ≡ some c
          → P (record s { clients = modify hdl f s.clients }))
      → Takes Q P (change_client hdl f)
  unfolding change_client
  Takes-change_client hdl f k h = record {
    took = λ s q. elim (Option-cases (lookup hdl s.clients)) [
      | inl e ↦ rw (e, change_client) (k s q e)
      | inr (c, e) ↦ rw (e, change_client) (h s c q e)
    ];
  }

  pub Takes-change_client_bind :
      {R : Server → Type 0} {B : Type 0} (hdl : ℕ) (f : ClientInfo → ClientInfo)
      (g : Unit {0} → M B)
      → ((s : Server) → Q s → P s)
      → ((s : Server) (c : ClientInfo)
          → Q s
          → lookup hdl s.clients ≡ some c
          → R (record s { clients = modify hdl f s.clients }))
      → Takes R P (g tt)
      → Takes Q P (change_client hdl f >>= g)
  unfolding ◌>>=◌ change_client
  Takes-change_client_bind hdl f g k h hg = record {
    took = λ s q. elim (Option-cases (lookup hdl s.clients)) [
      | inl e ↦ rw (e, change_client) (k s q)
      | inr (c, e) ↦ rw (e, change_client) (hg.took _ (h s c q e))
    ];
  }

  -- A client that is looked up is in the map.
  pub Takes-client_at_bind :
      {B : Type 0} (hdl : ℕ) {f : ClientInfo → M B}
      → ((s : Server) → Q s → P s)
      → ((c : ClientInfo) → Takes (λ s. Q s × (lookup hdl s.clients ≡ some c)) P (f c))
      → Takes Q P (client_at hdl >>= f)
  unfolding ◌>>=◌ client_at
  Takes-client_at_bind hdl k h = record {
    took = λ s q. elim (Option-cases (lookup hdl s.clients)) [
      | inl e ↦ rw (e, client_at) (k s q)
      | inr (c, e) ↦ rw (e, client_at) ((h c).took s (q, e))
    ];
  }

-- A method that keeps what is weaker.
pub Keeps-Takes :
    {Q P : Server → Type 0} {A : Type 0} {m : M A}
    → ((s : Server) → Q s → P s)
    → Keeps P m
    → Takes Q P m
Keeps-Takes h hm = record { took = λ s q. hm.kept s (h s q) }

pub Takes-Keeps : {P : Server → Type 0} {A : Type 0} {m : M A} → Takes P P m → Keeps P m
Takes-Keeps h = record { kept = h.took }

pub Takes-if :
    {Q P : Server → Type 0} {A : Type 0} {m n : M A} (b : Bool)
    → (b ≡ true → Takes Q P m)
    → (b ≡ false → Takes Q P n)
    → Takes Q P (if b then m else n)
Takes-if true hm hn = hm refl
Takes-if false hm hn = hn refl
