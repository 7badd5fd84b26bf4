-- ===== src/Server/Yields.antt =====
-- Methods that return a result from every state. One rule for each way of putting methods together,
-- and the methods that send.
use dora_foxglove.Prelude.{
  ℕ, ◌≡◌, refl, Bool, true, false, List, [], ◌∷◌, Option, none, some, Result, ok, err,
  if◌then◌else◌, Bool-cases, inl, inr,
}
use dora_foxglove.Prelude.Maps.{lookup}
use dora_foxglove.Server.Types.{
  Server, Env, Exn, ChannelWithoutId, Message, advertise, StatusLevel, Notice,
}
use dora_foxglove.Server.Effects.{M, and_then, for_each, ◌>>=◌, get, update, done, return, send}
use dora_foxglove.Server.Status.{broadcast, send_status_and_log_msg, handles}
use dora_foxglove.Server.Subscriptions.{register, ids, add_channels}
use dora_foxglove.Server.Publish.{
  send_to_subscriber, warn_buffer_limit, send_message, broadcast_message,
}

pub record Yields {A : Type 0} (m : M A) : Type 0 where
  pub yields : (s : Server) → (a : A) × ((m s).0 ≡ ok a)

and_then-Yields :
    {A B : Type 0} (f : A → M B) (r : Result Exn A × Server) (a : A)
    → r.0 ≡ ok a
    → ((x : A) → Yields (f x))
    → (b : B) × ((and_then r f).0 ≡ ok b)
and_then-Yields f (ok x, s) a e h = (h x).yields s
and_then-Yields f (err x, s) a e h = cc

pub Yields->>= :
    {A B : Type 0} {m : M A} {f : A → M B} → Yields m → ((a : A) → Yields (f a)) → Yields (m >>= f)
unfolding ◌>>=◌
Yields->>= {A} {B} {m} {f} hm hf = record {
  yields = λ s. let (a, e) = hm.yields s in and_then-Yields f (m s) a e hf;
}

-- Methods that throw from every state.
pub record Throws (x : Exn) {A : Type 0} (m : M A) : Type 0 where
  pub throws : (s : Server) → (m s).0 ≡ err x

and_then-Throws :
    {A B : Type 0} (x : Exn) (f : A → M B) (r : Result Exn A × Server)
    → r.0 ≡ err x
    → (and_then r f).0 ≡ err x
and_then-Throws x f (ok a, s) e = cc
and_then-Throws x f (err y, s) e = cc

-- The first method throws, or it returns and the second throws.
pub Throws->>= : {A B : Type 0} {x : Exn} {m : M A} (f : A → M B) → Throws x m → Throws x (m >>= f)
unfolding ◌>>=◌
Throws->>= {A} {B} {x} {m} f h = record { throws = λ s. and_then-Throws x f (m s) (h.throws s) }

pub Yields-Throws :
    {A B : Type 0} {x : Exn} {m : M A} {f : A → M B}
    → Yields m
    → ((a : A) → Throws x (f a))
    → Throws x (m >>= f)
unfolding ◌>>=◌
Yields-Throws {A} {B} {x} {m} {f} hm hf = record {
  throws = λ s. let (a, e) = hm.yields s in go (m s) a e;
}
  where
    go : (r : Result Exn A × Server) (a : A) → r.0 ≡ ok a → (and_then r f).0 ≡ err x
    go (ok b, t) a e = (hf b).throws t
    go (err y, t) a e = cc

pub Yields-return : {A : Type 0} (a : A) → Yields (return a)
unfolding return
Yields-return a = record { yields = λ s. (a, refl) }

pub Yields-done : Yields done
unfolding done
Yields-done = record { yields = λ s. (tt, refl) }

pub Yields-get : Yields get
unfolding get
Yields-get = record { yields = λ s. (s, refl) }

pub Yields-update : (f : Server → Server) → Yields (update f)
unfolding update
Yields-update f = record { yields = λ s. (tt, refl) }

pub Yields-if :
    {A : Type 0} {m n : M A} (b : Bool) → Yields m → Yields n → Yields (if b then m else n)
Yields-if true hm hn = hm
Yields-if false hm hn = hn

Yields-option :
    {A V : Type 0} {m : M A} {f : V → M A} (o : Option V)
    → Yields m
    → ((v : V) → Yields (f v))
    → Yields {A = A} (elim o [ none ↦ m | some v ↦ f v ])
Yields-option none hm hf = hm
Yields-option (some v) hm hf = hf v

for_each-Yields :
    {A : Type 0} {body : A → M (Unit {0})} (xs : List A)
    → ((a : A) → Yields (body a))
    → (s : Server) → (u : Unit {0}) × ((for_each xs body s).0 ≡ ok u)
unfolding for_each
for_each-Yields [] h s = (tt, refl)
for_each-Yields {A} {body} (x ∷ xs) h s =
    let (u, e) = (h x).yields s in
    and_then-Yields (λ _. for_each xs body) (body x s) u e
      λ _. record { yields = for_each-Yields xs h }

pub Yields-for_each :
    {A : Type 0} {body : A → M (Unit {0})} (xs : List A)
    → ((a : A) → Yields (body a))
    → Yields (for_each xs body)
Yields-for_each xs h = record { yields = for_each-Yields xs h }

module _ (env : Env) where
  Yields-send : (hdl : ℕ) (m : Message) → Yields (send env hdl m)
  unfolding send
  Yields-send hdl m = record {
    yields = λ s. elim (Bool-cases (env.reachable hdl s.log)) [
      | inl e ↦ rw e (tt, refl)
      | inr e ↦ rw e (tt, refl)
    ];
  }

  Yields-status :
      (hdl : ℕ) (level : StatusLevel) (notice : Notice)
      → Yields (send_status_and_log_msg env hdl level notice)
  unfolding send_status_and_log_msg
  Yields-status hdl level notice = Yields-send hdl _

  Yields-broadcast : (m : Message) → Yields (broadcast env m)
  unfolding broadcast
  Yields-broadcast m = record {
    yields = λ s. for_each-Yields (handles s.clients) (λ h. Yields-send h m) s;
  }

  module _ (now : ℕ) where
    Yields-warn : (hdl : ℕ) → Yields (warn_buffer_limit env now hdl)
    unfolding warn_buffer_limit
    Yields-warn hdl =
        Yields->>= Yields-get λ s.
          Yields-if _ (Yields->>= (Yields-update _) λ _. Yields-status hdl _ _) (Yields-update _)

    Yields-send_to_subscriber :
        (hdl chan_id timestamp : ℕ) (payload : List ℕ)
        → Yields (send_to_subscriber env now hdl chan_id timestamp payload)
    unfolding send_to_subscriber
    Yields-send_to_subscriber hdl chan_id timestamp payload = Yields->>= Yields-get λ s.
        Yields-option (lookup hdl s.clients) Yields-done λ client.
          Yields-option (lookup chan_id client.subscriptions_by_channel) Yields-done
            λ sub_id. Yields-send hdl _

    Yields-send_message :
        (hdl chan_id timestamp : ℕ) (payload : List ℕ)
        → Yields (send_message env now hdl chan_id timestamp payload)
    unfolding send_message
    Yields-send_message hdl chan_id timestamp payload = Yields->>= Yields-get λ s.
        Yields-if _
          (Yields-if _ (Yields-warn hdl) (Yields-send_to_subscriber hdl chan_id timestamp payload))
          Yields-done

    pub Yields-broadcast_message :
        (chan_id timestamp : ℕ) (payload : List ℕ)
        → Yields (broadcast_message env now chan_id timestamp payload)
    unfolding broadcast_message
    Yields-broadcast_message chan_id timestamp payload =
        Yields->>= Yields-get
          λ s. Yields-for_each _ λ h. Yields-send_message h chan_id timestamp payload

  pub Yields-add_channels : (cs : List ChannelWithoutId) → Yields (add_channels env cs)
  unfolding add_channels
  Yields-add_channels [] = Yields-return []
  Yields-add_channels (c ∷ cs) = record {
    yields = λ s.
        let (added, s') = register (c ∷ cs) s in
        (Yields->>= (Yields-broadcast (advertise added)) λ _. Yields-return (ids added)).yields s';
  }
