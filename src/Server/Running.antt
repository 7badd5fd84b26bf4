-- ===== src/Server/Running.antt =====
-- What a method does, one step at a time: equations that take a run over a test, a lookup, a change
-- or a call.
use dora_foxglove.Prelude.{
  ℕ, ◌≡◌, refl, List, [], ◌∷◌, map, All, Result, err, Bool, true, false, Option, none, some, ok,
  if◌then◌else◌,
}
use dora_foxglove.Server.Types.{Server, Env, Exn, Call, Message, called, sent}
use dora_foxglove.Server.Effects.{
  M, and_then, for_each, lift, ◌>>=◌, get, update, try, call, send, handler_of, logged,
}

module _ {A : Type 0} (s : Server) where
  pub if_then : (m n : M A) (b : Bool) → b ≡ true → (if b then m else n) s ≡ m s
  if_then m n true e = refl
  if_then m n false e = cc

  pub if_else : (m n : M A) (b : Bool) → b ≡ false → (if b then m else n) s ≡ n s
  if_else m n true e = cc
  if_else m n false e = refl

  pub on_some :
      {V : Type 0} (m : M A) (f : V → M A) (o : Option V) (v : V)
      → o ≡ some v
      → (elim o as (λ x. M A) [ none ↦ m | some v ↦ f v ]) s ≡ f v s
  on_some m f o v e = rw e refl

  pub on_none :
      {V : Type 0} (m : M A) (f : V → M A) (o : Option V)
      → o ≡ none
      → (elim o as (λ x. M A) [ none ↦ m | some v ↦ f v ]) s ≡ m s
  on_none m f o e = rw e refl

  pub get_bind : (f : Server → M A) → (get >>= f) s ≡ f s s
  unfolding ◌>>=◌ get
  get_bind f = refl

  pub update_bind : (g : Server → Server) (k : Unit {0} → M A) → (update g >>= k) s ≡ k tt (g s)
  unfolding ◌>>=◌ update
  update_bind g k = refl

  -- A method that has returned `b` in the state `t`.
  pub bind_ok :
      {B : Type 0} (m : M B) (f : B → M A) (b : B) (t : Server)
      → m s ≡ (ok b, t)
      → (m >>= f) s ≡ f b t
  unfolding ◌>>=◌
  bind_ok m f b t e = rw e refl

  pub try_ok :
      (m : M A) (h : Exn → M A) (a : A) (t : Server) → m s ≡ (ok a, t) → try m h s ≡ (ok a, t)
  unfolding try
  try_ok m h a t e = rw e refl

-- Two continuations that do the same.
then_same :
    {A B : Type 0} (k l : A → M B) (r : Result Exn A × Server)
    → ((a : A) (t : Server) → k a t ≡ l a t)
    → and_then r k ≡ and_then r l
then_same k l (ok a, t) same = same a t
then_same k l (err e, t) same = refl

pub bind_same :
    {A B : Type 0} (m : M A) (k l : A → M B) (s : Server)
    → ((a : A) (t : Server) → k a t ≡ l a t)
    → (m >>= k) s ≡ (m >>= l) s
unfolding ◌>>=◌
bind_same m k l s same = then_same k l (m s) same

pub lift_bind : {A B : Type 0} (a : A) (k : A → M B) (s : Server) → (lift (ok a) >>= k) s ≡ k a s
unfolding ◌>>=◌ lift
lift_bind a k s = refl

-- A loop over what a list is mapped to does what a loop over the list does, if each round does.
pub for_each-map :
    {A B : Type 0} (P : A → Type 0) (to : A → B) (body : B → M (Unit {0}))
    (direct : A → M (Unit {0}))
    → ((a : A) (s : Server) → P a → body (to a) s ≡ direct a s)
    → (xs : List A) (s : Server) → All P xs
    → for_each (map to xs) body s ≡ for_each xs direct s
unfolding for_each
for_each-map P to body direct same [] s h = refl
for_each-map P to body direct same (x ∷ xs) s h = rw (same x s h.0) (
    then_same (λ a. for_each (map to xs) body) (λ a. for_each xs direct) (direct x s)
      λ a t. for_each-map P to body direct same xs t h.1)

module _ (env : Env) (s : Server) where
  -- A handler that is set and does not throw.
  pub call_ok :
      (c : Call)
      → env.has_handler (handler_of c) ≡ true
      → env.answer c s.log ≡ none
      → call env c s ≡ (ok tt, logged (called c) s)
  unfolding call
  call_ok c set silent = rw (set, silent) refl

  pub send_ok :
      (hdl : ℕ) (m : Message)
      → env.reachable hdl s.log ≡ true
      → send env hdl m s ≡ (ok tt, logged (sent hdl m) s)
  unfolding send
  send_ok hdl m e = rw e refl
