-- ===== src/Server/Construction/Tls.antt =====
-- The TLS handler that setupTlsHandler of WebSocketTls sets: whatever OpenSSL throws on the way, a
-- context is returned.
use Prim.Native.String.{◌++◌ as ◌<>◌}
use dora_foxglove.Prelude.{
  Bool, true, false, List, [], ◌∷◌, ◌++◌, Option, none, some, String, if◌then◌else◌, ◌≡◌, refl, sym,
  ◌∙◌, append-nil, append_assoc, Bool-cases, Option-cases, inl, inr,
}
use dora_foxglove.Server.Construction.{Setup, rerror, written}

-- The steps that configure the context, in order.
pub data TlsStep : Type 0 where
  set_options : TlsStep
  use_certificate_chain_file : String → TlsStep
  use_private_key_file : String → TlsStep

-- What a step throws, if it throws, and whether the list of ciphers is accepted.
pub record OpenSsl : Type 0 where
  pub thrown : TlsStep → Option String
  pub ciphers_accepted : Bool

-- The context as the steps that were done on it.
pub record Context : Type 0 where
  pub steps : List TlsStep
  pub has_ciphers : Bool

-- The try block.
unfoldable pub configure : OpenSsl → List TlsStep → Context → Context × List Setup
configure S [] c =
    if S.ciphers_accepted
    then (record c { has_ciphers = true }, [])
    else (c, written rerror "Error setting cipher list" ∷ [])
configure S (step ∷ rest) c =
    let continued = configure S rest (record c { steps = c.steps ++ (step ∷ []) }) in
    elim (S.thrown step) [
      | none ↦ continued
      | some message ↦ (c, written rerror ("Exception in TLS handshake: " <> message) ∷ [])
    ]

abbrev tls_steps : String → String → List TlsStep
tls_steps certfile keyfile =
    set_options ∷ use_certificate_chain_file certfile ∷ use_private_key_file keyfile ∷ []

-- The handler: the context, and what is written to the log.
unfoldable pub init_tls : OpenSsl → String → String → Context × List Setup
init_tls S certfile keyfile =
    configure S (tls_steps certfile keyfile) (record { steps = []; has_ciphers = false })

configure_silent :
    (S : OpenSsl) (todo : List TlsStep) (c : Context)
    → (configure S todo c).1 ≡ []
    → ((configure S todo c).0.steps ≡ c.steps ++ todo) × ((configure S todo c).0.has_ciphers ≡ true)
unfolding configure
configure_silent S [] c e = elim (Bool-cases S.ciphers_accepted) [
  | inl accepted ↦ rw accepted (sym (append-nil c.steps), refl)
  | inr refused ↦ cc (rw refused at e)
]
configure_silent S (step ∷ rest) c e = elim (Option-cases (S.thrown step)) [
  | inl none' ↦
      let e' : (configure S rest (record c { steps = c.steps ++ (step ∷ []) })).1 ≡ [] =
        rw (none', configure) at e in
      let (all, ciphers) =
        configure_silent S rest (record c { steps = c.steps ++ (step ∷ []) }) e' in
      rw (none', configure) (all ∙ append_assoc c.steps (step ∷ []) rest, ciphers)
  | inr (message, threw) ↦ cc (rw (threw, configure) at e)
]

-- The TLS handler returns a context whatever OpenSSL throws; when nothing was written to the log,
-- the context has its options, the certificate, the key and the ciphers.
pub init_tls_silent :
    (S : OpenSsl) (certfile keyfile : String)
    → (init_tls S certfile keyfile).1 ≡ []
    → ((init_tls S certfile keyfile).0.steps ≡ tls_steps certfile keyfile)
      × ((init_tls S certfile keyfile).0.has_ciphers ≡ true)
unfolding init_tls
init_tls_silent S certfile keyfile e = configure_silent S (tls_steps certfile keyfile) _ e
