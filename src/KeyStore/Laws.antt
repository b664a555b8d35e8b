-- ===== src/KeyStore/Laws.antt =====
-- What the key store of endpoint/crypto.py promises.
use endpoint_protocol.Prelude.{String, ◌≡◌, refl, ap, ◌∙◌, ◌<>◌, Option, ◌==◌, eq_iff, eq_refl, sym}
use endpoint_protocol.Json.{Json, get, text, is_text}
use endpoint_protocol.Errors.{ok, err≢ok}
use endpoint_protocol.Errors.Laws.{bind-inv, then-inv, ok-inj}
use endpoint_protocol.Runtime.{OpenPgp, Backend, done, failed}
use endpoint_protocol.KeyStore.{
  File, absent, holds, unreadable, KeyStore, read_file, read_public_key, read_secret_key,
  read_raw_fingerprint, has_identity_material, has_all_files, raw_openpgp_fingerprint, new_identity,
  require_backend_string, safe_key_parameter, or_else, export_public_key, current_fingerprint,
  sign_detached,
}
use endpoint_protocol.Crypto.{from_backend}

read_file-inv :
    (f : File) (message : String) {s : String} → read_file f message ≡ ok s → f ≡ holds s
unfolding read_file
read_file-inv absent message h = absurd (err≢ok h)
read_file-inv (holds t) message h = ap holds (ok-inj h)
read_file-inv (unreadable what) message h = absurd (err≢ok h)

module _ (pgp : OpenPgp) where
  -- A key store with all its files, whose fingerprint is that of its public key.
  pub record IsComplete (raw : String) (k : KeyStore) : Type 0 where
    pub fingerprint : k.raw_fingerprint ≡ holds raw
    pub public_key : String
    pub is_public_key : k.public_key ≡ holds public_key
    pub matches : raw_openpgp_fingerprint pgp public_key ≡ ok raw
    pub secret_key : String
    pub is_secret_key : k.secret_key ≡ holds secret_key

  current_fingerprint-inv :
      (k : KeyStore) (raw : String) → current_fingerprint pgp k ≡ ok raw → IsComplete raw k
  unfolding current_fingerprint
  current_fingerprint-inv k raw h =
      let (_, h1) = then-inv (has_identity_material k) _ _ h in
      let (_, h2) = then-inv (has_all_files k) _ _ h1 in
      let (named, is_named, h3) = bind-inv (read_raw_fingerprint k) _ h2 in
      let (key, is_key, h4) = bind-inv (read_public_key k) _ h3 in
      let (found, is_found, h5) = bind-inv (raw_openpgp_fingerprint pgp key) _ h4 in
      let (same, h6) = then-inv (found == named) _ _ h5 in
      let (secret, is_secret, h7) = bind-inv (read_secret_key k) _ h6 in
      let e : named ≡ raw = ok-inj h7 in
      let matches : found ≡ named = (eq_iff found named).0 same in
      record {
        fingerprint = read_file-inv k.raw_fingerprint _ is_named ∙ ap holds e;
        public_key = key;
        is_public_key = read_file-inv k.public_key _ is_key;
        matches = is_found ∙ ap ok (matches ∙ e);
        secret_key = secret;
        is_secret_key = read_file-inv k.secret_key _ is_secret;
      }

  current_fingerprint-of :
      {k : KeyStore} {raw : String} → IsComplete raw k → current_fingerprint pgp k ≡ ok raw
  unfolding current_fingerprint
  current_fingerprint-of {k} {raw} c =
      rw (c.fingerprint, c.is_public_key, c.is_secret_key) (rw (c.matches, eq_refl raw) refl)

  -- The key store answers with a fingerprint exactly when all its files can be read and that
  -- fingerprint, which one of them holds, is the one of the public key.
  pub current_fingerprint-IsComplete :
      (k : KeyStore) (raw : String)
      → (current_fingerprint pgp k ≡ ok raw → IsComplete raw k)
        × (IsComplete raw k → current_fingerprint pgp k ≡ ok raw)
  current_fingerprint-IsComplete k raw = (current_fingerprint-inv k raw, current_fingerprint-of)

  export_public_key-of :
      {k : KeyStore} {raw : String}
      → (c : IsComplete raw k) → export_public_key pgp raw k ≡ ok c.public_key
  unfolding export_public_key
  export_public_key-of {k} {raw} c = rw c.is_public_key (rw (c.matches, eq_refl raw) refl)

  sign_detached-of :
      {k : KeyStore} {raw : String} (payload : String)
      → (c : IsComplete raw k)
      → sign_detached pgp raw payload k
        ≡ from_backend (pgp.sign c.secret_key payload) "crypto_failed" "OpenPGP signing failed"
  unfolding sign_detached
  sign_detached-of {k} {raw} payload c = rw (c.fingerprint, c.is_secret_key) (rw (eq_refl raw) refl)

  -- What the backend documents: the fingerprint that it gives a new identity is its public key's.
  abbrev pub NamesItsKeys : Type 0
  NamesItsKeys =
      (name email : String) (identity : Json)
      → pgp.generate name email ≡ done identity
      → pgp.raw_fingerprint (text (get identity "public_key_armored"))
        ≡ done (text (get identity "raw_fingerprint"))

  from_backend-inv :
      {A : Type 0} (b : Backend A) (code message : String) {a : A}
      → from_backend b code message ≡ ok a
      → b ≡ done a
  from_backend-inv (done a) code message h = ap done (ok-inj h)
  from_backend-inv (failed e) code message h = absurd (err≢ok h)

  require_backend_string-inv :
      (value : Json) (key : String) {s : String}
      → require_backend_string value key ≡ ok s
      → text (get value key) ≡ s
  unfolding require_backend_string
  require_backend_string-inv value key h = ok-inj (then-inv (is_text (get value key)) _ _ h).1

  raw_openpgp_fingerprint-of :
      (key raw : String)
      → pgp.raw_fingerprint key ≡ done raw
      → raw_openpgp_fingerprint pgp key ≡ ok raw
  unfolding raw_openpgp_fingerprint
  raw_openpgp_fingerprint-of key raw h = rw h refl

  new_identity-IsComplete :
      NamesItsKeys
      → (name email : Option String) (first second : String) {k : KeyStore}
      → new_identity pgp name email first second ≡ ok k
      → (raw : String) × IsComplete raw k
  unfolding new_identity
  new_identity-IsComplete law name email first second {k} h =
      let (used_name, _, h1) =
        bind-inv (safe_key_parameter (or_else name ("Endpoint " <> first)) "name") _ h in
      let (used_email, _, h2) =
        bind-inv (safe_key_parameter (or_else email (second <> "@endpoint.local")) "email") _ h1 in
      let (identity, made, h3) =
        bind-inv
          (from_backend (pgp.generate used_name used_email) "crypto_failed"
            "OpenPGP identity generation failed")
          _ h2 in
      let (raw, is_raw, h4) = bind-inv (require_backend_string identity "raw_fingerprint") _ h3 in
      let (key, is_key, h5) =
        bind-inv (require_backend_string identity "public_key_armored") _ h4 in
      let (secret, is_secret, h6) =
        bind-inv (require_backend_string identity "secret_key_armored") _ h5 in
      let named = law used_name used_email identity (from_backend-inv _ _ _ made) in
      let e = ok-inj h6 in
      (
        raw,
        record {
          fingerprint = ap (λ s. s.raw_fingerprint) (sym e);
          public_key = key;
          is_public_key = ap (λ s. s.public_key) (sym e);
          matches = raw_openpgp_fingerprint-of key raw (
              ap pgp.raw_fingerprint (sym (require_backend_string-inv identity _ is_key))
              ∙ named
              ∙ ap done (require_backend_string-inv identity _ is_raw));
          secret_key = secret;
          is_secret_key = ap (λ s. s.secret_key) (sym e);
        },
      )

  -- If the backend names its keys, then every key store that generation leaves can be used at once: it
  -- has a current fingerprint, exports the public key of that fingerprint, and signs with its secret
  -- key for that fingerprint.
  pub new_identity-is_usable :
      NamesItsKeys
      → (name email : Option String) (first second : String) (k : KeyStore)
      → new_identity pgp name email first second ≡ ok k
      → (raw : String) × (current_fingerprint pgp k ≡ ok raw)
        × (public_key : String) × (export_public_key pgp raw k ≡ ok public_key)
        × (raw_openpgp_fingerprint pgp public_key ≡ ok raw)
        × (secret_key : String) × (k.secret_key ≡ holds secret_key)
        × ((payload : String)
            → sign_detached pgp raw payload k
              ≡ from_backend (pgp.sign secret_key payload) "crypto_failed" "OpenPGP signing failed")
  new_identity-is_usable law name email first second k h =
      let (raw, c) = new_identity-IsComplete law name email first second h in
      (
        raw,
        current_fingerprint-of c,
        c.public_key,
        export_public_key-of c,
        c.matches,
        c.secret_key,
        c.is_secret_key,
        λ payload. sign_detached-of payload c,
      )

  pub export_public_key-inv :
      (raw : String) (k : KeyStore) {key : String}
      → export_public_key pgp raw k ≡ ok key
      → k.public_key ≡ holds key
  unfolding export_public_key
  export_public_key-inv raw k h =
      let (key, is_key, h1) = bind-inv (read_public_key k) _ h in
      let (found, _, h2) = bind-inv (raw_openpgp_fingerprint pgp key) _ h1 in
      let (_, h3) = then-inv (found == raw) _ _ h2 in
      read_file-inv k.public_key _ is_key ∙ ap holds (ok-inj h3)

  pub sign_detached-inv :
      (raw payload : String) (k : KeyStore) {signature : String}
      → sign_detached pgp raw payload k ≡ ok signature
      → (secret_key : String) × (k.secret_key ≡ holds secret_key)
        × (pgp.sign secret_key payload ≡ done signature)
  unfolding sign_detached
  sign_detached-inv raw payload k h =
      let (named, _, h1) = bind-inv (read_raw_fingerprint k) _ h in
      let (_, h2) = then-inv (named == raw) _ _ h1 in
      let (secret, is_secret, h3) = bind-inv (read_secret_key k) _ h2 in
      (secret, read_file-inv k.secret_key _ is_secret, from_backend-inv _ _ _ h3)
