-- ===== src/Client/Compose/Signing.antt =====
-- A client of endpoint/client_core.py that knows its key: what it signs verifies with its public key.
use mathlib.Core.Path.{subst}
use endpoint_protocol.Prelude.{
  String, ◌≡◌, refl, sym, ◌∙◌, ap, Option, none, some, ◌==◌, Bool-cases, inl, inr,
}
use endpoint_protocol.Errors.{ok}
use endpoint_protocol.Exec.{pure, ◌>>=◌}
use endpoint_protocol.Runtime.{done}
use endpoint_protocol.KeyStore.{holds, export_public_key, sign_detached}
use endpoint_protocol.KeyStore.Laws.{export_public_key-inv, sign_detached-inv}
use endpoint_protocol.Crypto.{verify_detached}
use endpoint_protocol.Client.{Profile, World, ClientCore, draw_uuid, public_key_armored, sign}
use endpoint_protocol.Client.Compose.{or_uuid}

-- The key pair of a client that has its identity.
pub record Uses (key secret : String) (s : ClientCore) : Type 0 where
  pub raw : String
  pub remembered : s.key_fingerprint ≡ some raw
  pub is_public : s.keys.public_key ≡ holds key
  pub is_secret : s.keys.secret_key ≡ holds secret

-- What the backend documents: a signature with the secret key verifies with the public key.
abbrev pub IsPair : World → String → String → Type 0
IsPair w key secret =
    (payload signature : String)
    → w.pgp.sign secret payload ≡ done signature
    → w.rt.verify key payload signature ≡ done tt

holds-inj : {a b : String} → holds a ≡ holds b → a ≡ b
holds-inj h = cc

module _ (w : World) {key secret : String} where
  public_key_armored-of :
      {s : ClientCore} (u : Uses key secret s)
      → public_key_armored w s ≡ (export_public_key w.pgp u.raw s.keys, s)
  unfolding public_key_armored ◌>>=◌
  public_key_armored-of u = rw u.remembered refl

  pub public_key_armored-inv :
      {s : ClientCore}
      → Uses key secret s
      → {k : String} {t : ClientCore} → public_key_armored w s ≡ (ok k, t)
      → (k ≡ key) × (s ≡ t)
  public_key_armored-inv {s} u h =
      let e = sym (public_key_armored-of u) ∙ h in
      (
        holds-inj (sym (export_public_key-inv w.pgp u.raw s.keys (ap (λ r. r.0) e)) ∙ u.is_public),
        ap (λ r. r.1) e,
      )

  sign-of :
      {s : ClientCore} (u : Uses key secret s) (payload : String)
      → sign w payload s ≡ (sign_detached w.pgp u.raw payload s.keys, s)
  unfolding sign ◌>>=◌
  sign-of u payload = rw u.remembered refl

  pub sign-inv :
      IsPair w key secret
      → {s : ClientCore} → Uses key secret s
      → (payload : String) {signature : String} {t : ClientCore}
      → sign w payload s ≡ (ok signature, t)
      → (verify_detached w.rt key payload signature ≡ ok tt) × (s ≡ t)
  unfolding verify_detached
  sign-inv pair {s} u payload {signature} h =
      let e = sym (sign-of u payload) ∙ h in
      let (used, is_used, signed) =
        sign_detached-inv w.pgp u.raw payload s.keys (ap (λ r. r.0) e) in
      let same : used ≡ secret = holds-inj (sym is_used ∙ u.is_secret) in
      let verified = pair payload signature (sym (ap (λ x. w.pgp.sign x payload) same) ∙ signed) in
      (rw verified refl, ap (λ r. r.1) e)

  -- Drawing a UUID does not touch the keys.
  draw_uuid-Uses : {s : ClientCore} → Uses key secret s → Uses key secret (draw_uuid w s).1
  unfolding draw_uuid
  draw_uuid-Uses u = record {
    raw = u.raw;
    remembered = u.remembered;
    is_public = u.is_public;
    is_secret = u.is_secret;
  }

  or_uuid-keeps :
      (me : Profile) (given : Option String) {s : ClientCore}
      → Uses key secret s
      → Uses key secret (or_uuid w me given s).1
  unfolding or_uuid pure
  or_uuid-keeps me none u = draw_uuid-Uses u
  or_uuid-keeps me (some id) u = elim (Bool-cases (id == "")) [
    | inl empty ↦ rw empty (draw_uuid-Uses u)
    | inr given ↦ rw given u
  ]

  pub or_uuid-Uses :
      (me : Profile) (given : Option String) {s : ClientCore} {id : String} {t : ClientCore}
      → Uses key secret s
      → or_uuid w me given s ≡ (ok id, t)
      → Uses key secret t
  or_uuid-Uses me given u h = subst (Uses key secret) (ap (λ r. r.1) h) (or_uuid-keeps me given u)
