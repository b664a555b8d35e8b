-- ===== src/Credentials/Laws.antt =====
-- Tokens and their verifiers: what `hash_client_token` returns is accepted for its token, and what is
-- accepted has the digest of the verifier.
use endpoint_protocol.Prelude.{
  ℕ, ◌%◌, ◌/◌, zero, suc, String, ◌<>◌, ◌≡◌, refl, ap, ◌∙◌, eq_iff, Bool, true, false, not, ◌&&◌,
  some, List, [], ◌∷◌, ltb, leb, eqb, if◌then◌else◌, every_char, arith, Bool-cases, inl, inr,
}
use text.Mathlib.TextLemmas.{nil-append, cons-append}
use endpoint_protocol.Json.{pos, Json, str}
use endpoint_protocol.Errors.{ok, Result-cases}
use endpoint_protocol.Runtime.{Runtime}
use endpoint_protocol.Protocol.Canonical.{decimal, decimal_onto, digit_text}
use endpoint_protocol.Credentials.{
  min_iterations, pbkdf2_algorithm, enough, rounds, Verifier, split_colons, same_bytes, check_token,
  parse_parts, parse_verifier, verify_client_token, hash_client_token,
}

abbrev pub no_colon : ℕ → Bool
no_colon c = not (eqb c b':')

split_colons-part :
    (part rest : String)
    → every_char no_colon part ≡ true
    → split_colons (part <> (":" <> rest)) ≡ (part, (split_colons rest).0 ∷ (split_colons rest).1)
unfolding split_colons every_char
split_colons-part String.[] rest h =
    rw (nil-append (":" <> rest), cons-append ":" "" rest, nil-append rest) refl
split_colons-part (String.◌∷◌ c s) rest h =
    rw (cons-append c s (":" <> rest)) (ground (arith, split_colons-part s rest))

split_colons-last :
    (part : String) → every_char no_colon part ≡ true → split_colons part ≡ (part, [])
unfolding split_colons every_char
split_colons-last String.[] h = refl
split_colons-last (String.◌∷◌ c s) h = ground (arith, split_colons-last s)

every_char-append :
    (p : ℕ → Bool) (a b : String) → every_char p (a <> b) ≡ (every_char p a && every_char p b)
unfolding every_char
every_char-append p String.[] b = rw (nil-append b) refl
every_char-append p (String.◌∷◌ c s) b =
    rw (cons-append c s b) (ground (arith, every_char-append p s b))

every_char-if :
    (p : ℕ → Bool) (b : Bool) (s t : String)
    → every_char p s ≡ true
    → every_char p t ≡ true
    → every_char p (if b then s else t) ≡ true
every_char-if p true s t hs ht = hs
every_char-if p false s t hs ht = ht

digit-no_colon : (d : ℕ) → every_char no_colon (digit_text d) ≡ true
unfolding every_char
digit-no_colon d = search every_char-if depth 40

decimal_onto-no_colon :
    (fuel n : ℕ) (acc : String)
    → every_char no_colon acc ≡ true
    → every_char no_colon (decimal_onto fuel n acc) ≡ true
unfolding decimal_onto
decimal_onto-no_colon zero n acc h = h
decimal_onto-no_colon (suc fuel) n acc h =
    let acc' = digit_text (n % 10) <> acc in
    let here : every_char no_colon acc' ≡ true =
      ground
        (arith, every_char-append no_colon (digit_text (n % 10)) acc, digit-no_colon (n % 10)) in
    elim (Bool-cases (ltb n 10)) [
      | inl e ↦ rw e here
      | inr e ↦ rw e (decimal_onto-no_colon fuel (n / 10) acc' here)
    ]

decimal-no_colon : (n : ℕ) → every_char no_colon (decimal n) ≡ true
unfolding decimal every_char
decimal-no_colon n = decimal_onto-no_colon (suc n) n "" refl

same_bytes_refl : (xs : List ℕ) → same_bytes xs xs ≡ true
same_bytes_refl [] = refl
same_bytes_refl (x ∷ xs) = ground (arith, same_bytes_refl xs)

same_bytes-≡ : (xs ys : List ℕ) → same_bytes xs ys ≡ true → xs ≡ ys
same_bytes-≡ [] [] h = refl
same_bytes-≡ [] (y ∷ ys) h = ground arith
same_bytes-≡ (x ∷ xs) [] h = ground arith
same_bytes-≡ (x ∷ xs) (y ∷ ys) h = ground (arith, same_bytes-≡ xs ys)

module _ (rt : Runtime) where
  -- What `hash_client_token` returns.
  abbrev verifier_text : List ℕ → String → ℕ → String
  verifier_text salt token iterations =
      pbkdf2_algorithm
      <> (":"
          <> (decimal iterations
              <> (":"
                  <> (rt.b64encode salt
                      <> (":" <> rt.b64encode (rt.pbkdf2 token salt iterations))))))

  abbrev verifier_of : List ℕ → String → ℕ → Verifier
  verifier_of salt token iterations = record {
    algorithm = pbkdf2_algorithm;
    iterations = pos iterations;
    salt = salt;
    digest = rt.pbkdf2 token salt iterations;
  }

  hash-inv :
      (salt : List ℕ) (token : String) (allow_weak : Bool) (iterations : ℕ) (v : String)
      → hash_client_token rt salt token allow_weak iterations ≡ ok v
      → (verifier_text salt token iterations ≡ v) × (leb min_iterations iterations ≡ true)
  unfolding hash_client_token
  hash-inv salt token allow_weak iterations v h = ground arith

  verify_parsed :
      (token : String) (verifier : Json) (v : Verifier)
      → parse_verifier rt verifier ≡ ok v
      → verify_client_token rt token verifier ≡ ok (check_token rt token v)
  unfolding verify_client_token
  verify_parsed token verifier v e = rw (e, verify_client_token) refl

  -- What a verifier accepts: its algorithm, iterations and salt give its digest.
  pub record Accepts (token : String) (v : Verifier) : Type 0 where
    pub is_pbkdf2 : v.algorithm ≡ pbkdf2_algorithm
    pub is_slow : enough v.iterations ≡ true
    pub is_digest : rt.pbkdf2 token v.salt (rounds v.iterations) ≡ v.digest

  -- A token is verified exactly where the text of its verifier parses, names PBKDF2 with enough
  -- iterations, and holds the digest of the token.
  pub verified-Accepts :
      (token : String) (verifier : Json)
      → verify_client_token rt token verifier ≡ ok true
      → (v : Verifier) × (parse_verifier rt verifier ≡ ok v) × Accepts token v
  unfolding verify_client_token
  verified-Accepts token verifier h = elim (Result-cases (parse_verifier rt verifier)) [
    | inl (v, e) ↦ (
      v,
      e,
      record {
        is_pbkdf2 = ground (arith, e, eq_iff v.algorithm pbkdf2_algorithm);
        is_slow = ground (arith, e);
        is_digest = same_bytes-≡ _ _ (ground (arith, e));
      },
    )
    | inr (x, e) ↦ ground (arith, e)
  ]

  accepted :
      (salt : List ℕ) (token : String) (iterations : ℕ)
      → leb min_iterations iterations ≡ true
      → check_token rt token (verifier_of salt token iterations) ≡ true
  accepted salt token iterations is_slow =
      ground (arith, same_bytes_refl (rt.pbkdf2 token salt iterations))

  -- What Base64 does with these bytes: it is read back, and has no colon.
  abbrev Encodes : List ℕ → Type 0
  Encodes bytes =
      (rt.b64decode (rt.b64encode bytes) ≡ some bytes)
      × (every_char no_colon (rt.b64encode bytes) ≡ true)

  parse_verifier_text :
      (salt : List ℕ) (token : String) (iterations : ℕ)
      → Encodes salt
      → Encodes (rt.pbkdf2 token salt iterations)
      → rt.parse_int (decimal iterations) ≡ some (pos iterations)
      → parse_verifier rt (str (verifier_text salt token iterations))
        ≡ ok (verifier_of salt token iterations)
  unfolding parse_verifier parse_parts every_char
  parse_verifier_text salt token iterations (salt_back, plain_salt) (digest_back, plain_digest)
        reads =
      let digest = rt.pbkdf2 token salt iterations in
      rw
        (
          split_colons-part pbkdf2_algorithm
              (decimal iterations <> (":" <> (rt.b64encode salt <> (":" <> rt.b64encode digest))))
              refl,
          split_colons-part (decimal iterations) (rt.b64encode salt <> (":" <> rt.b64encode digest))
              (decimal-no_colon iterations),
          split_colons-part (rt.b64encode salt) (rt.b64encode digest) plain_salt,
          split_colons-last (rt.b64encode digest) plain_digest,
          reads,
          salt_back,
          digest_back,
        )
        refl

  -- The verifier that `hash_client_token` returns accepts its token, whatever the salt, where Base64
  -- reads back the salt and the digest, without colons, and `int` reads back the iterations.
  pub hash_client_token-verifies :
      (salt : List ℕ) (token : String) (allow_weak : Bool) (iterations : ℕ) (v : String)
      → Encodes salt
      → Encodes (rt.pbkdf2 token salt iterations)
      → rt.parse_int (decimal iterations) ≡ some (pos iterations)
      → hash_client_token rt salt token allow_weak iterations ≡ ok v
      → verify_client_token rt token (str v) ≡ ok true
  hash_client_token-verifies salt token allow_weak iterations v salt_back digest_back reads h =
      let (is_v, is_slow) = hash-inv salt token allow_weak iterations v h in
      rw (← is_v) (
        verify_parsed token (str (verifier_text salt token iterations)) _
          (parse_verifier_text salt token iterations salt_back digest_back reads)
        ∙ ap ok (accepted salt token iterations is_slow))
