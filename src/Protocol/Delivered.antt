-- ===== src/Protocol/Delivered.antt =====
-- What a delivery envelope that validates satisfies, and what the comparison with its claim reports.
use endpoint_protocol.Prelude.{
  ℕ, ◌≤◌, String, ◌≡◌, ◌⊎◌, inl, inr, refl, ap, Bool, true, false, ◌&&◌, List, [], ◌∷◌, leb, ◌==◌,
  eq_iff, arith, leb→le, Bool-cases,
}
use endpoint_protocol.Json.{Json, get, has, is_obj, is_str, is_text, is_the_text, text, json_eq}
use endpoint_protocol.Errors.{ok}
use endpoint_protocol.Errors.Laws.{bind-inv, then-inv, require_error-inv}
use endpoint_protocol.Runtime.{Runtime}
use endpoint_protocol.Protocol.Canonical.{json_size, json_depth}
use endpoint_protocol.Protocol.Patterns.{is_fingerprint, is_sha256}
use endpoint_protocol.Protocol.Limits.{ProtocolLimits, max_json_depth, protocol_version}
use endpoint_protocol.Transport.Policy.{contains, is_empty}
use endpoint_protocol.Protocol.Parts.{
  require_texts, require_nonempty_string, require_timestamp, require_sha256, validate_route,
  validate_fingerprint, require_protocol_object,
}
use endpoint_protocol.Protocol.Delivery.{
  differ, require_key, is_role, has_inline, has_reference, check_inline, check_reference,
  check_transport, check_recipient, validate_delivery_envelope, mismatches, outer_fields,
  delivery_outer_compare_fields,
}

-- The field of a value is a non-empty text.
abbrev pub HasTexts : Json → List String → Type 0
HasTexts v [] = Unit {0}
HasTexts v (name ∷ names) = (is_text (get v name) ≡ true) × HasTexts v names

abbrev pub is_hash_field : Json → String → Bool
is_hash_field v name = is_str (get v name) && is_sha256 (text (get v name))

differ-left : (a b : Bool) → differ a b ≡ true → a ≡ true → b ≡ false
differ-left true true h e = ground arith
differ-left true false h e = refl
differ-left false b h e = ground arith

module _ (rt : Runtime) (envelope : Json) where
  -- The ciphertext of the content is in the envelope, with its hash.
  pub record IsInline : Type 0 where
    pub is_ciphertext : is_text (get envelope "ciphertext_armored") ≡ true
    pub is_hash :
        rt.sha256 (text (get envelope "ciphertext_armored"))
        ≡ text (get envelope "ciphertext_sha256")
    pub is_alone : has envelope "content_ref" ≡ false

  -- The envelope refers to its own content.
  pub record IsReference : Type 0 where
    pub is_id :
        json_eq (get (get envelope "content_ref") "content_id") (get envelope "content_id") ≡ true
    pub is_content_hash :
        json_eq (get (get envelope "content_ref") "content_sha256") (get envelope "content_sha256")
        ≡ true
    pub is_only : has_inline rt envelope ≡ false

  pub record IsDelivery (limits : ProtocolLimits) : Type 0 where
    pub is_object : is_obj envelope ≡ true
    pub is_shallow : json_depth envelope ≤ max_json_depth
    pub size : ℕ
    pub is_size : json_size rt envelope ≡ ok size
    pub is_small : size ≤ limits.max_envelope_bytes
    pub is_version : is_the_text (get envelope "protocol_version") protocol_version ≡ true
    pub texts : HasTexts envelope (
        "message_id" ∷ "content_id" ∷ "recipient_role" ∷ "delivery_ciphertext_armored"
        ∷ "delivery_ciphertext_sha256" ∷ [])
    pub content_hash : is_hash_field envelope "content_sha256" ≡ true
    pub delivery_hash :
        rt.sha256 (text (get envelope "delivery_ciphertext_armored"))
        ≡ text (get envelope "delivery_ciphertext_sha256")
    pub transport : IsInline ⊎ IsReference
    pub routes :
        (validate_route rt (get envelope "sender_route") ≡ ok tt)
        × (validate_route rt (get envelope "recipient_route") ≡ ok tt)
    pub recipient : is_fingerprint (text (get envelope "recipient_fingerprint")) ≡ true
    pub role : is_role (get envelope "recipient_role") ≡ true

  texts-inv : (names : List String) → require_texts envelope names ≡ ok tt → HasTexts envelope names
  unfolding require_texts require_nonempty_string
  texts-inv [] h = tt
  texts-inv (name ∷ names) h =
      let (is_one, h1) = then-inv (is_text (get envelope name)) _ _ h in
      (is_one, texts-inv names h1)

  hash-inv :
      (name label : String)
      → require_sha256 (get envelope name) label ≡ ok tt
      → is_hash_field envelope name ≡ true
  unfolding require_sha256
  hash-inv name label h = ground arith

  inline-inv : check_inline rt envelope ≡ ok tt → has envelope "content_ref" ≡ false → IsInline
  unfolding check_inline require_nonempty_string
  inline-inv h alone =
      let (is_ciphertext, h1) = then-inv (is_text (get envelope "ciphertext_armored")) _ _ h in
      let (_, _, h2) =
        bind-inv (require_sha256 (get envelope "ciphertext_sha256") "ciphertext_sha256") _ h1 in
      record {
        is_ciphertext = is_ciphertext;
        is_hash = ground (
          arith,
          h2,
          eq_iff (rt.sha256 (text (get envelope "ciphertext_armored")))
              (text (get envelope "ciphertext_sha256")),
        );
        is_alone = alone;
      }

  reference-inv :
      check_reference rt envelope (get envelope "content_ref") ≡ ok tt
      → has_inline rt envelope ≡ false
      → IsReference
  unfolding check_reference
  reference-inv h only =
      let ref = get envelope "content_ref" in
      let (_, h1) = then-inv (is_obj ref) _ _ h in
      let (is_id, h2) =
        then-inv (json_eq (get ref "content_id") (get envelope "content_id")) _ _ h1 in
      let (is_hash, h3) =
        then-inv (json_eq (get ref "content_sha256") (get envelope "content_sha256")) _ _ h2 in
      record { is_id = is_id; is_content_hash = is_hash; is_only = only }

  transport-inv : check_transport rt envelope ≡ ok tt → IsInline ⊎ IsReference
  unfolding check_transport
  transport-inv h =
      let (one, h1) =
        then-inv (differ (has_inline rt envelope) (has_reference rt envelope)) _ _ h in
      elim (Bool-cases (has_inline rt envelope)) [
        | inl inside ↦ inl (inline-inv (rw inside at h1) (differ-left _ _ one inside))
        | inr outside ↦ inr (reference-inv (rw outside at h1) outside)
      ]

  recipient-inv :
      check_recipient rt envelope ≡ ok tt
      → (validate_route rt (get envelope "sender_route") ≡ ok tt)
        × (validate_route rt (get envelope "recipient_route") ≡ ok tt)
        × (is_fingerprint (text (get envelope "recipient_fingerprint")) ≡ true)
        × (is_role (get envelope "recipient_role") ≡ true)
  unfolding check_recipient validate_fingerprint
  recipient-inv h =
      let (_, sender, h1) = bind-inv (validate_route rt (get envelope "sender_route")) _ h in
      let (_, recipient, h2) = bind-inv (validate_route rt (get envelope "recipient_route")) _ h1 in
      let fingerprint = get envelope "recipient_fingerprint" in
      let (is_one, h3) =
        then-inv (is_str fingerprint && is_fingerprint (text fingerprint)) _ _ h2 in
      (sender, recipient, ground (arith, is_one), ground (arith, h3))

  object-inv :
      (limit : ℕ)
      → require_protocol_object rt envelope "delivery envelope" limit ≡ ok tt
      → (is_obj envelope ≡ true)
        × (json_depth envelope ≤ max_json_depth)
        × ((size : ℕ) × (json_size rt envelope ≡ ok size) × (size ≤ limit))
        × (is_the_text (get envelope "protocol_version") protocol_version ≡ true)
  unfolding require_protocol_object
  object-inv limit h =
      let (is_object, h1) = then-inv (is_obj envelope) _ _ h in
      let (shallow, h2) = then-inv (leb (json_depth envelope) max_json_depth) _ _ h1 in
      let (size, is_size, h3) = bind-inv (json_size rt envelope) _ h2 in
      let (small, h4) = then-inv (leb size limit) _ _ h3 in
      (
        is_object,
        leb→le (json_depth envelope) max_json_depth shallow,
        (size, is_size, leb→le size limit small),
        require_error-inv (is_the_text (get envelope "protocol_version") protocol_version) _ h4,
      )

  -- An envelope that `validate_delivery_envelope` lets through is a small and shallow object of this
  -- version, with its texts and hashes, two valid routes, a fingerprint and a role; it carries
  -- exactly one transport of the content, whose hash, or whose id and hash, agree with the envelope.
  pub validate_delivery_envelope-IsDelivery :
      (limits : ProtocolLimits)
      → validate_delivery_envelope rt envelope limits ≡ ok tt
      → IsDelivery limits
  unfolding validate_delivery_envelope
  validate_delivery_envelope-IsDelivery limits h =
      let names : List String =
        "message_id" ∷ "content_id" ∷ "recipient_role" ∷ "delivery_ciphertext_armored"
        ∷ "delivery_ciphertext_sha256" ∷ [] in
      let armored = text (get envelope "delivery_ciphertext_armored") in
      let stated = text (get envelope "delivery_ciphertext_sha256") in
      let (_, object, h1) =
        bind-inv (require_protocol_object rt envelope "delivery envelope" limits.max_envelope_bytes)
          _ h in
      let (_, texts, h2) = bind-inv (require_texts envelope names) _ h1 in
      let (_, _, h3) =
        bind-inv (require_timestamp rt (get envelope "created_at") "created_at") _ h2 in
      let (_, _, h3k) = bind-inv (require_key envelope "content_sha256") _ h3 in
      let (_, content, h4) =
        bind-inv (require_sha256 (get envelope "content_sha256") "content_sha256") _ h3k in
      let (_, _, h5) =
        bind-inv
          (require_sha256 (get envelope "delivery_ciphertext_sha256") "delivery_ciphertext_sha256")
          _ h4 in
      let (agrees, h6) = then-inv (rt.sha256 armored == stated) _ _ h5 in
      let (_, transport, h7) = bind-inv (check_transport rt envelope) _ h6 in
      let (is_object, shallow, (size, is_size, small), version) =
        object-inv limits.max_envelope_bytes object in
      let (sender, recipient, fingerprint, role) = recipient-inv h7 in
      record {
        is_object = is_object;
        is_shallow = shallow;
        size = size;
        is_size = is_size;
        is_small = small;
        is_version = version;
        texts = texts-inv names texts;
        content_hash = hash-inv "content_sha256" "content_sha256" content;
        delivery_hash = ((eq_iff (rt.sha256 armored) stated).0 agrees);
        transport = transport-inv transport;
        routes = (sender, recipient);
        recipient = fingerprint;
        role = role;
      }

-- The envelope and the payload of its claim say the same in each of these fields.
pub record Agree (envelope payload : Json) : Type 0 where
  pub message_id : json_eq (get envelope "message_id") (get payload "message_id") ≡ true
  pub protocol_version :
      json_eq (get envelope "protocol_version") (get payload "protocol_version") ≡ true
  pub content_id : json_eq (get envelope "content_id") (get payload "content_id") ≡ true
  pub content_sha256 : json_eq (get envelope "content_sha256") (get payload "content_sha256") ≡ true
  pub sender_route : json_eq (get envelope "sender_route") (get payload "sender_route") ≡ true
  pub recipient_route :
      json_eq (get envelope "recipient_route") (get payload "recipient_route") ≡ true
  pub recipient_fingerprint :
      json_eq (get envelope "recipient_fingerprint") (get payload "recipient_fingerprint") ≡ true
  pub recipient_role : json_eq (get envelope "recipient_role") (get payload "recipient_role") ≡ true
  pub created_at : json_eq (get envelope "created_at") (get payload "created_at") ≡ true

mismatches-agree :
    (v w : Json) (names : List String) (name : String)
    → contains name names ≡ true
    → is_empty (mismatches v w names) ≡ true
    → json_eq (get v name) (get w name) ≡ true
unfolding mismatches contains
mismatches-agree v w [] name named none_differs = ground arith
mismatches-agree v w (n ∷ names) name named none_differs = elim (Bool-cases (n == name)) [
  | inl here ↦
      let e : n ≡ name = (eq_iff n name).0 here in
      ground (arith, none_differs, ap (λ k. json_eq (get v k) (get w k)) e)
  | inr there ↦ ground (arith, there, none_differs, named, mismatches-agree v w names name)
]

-- `delivery_outer_compare_fields` reports no field exactly when the envelope and the payload of its
-- claim agree in the ids of message and content, the version, the hash of the content, both routes,
-- the recipient's fingerprint and role, and the time of creation.
pub delivery_outer_compare_fields-Agree :
    (envelope payload : Json)
    → (is_empty (delivery_outer_compare_fields envelope payload) ≡ true → Agree envelope payload)
      × (Agree envelope payload → is_empty (delivery_outer_compare_fields envelope payload) ≡ true)
unfolding delivery_outer_compare_fields contains mismatches
delivery_outer_compare_fields-Agree envelope payload = (
  λ none_differs.
      let agree = mismatches-agree envelope payload outer_fields in
      record {
        message_id = agree "message_id" refl none_differs;
        protocol_version = agree "protocol_version" refl none_differs;
        content_id = agree "content_id" refl none_differs;
        content_sha256 = agree "content_sha256" refl none_differs;
        sender_route = agree "sender_route" refl none_differs;
        recipient_route = agree "recipient_route" refl none_differs;
        recipient_fingerprint = agree "recipient_fingerprint" refl none_differs;
        recipient_role = agree "recipient_role" refl none_differs;
        created_at = agree "created_at" refl none_differs;
      },
  λ a.
      rw
        (
          a.message_id, a.protocol_version, a.content_id, a.content_sha256, a.sender_route,
          a.recipient_route, a.recipient_fingerprint, a.recipient_role, a.created_at,
        )
        refl,
)
