-- ===== src/Cli/Config/Loads.antt =====
-- From the arguments of `server init-config` in endpoint/cli.py to `load_server_config`.
use mathlib.Core.Path.{subst}
use endpoint_protocol.Prelude.{
  ℕ, String, ◌<>◌, ◌≡◌, ◌≢◌, refl, sym, ap, ◌∙◌, Bool, true, false, ◌&&◌, List, [], ◌∷◌, ◌==◌,
  eq_iff, if◌then◌else◌, arith, Bool-cases, inl, inr, true≢false,
}
use endpoint_protocol.Json.{Json, str, get, is_obj, text}
use endpoint_protocol.Errors.{ok, err≢ok}
use endpoint_protocol.Errors.Laws.{bind-inv, then-inv, bind-case, then-case, ok-inj}
use endpoint_protocol.Runtime.{Runtime}
use endpoint_protocol.Dict.{Dict, lookup}
use endpoint_protocol.Protocol.Canonical.{parse_json_strict, canonical_json}
use endpoint_protocol.Protocol.Limits.{default_limits}
use endpoint_protocol.Protocol.Parts.{validate_identity_envelope}
use endpoint_protocol.Transport.Url.{ParsedUrl, check_netloc, urlparse}
use endpoint_protocol.Transport.Policy.{contains, is_empty, normalize_server_url}
use endpoint_protocol.Credentials.{validate_client_token_hash}
use endpoint_protocol.Config.{
  FileText, unreadable, contents, require_optional_bool_or_string, token_items, read_server_config,
  load_server_config,
}
use endpoint_protocol.Cli.Arguments.{
  Values, list_of, map_of, text_or, expect, parse_key_values, parse_bool, parse_int,
}
use endpoint_protocol.Cli.Arguments.Laws.{AllNamed, parse_key_values-NamesItems, parse_int-inv}
use endpoint_protocol.Cli.Config.{
  init_config_keys, fields_of, texts, Setup, server_config_document, bool_or_text, keys_within,
  cli_url, parse_ports, check_hashes, or_unread, load_json_object, load_hosted_identities,
  read_settings, configure, init_config,
}
use endpoint_protocol.Cli.Config.Laws.{
  AllPorts, AllObjects, IsSetup, server_config, read_server_config-document,
}

texts-AllNamed : (d : Dict String) → AllNamed d → AllNamed (texts d)
texts-AllNamed [] named = tt
texts-AllNamed ((k, s) ∷ d) (first, rest) = (first, texts-AllNamed d rest)

require_bundle :
    (s : String)
    → bool_or_text s ≢ str ""
    → require_optional_bool_or_string (bool_or_text s) "ca_bundle" ≡ ok (bool_or_text s)
unfolding require_optional_bool_or_string
require_bundle s some_text = elim (Bool-cases (s == "true")) [
  | inl is_true ↦ rw is_true refl
  | inr not_true ↦ elim (Bool-cases (s == "false")) [
    | inl is_false ↦ rw (not_true, is_false) refl
    | inr not_false ↦ elim (Bool-cases (s == "")) [
      | inr given ↦ rw (not_true, not_false, given) refl
      | inl empty ↦ absurd (some_text (rw (not_true, not_false) (ap str ((eq_iff s "").0 empty))))
    ]
  ]
]

expect-inv : (c : Bool) (message : String) → expect c message ≡ ok tt → c ≡ true
expect-inv true message h = refl
expect-inv false message h = absurd (err≢ok h)

and-inv : (a b : Bool) → (a && b) ≡ true → (a ≡ true) × (b ≡ true)
and-inv a b h = ground arith

ports_or :
    (ns : List ℕ)
    → AllPorts ns
    → let ports = if is_empty ns then 443 ∷ [] else ns in (is_empty ports ≡ false) × AllPorts ports
ports_or [] all = (refl, (omega arith, omega arith, tt))
ports_or (n ∷ ns) all = (refl, all)

module _ (rt : Runtime) where
  urlparse-empty : {parsed : ParsedUrl} → urlparse rt "" ≡ ok parsed → parsed.https ≡ false
  unfolding urlparse
  urlparse-empty h =
      let (_, _, h1) = bind-inv (check_netloc rt "") _ h in ap (λ p. p.https) (sym (ok-inj h1))

  normalize_server_url-filled :
      (url : String) {normal : String}
      → normalize_server_url rt url ≡ ok normal
      → (url == "") ≡ false
  unfolding normalize_server_url
  normalize_server_url-filled url {normal} h = elim (Bool-cases (url == "")) [
    | inr some_url ↦ some_url
    | inl empty ↦
        let none_there =
          subst (λ u. normalize_server_url rt u ≡ ok normal) ((eq_iff url "").0 empty) h in
        let (parsed, is_parsed, h1) = bind-inv (urlparse rt "") _ none_there in
        let (https, _) = then-inv parsed.https _ _ h1 in
        absurd (true≢false (sym https ∙ urlparse-empty is_parsed))
  ]

  parse_ports-AllPorts :
      (items : List String) {ns : List ℕ} → parse_ports rt items ≡ ok ns → AllPorts ns
  unfolding parse_ports
  parse_ports-AllPorts [] h = subst AllPorts (ok-inj h) tt
  parse_ports-AllPorts (item ∷ items) h =
      let (port, is_port, h1) = bind-inv (parse_int rt item "allowed_port" 1 65535) _ h in
      let (ports, are_ports, h2) = bind-inv (parse_ports rt items) _ h1 in
      let (low, high) = parse_int-inv rt item "allowed_port" 1 65535 is_port in
      subst AllPorts (ok-inj h2) (low, high, parse_ports-AllPorts items are_ports)

  check_hashes-inv :
      (d : Dict Json) → AllNamed d → check_hashes rt d ≡ ok tt → token_items rt (fields_of d) ≡ ok d
  unfolding check_hashes token_items
  check_hashes-inv [] named h = refl
  check_hashes-inv ((k, v) ∷ d) (first, rest) h =
      let (_, valid, h1) = bind-inv (validate_client_token_hash rt v) _ h in
      rw (first, valid, check_hashes-inv d rest h1) refl

-- The identities are those with a token.
abbrev pub SameKeys : Setup → Type 0
SameKeys s =
    (keys_within s.hosted_identities s.client_token_hashes ≡ true)
    × (keys_within s.client_token_hashes s.hosted_identities ≡ true)

module _ (rt : Runtime) (read : String → FileText) (path_text : String → String) where
  load_json_object-inv :
      (file : FileText) (name : String) {value : Json}
      → load_json_object rt read path_text file name ≡ ok value
      → is_obj value ≡ true
  unfolding load_json_object
  load_json_object-inv (unreadable what) name h = absurd (err≢ok h)
  load_json_object-inv (contents raw) name h =
      let (value, _, h1) = bind-inv (or_unread name (parse_json_strict rt raw)) _ h in
      let (is_object, h2) = then-inv (is_obj value) _ _ h1 in
      subst (λ v. is_obj v ≡ true) (ok-inj h2) is_object

  load_hosted_identities-inv :
      (paths : Dict String) {d : Dict Json}
      → AllNamed paths
      → load_hosted_identities rt read path_text paths ≡ ok d
      → AllNamed d × AllObjects d
  unfolding load_hosted_identities
  load_hosted_identities-inv [] named h =
      let e = ok-inj h in (subst AllNamed e tt, subst AllObjects e tt)
  load_hosted_identities-inv ((client_ref, path) ∷ paths) (first, rest) h =
      let name = "hosted_identity." <> client_ref in
      let (identity, loaded, h1) =
        bind-inv (load_json_object rt read path_text (read path) name) _ h in
      let (_, _, h2) = bind-inv (validate_identity_envelope rt identity default_limits) _ h1 in
      let (_, h3) = then-inv (text (get identity "client_ref") == client_ref) _ _ h2 in
      let (others, are_others, h4) =
        bind-inv (load_hosted_identities rt read path_text paths) _ h3 in
      let (named, objects) = load_hosted_identities-inv paths rest are_others in
      let e = ok-inj h4 in
      (
        subst AllNamed e (first, named),
        subst AllObjects e (load_json_object-inv (read path) name loaded, objects),
      )

  settings-IsSetup :
      (values : Values) (identities hashes : Dict Json) (out : String) (s : Setup)
      → AllNamed identities × AllObjects identities
      → token_items rt (fields_of hashes) ≡ ok hashes
      → (keys_within identities hashes ≡ true) × (keys_within hashes identities ≡ true)
      → ((path : String) → (path_text path == "") ≡ false)
      → read_settings rt read path_text values identities hashes ≡ ok (out, s)
      → normalize_server_url rt s.server_url ≡ ok s.server_url
      → s.ca_bundle ≢ str ""
      → IsSetup rt s × SameKeys s
  unfolding read_settings
  settings-IsSetup values identities hashes out s (named, objects) verifiers same some_path h normal
        given =
      let dir = text_or "" (lookup "state_dir" values) in
      let ca = text_or "true" (lookup "ca_bundle" values) in
      let policy = text_or "drop" (lookup "rejected_policy" values) in
      let private_text = text_or "false" (lookup "allow_private_networks" values) in
      let lease_text = text_or "2" (lookup "lease_seconds" values) in
      let url_text = text_or "" (lookup "server_url" values) in
      let bad_policy : String = "rejected_policy must be drop or quarantine" in
      bind-case (parse_ports rt (list_of (lookup "allowed_port" values))) _ h λ ports are_ports h1.
        let (some_port, in_range) = ports_or ports (parse_ports-AllPorts rt _ are_ports) in
        bind-case (parse_bool private_text "allow_private_networks") _ h1 λ private _ h2.
          bind-case (expect (contains policy ("drop" ∷ "quarantine" ∷ [])) bad_policy) _ h2
            λ _ known h3.
              bind-case (parse_int rt lease_text "lease_seconds" 1 3600) _ h3 λ lease is_lease h4.
                let (low, high) = parse_int-inv rt lease_text "lease_seconds" 1 3600 is_lease in
                bind-case (cli_url rt url_text "server_url") _ h4 λ url _ h5.
                  let q = ap (λ r. r.1) (ok-inj h5) in
                  let is_normal =
                    subst (λ x. normalize_server_url rt x.server_url ≡ ok x.server_url) (sym q)
                      normal in
                  subst (λ x. IsSetup rt x × SameKeys x) q
                    (
                      record {
                        some_url = normalize_server_url-filled rt url is_normal;
                        is_normal = is_normal;
                        some_dir = some_path dir;
                        named = named;
                        objects = objects;
                        verifiers = verifiers;
                        bundle =
                            require_bundle ca (subst (λ x. x.ca_bundle ≢ str "") (sym q) given);
                        some_port = some_port;
                        ports = in_range;
                        known_policy =
                            expect-inv (contains policy ("drop" ∷ "quarantine" ∷ [])) bad_policy
                              known;
                        lease_min = low;
                        lease_max = high;
                      },
                      same,
                    )

  configure-IsSetup :
      (tokens : List String) (out : String) (s : Setup)
      → ((path : String) → (path_text path == "") ≡ false)
      → configure rt read path_text tokens ≡ ok (out, s)
      → normalize_server_url rt s.server_url ≡ ok s.server_url
      → s.ca_bundle ≢ str ""
      → IsSetup rt s × SameKeys s
  unfolding configure
  configure-IsSetup tokens out s some_path h normal given =
      bind-case (parse_key_values init_config_keys tokens) _ h λ values parsed h1.
        let named = parse_key_values-NamesItems init_config_keys tokens parsed in
        bind-case
          (load_hosted_identities rt read path_text (map_of (lookup "hosted_identity" values))) _ h1
          λ identities loaded h2.
            let hashes = texts (map_of (lookup "client_token_hash" values)) in
            let hosted = load_hosted_identities-inv _ (named "hosted_identity") loaded in
            then-case (keys_within identities hashes && keys_within hashes identities) _ _ h2
              λ same h3. bind-case (check_hashes rt hashes) _ h3 λ _ checked h4.
                let verifiers =
                  check_hashes-inv rt hashes
                    (texts-AllNamed (map_of (lookup "client_token_hash" values))
                      (named "client_token_hash"))
                    checked in
                settings-IsSetup values identities hashes out s hosted verifiers (and-inv _ _ same)
                  some_path h4 normal given

  init_config-written :
      (tokens : List String) (out : String) (s : Setup) {text : String}
      → configure rt read path_text tokens ≡ ok (out, s)
      → canonical_json rt (server_config_document s) ≡ ok text
      → init_config rt read path_text tokens ≡ ok (out, text)
  unfolding init_config
  init_config-written tokens out s h is_text = rw (h, is_text) refl

  load-written :
      (text : String) (v : Json)
      → parse_json_strict rt text ≡ ok v
      → load_server_config rt (contents text) ≡ read_server_config rt v
  unfolding load_server_config
  load-written text v h = rw h refl

  -- What `server init-config` writes, the server loads. If the arguments give a document, whose URL is in
  -- normal form and whose `ca_bundle` is not the empty text, paths are never printed as an empty text,
  -- and the canonical text of the document is parsed as the document again, as it is where all its
  -- texts are in NFC and the keys of its identities are sorted: then `init_config` answers this text, and
  -- `load_server_config` of a file with it gives exactly the configuration of the parts. Both lists
  -- of permitted servers are empty whatever the arguments say, the identities are those with a token,
  -- and the signatures of the identities are checked.
  pub init_config-loads :
      (tokens : List String) (out : String) (s : Setup) (text : String)
      → ((path : String) → (path_text path == "") ≡ false)
      → configure rt read path_text tokens ≡ ok (out, s)
      → normalize_server_url rt s.server_url ≡ ok s.server_url
      → s.ca_bundle ≢ str ""
      → canonical_json rt (server_config_document s) ≡ ok text
      → parse_json_strict rt text ≡ ok (server_config_document s)
      → (init_config rt read path_text tokens ≡ ok (out, text))
        × (load_server_config rt (contents text) ≡ ok (server_config s))
        × SameKeys s
  init_config-loads tokens out s text some_path h normal given is_text is_parsed =
      let (c, same) = configure-IsSetup tokens out s some_path h normal given in
      (
        init_config-written tokens out s h is_text,
        load-written text (server_config_document s) is_parsed ∙ read_server_config-document rt s c,
        same,
      )
