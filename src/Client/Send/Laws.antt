-- ===== src/Client/Send/Laws.antt =====
-- Sending in endpoint/client_core.py loses nothing: what the server did not queue waits in the outbox.
use mathlib.Core.Path.{subst}
use endpoint_protocol.Prelude.{
  String, ◌≡◌, ◌⊎◌, refl, sym, ap, ◌∙◌, false, Option, none, some, List, [], ◌∷◌, ◌==◌, eq_iff,
  eq_refl, Bool-cases, Option-cases, inl, inr, arith,
}
use endpoint_protocol.Json.{Json, get, text}
use endpoint_protocol.Errors.{Failure, Result, ok, err, raised, crash, err≢ok, Result-cases}
use endpoint_protocol.Runtime.{Runtime}
use endpoint_protocol.Storage.Client.{get_trust}
use endpoint_protocol.Errors.Laws.{ok-inj}
use endpoint_protocol.Exec.{pure, lift, update, ◌>>=◌}
use endpoint_protocol.Exec.Laws.{lift-case, exec-case, gets-inv, update-inv}
use endpoint_protocol.Storage.Outbox.{Outbox, save, mark}
use endpoint_protocol.Storage.Outbox.Laws.{id_of, last_with, delivery}
use endpoint_protocol.Storage.Outbox.Keeps.{Waits, is_queued, mark-Waits, save-Waits}
use endpoint_protocol.Client.{Profile, World, ClientCore, on_outbox, with_outbox}
use endpoint_protocol.Client.Compose.{build_content_object, build_delivery_envelopes}
use endpoint_protocol.Client.Compose.Recipients.{
  RecipientSpec, validate_recipient_specs, encrypt_content,
}
use endpoint_protocol.Client.Compose.Untouched.{
  build_delivery_envelopes-outbox, build_content_object-inv,
}
use endpoint_protocol.Client.Send.{
  Home, content, message, accepted, caught, trusted_as, DeliveryResult, FanoutSendResult,
  delivery_result, settle, submit_envelope, for_each, after_upload, send_content,
}

abbrev pub result_id : DeliveryResult → String
result_id r = text r.message_id

-- No result for the message says that it is queued.
abbrev pub NoneQueued : String → List DeliveryResult → Type 0
NoneQueued m [] = Unit {0}
NoneQueued m (r ∷ rs) =
    (((r.status == "queued") ≡ false) ⊎ ((result_id r == m) ≡ false)) × NoneQueued m rs

abbrev pub HasResult : String → List DeliveryResult → Type 0
HasResult m [] = ⊥
HasResult m (r ∷ rs) = (result_id r ≡ m) ⊎ HasResult m rs

-- The outbox behind a delivery whose result has an id and a status.
record Marks (rt : Runtime) (envelope : Json) (s : ClientCore) (r : DeliveryResult) (t : ClientCore)
    : Type 0 where
  is_id : result_id r ≡ id_of envelope
  code : Option String
  is_outbox : mark rt (id_of envelope) r.status code s.outbox ≡ ok t.outbox

with_outbox-inv :
    (s : ClientCore) (r : Result Outbox) {t : ClientCore} → with_outbox s r ≡ ok t → r ≡ ok t.outbox
with_outbox-inv s (ok o) h = ap (λ u. ok u.outbox) (ok-inj h)
with_outbox-inv s (err e) h = absurd (err≢ok h)

-- The outbox that a method of it left.
on_outbox-inv :
    (f : Outbox → Result Outbox) (s : ClientCore) {t : ClientCore}
    → on_outbox f s ≡ ok t
    → f s.outbox ≡ ok t.outbox
unfolding on_outbox
on_outbox-inv f s h = with_outbox-inv s (f s.outbox) h

module _ (rt : Runtime) (envelope : Json) (recipient : Option RecipientSpec) where
  settle-Marks :
      (status : String) (code : Option String) (s : ClientCore) {r : DeliveryResult}
      {t : ClientCore}
      → settle rt envelope recipient status code s ≡ (ok r, t)
      → Marks rt envelope s r t
  unfolding settle delivery_result pure
  settle-Marks status code s {r} {t} h =
      exec-case (update (on_outbox (mark rt (id_of envelope) status code))) _ s h
        λ _ s1 is_marked h1.
          let h2 = gets-inv (λ s. get_trust (trusted_as envelope recipient) s.state) _ s1 h1 in
          let e = ok-inj (ap (λ x. x.0) h2) in
          let marked =
            on_outbox-inv (mark rt (id_of envelope) status code) s (update-inv _ s is_marked) in
          record {
            is_id = ap (λ x. text x.message_id) (sym e);
            code = code;
            is_outbox =
                ap (λ x. mark rt (id_of envelope) x.status code s.outbox) (sym e)
                ∙ marked
                ∙ ap (λ x. ok x.1.outbox) h2;
          }

  -- What was not settled has written nothing.
  settle-raised :
      (status : String) (code : Option String) (s : ClientCore) (e : Failure)
      → (settle rt envelope recipient status code s).0 ≡ err e
      → (settle rt envelope recipient status code s).1 ≡ s
  unfolding settle delivery_result ◌>>=◌ on_outbox
  settle-raised status code s e h =
      elim (Result-cases (mark rt (id_of envelope) status code s.outbox)) [
        | inl (o, is_o) ↦ absurd (err≢ok (sym (rw is_o at h)))
        | inr (failure, is_e) ↦ rw is_e refl
      ]

  caught-Marks :
      (s : ClientCore) {r : DeliveryResult} {t : ClientCore} (first : Result DeliveryResult)
      (u : ClientCore)
      → ((d : DeliveryResult) → first ≡ ok d → Marks rt envelope s d u)
      → ((e : Failure) → first ≡ err e → u ≡ s)
      → caught (λ e. settle rt envelope recipient "failed" (some e.code)) (first, u) ≡ (ok r, t)
      → Marks rt envelope s r t
  caught-Marks s {r} {t} (ok d) u settled raised_first h =
      let e = ok-inj (ap (λ x. x.0) h) in
      let left = ap (λ x. x.1) h in
      subst (λ d. Marks rt envelope s d t) e (subst (Marks rt envelope s d) left (settled d refl))
  caught-Marks s {r} {t} (err (raised e)) u settled raised_first h =
      subst (λ x. Marks rt envelope x r t) (raised_first (raised e) refl)
        (settle-Marks "failed" (some e.code) u h)
  caught-Marks s (err (crash what)) u settled raised_first h = absurd (err≢ok (ap (λ x. x.0) h))

  queued-Marks :
      (s : ClientCore) {r : DeliveryResult} {t : ClientCore}
      → caught
          (λ e. settle rt envelope recipient "failed" (some e.code))
          (settle rt envelope recipient "queued" none s)
        ≡ (ok r, t)
      → Marks rt envelope s r t
  queued-Marks s h =
      let first = settle rt envelope recipient "queued" none s in
      caught-Marks s first.0 first.1
        (λ d is_d. settle-Marks "queued" none s (ap (λ x. (x, first.1)) is_d))
        (settle-raised "queued" none s) h

  submit_envelope-Marks :
      (home : Home) (s : ClientCore) {r : DeliveryResult} {t : ClientCore}
      → submit_envelope rt home envelope recipient s ≡ (ok r, t)
      → Marks rt envelope s r t
  unfolding submit_envelope
  submit_envelope-Marks home s h = elim (Bool-cases (accepted (home (message envelope)))) [
    | inl queued ↦ queued-Marks s (rw queued at h)
    | inr refused ↦ settle-Marks "failed" (some "delivery_failed") s (rw refused at h)
  ]

after_upload-Marks :
    (rt : Runtime) (home : Home) (content_object envelope : Json) (recipient : Option RecipientSpec)
    (s : ClientCore) {r : DeliveryResult} {t : ClientCore}
    → after_upload rt home content_object envelope recipient s ≡ (ok r, t)
    → Marks rt envelope s r t
unfolding after_upload
after_upload-Marks rt home content_object envelope recipient s h =
    elim (Bool-cases (accepted (home (content content_object)))) [
      | inl uploaded ↦ submit_envelope-Marks rt envelope recipient home s (rw uploaded at h)
      | inr refused ↦
          settle-Marks rt envelope recipient "failed" (some "content_upload_failed") s
            (rw refused at h)
    ]

Marks-Waits :
    (rt : Runtime) (c m : String)
    → rt.nfc c ≡ c
    → rt.nfc m ≡ m
    → (kept envelope : Json) {s t : ClientCore} {r : DeliveryResult} → Marks rt envelope s r t
    → ((r.status == "queued") ≡ false) ⊎ ((result_id r == m) ≡ false)
    → Waits rt c m kept s.outbox
    → Waits rt c m kept t.outbox
Marks-Waits rt c m normal_c normal_m kept envelope {s} {t} {r} marks other h =
    mark-Waits rt c m normal_c normal_m kept (id_of envelope) r.status marks.code s.outbox
      (renamed other) marks.is_outbox h
  where
    renamed :
        ((r.status == "queued") ≡ false) ⊎ ((result_id r == m) ≡ false)
        → ((r.status == "queued") ≡ false) ⊎ ((id_of envelope == m) ≡ false)
    renamed (inl failed) = inl failed
    renamed (inr another) = inr (ap (λ x. x == m) (sym marks.is_id) ∙ another)

abbrev HasEnvelope : String → List Json → Type 0
HasEnvelope m [] = ⊥
HasEnvelope m (e ∷ es) = (id_of e ≡ m) ⊎ HasEnvelope m es

last_with-named :
    (m : String) (es : List Json) (envelope : Json)
    → last_with m es ≡ some envelope
    → id_of envelope ≡ m
last_with-named m [] envelope h = ground arith
last_with-named m (e ∷ es) envelope h =
    ground (arith, last_with-named m es envelope, eq_iff (id_of e) m)

last_with-found :
    (m : String) (es : List Json)
    → HasEnvelope m es
    → (envelope : Json) × (last_with m es ≡ some envelope) × (id_of envelope ≡ m)
last_with-found m [] h = absurd h
last_with-found m (e ∷ es) (inr h) =
    let (later, is_later, named) = last_with-found m es h in (later, rw is_later refl, named)
last_with-found m (e ∷ es) (inl named) = elim (Option-cases (last_with m es)) [
  | inl absent ↦ (e, rw (absent, named, eq_refl m) refl, named)
  | inr (later, is_later) ↦ (later, rw is_later refl, last_with-named m es later is_later)
]

found_in :
    {m : String} (e : Json) (es : List Json) (r : DeliveryResult) (rs : List DeliveryResult)
    → result_id r ≡ id_of e
    → (HasResult m rs → HasEnvelope m es)
    → HasResult m (r ∷ rs)
    → HasEnvelope m (e ∷ es)
found_in e es r rs is_id later (inl named) = inl (sym is_id ∙ named)
found_in e es r rs is_id later (inr found) = inr (later found)

module _ (rt : Runtime) (home : Home) (content_object : Json) (c m : String) where
  for_each-Waits :
      (es : List Json) (specs : List RecipientSpec) (s : ClientCore) (results : List DeliveryResult)
      (t : ClientCore) (kept : Json)
      → rt.nfc c ≡ c
      → rt.nfc m ≡ m
      → for_each (after_upload rt home content_object) es specs s ≡ (ok results, t)
      → NoneQueued m results
      → Waits rt c m kept s.outbox
      → Waits rt c m kept t.outbox
  unfolding for_each pure lift
  for_each-Waits [] [] s results t kept is_c is_m h none_queued waits =
      subst (λ x. Waits rt c m kept x.outbox) (ap (λ x. x.1) h) waits
  for_each-Waits [] (spec ∷ specs) s results t kept is_c is_m h none_queued waits =
      absurd (err≢ok (ap (λ x. x.0) h))
  for_each-Waits (e ∷ es) [] s results t kept is_c is_m h none_queued waits =
      absurd (err≢ok (ap (λ x. x.0) h))
  for_each-Waits (e ∷ es) (spec ∷ specs) s results t kept is_c is_m h none_queued waits =
      exec-case (after_upload rt home content_object e (some spec)) _ s h λ r s1 is_r h1.
        exec-case (for_each (after_upload rt home content_object) es specs) _ s1 h1
          λ rest s2 is_rest h2.
            let marks = after_upload-Marks rt home content_object e (some spec) s is_r in
            let (this, others) =
              subst (NoneQueued m) (sym (ok-inj (ap (λ x. x.0) h2))) none_queued in
            subst (λ x. Waits rt c m kept x.outbox) (ap (λ x. x.1) h2)
              (for_each-Waits es specs s1 rest s2 kept is_c is_m is_rest others
                (Marks-Waits rt c m is_c is_m kept e marks this waits))

  for_each-HasEnvelope :
      (es : List Json) (specs : List RecipientSpec) (s : ClientCore) (results : List DeliveryResult)
      (t : ClientCore)
      → for_each (after_upload rt home content_object) es specs s ≡ (ok results, t)
      → HasResult m results
      → HasEnvelope m es
  unfolding for_each pure lift
  for_each-HasEnvelope [] [] s results t h found =
      subst (HasResult m) (sym (ok-inj (ap (λ x. x.0) h))) found
  for_each-HasEnvelope [] (spec ∷ specs) s results t h found = absurd (err≢ok (ap (λ x. x.0) h))
  for_each-HasEnvelope (e ∷ es) [] s results t h found = absurd (err≢ok (ap (λ x. x.0) h))
  for_each-HasEnvelope (e ∷ es) (spec ∷ specs) s results t h found =
      exec-case (after_upload rt home content_object e (some spec)) _ s h λ r s1 is_r h1.
        exec-case (for_each (after_upload rt home content_object) es specs) _ s1 h1
          λ rest s2 is_rest h2.
            let marks = after_upload-Marks rt home content_object e (some spec) s is_r in
            found_in e es r rest marks.is_id (for_each-HasEnvelope es specs s1 rest s2 is_rest)
              (subst (HasResult m) (sym (ok-inj (ap (λ x. x.0) h2))) found)

-- Whatever the server answers, no message of `send_content` is lost: a message that has a result, of
-- which no result says that it is queued, and which the server had not queued for this content before,
-- waits in the outbox under this content. What waits is the envelope with its id, in the form in which
-- the file keeps it. The ids of the message and of the content are to be in NFC, since the file has
-- their normal forms for keys.
pub send_content-Waits :
    (w : World) (me : Profile) (home : Home) (later : String) (signed_content : Json)
    (specs : List RecipientSpec) (s : ClientCore) (result : FanoutSendResult) (t : ClientCore)
    → send_content w me home later signed_content specs s ≡ (ok result, t)
    → (m : String) → w.rt.nfc m ≡ m
    → w.rt.nfc (text (get signed_content "content_id")) ≡ text (get signed_content "content_id")
    → HasResult m result.deliveries
    → NoneQueued m result.deliveries
    → is_queued (delivery (text (get signed_content "content_id")) m s.outbox) ≡ false
    → (envelope : Json) × (id_of envelope ≡ m)
      × Waits w.rt (text (get signed_content "content_id")) m envelope t.outbox
unfolding send_content pure
send_content-Waits w me home later signed_content specs s result t h m is_m is_c found none_queued
      fresh =
    let c = text (get signed_content "content_id") in
    lift-case (validate_recipient_specs w.rt specs) _ s h λ _ _ h1.
      lift-case (encrypt_content w signed_content specs) _ s h1 λ ciphertext _ h2.
        exec-case (build_content_object w me signed_content ciphertext none later) _ s h2
          λ object s1 is_object h3.
            let (same_id, same) =
              build_content_object-inv w me signed_content ciphertext none later s is_object in
            exec-case (build_delivery_envelopes w me signed_content specs (some ciphertext) false) _
              s1 h3
              λ envelopes s2 is_envelopes h4.
                let untouched =
                  build_delivery_envelopes-outbox w me signed_content specs (some ciphertext) false
                    s1 is_envelopes in
                exec-case (update (on_outbox (save w.rt object envelopes))) _ s2 h4
                  λ _ s3 is_saved h5.
                    exec-case (for_each (after_upload w.rt home object) envelopes specs) _ s3 h5
                      λ results s4 is_results h6.
                        let is_list = ap (λ x. x.deliveries) (sym (ok-inj (ap (λ x. x.0) h6))) in
                        let here =
                          for_each-HasEnvelope w.rt home object c m envelopes specs s3 results s4
                            is_results (subst (HasResult m) is_list found) in
                        let (envelope, is_last, named) = last_with-found m envelopes here in
                        let before = untouched ∙ ap (λ x. x.outbox) same in
                        let written =
                          on_outbox-inv (save w.rt object envelopes) s2
                            (update-inv _ s2 is_saved) in
                        let saved =
                          save-Waits w.rt c m is_c is_m envelope object envelopes s2.outbox
                            (ap text same_id) is_last
                            (ap (λ o. is_queued (delivery c m o)) before ∙ fresh) written in
                        (
                          envelope,
                          named,
                          subst (λ x. Waits w.rt c m envelope x.outbox) (ap (λ x. x.1) h6)
                              (for_each-Waits w.rt home object c m envelopes specs s3 results s4
                                envelope is_c is_m is_results
                                (subst (NoneQueued m) is_list none_queued) saved),
                        )
