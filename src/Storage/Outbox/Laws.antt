-- ===== src/Storage/Outbox/Laws.antt =====
-- What the outbox keeps of a delivery and what it hands out again.
use endpoint_protocol.Prelude.{
  ℕ, zero, suc, ◌≤◌, String, ◌≡◌, ◌≢◌, sym, ap, ◌∙◌, Option-cases, inl, inr, refl, Bool, true,
  false, ◌&&◌, Option, none, some, List, [], ◌∷◌, ◌==◌, eq_iff, if◌then◌else◌, take, length, arith,
}
use endpoint_protocol.Json.{Json, get, text}
use endpoint_protocol.Transport.Policy.{is_empty}
use endpoint_protocol.Dict.{Dict, lookup}
use mathlib.Core.Path.{subst}
use endpoint_protocol.Dict.Laws.{lookup-put}
use endpoint_protocol.Errors.{ok}
use endpoint_protocol.Errors.Laws.{bind-inv, ok-inj}
use endpoint_protocol.Runtime.{Runtime}
use endpoint_protocol.Storage.Files.{stored_json, save_dict}
use endpoint_protocol.Storage.Files.Laws.{save_dict-finds}
use endpoint_protocol.Storage.Outbox.{
  Delivery, Entry, Outbox, all_sent, is_sent, pending, enqueue, enqueue_all, entered,
  stored_delivery, stored_entry, save_file, unsent, pending_batch,
}

none≢some : {A : Type 0} {a : A} → none ≢ some a
none≢some h = cc

abbrev pub id_of : Json → String
id_of envelope = text (get envelope "message_id")

-- The last envelope of a list that has an id.
abbrev pub last_with : String → List Json → Option Json
last_with id [] = none
last_with id (e ∷ rest) = elim (last_with id rest) [
  | some later ↦ some later
  | none ↦ if id_of e == id then some e else none
]

-- What `save` makes of the delivery of an id: one that the server has queued stays, another one is
-- pending with the last envelope.
abbrev pub renewed : Option Json → Option Delivery → Option Delivery
renewed none old = old
renewed (some e) none = some (pending e)
renewed (some e) (some d) = if is_sent d then some d else some (pending e)

lookup-enqueue :
    (envelope : Json) (deliveries : Dict Delivery) (id : String)
    → lookup id (enqueue envelope deliveries)
      ≡ renewed (if id_of envelope == id then some envelope else none) (lookup id deliveries)
unfolding enqueue
lookup-enqueue envelope deliveries id = ground (
  arith,
  lookup-put (id_of envelope) id (pending envelope) deliveries,
  eq_iff (id_of envelope) id,
)

pub lookup-enqueue_all :
    (envelopes : List Json) (deliveries : Dict Delivery) (id : String)
    → lookup id (enqueue_all envelopes deliveries)
      ≡ renewed (last_with id envelopes) (lookup id deliveries)
unfolding enqueue_all
lookup-enqueue_all [] deliveries id = refl
lookup-enqueue_all (e ∷ rest) deliveries id =
    ground
      (arith, lookup-enqueue_all rest (enqueue e deliveries) id, lookup-enqueue e deliveries id)

-- The delivery of a message in the entry of a content.
abbrev pub deliveries_of : Option Entry → Dict Delivery
deliveries_of none = []
deliveries_of (some e) = e.deliveries

abbrev pub delivery : String → String → Outbox → Option Delivery
delivery content_id message_id o = lookup message_id (deliveries_of (lookup content_id o))

-- What `save` enters renews the deliveries of its content, without touching those that the server has
-- queued, and leaves all others as they are.
pub delivery-entered :
    (content : Json) (envelopes : List Json) (o : Outbox) (c m : String)
    → delivery c m (entered content envelopes o) ≡ (
        if text (get content "content_id") == c
        then renewed (last_with m envelopes) (delivery c m o)
        else delivery c m o)
unfolding entered
delivery-entered content envelopes o c m =
    let id = text (get content "content_id") in
    let entry : Entry = record {
      content = content;
      deliveries = enqueue_all envelopes (deliveries_of (lookup id o));
    } in
    ground (
      arith,
      lookup-put id c entry o,
      lookup-enqueue_all envelopes (deliveries_of (lookup id o)) m,
      eq_iff id c,
    )

module _ (rt : Runtime) (c m : String) where
  delivery-found :
      (o : Outbox) {d : Delivery}
      → delivery c m o ≡ some d
      → (e : Entry) × (lookup c o ≡ some e) × (lookup m e.deliveries ≡ some d)
  unfolding lookup
  delivery-found o h = elim (Option-cases (lookup c o)) [
    | inl absent ↦ absurd (none≢some (rw absent at h))
    | inr (e, at) ↦ (e, at, rw at at h)
  ]

  -- The file keeps the delivery of a content and a message whose ids are in NFC, in its stored form.
  pub delivery-save_file :
      (o : Outbox) {left : Outbox} {d : Delivery}
      → rt.nfc c ≡ c
      → rt.nfc m ≡ m
      → save_file rt o ≡ ok left
      → delivery c m o ≡ some d
      → (stored : Delivery) × (stored_delivery rt d ≡ ok stored) × (delivery c m left ≡ some stored)
  unfolding save_file stored_entry
  delivery-save_file o {left} {d} is_c is_m h at =
      let (e, at_c, at_m) = delivery-found o at in
      let (entry, is_entry, found) = save_dict-finds rt (stored_entry rt) o c e h at_c in
      let (content, _, h1) = bind-inv (stored_json rt e.content) _ is_entry in
      let (ds, are_ds, h2) = bind-inv (save_dict rt (stored_delivery rt) e.deliveries) _ h1 in
      let (stored, is_stored, here) =
        save_dict-finds rt (stored_delivery rt) e.deliveries m d are_ds at_m in
      let in_entry : lookup m entry.deliveries ≡ some stored =
        ap (λ x. lookup m x.deliveries) (sym (ok-inj h2))
        ∙ subst (λ k. lookup k ds ≡ some stored) is_m here in
      (
        stored,
        is_stored,
        ap (λ x. lookup m (deliveries_of x)) (subst (λ k. lookup k left ≡ some entry) is_c found)
            ∙ in_entry,
      )

abbrev pub all_done : Outbox → Bool
all_done [] = true
all_done ((id, e) ∷ rest) = all_sent e.deliveries && all_done rest

abbrev pub is_none {ℓ} : {A : Type ℓ} → Option A → Bool
is_none none = true
is_none (some a) = false

is_empty-unsent : (d : Dict Delivery) → is_empty (unsent d) ≡ all_sent d
unfolding unsent all_sent
is_empty-unsent [] = refl
is_empty-unsent ((id, d) ∷ rest) = ground (arith, is_empty-unsent rest)

is_empty-take : {A : Type 0} (n : ℕ) (xs : List A) → is_empty (take (suc n) xs) ≡ is_empty xs
is_empty-take n [] = refl
is_empty-take n (x ∷ xs) = refl

length-take : {A : Type 0} (n : ℕ) (xs : List A) → length (take n xs) ≤ n
length-take zero xs = omega arith
length-take (suc n) [] = omega arith
length-take (suc n) (x ∷ xs) = ground (arith, length-take n xs)

-- With a limit of at least one, there is a next batch exactly as long as a delivery is not queued.
pub pending_batch-done : (n : ℕ) (o : Outbox) → is_none (pending_batch (suc n) o) ≡ all_done o
unfolding pending_batch
pending_batch-done n [] = refl
pending_batch-done n ((id, e) ∷ rest) = ground (
  arith,
  pending_batch-done n rest,
  is_empty-unsent e.deliveries,
  is_empty-take n (unsent e.deliveries),
)

-- A batch has an envelope, and no more than the limit.
pending_batch-length :
    (limit : ℕ) (o : Outbox) (content : Json) (batch : List Json)
    → pending_batch limit o ≡ some (content, batch)
    → (1 ≤ length batch) × (length batch ≤ limit)
unfolding pending_batch
pending_batch-length limit [] content batch h = ground arith
pending_batch-length limit ((id, e) ∷ rest) content batch h =
    ground (
      arith,
      pending_batch-length limit rest content batch,
      length-take limit (unsent e.deliveries),
    )
