-- ===== src/Storage/Outbox/Keeps.antt =====
-- What waits in the outbox of endpoint/storage.py stays there until the server has queued it.
use endpoint_protocol.Prelude.{
  String, ◌≡◌, ◌⊎◌, ◌∙◌, ap, Bool, false, Option, none, some, List, [], ◌∷◌, ◌==◌, eq_iff,
  if◌then◌else◌, arith, refl, Bool-cases, Option-cases, inl, inr,
}
use endpoint_protocol.Json.{Json, get, text}
use endpoint_protocol.Dict.{Dict, lookup, put, discard}
use endpoint_protocol.Dict.Laws.{lookup-put}
use endpoint_protocol.Storage.Outbox.{
  Delivery, Outbox, all_sent, is_sent, marked, mark_first, remove_completed, mark, save, entered,
  save_file, stored_delivery,
}
use endpoint_protocol.Storage.Outbox.Laws.{
  last_with, delivery, delivery-save_file, delivery-entered,
}
use mathlib.Core.Path.{subst}
use endpoint_protocol.Errors.{ok}
use endpoint_protocol.Errors.Laws.{bind-inv, ok-inj}
use endpoint_protocol.Runtime.{Runtime}
use endpoint_protocol.Storage.Files.{stored_json}

-- The envelope of a delivery that the server has not queued.
abbrev pub waiting : Option Delivery → Option Json
waiting none = none
waiting (some d) = if is_sent d then none else some d.envelope

-- The envelope that waits under a content and a message id.
abbrev pub IsWaiting : String → String → Json → Outbox → Type 0
IsWaiting c m envelope o = waiting (delivery c m o) ≡ some envelope

abbrev pub is_queued : Option Delivery → Bool
is_queued none = false
is_queued (some d) = is_sent d

some-inj : {A : Type 0} {a b : A} → some a ≡ some b → a ≡ b
some-inj h = cc

-- A delivery that waits is not complete.
all_sent-waits :
    (m : String) (envelope : Json) (ds : Dict Delivery)
    → waiting (lookup m ds) ≡ some envelope
    → all_sent ds ≡ false
unfolding lookup all_sent
all_sent-waits m envelope [] h = ground arith
all_sent-waits m envelope ((i, d) ∷ ds) h = ground (arith, all_sent-waits m envelope ds)

put-waits :
    (m : String) (envelope : Json) (id status : String) (code : Option String) (ds : Dict Delivery)
    (d : Delivery)
    → ((status == "queued") ≡ false) ⊎ ((id == m) ≡ false)
    → lookup id ds ≡ some d
    → waiting (lookup m ds) ≡ some envelope
    → waiting (lookup m (put id (marked status code d) ds)) ≡ some envelope
put-waits m envelope id status code ds d other at h =
    ground (arith, lookup-put id m (marked status code d) ds, eq_iff id m, ap (λ k. lookup k ds))

module _ (c m : String) (envelope : Json) where
  mark_first-IsWaiting :
      (id status : String) (code : Option String) (o : Outbox)
      → ((status == "queued") ≡ false) ⊎ ((id == m) ≡ false)
      → IsWaiting c m envelope o
      → IsWaiting c m envelope (mark_first id status code o)
  unfolding mark_first lookup
  mark_first-IsWaiting id status code [] other h = h
  mark_first-IsWaiting id status code ((i, e) ∷ rest) other h =
      elim (Option-cases (lookup id e.deliveries)) [
        | inl absent ↦
            rw (absent, mark_first) (ground (arith, mark_first-IsWaiting id status code rest))
        | inr (d, at) ↦
            rw (at, mark_first)
              (ground (arith, put-waits m envelope id status code e.deliveries d other at))
      ]

  remove_completed-IsWaiting :
      (o : Outbox) → IsWaiting c m envelope o → IsWaiting c m envelope (remove_completed o)
  unfolding remove_completed discard lookup
  remove_completed-IsWaiting [] h = h
  remove_completed-IsWaiting ((i, e) ∷ rest) h =
      ground (arith, remove_completed-IsWaiting rest, all_sent-waits m envelope e.deliveries)

-- What becomes of a JSON value that is written to a file once, and again with each change of the file.
pub data Kept (rt : Runtime) (value : Json) : Json → Type 0 where
  once : {x : Json} → stored_json rt value ≡ ok x → Kept rt value x
  again : {x y : Json} → Kept rt value x → stored_json rt x ≡ ok y → Kept rt value y

-- The envelope waits, as the file keeps it.
abbrev pub Waits : Runtime → String → String → Json → Outbox → Type 0
Waits rt c m envelope o = (kept : Json) × Kept rt envelope kept × IsWaiting c m kept o

waiting-inv :
    (o : Option Delivery) {envelope : Json}
    → waiting o ≡ some envelope
    → (d : Delivery) × (o ≡ some d) × (is_sent d ≡ false) × (d.envelope ≡ envelope)
waiting-inv none h = absurd (ground (arith, h))
waiting-inv (some d) h = elim (Bool-cases (is_sent d)) [
  | inl sent ↦ absurd (ground (arith, rw sent at h))
  | inr unsent ↦ (d, refl, unsent, some-inj (rw unsent at h))
]

module _ (rt : Runtime) (c m : String) (normal_c : rt.nfc c ≡ c) (normal_m : rt.nfc m ≡ m) where
  stored_delivery-inv :
      (d : Delivery) {stored : Delivery}
      → stored_delivery rt d ≡ ok stored
      → is_sent d ≡ false
      → (x : Json) × (stored_json rt d.envelope ≡ ok x) × (waiting (some stored) ≡ some x)
  unfolding stored_delivery
  stored_delivery-inv d h unsent =
      let (x, is_x, h1) = bind-inv (stored_json rt d.envelope) _ h in
      (x, is_x, subst (λ e. waiting (some e) ≡ some x) (ok-inj h1) (rw unsent refl))

  save_file-Waits :
      (o : Outbox) (envelope : Json) {left : Outbox}
      → save_file rt o ≡ ok left
      → IsWaiting c m envelope o
      → (x : Json) × (stored_json rt envelope ≡ ok x) × IsWaiting c m x left
  save_file-Waits o envelope h waits =
      let (d, at, unsent, same) = waiting-inv (delivery c m o) waits in
      let (stored, is_stored, found) = delivery-save_file rt c m o normal_c normal_m h at in
      let (x, is_x, here) = stored_delivery-inv d is_stored unsent in
      (x, subst (λ e. stored_json rt e ≡ ok x) same is_x, ap waiting found ∙ here)

  -- What is marked otherwise, or not as queued, waits on.
  pub mark-Waits :
      (envelope : Json) (id status : String) (code : Option String) (o : Outbox) {left : Outbox}
      → ((status == "queued") ≡ false) ⊎ ((id == m) ≡ false)
      → mark rt id status code o ≡ ok left
      → Waits rt c m envelope o
      → Waits rt c m envelope left
  unfolding mark
  mark-Waits envelope id status code o other h (kept, is_kept, waits) =
      let marked_one = mark_first id status code o in
      let here =
        remove_completed-IsWaiting c m kept marked_one
          (mark_first-IsWaiting c m kept id status code o other waits) in
      let (x, is_x, there) = save_file-Waits (remove_completed marked_one) kept h here in
      (x, again is_kept is_x, there)

  -- An envelope that is saved waits, unless the server has already queued its message.
  pub save-Waits :
      (envelope content : Json) (envelopes : List Json) (o : Outbox) {left : Outbox}
      → text (get content "content_id") ≡ c
      → last_with m envelopes ≡ some envelope
      → is_queued (delivery c m o) ≡ false
      → save rt content envelopes o ≡ ok left
      → Waits rt c m envelope left
  unfolding save
  save-Waits envelope content envelopes o is_c last fresh h =
      let entered_there : IsWaiting c m envelope (entered content envelopes o) = ground (
        arith,
        delivery-entered content envelopes o c m,
        eq_iff (text (get content "content_id")) c,
        is_c,
        last,
        fresh,
      ) in
      let (x, is_x, there) =
        save_file-Waits (entered content envelopes o) envelope h entered_there in
      (x, once is_x, there)
