-- ===== src/Tests/Storage.antt =====
-- Runs of the stores: a message is leased, redelivered, quarantined; contents come and go.
use endpoint_protocol.Prelude.{
  Bool, String, suc, ◌+◌, ◌≡◌, refl, false, ◌&&◌, none, some, List, [], ◌∷◌, arith, ◌==◌,
  true≢false, ap, if◌then◌else◌,
}
use endpoint_protocol.Json.{get, text}
use endpoint_protocol.Errors.{ok}
use endpoint_protocol.Protocol.Limits.{default_limits}
use endpoint_protocol.Protocol.Content.{validate_content_object}
use endpoint_protocol.Table.{select_one}
use endpoint_protocol.Storage.Queue.{
  is_queued, QueueRow, Rows, new_row, lease_row, add_row, requeue_expired, reject as reject_row,
  deliverable,
}
use endpoint_protocol.Table.{row_count}
use endpoint_protocol.Storage.Queue.Order.{IsInOrder, given_back, deliverable-IsInOrder}
use endpoint_protocol.Storage.Queue.Laws.{entry}
use endpoint_protocol.Storage.Queue.Invariant.{IsValid, IsValid-empty}
use endpoint_protocol.Storage.Queue.Life.{
  Call, add, lease, deliver, ack, reject, lent, quarantined, life, perform, perform-IsValid,
}
use endpoint_protocol.Storage.Queue.Runs.{
  run, life_run, run-IsValid, life-run, lease_hands_out, lease_is_exclusive, quarantine_is_final,
}
use endpoint_protocol.Storage.Content.{
  ContentRow, Content, content_path, read_file, put, get_content, newlines, is_expired_at,
  expiry_of,
}
use endpoint_protocol.Storage.Content.Keeps.{IsBound, put-IsBound}
use endpoint_protocol.Runtime.{Runtime}
use endpoint_protocol.Storage.Content.Laws.{Placed, put-Placed, put-get, same_object}
use endpoint_protocol.Storage.Outbox.{Outbox, entered, pending_batch}
use endpoint_protocol.Storage.Outbox.Laws.{all_done, is_none, pending_batch-done}
use endpoint_protocol.Tests.{stdlib, zeros, content, no_content, inline_envelope}

-- A message is added, leased, comes back, is leased again and rejected.
abbrev calls : List Call
calls =
    add 10 "bob" "m1" "{}"
    ∷ lease 11 11 "bob" "m1" 30
    ∷ deliver 41 "bob"
    ∷ lease 42 42 "bob" "m1" 30
    ∷ reject 43 "bob" "m1" "wrong_recipient"
    ∷ []

life-run_example :
    life (entry "bob" "m1" (run "quarantine" [] calls))
    ≡ life_run "quarantine" "bob" "m1" (life (entry "bob" "m1" [])) calls
life-run_example = life-run "quarantine" "bob" "m1" [] calls IsValid-empty

abbrev one_message : Rows
one_message = new_row 10 "bob" "m1" "{}" ∷ []

one-IsValid : IsValid one_message
unfolding add_row
one-IsValid = perform-IsValid "drop" (add 10 "bob" "m1" "{}") IsValid-empty

perform-IsValid_example : IsValid (perform "drop" one_message (lease 11 11 "bob" "m1" 30))
perform-IsValid_example =
    perform-IsValid "drop" {rows = one_message} (lease 11 11 "bob" "m1" 30) one-IsValid

lease_hands_out_example :
    (r : QueueRow) × ((lease_row 11 11 "bob" "m1" 30 one_message).0 ≡ some r)
    × (life (entry "bob" "m1" (lease_row 11 11 "bob" "m1" 30 one_message).1)
        ≡ lent (some (11 + 30)))
unfolding select_one
lease_hands_out_example = lease_hands_out one_message one-IsValid "bob" "m1" 11 11 30 refl

lease_is_exclusive_example :
    (lease_row 40 40 "bob" "m1" 30 (
      run "drop"
        (lease_row 11 11 "bob" "m1" 30 one_message).1
        (deliver 20 "bob" ∷ ack "bob" "m2" ∷ []))).0
    ≡ none
unfolding lease_row
lease_is_exclusive_example =
    lease_is_exclusive one_message one-IsValid "bob" "m1" 11 11 30 "drop"
      (deliver 20 "bob" ∷ ack "bob" "m2" ∷ []) 40 40 30 refl (refl, (refl, tt)) (omega arith)

abbrev in_quarantine : Rows
in_quarantine = run "quarantine" [] calls

quarantine_is_final_example :
    life (entry "bob" "m1" (run "quarantine" in_quarantine calls)) ≡ quarantined
unfolding run add_row lease_row requeue_expired reject_row select_one
quarantine_is_final_example =
    quarantine_is_final "quarantine" "bob" "m1" in_quarantine calls
      (run-IsValid "quarantine" calls IsValid-empty) refl

abbrev two_messages : Rows
two_messages = new_row 12 "bob" "m2" "{}" ∷ new_row 10 "bob" "m1" "{}" ∷ []

deliverable-IsInOrder_example :
    IsInOrder (deliverable 50 "bob" two_messages).0
    × ((p : QueueRow → Bool)
        → row_count p (deliverable 50 "bob" two_messages).0
          ≡ row_count
              (λ r.
                let back = given_back 50 "bob" r in
                back.client_ref == "bob" && is_queued back && p back)
              two_messages)
deliverable-IsInOrder_example = deliverable-IsInOrder 50 "bob" two_messages

is_content : validate_content_object stdlib content default_limits ≡ ok tt
unfolding validate_content_object
is_content = refl

is_fresh : is_expired_at stdlib 7_000_000 (expiry_of (get content "expires_at")) ≡ ok false
unfolding is_expired_at get
is_fresh = refl

put-Placed_example :
    Placed stdlib 7_000_000 "t" content no_content
      (put stdlib 7_000_000 "t" (λ t. t) content no_content).1
      (put stdlib 7_000_000 "t" (λ t. t) content no_content).0
put-Placed_example = put-Placed stdlib 7_000_000 "t" content no_content is_content is_fresh

is_readable : validate_content_object stdlib (same_object content) default_limits ≡ ok tt
unfolding validate_content_object get
is_readable = refl

put-get_example :
    get_content stdlib 8_000_000
      (text (get content "content_id"))
      (put stdlib 7_000_000 "t" (λ t. t) content no_content).1
    ≡ (ok (some (same_object content)), (put stdlib 7_000_000 "t" (λ t. t) content no_content).1)
unfolding select_one is_expired_at get newlines
put-get_example =
    put-get stdlib 7_000_000 "t" content no_content 8_000_000 is_content is_fresh refl refl refl
      is_readable

-- The paths of "c0" and of any other content differ.
abbrev two_paths : Runtime
two_paths = record stdlib { sha256 = λ s. if s == "c0" then "0" else zeros }

abbrev old_row : ContentRow
old_row = record {
  content_id = "c0";
  content_sha256 = zeros;
  ciphertext_sha256 = zeros;
  file_path = "0.asc";
  size_bytes = 1;
  created_at = "2024";
  expires_at = none;
  updated_at = 1;
}

abbrev one_content : Content
one_content = record { rows = old_row ∷ []; files = ("0.asc", "y") ∷ [] }

other_path : content_path two_paths "c1" ≡ content_path two_paths "c0" → ◌≡◌ {A = String} "c1" "c0"
other_path h = absurd (true≢false (ap (λ path. path == content_path two_paths "c1") h))

put-IsBound_example :
    IsBound two_paths "c0" old_row "y" (put two_paths 7_000_000 "t" (λ t. t) content one_content).1
unfolding select_one read_file get
put-IsBound_example =
    put-IsBound two_paths 7_000_000 "t" content "c0" old_row "y" (λ t. t) (λ t k. k) other_path refl
      one_content (record { is_row = refl; is_file = refl })

abbrev outbox : Outbox
outbox = entered content (inline_envelope "x" ∷ []) []

pending_batch-done_example : is_none (pending_batch (suc 3) outbox) ≡ all_done outbox
pending_batch-done_example = pending_batch-done 3 outbox
