-- ===== src/Storage/Content/Laws.antt =====
-- The content store: what `put` binds stays bound, and what it stored is read back until it is over.
use endpoint_protocol.Prelude.{
  ℕ, String, ◌≡◌, refl, true, false, none, some, List, eq_refl, if◌then◌else◌, arith, Bool-cases,
  Option-cases, inl, inr,
}
use endpoint_protocol.Json.{Json, Fields, str, int, pos, obj, end, field, get, text}
use endpoint_protocol.Errors.{Result, ok, err, raised}
use endpoint_protocol.Exec.{◌>>=◌}
use endpoint_protocol.Runtime.{Runtime}
use endpoint_protocol.Protocol.Limits.{default_limits}
use endpoint_protocol.Protocol.Content.{validate_content_object, size_of}
use endpoint_protocol.Table.Laws.{select_one-insert}
use endpoint_protocol.Storage.Content.{
  ContentRow, Content, read_file, write_file, move_file, unlink, at_content, find_row, expiry_of,
  content_path, temporary_path, content_row, same_content, is_expired_at, insert_content,
  finish_put, place, put, newlines, read_text, read_content, get_content, mismatch,
}

abbrev content_id_of : Json → String
content_id_of content = text (get content "content_id")

abbrev ciphertext_of : Json → String
ciphertext_of content = text (get content "ciphertext_armored")

read_written :
    (path contents : String) (files : List (String × String))
    → read_file path (write_file path contents files) ≡ some contents
unfolding read_file write_file
read_written path contents files = rw (eq_refl path) refl

read_moved :
    (from to contents : String) (files : List (String × String))
    → read_file from files ≡ some contents
    → read_file to (move_file from to files) ≡ some contents
unfolding move_file
read_moved from to contents files h =
    rw (h, move_file) (read_written to contents (unlink from files))

-- The object with the fields of the content, in the order in which `get` writes them.
abbrev pub same_object : Json → Json
same_object content =
    let tail : Fields = elim (expiry_of (get content "expires_at")) [
      | none ↦ end
      | some time ↦ field "expires_at" (str time) end
    ] in
    obj (
      field "protocol_version" (str "endpoint-poc-2") (
        field "content_id" (str (text (get content "content_id"))) (
          field "content_sha256" (str (text (get content "content_sha256"))) (
            field "ciphertext_armored" (str (text (get content "ciphertext_armored"))) (
              field "ciphertext_sha256" (str (text (get content "ciphertext_sha256"))) (
                field "size_bytes" (int (pos (size_of (get content "size_bytes"))))
                  (field "created_at" (str (text (get content "created_at"))) tail)))))))

module _ (rt : Runtime) (now : ℕ) (token : String) (content : Json) where
  abbrev id : String
  id = content_id_of content

  abbrev tmp : String
  tmp = temporary_path (content_path rt id) token

  -- The row and the ciphertext of a content are in their places.
  pub record IsStored (t : Content) : Type 0 where
    pub is_row : find_row id t ≡ some (content_row rt now content)
    pub is_file : read_file (content_path rt id) t.files ≡ some (ciphertext_of content)

  -- `put`, where nothing else writes meanwhile: a new id is stored; an id that is taken stays as it is,
  -- and the answer is that the content exists only for the same hashes.
  pub data Placed (s t : Content) : Result String → Type 0 where
    placed_new : find_row id s ≡ none → IsStored t → Placed s t (ok "stored")
    placed_same :
        (row : ContentRow)
        → find_row id s ≡ some row
        → same_content row content ≡ true
        → t ≡ s
        → Placed s t (ok "existing")
    placed_other :
        (row : ContentRow)
        → find_row id s ≡ some row
        → same_content row content ≡ false
        → t ≡ s
        → Placed s t (err (raised mismatch))

  -- The state that `put` leaves of a new content.
  abbrev storing : Content → Content
  storing s = record s { files = write_file tmp (ciphertext_of content) s.files }

  finish-new :
      (s : Content)
      → find_row id s ≡ none
      → finish_put rt now tmp content s ≡ insert_content rt now tmp content s
  unfolding finish_put ◌>>=◌
  finish-new s e = rw e refl

  place-new :
      (s : Content)
      → find_row id s ≡ none
      → place rt now token (λ t. t) content s ≡ insert_content rt now tmp content (storing s)
  unfolding place ◌>>=◌
  place-new s e = rw e (finish-new (storing s) e)

  IsStored-insert :
      (s : Content)
      → find_row id s ≡ none
      → IsStored (insert_content rt now tmp content (storing s)).1
  unfolding insert_content
  IsStored-insert s e = record {
    is_row = ground (
      arith,
      e,
      eq_refl id,
      select_one-insert (at_content id) (content_row rt now content) s.rows,
    );
    is_file =
        read_moved tmp (content_path rt id) (ciphertext_of content) (storing s).files
          (read_written tmp (ciphertext_of content) s.files);
  }

  insert-answer : (s : Content) → (insert_content rt now tmp content s).0 ≡ ok "stored"
  unfolding insert_content
  insert-answer s = refl

  place-taken :
      (s : Content) {row : ContentRow}
      → find_row id s ≡ some row
      → place rt now token (λ t. t) content s
        ≡ ((if same_content row content then ok "existing" else err (raised mismatch)), s)
  unfolding place ◌>>=◌
  place-taken s e = rw e refl

  place-Placed :
      (s : Content)
      → Placed s (place rt now token (λ t. t) content s).1 (place rt now token (λ t. t) content s).0
  place-Placed s = elim (Option-cases (find_row id s)) [
    | inl e ↦ rw (place-new s e, insert-answer (storing s)) (placed_new e (IsStored-insert s e))
    | inr (row, e) ↦ rw (place-taken s e) (elim (Bool-cases (same_content row content)) [
      | inl agrees ↦ rw agrees (placed_same row e agrees refl)
      | inr differs ↦ rw differs (placed_other row e differs refl)
    ])
  ]

  -- `put` of a valid content that is not over, where nothing else writes meanwhile: a new id is stored,
  -- with its row and its ciphertext; an id that is taken stays as it is, and the answer is `existing`
  -- for the hashes that it is bound to, and an error for others.
  pub put-Placed :
      (s : Content)
      → validate_content_object rt content default_limits ≡ ok tt
      → is_expired_at rt now (expiry_of (get content "expires_at")) ≡ ok false
      → Placed s (put rt now token (λ t. t) content s).1 (put rt now token (λ t. t) content s).0
  unfolding put ◌>>=◌
  put-Placed s valid fresh = rw (valid, fresh) (place-Placed s)

  put-new :
      (s : Content)
      → validate_content_object rt content default_limits ≡ ok tt
      → is_expired_at rt now (expiry_of (get content "expires_at")) ≡ ok false
      → find_row id s ≡ none
      → put rt now token (λ t. t) content s ≡ insert_content rt now tmp content (storing s)
  unfolding put ◌>>=◌
  put-new s valid fresh free = rw (valid, fresh) (place-new s free)

  -- What is stored is read back, as long as it is not over.
  stored-get :
      (later : ℕ) (t : Content)
      → IsStored t
      → newlines false (ciphertext_of content) ≡ ciphertext_of content
      → is_expired_at rt later (expiry_of (get content "expires_at")) ≡ ok false
      → validate_content_object rt (same_object content) default_limits ≡ ok tt
      → get_content rt later id t ≡ (ok (some (same_object content)), t)
  unfolding get_content read_content read_text ◌>>=◌
  stored-get later t stored same fresh valid =
      rw (stored.is_row, fresh, stored.is_file, same, valid) refl

  -- A content that was stored is read back until it is over: `get` returns the object with the ids,
  -- hashes, size, times and ciphertext of the content, if this object is valid and the ciphertext has no
  -- CR, so that reading the file as text leaves it as it is.
  pub put-get :
      (s : Content) (later : ℕ)
      → validate_content_object rt content default_limits ≡ ok tt
      → is_expired_at rt now (expiry_of (get content "expires_at")) ≡ ok false
      → find_row id s ≡ none
      → newlines false (ciphertext_of content) ≡ ciphertext_of content
      → is_expired_at rt later (expiry_of (get content "expires_at")) ≡ ok false
      → validate_content_object rt (same_object content) default_limits ≡ ok tt
      → let t = (put rt now token (λ t. t) content s).1 in
        get_content rt later id t ≡ (ok (some (same_object content)), t)
  put-get s later valid fresh free same still valid_back = rw (put-new s valid fresh free) (
      stored-get later (insert_content rt now tmp content (storing s)).1 (IsStored-insert s free)
        same still valid_back)
