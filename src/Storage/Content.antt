-- ===== src/Storage/Content.antt =====
-- `ContentStore` of endpoint/storage.py: the table `content_objects`, and the files beside it.
-- The clock and the instants of timestamps are in microseconds here; a path is a text.
pub mod Laws
pub mod Keeps
use endpoint_protocol.Prelude.{
  ℕ, zero, suc, ◌+◌, ◌/◌, String, ◌<>◌, Bool, true, false, not, ◌&&◌, Option, none, some, List, [],
  ◌∷◌, leb, eqb, code, ◌==◌, if◌then◌else◌,
}
use endpoint_protocol.Json.{Json, Fields, null, int, pos, str, obj, end, field, get, is_null, text}
use endpoint_protocol.Errors.{
  EndpointError, Result, ok, err, raise, crash, require_status, plain_error, detail_error,
  status_error,
}
use endpoint_protocol.Exec.{Exec, pure, lift, gets, modify, ◌>>=◌, ◌>>◌}
use endpoint_protocol.Runtime.{Runtime, Stamp, bad_stamp, stamp}
use endpoint_protocol.Protocol.Limits.{default_limits, protocol_version}
use endpoint_protocol.Protocol.Parts.{replace_z}
use endpoint_protocol.Protocol.Content.{validate_content_object, size_of}
use endpoint_protocol.Table.{select, select_one, delete, insert}

pub record ContentRow : Type 0 where
  pub content_id : String
  pub content_sha256 : String
  pub ciphertext_sha256 : String
  pub file_path : String
  pub size_bytes : ℕ
  pub created_at : String
  pub expires_at : Option String
  pub updated_at : ℕ

-- Files by path, the last write first.
abbrev pub Files : Type 0
Files = List (String × String)

pub record Content : Type 0 where
  pub rows : List ContentRow
  pub files : Files

unfoldable pub read_file : String → Files → Option String
read_file path [] = none
read_file path ((p, contents) ∷ rest) = if p == path then some contents else read_file path rest

unfoldable pub unlink : String → Files → Files
unlink path [] = []
unlink path ((p, contents) ∷ rest) =
    let others = unlink path rest in if p == path then others else (p, contents) ∷ others

unfoldable pub write_file : String → String → Files → Files
unfolding unlink
write_file path contents files = (path, contents) ∷ unlink path files

-- `os.replace`
unfoldable pub move_file : String → String → Files → Files
unfolding read_file write_file unlink
move_file from to files = elim (read_file from files) [
  | none ↦ files
  | some contents ↦ write_file to contents (unlink from files)
]

-- Universal newlines of a text file that is read: CR LF and CR are read as LF. `after_cr` says that
-- the character before was a CR.
unfoldable pub newlines : Bool → String → String
newlines after_cr String.[] = ""
newlines after_cr (String.◌∷◌ c s) =
    let behind_cr = newlines true s in
    let behind = newlines false s in
    if eqb (code c) 0x0d
    then "\n" <> behind_cr
    else if eqb (code c) 0x0a && after_cr
    then behind
    else String.◌∷◌ c behind

-- `path.read_text(encoding="utf-8")`
unfoldable pub read_text : String → Files → Option String
unfolding read_file newlines
read_text path files = elim (read_file path files) [
  | none ↦ none
  | some contents ↦ some (newlines false contents)
]

abbrev pub at_content : String → ContentRow → Bool
at_content content_id row = row.content_id == content_id

-- `_is_expired`
abbrev pub stamp_is_over : ℕ → Stamp → Result Bool
stamp_is_over now (bad_stamp what) =
    raise (detail_error "invalid_envelope" "content expiration timestamp is invalid" (some what))
stamp_is_over now (stamp instant true) = ok (leb instant now)
stamp_is_over now (stamp instant false) = err (crash "TypeError")

unfoldable pub is_expired_at : Runtime → ℕ → Option String → Result Bool
unfolding replace_z
is_expired_at rt now none = ok false
is_expired_at rt now (some value) = stamp_is_over now (rt.from_iso (replace_z value))

-- `content_object.get("expires_at")` of a validated object: a text or None.
abbrev pub expiry_of : Json → Option String
expiry_of (str s) = some s
expiry_of _ = none

abbrev pub same_content : ContentRow → Json → Bool
same_content row content =
    row.content_sha256 == text (get content "content_sha256")
    && row.ciphertext_sha256 == text (get content "ciphertext_sha256")

-- `_path`: the directory is left out.
abbrev pub content_path : Runtime → String → String
content_path rt content_id = rt.sha256 content_id <> ".asc"

abbrev pub temporary_path : String → String → String
temporary_path path token = "." <> path <> "." <> token <> ".tmp"

abbrev pub content_row : Runtime → ℕ → Json → ContentRow
content_row rt now content = record {
  content_id = text (get content "content_id");
  content_sha256 = text (get content "content_sha256");
  ciphertext_sha256 = text (get content "ciphertext_sha256");
  file_path = content_path rt (text (get content "content_id"));
  size_bytes = size_of (get content "size_bytes");
  created_at = text (get content "created_at");
  expires_at = expiry_of (get content "expires_at");
  updated_at = now / 1000000;
}

abbrev pub find_row : String → Content → Option ContentRow
find_row content_id s = select_one (at_content content_id) s.rows

abbrev pub mismatch : EndpointError
mismatch =
    status_error "content_hash_mismatch" "content id is already bound to different content" 409

abbrev pub must_match : ContentRow → Json → Exec Content String
must_match row content = lift (if same_content row content then ok "existing" else raise mismatch)

module _ (rt : Runtime) where
  -- The INSERT and the move of the temporary file, where no other writer has taken the id.
  unfoldable pub insert_content : ℕ → String → Json → Exec Content String
  unfolding move_file insert
  insert_content now tmp content s =
      let row = content_row rt now content in
      (
        ok "stored",
        record { rows = insert row s.rows; files = move_file tmp row.file_path s.files },
      )

  -- Behind `except sqlite3.IntegrityError`
  unfoldable pub lost_race : String → Json → ContentRow → Exec Content String
  unfolding unlink
  lost_race tmp content other = do
    modify (λ s. record s { files = unlink tmp s.files })
    must_match other content

  unfoldable pub finish_put : ℕ → String → Json → Exec Content String
  unfolding insert_content lost_race select_one
  finish_put now tmp content = do
    taken ← gets (find_row (text (get content "content_id")))
    elim taken [ none ↦ insert_content now tmp content | some other ↦ lost_race tmp content other ]

  -- `put` behind its checks. `token` is the fresh `uuid4().hex`; `others` is what other connections
  -- commit between the SELECT and the INSERT, nothing if they do not write meanwhile.
  unfoldable pub place : ℕ → String → (Content → Content) → Json → Exec Content String
  unfolding finish_put select_one write_file get
  place now token others content = do
    found ← gets (find_row (text (get content "content_id")))
    let tmp = temporary_path (content_path rt (text (get content "content_id"))) token
    elim found [
      | some row ↦ must_match row content
      | none ↦ do
        modify (λ s. record s {
          files = write_file tmp (text (get content "ciphertext_armored")) s.files;
        })
        modify others
        finish_put now tmp content
    ]

  unfoldable pub put : ℕ → String → (Content → Content) → Json → Exec Content String
  unfolding validate_content_object is_expired_at place get
  put now token others content = do
    lift (validate_content_object rt content default_limits)
    over ← lift (is_expired_at rt now (expiry_of (get content "expires_at")))
    lift (require_status (not over) "content_expired" "content object has expired" 410)
    place now token others content

  -- `_delete`
  unfoldable pub delete_content : String → String → Content → Content
  unfolding delete unlink
  delete_content content_id file_path s = record {
    rows = delete (at_content content_id) s.rows;
    files = unlink file_path s.files;
  }

  abbrev pub content_json : ContentRow → String → Json
  content_json row ciphertext =
      let tail : Fields = elim row.expires_at [
        | none ↦ end
        | some t ↦ field "expires_at" (str t) end
      ] in
      obj (
        field "protocol_version" (str protocol_version) (
          field "content_id" (str row.content_id) (
            field "content_sha256" (str row.content_sha256) (
              field "ciphertext_armored" (str ciphertext) (
                field "ciphertext_sha256" (str row.ciphertext_sha256) (
                  field "size_bytes" (int (pos row.size_bytes))
                    (field "created_at" (str row.created_at) tail)))))))

  -- What `get` returns of a row that is not over: none if its file is gone.
  unfoldable pub read_content : ContentRow → Exec Content (Option Json)
  unfolding read_text validate_content_object
  read_content row = do
    contents ← gets (λ s. read_text row.file_path s.files)
    elim contents [
      | none ↦ pure none
      | some ciphertext ↦ do
        lift (validate_content_object rt (content_json row ciphertext) default_limits)
        pure (some (content_json row ciphertext))
    ]

  unfoldable pub get_content : ℕ → String → Exec Content (Option Json)
  unfolding is_expired_at delete_content read_content select_one
  get_content now content_id = do
    found ← gets (find_row content_id)
    elim found [
      | none ↦ pure none
      | some row ↦ do
        over ← lift (is_expired_at rt now row.expires_at)
        if over
            then (do modify (delete_content content_id row.file_path); pure none)
            else read_content row
    ]

  unfoldable pub is_expired : ℕ → String → Exec Content Bool
  unfolding is_expired_at select_one
  is_expired now content_id = do
    found ← gets (find_row content_id)
    elim found [ none ↦ pure false | some row ↦ lift (is_expired_at rt now row.expires_at) ]

  -- The loop of `prune_expired` over the rows that have an expiry, with its counter.
  unfoldable pub prune_rows : ℕ → List ContentRow → ℕ → Exec Content ℕ
  unfolding is_expired_at delete_content
  prune_rows now [] removed = pure removed
  prune_rows now (row ∷ rest) removed = do
    over ← lift (is_expired_at rt now row.expires_at)
    modify (λ s. if over then delete_content row.content_id row.file_path s else s)
    prune_rows now rest (if over then removed + 1 else removed)

  abbrev has_expiry : ContentRow → Bool
  has_expiry row = elim row.expires_at [ none ↦ false | some _ ↦ true ]

  unfoldable pub prune_expired : ℕ → Exec Content ℕ
  unfolding prune_rows select
  prune_expired now = do rows ← gets (λ s. select has_expiry s.rows); prune_rows now rows 0
