-- ===== src/Storage/Content/Keeps.antt =====
-- What is bound to an id in the content store of endpoint/storage.py stays bound to it.
use endpoint_protocol.Prelude.{
  ℕ, String, ◌≡◌, ◌∙◌, refl, false, none, some, List, [], ◌∷◌, ◌==◌, eq_iff, eq_refl, arith,
  Bool-cases, Option, Option-cases, inl, inr,
}
use endpoint_protocol.Json.{Json, get, text}
use endpoint_protocol.Exec.{◌>>=◌}
use endpoint_protocol.Exec.Laws.{lift-keeps}
use endpoint_protocol.Runtime.{Runtime}
use endpoint_protocol.Table.{select_one, insert}
use endpoint_protocol.Table.Laws.{select_one-insert}
use endpoint_protocol.Storage.Content.{
  ContentRow, Content, Files, read_file, unlink, write_file, move_file, at_content, find_row,
  content_path, temporary_path, content_row, insert_content, lost_race, finish_put, place, put,
}

-- The files other than the one that is written.
module _ (q : String) where
  read-unlink :
      (p : String) (files : Files)
      → (p == q) ≡ false
      → read_file q (unlink p files) ≡ read_file q files
  unfolding read_file unlink
  read-unlink p [] other = refl
  read-unlink p ((r, contents) ∷ files) other =
      ground (arith, other, read-unlink p files, eq_iff r p, eq_iff r q, eq_refl r)

  read-write :
      (p contents : String) (files : Files)
      → (p == q) ≡ false
      → read_file q (write_file p contents files) ≡ read_file q files
  unfolding write_file read_file
  read-write p contents files other = ground (arith, other, read-unlink p files)

  read-move :
      (from to : String) (files : Files)
      → (from == q) ≡ false
      → (to == q) ≡ false
      → read_file q (move_file from to files) ≡ read_file q files
  unfolding move_file
  read-move from to files not_from not_to = moved (read_file from files)
    where
      moved :
          (found : Option String)
          → read_file q (elim found [
            | none ↦ files
            | some contents ↦ write_file to contents (unlink from files)
          ])
            ≡ read_file q files
      moved none = refl
      moved (some contents) =
          read-write to contents (unlink from files) not_to ∙ read-unlink from files not_from

find-inserted :
    (bound : String) (row : ContentRow) (rows : List ContentRow) {found : ContentRow}
    → select_one (at_content bound) rows ≡ some found
    → select_one (at_content bound) (insert row rows) ≡ some found
find-inserted bound row rows {found} h =
    ground (arith, select_one-insert (at_content bound) row rows)

-- The row of an id, and the ciphertext in its file.
pub record IsBound (rt : Runtime) (bound : String) (row : ContentRow) (ciphertext : String)
    (s : Content) : Type 0 where
  pub is_row : find_row bound s ≡ some row
  pub is_file : read_file (content_path rt bound) s.files ≡ some ciphertext

module _ (rt : Runtime) (now : ℕ) (token : String) (content : Json) (bound : String)
    (row : ContentRow) (ciphertext : String) where
  abbrev id : String
  id = text (get content "content_id")

  abbrev tmp : String
  tmp = temporary_path (content_path rt id) token

  abbrev Kept : Content → Type 0
  Kept s = IsBound rt bound row ciphertext s

  module _ (hidden : (tmp == content_path rt bound) ≡ false) where
    finish-Kept :
        (s : Content)
        → (content_path rt id == content_path rt bound) ≡ false
        → Kept s
        → Kept (finish_put rt now tmp content s).1
    unfolding finish_put ◌>>=◌ insert_content lost_race
    finish-Kept s elsewhere k = elim (Option-cases (find_row id s)) [
      | inl e ↦ rw e (record {
        is_row = find-inserted bound (content_row rt now content) s.rows k.is_row;
        is_file =
            read-move (content_path rt bound) tmp (content_path rt id) s.files hidden elsewhere
            ∙ k.is_file;
      })
      | inr (other, e) ↦ rw e (record {
        is_row = k.is_row;
        is_file = read-unlink (content_path rt bound) tmp s.files hidden ∙ k.is_file;
      })
    ]

    place-Kept :
        (others : Content → Content) (s : Content)
        → ((t : Content) → Kept t → Kept (others t))
        → ((id == bound) ≡ false → (content_path rt id == content_path rt bound) ≡ false)
        → Kept s
        → Kept (place rt now token others content s).1
    unfolding place ◌>>=◌
    place-Kept others s keeps apart k = elim (Option-cases (find_row id s)) [
      | inl e ↦ rw e (
          finish-Kept _ (apart (another e)) (
            keeps _ (record {
              is_row = k.is_row;
              is_file =
                  read-write (content_path rt bound) tmp (text (get content "ciphertext_armored"))
                    s.files hidden
                  ∙ k.is_file;
            })))
      | inr (other, e) ↦ rw e k
    ]
      where
        another : find_row id s ≡ none → (id == bound) ≡ false
        another e = elim (Bool-cases (id == bound)) [
          | inr differs ↦ differs
          | inl same ↦ ground (arith, e, k.is_row, (eq_iff id bound).0 same)
        ]

  -- A content that is bound to an id stays bound to it whatever is uploaded, under this id or another one:
  -- its row and the ciphertext in its file are the same after any `put`, the refused ones included.
  -- What other writers do meanwhile is to keep them too; the paths of two ids are to be different, and
  -- the temporary file is not to have the path of this content.
  pub put-IsBound :
      (others : Content → Content)
      → ((t : Content)
          → IsBound rt bound row ciphertext t
          → IsBound rt bound row ciphertext (others t))
      → (content_path rt (text (get content "content_id")) ≡ content_path rt bound
          → text (get content "content_id") ≡ bound)
      → (temporary_path (content_path rt (text (get content "content_id"))) token
          == content_path rt bound)
        ≡ false
      → (s : Content) → IsBound rt bound row ciphertext s
      → IsBound rt bound row ciphertext (put rt now token others content s).1
  unfolding put
  put-IsBound others keeps no_collision hidden s k = lift-keeps Kept _ _ s k (λ valid.
      lift-keeps Kept _ _ s k
        (λ over. lift-keeps Kept _ _ s k (λ fresh. place-Kept hidden others s keeps apart k)))
    where
      apart : (id == bound) ≡ false → (content_path rt id == content_path rt bound) ≡ false
      apart differs = elim (Bool-cases (content_path rt id == content_path rt bound)) [
        | inr elsewhere ↦ elsewhere
        | inl same ↦ ground (
          arith,
          differs,
          eq_iff id bound,
          no_collision ((eq_iff (content_path rt id) (content_path rt bound)).0 same),
        )
      ]
