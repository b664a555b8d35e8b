-- ===== src/Storage/Client/Laws.antt =====
-- What the client remembers of the messages that it has processed.
use endpoint_protocol.Prelude.{
  String, ◌≡◌, refl, sym, ap, map, true, true≢false, eq_refl, Bool-cases, inl, inr, ◌||◌, List, [],
  ◌∷◌, ◌++◌, ◌==◌, eq_iff, arith,
}
use endpoint_protocol.Runtime.{Runtime}
use endpoint_protocol.Transport.Policy.{contains}
use mathlib.Core.Path.{subst}
use endpoint_protocol.Storage.Client.{ClientState, append_new, has_processed, mark_processed}

contains-append :
    (x y : String) (l : List String) → contains x (l ++ y ∷ []) ≡ (contains x l || y == x)
unfolding contains
contains-append x y [] = ground arith
contains-append x y (z ∷ l) = ground (arith, contains-append x y l)

pub contains-append_new :
    (x y : String) (l : List String) → contains x (append_new y l) ≡ (contains x l || y == x)
unfolding append_new
contains-append_new x y l = ground (arith, contains-append x y l, eq_iff y x)

contains-map :
    (f : String → String) (x : String) (l : List String)
    → contains x l ≡ true
    → contains (f x) (map f l) ≡ true
unfolding contains
contains-map f x [] h = h
contains-map f x (y ∷ l) h = elim (Bool-cases (y == x)) [
  | inl same ↦ let e : y ≡ x = (eq_iff y x).0 same in rw (e, eq_refl (f x)) refl
  | inr other ↦ ground (arith, contains-map f x l (rw other at h))
]

map-append :
    (f : String → String) (l : List String) (x : String) → map f (l ++ x ∷ []) ≡ map f l ++ f x ∷ []
map-append f [] x = refl
map-append f (y ∷ l) x = ap (λ r. f y ∷ r) (map-append f l x)

-- What Python documents of NFC: what is in NFC stays as it is.
abbrev pub Idempotent : Runtime → Type 0
Idempotent rt = (s : String) → rt.nfc (rt.nfc s) ≡ rt.nfc s

module _ (rt : Runtime) where
  -- Texts in NFC.
  abbrev pub AllNormal : List String → Type 0
  AllNormal [] = Unit {0}
  AllNormal (x ∷ l) = (rt.nfc x ≡ x) × AllNormal l

  map-AllNormal : (l : List String) → AllNormal l → map rt.nfc l ≡ l
  map-AllNormal [] normal = refl
  map-AllNormal (x ∷ l) (first, rest) = λ i. first i ∷ map-AllNormal l rest i

  pub AllNormal-map : Idempotent rt → (l : List String) → AllNormal (map rt.nfc l)
  AllNormal-map law [] = tt
  AllNormal-map law (x ∷ l) = (law x, AllNormal-map law l)

  AllNormal-member :
      (x : String) (l : List String) → AllNormal l → contains x l ≡ true → rt.nfc x ≡ x
  unfolding contains
  AllNormal-member x [] normal h = absurd (true≢false (sym h))
  AllNormal-member x (y ∷ l) (first, rest) h = elim (Bool-cases (y == x)) [
    | inl same ↦ subst (λ z. rt.nfc z ≡ z) ((eq_iff y x).0 same) first
    | inr other ↦ AllNormal-member x l rest (rw other at h)
  ]

  -- The normal form of an id that is marked counts as processed.
  pub has_processed-mark_processed :
      (message_id : String) (s : ClientState)
      → has_processed (rt.nfc message_id) (mark_processed rt message_id s) ≡ true
  unfolding has_processed mark_processed
  has_processed-mark_processed message_id s =
      contains-map rt.nfc message_id (append_new message_id s.processed_messages) (
        ground (
          arith,
          contains-append_new message_id message_id s.processed_messages,
          eq_refl message_id,
        ))

  -- The ids of a file, which are in NFC, behind one more.
  pub contains-processed :
      (x message_id : String) (l : List String)
      → AllNormal l
      → contains x (map rt.nfc (append_new message_id l)) ≡ (contains x l || rt.nfc message_id == x)
  unfolding append_new
  contains-processed x message_id l normal = elim (Bool-cases (contains message_id l)) [
    | inl old ↦
        let same : rt.nfc message_id ≡ message_id = AllNormal-member message_id l normal old in
        rw (old, map-AllNormal l normal, same) (ground (arith, eq_iff message_id x, old))
    | inr new ↦
        rw (new, map-append rt.nfc l message_id, map-AllNormal l normal)
          (contains-append x (rt.nfc message_id) l)
  ]
