-- ===== src/Protocol/Strict.antt =====
-- `parse_json_strict` of endpoint/protocol.py: what it returns is what the text says.
use endpoint_protocol.Prelude.{
  String, List, ◌⊎◌, ◌≡◌, refl, sym, ap, ◌∙◌, Bool, true, false, not, ◌&&◌, ◌||◌, ◌==◌, eq_iff,
  arith, Bool-cases, inl, inr,
}
use endpoint_protocol.Json.{
  Json, Items, Fields, null, bool, int, float, str, arr, obj, nil, cons, end, field,
}
use endpoint_protocol.Errors.{ok, err≢ok}
use endpoint_protocol.Errors.Laws.{bind-inv, ok-inj}
use endpoint_protocol.Runtime.{Runtime, Loaded, bad_json, loaded}
use endpoint_protocol.Protocol.Canonical.{
  has_key, snoc, strict_pairs, strict, strict_items, strict_fields, strict_closed,
  parse_json_strict,
}

-- No object has a key twice, at any depth.
unfoldable mutual
  unfolding has_key

  pub unique : Json → Bool
  unique (arr xs) = unique_items xs
  unique (obj fs) = unique_fields fs
  unique v = true

  pub unique_items : Items → Bool
  unique_items nil = true
  unique_items (cons x xs) = unique x && unique_items xs

  pub unique_fields : Fields → Bool
  unique_fields end = true
  unique_fields (field k v fs) = not (has_key k fs) && (unique v && unique_fields fs)

abbrev distinct : Fields → Bool
distinct end = true
distinct (field k v fs) = not (has_key k fs) && distinct fs

abbrev append : Fields → Fields → Fields
append end gs = gs
append (field k v fs) gs = field k v (append fs gs)

abbrev disjoint : Fields → Fields → Bool
disjoint end out = true
disjoint (field k v fs) out = not (has_key k out) && disjoint fs out

append-snoc :
    (out : Fields) (k : String) (v : Json) (fs : Fields)
    → append (snoc out k v) fs ≡ append out (field k v fs)
unfolding snoc
append-snoc end k v fs = refl
append-snoc (field j w out) k v fs = ap (field j w) (append-snoc out k v fs)

has_key-snoc :
    (j : String) (out : Fields) (k : String) (v : Json)
    → has_key j (snoc out k v) ≡ (has_key j out || k == j)
unfolding has_key snoc
has_key-snoc j end k v = ground arith
has_key-snoc j (field i w out) k v = ground (arith, has_key-snoc j out k v)

disjoint-snoc :
    (fs out : Fields) (k : String) (v : Json)
    → disjoint fs (snoc out k v) ≡ true
    → (disjoint fs out ≡ true) × (has_key k fs ≡ false)
unfolding has_key
disjoint-snoc end out k v h = (refl, refl)
disjoint-snoc (field j w fs) out k v h =
    ground (arith, has_key-snoc j out k v, disjoint-snoc fs out k v, eq_iff k j, eq_iff j k)

pairs-inv :
    (fs out : Fields) {r : Fields}
    → strict_pairs fs out ≡ ok r
    → (append out fs ≡ r) × (distinct fs ≡ true) × (disjoint fs out ≡ true)
unfolding strict_pairs
pairs-inv end out {r} h = (append_end out ∙ ok-inj h, refl, refl)
  where
    append_end : (out : Fields) → append out end ≡ out
    append_end end = refl
    append_end (field k v fs) = ap (field k v) (append_end fs)
pairs-inv (field k v fs) out {r} h = elim (Bool-cases (has_key k out)) [
  | inl taken ↦ ground (arith, taken)
  | inr free ↦
      let (same_fields, apart, away) =
        pairs-inv fs (snoc out k v) {r = r} (rw (free, strict_pairs) at h) in
      let (clear, last) = disjoint-snoc fs out k v away in
      (
        sym (append-snoc out k v fs) ∙ same_fields,
        ground (arith, apart, last),
        ground (arith, free, clear),
      )
]

distinct_unique :
    (k : String) (fs : Fields) {u rest : Bool}
    → u ≡ true
    → (distinct fs ≡ true → rest ≡ true)
    → (not (has_key k fs) && distinct fs) ≡ true
    → (not (has_key k fs) && (u && rest)) ≡ true
distinct_unique k fs {u} {rest} is_u is_rest d = ground arith

mutual
  unfolding strict unique

  strict-inv : (v : Json) {w : Json} → strict v ≡ ok w → (v ≡ w) × (unique v ≡ true)
  strict-inv null {w} h = (ok-inj h, refl)
  strict-inv (bool b) {w} h = (ok-inj h, refl)
  strict-inv (int z) {w} h = (ok-inj h, refl)
  strict-inv (float s) {w} h = (ok-inj h, refl)
  strict-inv (str s) {w} h = (ok-inj h, refl)
  strict-inv (arr xs) {w} h =
      let (ys, is_ys, h1) = bind-inv (strict_items xs) _ h in
      let (e, u) = items-inv xs is_ys in (ap arr e ∙ ok-inj h1, u)
  strict-inv (obj fs) {w} h =
      let (gs, is_gs, h1) = bind-inv (strict_fields fs) _ h in
      let (out, is_out, h2) = bind-inv (strict_pairs gs end) _ h1 in
      let (e, u) = fields-inv fs is_gs in
      let (e2, apart, away) = pairs-inv gs end is_out in
      (ap obj (e ∙ e2) ∙ ok-inj h2, u (rw e apart))

  items-inv :
      (xs : Items) {ys : Items} → strict_items xs ≡ ok ys → (xs ≡ ys) × (unique_items xs ≡ true)
  items-inv nil {ys} h = (ok-inj h, refl)
  items-inv (cons x xs) {ys} h =
      let (y, is_y, h1) = bind-inv (strict x) _ h in
      let (zs, is_zs, h2) = bind-inv (strict_items xs) _ h1 in
      let (e, u) = strict-inv x is_y in
      let (e2, u2) = items-inv xs is_zs in (rw (e, e2) (ok-inj h2), ground (arith, u, u2))

  fields-inv :
      (fs : Fields) {gs : Fields}
      → strict_fields fs ≡ ok gs
      → (fs ≡ gs) × (distinct fs ≡ true → unique_fields fs ≡ true)
  fields-inv end {gs} h = (ok-inj h, λ d. refl)
  fields-inv (field k v fs) {gs} h =
      let (w, is_w, h1) = bind-inv (strict v) _ h in
      let (hs, is_hs, h2) = bind-inv (strict_fields fs) _ h1 in
      let (e, u) = strict-inv v is_w in
      let (e2, u2) = fields-inv fs is_hs in
      (rw (e, e2) (ok-inj h2), λ d. distinct_unique k fs u u2 d)

-- What `parse_json_strict` returns is the value of the text, unchanged, and no object in it has a key
-- twice, at any depth.
pub parse_json_strict-unique :
    (rt : Runtime) (data_text : String) (w : Json)
    → parse_json_strict rt data_text ≡ ok w
    → (rt.loads data_text ≡ loaded w) × (unique w ≡ true)
unfolding parse_json_strict
parse_json_strict-unique rt data_text w h = elim (Loaded-cases (rt.loads data_text)) [
  | inl (v, e) ↦
      let (is_w, u) = strict-inv v (rw (e, parse_json_strict) at h) in
      (e ∙ ap loaded is_w, rw (← is_w) u)
  | inr (closed, what, e) ↦
      absurd (err≢ok (bind-inv (strict_closed closed) _ (rw (e, parse_json_strict) at h)).2)
]
  where
    Loaded-cases :
        (l : Loaded)
        → ((v : Json) × (l ≡ loaded v))
          ⊎ ((closed : List Fields) × (what : String) × (l ≡ bad_json closed what))
    Loaded-cases (loaded v) = inl (v, refl)
    Loaded-cases (bad_json closed what) = inr (closed, what, refl)
