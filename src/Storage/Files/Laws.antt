-- ===== src/Storage/Files/Laws.antt =====
-- What is found in a file after a dict was written to it.
use endpoint_protocol.Prelude.{
  String, ◌≡◌, refl, sym, ap, ◌∙◌, not, true, some, none, [], ◌∷◌, ◌++◌, ◌==◌, eq_iff, eq_refl,
  if◌then◌else◌, arith, Bool-cases, inl, inr,
}
use mathlib.Core.Path.{subst}
use endpoint_protocol.Errors.{Result, ok}
use endpoint_protocol.Errors.Laws.{bind-inv, then-inv, ok-inj}
use endpoint_protocol.Runtime.{Runtime}
use endpoint_protocol.Dict.{Dict, lookup}
use endpoint_protocol.Dict.Laws.{lookup-saved}
use endpoint_protocol.Storage.Files.{is_there, normal_items, save_dict}

some-inj : {A : Type 0} {a b : A} → some a ≡ some b → a ≡ b
some-inj h = cc

lookup-last :
    {V : Type 0} (j k : String) (w : V) (d : Dict V)
    → lookup j (d ++ (k, w) ∷ [])
      ≡ elim (lookup j d) [ some v ↦ some v | none ↦ if k == j then some w else none ]
unfolding lookup
lookup-last j k w [] = refl
lookup-last j k w ((i, v) ∷ d) = ground (arith, lookup-last j k w d)

module _ (rt : Runtime) {V : Type 0} (stored : V → Result V) where
  -- What is in the dict stays there.
  normal_items-keeps :
      (d out : Dict V) {n : Dict V} (j : String) (w : V)
      → normal_items rt stored d out ≡ ok n
      → lookup j out ≡ some w
      → lookup j n ≡ some w
  unfolding normal_items
  normal_items-keeps [] out j w h at = ap (lookup j) (sym (ok-inj h)) ∙ at
  normal_items-keeps ((k, v) ∷ d) out j w h at =
      let (_, h1) = then-inv (not (is_there (lookup (rt.nfc k) out))) _ _ h in
      let (x, _, h2) = bind-inv (stored v) _ h1 in
      normal_items-keeps d (out ++ (rt.nfc k, x) ∷ []) j w h2
        (lookup-last j (rt.nfc k) x out ∙ rw at refl)

  found_last :
      (k : String) (w : V) (out : Dict V)
      → not (is_there (lookup k out)) ≡ true
      → lookup k (out ++ (k, w) ∷ []) ≡ some w
  found_last k w out fresh = ground (arith, lookup-last k k w out, eq_refl k)

  normal_items-finds :
      (d out : Dict V) {n : Dict V} (k : String) (v : V)
      → normal_items rt stored d out ≡ ok n
      → lookup k d ≡ some v
      → (w : V) × (stored v ≡ ok w) × (lookup (rt.nfc k) n ≡ some w)
  unfolding normal_items lookup
  normal_items-finds [] out k v h at = absurd (ground (arith, at))
  normal_items-finds ((j, u) ∷ d) out k v h at =
      let (fresh, h1) = then-inv (not (is_there (lookup (rt.nfc j) out))) _ _ h in
      let (x, is_x, h2) = bind-inv (stored u) _ h1 in
      let grown = out ++ (rt.nfc j, x) ∷ [] in
      elim (Bool-cases (j == k)) [
        | inr other ↦ normal_items-finds d grown k v h2 (rw other at at)
        | inl same ↦
            let e : u ≡ v = some-inj (rw same at at) in
            let s : j ≡ k = (eq_iff j k).0 same in
            (
              x,
              subst (λ v. stored v ≡ ok x) e is_x,
              normal_items-keeps d grown (rt.nfc k) x h2 (
                  subst (λ k. lookup (rt.nfc k) grown ≡ some x) s
                    (found_last (rt.nfc j) x out fresh)),
            )
      ]

  -- What is written under a key is found under the key's normal form, in its stored form.
  pub save_dict-finds :
      (d : Dict V) {n : Dict V} (k : String) (v : V)
      → save_dict rt stored d ≡ ok n
      → lookup k d ≡ some v
      → (w : V) × (stored v ≡ ok w) × (lookup (rt.nfc k) n ≡ some w)
  unfolding save_dict
  save_dict-finds d k v h at =
      let (out, is_out, h1) = bind-inv (normal_items rt stored d []) _ h in
      let (w, is_w, found) = normal_items-finds d [] k v is_out at in
      (w, is_w, ap (lookup (rt.nfc k)) (sym (ok-inj h1)) ∙ lookup-saved (rt.nfc k) out ∙ found)
