-- ===== src/Exec/Laws.antt =====
-- Chains of methods: what a check in front of a method leaves of it.
use endpoint_protocol.Prelude.{◌≡◌, refl, ap}
use endpoint_protocol.Errors.{Result, ok, err, err≢ok}
use endpoint_protocol.Exec.{Exec, pure, proceed, lift, gets, modify, written, update, ◌>>=◌, ◌>>◌}

module _ {S A B : Type 0} where
  -- A property of the state holds behind a check if it holds before, and behind what follows.
  pub lift-keeps :
      (P : S → Type 0) (r : Result A) (f : A → Exec S B) (s : S)
      → P s
      → ((a : A) → P (f a s).1)
      → P ((lift r >>= f) s).1
  unfolding ◌>>=◌
  lift-keeps P (ok a) f s before after = after a
  lift-keeps P (err e) f s before after = before

  proceed-keeps :
      (P : S → Type 0) (f : A → Exec S B) (r : Result A) (u : S)
      → P u
      → ((a : A) → P u → P (f a u).1)
      → P (proceed f r u).1
  proceed-keeps P f (ok a) u first next = next a first
  proceed-keeps P f (err e) u first next = first

  -- A property of the state that holds behind a method and that what follows keeps.
  pub exec-keeps :
      (P : S → Type 0) (m : Exec S A) (f : A → Exec S B) (s : S)
      → P (m s).1
      → ((a : A) → P (m s).1 → P (f a (m s).1).1)
      → P ((m >>= f) s).1
  unfolding ◌>>=◌
  exec-keeps P m f s first next = proceed-keeps P f (m s).0 (m s).1 first next

  pub gets-keeps :
      (P : S → Type 0) (g : S → A) (f : A → Exec S B) (s : S)
      → P (f (g s) s).1
      → P ((gets g >>= f) s).1
  unfolding ◌>>=◌
  gets-keeps P g f s next = next

  -- What returns has passed its check.
  pub lift-inv :
      (r : Result A) (f : A → Exec S B) (s : S) {b : B} {t : S}
      → (lift r >>= f) s ≡ (ok b, t)
      → (a : A) × (r ≡ ok a) × (f a s ≡ (ok b, t))
  unfolding ◌>>=◌
  lift-inv (ok a) f s h = (a, refl, h)
  lift-inv (err e) f s h = absurd (err≢ok (ap (λ x. x.0) h))

  proceed-inv :
      (f : A → Exec S B) (r : Result A) (u : S) {b : B} {t : S}
      → proceed f r u ≡ (ok b, t)
      → (a : A) × (r ≡ ok a) × (f a u ≡ (ok b, t))
  proceed-inv f (ok a) u h = (a, refl, h)
  proceed-inv f (err e) u h = absurd (err≢ok (ap (λ x. x.0) h))

  -- What returns has run its first method to the end.
  pub exec-inv :
      (m : Exec S A) (f : A → Exec S B) (s : S) {b : B} {t : S}
      → (m >>= f) s ≡ (ok b, t)
      → (a : A) × ((m s).0 ≡ ok a) × (f a (m s).1 ≡ (ok b, t))
  unfolding ◌>>=◌
  exec-inv m f s h = proceed-inv f (m s).0 (m s).1 h

  -- The same for long chains, with what follows as a function of what was found: its variables stay
  -- variables.
  pub lift-case :
      {R : Type 0} (r : Result A) (f : A → Exec S B) (s : S) {b : B} {t : S}
      → (lift r >>= f) s ≡ (ok b, t)
      → ((a : A) → r ≡ ok a → f a s ≡ (ok b, t) → R)
      → R
  lift-case r f s h next = let (a, is_a, rest) = lift-inv r f s h in next a is_a rest

  pub exec-case :
      {R : Type 0} (m : Exec S A) (f : A → Exec S B) (s : S) {b : B} {t : S}
      → (m >>= f) s ≡ (ok b, t)
      → ((a : A) (u : S) → m s ≡ (ok a, u) → f a u ≡ (ok b, t) → R)
      → R
  exec-case m f s h next =
      let (a, is_a, rest) = exec-inv m f s h in next a (m s).1 (ap (λ r. (r, (m s).1)) is_a) rest

  pub gets-inv :
      (g : S → A) (f : A → Exec S B) (s : S) {b : B} {t : S}
      → (gets g >>= f) s ≡ (ok b, t)
      → f (g s) s ≡ (ok b, t)
  unfolding ◌>>=◌
  gets-inv g f s h = h

  -- A check that passes may be left out.
  pub lift-ok :
      (r : Result A) (f : A → Exec S B) (s : S) {a : A} → r ≡ ok a → (lift r >>= f) s ≡ f a s
  unfolding ◌>>=◌
  lift-ok r f s h = rw h refl

written-inv :
    {S : Type 0} (s : S) (r : Result S) {u : Unit {0}} {t : S} → written s r ≡ (ok u, t) → r ≡ ok t
written-inv s (ok t) h = ap (λ x. ok x.1) h
written-inv s (err e) h = absurd (err≢ok (ap (λ x. x.0) h))

-- What was updated was written.
pub update-inv :
    {S : Type 0} (f : S → Result S) (s : S) {u : Unit {0}} {t : S}
    → update f s ≡ (ok u, t)
    → f s ≡ ok t
unfolding update
update-inv f s h = written-inv s (f s) h

-- A property of the state that what is written has.
pub update-property :
    {S : Type 0} (P : S → Type 0) (f : S → Result S) (s : S)
    → P s
    → ((t : S) → f s ≡ ok t → P t)
    → P (update f s).1
unfolding update
update-property {S} P f s before after = both (f s) after
  where
    both : (r : Result S) → ((t : S) → r ≡ ok t → P t) → P (written s r).1
    both (ok t) after = after t refl
    both (err e) after = before

module _ {S B : Type 0} where
  pub modify-keeps :
      (P : S → Type 0) (g : S → S) (f : Unit {0} → Exec S B) (s : S)
      → P (f tt (g s)).1
      → P ((modify g >>= f) s).1
  unfolding ◌>>=◌
  modify-keeps P g f s next = next

  pub pure-keeps :
      (P : S → Type 0) (next : Exec S B) (s : S) → P (next s).1 → P ((pure tt >> next) s).1
  unfolding ◌>>=◌
  pure-keeps P next s after = after

  pub modify-inv :
      (g : S → S) (f : Unit {0} → Exec S B) (s : S) {r : Result B × S}
      → (modify g >>= f) s ≡ r
      → f tt (g s) ≡ r
  unfolding ◌>>=◌
  modify-inv g f s h = h
