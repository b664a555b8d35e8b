-- ===== src/Exec.antt =====
-- The methods of the stores and the handlers of the server: a state goes in, and a result comes out with
-- the state that is left, also where the result is a failure.
pub mod Laws
use endpoint_protocol.Errors.{EndpointError, Result, ok, err, raised}

abbrev pub Exec : Type 0 → Type 0 → Type 0
Exec S A = S → Result A × S

module _ {S A : Type 0} where
  unfoldable pub pure : A → Exec S A
  pure a s = (ok a, s)

  unfoldable pub lift : Result A → Exec S A
  lift r s = (r, s)

  unfoldable pub fail : EndpointError → Exec S A
  fail e s = (err (raised e), s)

  unfoldable pub gets : (S → A) → Exec S A
  gets f s = (ok (f s), s)

unfoldable pub modify : {S : Type 0} → (S → S) → Exec S (Unit {0})
modify f s = (ok tt, f s)

-- What writes a file or raises an exception before it is written.
abbrev pub written : {S : Type 0} → S → Result S → Result (Unit {0}) × S
written s (ok t) = (ok tt, t)
written s (err e) = (err e, s)

unfoldable pub update : {S : Type 0} → (S → Result S) → Exec S (Unit {0})
update f s = written s (f s)

module _ {S A B : Type 0} where
  abbrev proceed : (A → Exec S B) → Result A → Exec S B
  proceed next (ok a) left = next a left
  proceed next (err e) left = (err e, left)

  infixl 5 ◌>>=◌ ◌>>◌
  -- Opening this opens the actions above too.
  unfoldable pub ◌>>=◌ : Exec S A → (A → Exec S B) → Exec S B
  unfolding pure lift fail gets modify update
  ◌>>=◌ m f s = proceed f (m s).0 (m s).1

  abbrev pub ◌>>◌ : Exec S A → Exec S B → Exec S B
  m >> n = m >>= λ _. n
