-- ===== src/Errors/Laws.antt =====
-- Chains of checks: what a chain that returns has passed.
use endpoint_protocol.Prelude.{arith, ◌≡◌, refl, ap, ◌∙◌, Bool, true, false}
use endpoint_protocol.Errors.{EndpointError, Result, ok, err, err≢ok, require_error, ◌>>=◌, ◌>>◌}

module _ {A B : Type 0} where
  pub bind-inv :
      (r : Result A) (f : A → Result B) {b : B}
      → (r >>= f) ≡ ok b
      → (a : A) × (r ≡ ok a) × (f a ≡ ok b)
  bind-inv (ok a) f h = (a, refl, h)
  bind-inv (err e) f h = absurd (err≢ok h)

pub require_error-inv :
    (condition : Bool) (e : EndpointError) → require_error condition e ≡ ok tt → condition ≡ true
require_error-inv true e h = refl
require_error-inv false e h = absurd (err≢ok h)

-- What stands behind a condition.
pub then-inv :
    {B : Type 0} (condition : Bool) (e : EndpointError) (r : Result B) {b : B}
    → (require_error condition e >> r) ≡ ok b
    → (condition ≡ true) × (r ≡ ok b)
then-inv true e r h = (refl, h)
then-inv false e r h = absurd (err≢ok h)

pub ok-inj : {A : Type 0} {a b : A} → ok a ≡ ok b → a ≡ b
ok-inj h = ground arith

-- The same for long chains, with what follows as a function of what was found.
pub bind-case :
    {A B R : Type 0} (r : Result A) (f : A → Result B) {b : B}
    → (r >>= f) ≡ ok b
    → ((a : A) → r ≡ ok a → f a ≡ ok b → R)
    → R
bind-case r f h next = let (a, is_a, rest) = bind-inv r f h in next a is_a rest

pub then-case :
    {B R : Type 0} (condition : Bool) (e : EndpointError) (r : Result B) {b : B}
    → (require_error condition e >> r) ≡ ok b
    → (condition ≡ true → r ≡ ok b → R)
    → R
then-case condition e r h next = let (holds, rest) = then-inv condition e r h in next holds rest

-- The other way: what a chain comes to whose checks pass.
pub bind-ok :
    {A B : Type 0} {r : Result A} (f : A → Result B) {a : A} {x : Result B}
    → r ≡ ok a
    → f a ≡ x
    → (r >>= f) ≡ x
bind-ok f is_a rest = ap (λ r. r >>= f) is_a ∙ rest

pub then-ok :
    {B : Type 0} {condition : Bool} (e : EndpointError) {r x : Result B}
    → condition ≡ true
    → r ≡ x
    → (require_error condition e >> r) ≡ x
then-ok e {r} holds rest = ap (λ c. require_error c e >> r) holds ∙ rest
