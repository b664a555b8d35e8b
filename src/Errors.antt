-- ===== src/Errors.antt =====
-- endpoint/errors.py, and the result of code that may raise.
pub mod Laws
use Prim.Native.Nat.{ℕ}
use endpoint_protocol.Prelude.{
  ◌≢◌, arith, String, ◌≡◌, ◌⊎◌, inl, inr, Bool, true, false, not, ◌&&◌, Option, none, some, refl,
  ◌==◌,
}
use endpoint_protocol.Json.{Json, Fields, null, str, obj, end, field}

pub record EndpointError : Type 0 where
  pub code : String
  pub message : String
  pub status_code : ℕ
  pub detail : Option String
  pub hint : Option String

-- `EndpointError(code, message)` with the defaults of the other fields.
abbrev pub plain_error : String → String → EndpointError
plain_error code message = record {
  code = code;
  message = message;
  status_code = 400;
  detail = none;
  hint = none;
}

abbrev pub status_error : String → String → ℕ → EndpointError
status_error code message status = record (plain_error code message) { status_code = status }

abbrev pub detail_error : String → String → Option String → EndpointError
detail_error code message detail = record (plain_error code message) { detail = detail }

-- What leaves a call that does not return: an `EndpointError`, or another Python exception, which
-- no handler of the program catches.
pub data Failure : Type 0 where
  raised : EndpointError → Failure
  crash : String → Failure

pub data Result {ℓ} (A : Type ℓ) : Type ℓ where
  ok : A → Result A
  err : Failure → Result A

abbrev pub raise {ℓ} : {A : Type ℓ} → EndpointError → Result A
raise e = err (raised e)

-- What follows a call runs only if the call returns.
module _ {ℓ κ} {A : Type ℓ} {B : Type κ} where
  infixl 5 ◌>>=◌
  abbrev pub ◌>>=◌ : Result A → (A → Result B) → Result B
  (ok value) >>= next = next value
  (err failure) >>= next = err failure

infixl 5 ◌>>◌
abbrev pub ◌>>◌ {ℓ} : {C : Type ℓ} → Result (Unit {0}) → Result C → Result C
check >> rest = check >>= λ passed. rest

-- `require(condition, …)`, over the error that it raises.
abbrev pub require_error : Bool → EndpointError → Result (Unit {0})
require_error true e = ok tt
require_error false e = err (raised e)

abbrev pub require : Bool → String → String → Result (Unit {0})
require condition code message = require_error condition (plain_error code message)

abbrev pub require_status : Bool → String → String → ℕ → Result (Unit {0})
require_status condition code message status =
    require_error condition (status_error code message status)

-- `try: … except EndpointError as exc: raise f(exc)`; other exceptions pass.
abbrev pub rethrow {ℓ} : {A : Type ℓ} → (EndpointError → EndpointError) → Result A → Result A
rethrow f (ok a) = ok a
rethrow f (err (raised e)) = err (raised (f e))
rethrow f (err (crash what)) = err (crash what)

-- Python's truth of an optional text.
abbrev truthy : Option String → Bool
truthy none = false
truthy (some s) = not (s == "")

abbrev text_of : Option String → Json
text_of none = null
text_of (some s) = str s

abbrev optional_field : Bool → String → Option String → Fields → Fields
optional_field true k v fs = field k (text_of v) fs
optional_field false k v fs = fs

-- `EndpointError.safe_body`
unfoldable pub safe_body : EndpointError → Bool → Json
safe_body e debug =
    let rest = optional_field (debug && truthy e.detail) "detail" e.detail end in
    let error =
      field "code" (str e.code)
        (field "message" (str e.message) (optional_field (truthy e.hint) "hint" e.hint rest)) in
    obj (field "protocol_version" (str "endpoint-poc-2") (field "error" (obj error) end))

-- Without `debug` the answer to a client does not depend on the detail of the error.
pub safe_body-detail :
    (e : EndpointError) (detail : Option String)
    → safe_body (record e { detail = detail }) false ≡ safe_body e false
unfolding safe_body
safe_body-detail e detail = refl

pub Result-cases {ℓ} :
    {A : Type ℓ} (r : Result A) → ((a : A) × (r ≡ ok a)) ⊎ ((e : Failure) × (r ≡ err e))
Result-cases (ok a) = inl (a, refl)
Result-cases (err e) = inr (e, refl)

pub err≢ok {ℓ} : {A : Type ℓ} {e : Failure} {a : A} → err e ≢ ok a
err≢ok h = ground arith
