-- ===== src/Session.antt =====
-- crates/icloud-api/src/session.rs: which error an answer of iCloud is. A JSON value is of a type `V` as in
-- TwoFactor, and what `reqwest` calls a status is a parameter.
pub mod SignIn
mod Tests
use icloud_linux.Prelude.{
  ℕ, Bool, true, false, not, ◌&&◌, ◌||◌, List, [], ◌∷◌, ◌++◌, Option, none, some, Text, codes,
  is_empty, leb, ltb, ◌==◌, nat_eq, text_eq, if◌then◌else◌,
}
use icloud_linux.Prelude.Decimal.{digits}
use icloud_linux.TwoFactor.{Json, is_some, then_maybe, or_some, or_value}

-- `Error` of crates/icloud-api/src/error.rs.
pub data Error : Type 0 where
  http : Error
  io : Error
  json_error : Error
  status_error : ℕ → Text → Error
  api : Option Text → Text → Error
  two_factor_required : Error
  auth_required : Text → Error
  login_failed : Text → Error
  not_activated : Text → Error
  protocol : Text → Error
  no_trusted_phone : Error
  wrong_code : Error

unfoldable pub is_auth : Error → Bool
is_auth http = false
is_auth io = false
is_auth json_error = false
is_auth (status_error n reason) = false
is_auth (api code reason) = false
is_auth two_factor_required = true
is_auth (auth_required why) = true
is_auth (login_failed why) = true
is_auth (not_activated why) = false
is_auth (protocol why) = false
is_auth no_trusted_phone = false
is_auth wrong_code = false

-- `body` is what `json()` makes of the body.
pub record ApiResponse (V : Type 0) : Type 0 where
  pub status : ℕ
  pub is_json : Bool
  pub is_empty_body : Bool
  pub body : Option V

abbrev pub missing_cookie : Text
missing_cookie = codes "Missing X-APPLE-WEBAUTH-TOKEN cookie"

abbrev error_of_code : Text → Text → Error
error_of_code code reason =
    if code == codes "ZONE_NOT_FOUND" || code == codes "AUTHENTICATION_FAILED"
    then not_activated (codes "log into https://icloud.com/ once to finish setting up the service")
    else if code == codes "ACCESS_DENIED"
    then api (some code) (
        reason
        ++ codes ". Wait a few minutes and try again: the servers may be throttling requests")
    else if code == codes "409" || code == codes "450" || code == codes "421" || code == codes "500"
    then api (some code) (codes "Authentication required for Account.")
    else api (some code) reason

abbrev error_with : Option Text → Text → Error
error_with none reason = api none reason
error_with (some code) reason = error_of_code code reason

unfoldable pub make_api_error : Option Text → Text → Error
make_api_error code reason =
    if reason == missing_cookie then auth_required reason else error_with code reason

abbrev is_success : ℕ → Bool
is_success n = leb 200 n && ltb n 300

-- `shown` is `to_string` of a value, `is_zero` tells a number that is 0, and `phrase` is the
-- canonical reason of a status.
module _ {V : Type 0} (json : Json V) (shown : V → Text) (is_zero : V → Bool)
    (phrase : ℕ → Text) where
  abbrev is_false : Option Bool → Bool
  is_false none = false
  is_false (some b) = not b

  abbrev is_blank {ℓ} : {A : Type ℓ} → Option (List A) → Bool
  is_blank none = false
  is_blank (some xs) = is_empty xs

  unfoldable pub is_falsy : V → Bool
  is_falsy v =
      json.is_null v
      || is_false (json.as_bool v)
      || is_blank (json.as_str v)
      || is_zero v
      || is_blank (json.as_array v)
      || is_blank (json.as_object v)

  abbrev truthy : Option V → Option V
  truthy none = none
  truthy (some v) = if is_falsy v then none else some v

  unfoldable pub first_truthy : List Text → V → Option V
  first_truthy [] map = none
  first_truthy (key ∷ keys) map = or_some (truthy (json.get key map)) (first_truthy keys map)

  abbrev text_or_shown : V → Option Text
  text_or_shown v = some (or_value (shown v) (json.as_str v))

  abbrev pub reason_of : V → Option Text
  reason_of map =
      then_maybe
        (first_truthy
          (codes "errorMessage" ∷ codes "reason" ∷ codes "errorReason" ∷ codes "error" ∷ []) map)
        (λ v. some (or_value (codes "Unknown reason") (json.as_str v)))

  abbrev code_of : V → Option Text
  code_of map =
      then_maybe (first_truthy (codes "errorCode" ∷ codes "serverErrorCode" ∷ []) map) text_or_shown

  unfoldable pub api_error_from_body : V → Option Error
  api_error_from_body map =
      then_maybe (reason_of map) (λ reason. some (make_api_error (code_of map) reason))

  abbrev first_of : List V → Option V
  first_of [] = none
  first_of (v ∷ vs) = some v

  abbrev service_error_of : V → Option Error
  service_error_of first =
      then_maybe (then_maybe (json.get (codes "message") first) json.as_str)
        (λ reason. some (api (then_maybe (json.get (codes "code") first) text_or_shown) reason))

  unfoldable pub service_error : V → Option Error
  service_error map =
      then_maybe
        (then_maybe (then_maybe (json.get (codes "serviceErrors") map) json.as_array) first_of)
        service_error_of

  abbrev is_hsa2 : Option Text → Bool
  is_hsa2 none = false
  is_hsa2 (some t) = t == codes "hsa2"

  -- The value, if it is an object.
  abbrev pub object_in : Option V → Option V
  object_in none = none
  object_in (some v) = if is_some (json.as_object v) then some v else none

  abbrev says_hsa2 : Option V → Bool
  says_hsa2 none = false
  says_hsa2 (some map) =
      is_hsa2 (then_maybe (json.get (codes "authType") map) json.as_str)
      || is_hsa2 (then_maybe (json.get (codes "authenticationType") map) json.as_str)

  unfoldable pub is_hsa2_challenge : Option V → Bool
  is_hsa2_challenge body = says_hsa2 (object_in body)

  abbrev pub error_in : V → Option Error
  error_in map = or_some (api_error_from_body map) (service_error map)

  unfoldable pub classify_error : ApiResponse V → Error
  classify_error r =
      if r.status == 409 && (r.is_json && is_hsa2_challenge r.body)
      then two_factor_required
      else if r.status == 450
      then auth_required (codes "re-authentication required")
      else or_value (make_api_error (some (digits 20 r.status)) (phrase r.status))
          (then_maybe (object_in r.body) error_in)

  abbrev pub is_classified : ApiResponse V → Bool
  is_classified r =
      r.is_json || r.status == 409 || r.status == 421 || r.status == 450 || r.status == 500

  -- `Session::check`: the error, if there is one.
  unfoldable pub check : ApiResponse V → Option Error
  check r =
      if not (is_success r.status)
      then some
          (if is_classified r then classify_error r else status_error r.status (phrase r.status))
      else if r.is_json && not r.is_empty_body
      then then_maybe (object_in r.body) api_error_from_body
      else none
