-- ===== src/Session/SignIn.antt =====
-- Which answers of iCloud ask for a new sign-in.
use icloud_linux.Prelude.{
  ℕ, Bool, true, false, not, ◌&&◌, ◌||◌, Option, Option-cases, none, some, Text, ◌≡◌, refl, sym, ap,
  ◌∙◌, inl, inr, Bool-cases, ◌==◌, arith, nat_eq, text_eq, if◌then◌else◌,
}
use icloud_linux.TwoFactor.{Json, then_maybe, or_value}
use mathlib.Core.Option.{none-ne-some, some-injective}
use icloud_linux.Session.{
  api, two_factor_required, auth_required, status_error, Error, is_auth, ApiResponse,
  missing_cookie, error_of_code, error_with, make_api_error, is_success, reason_of,
  api_error_from_body, service_error, service_error_of, object_in, is_hsa2_challenge, error_in,
  classify_error, is_classified, check,
}

abbrev pub is_auth_in : Option Error → Bool
is_auth_in none = false
is_auth_in (some e) = is_auth e

abbrev is_cookie : Option Text → Bool
is_cookie none = false
is_cookie (some reason) = reason == missing_cookie

is_auth-error_of_code : (code reason : Text) → is_auth (error_of_code code reason) ≡ false
unfolding is_auth
is_auth-error_of_code code reason = ground arith

is_auth-error_with : (code : Option Text) (reason : Text) → is_auth (error_with code reason) ≡ false
unfolding is_auth
is_auth-error_with none reason = refl
is_auth-error_with (some code) reason = is_auth-error_of_code code reason

is_auth-make_api_error :
    (code : Option Text) (reason : Text)
    → is_auth (make_api_error code reason) ≡ (reason == missing_cookie)
unfolding make_api_error is_auth
is_auth-make_api_error code reason = elim (Bool-cases (reason == missing_cookie)) [
  | inl cookie ↦ rw cookie refl
  | inr other ↦ rw other (is_auth-error_with code reason)
]

and_true : (a b x : Bool) → (a && b) ≡ true → (a && (b && x)) ≡ x
and_true true true x h = refl
and_true true false x h = absurd (cc)
and_true false b x h = absurd (cc)

and_false : (a b x : Bool) → (a && b) ≡ false → (a && (b && x)) ≡ false
and_false true true x h = absurd (cc)
and_false true false x h = refl
and_false false b x h = refl

-- The tests of `check` and `classify_error` for an answer that is no success.
is_auth-tests :
    (challenge again classified x : Bool) (why reason : Text) (n : ℕ) (e : Error)
    → (challenge ≡ true → classified ≡ true)
    → (again ≡ true → classified ≡ true)
    → is_auth e ≡ x
    → is_auth (
        if classified
        then (if challenge then two_factor_required else if again then auth_required why else e)
        else status_error n reason)
      ≡ (challenge || (again || (classified && x)))
unfolding is_auth
is_auth-tests true again true x why reason n e hc ha he = refl
is_auth-tests true again false x why reason n e hc ha he = absurd (cc (hc refl))
is_auth-tests false true true x why reason n e hc ha he = refl
is_auth-tests false true false x why reason n e hc ha he = absurd (cc (ha refl))
is_auth-tests false false true x why reason n e hc ha he = he
is_auth-tests false false false x why reason n e hc ha he = refl

module _ {V : Type 0} (json : Json V) (shown : V → Text) (is_zero : V → Bool)
    (phrase : ℕ → Text) where
  -- The body says that the cookie of the session is missing.
  abbrev pub says_missing_cookie : Option V → Bool
  says_missing_cookie body =
      is_cookie (
        then_maybe (object_in json shown is_zero phrase body) (reason_of json shown is_zero phrase))

  -- A challenge for a second factor, an answer that asks to authenticate again, or an answer whose body
  -- says that the cookie of the session is missing.
  abbrev pub asks_sign_in : ApiResponse V → Bool
  asks_sign_in r =
      if is_success r.status
      then r.is_json && (not r.is_empty_body && says_missing_cookie r.body)
      else (r.status == 409 && (r.is_json && is_hsa2_challenge json shown is_zero phrase r.body))
        || (r.status == 450
            || (is_classified json shown is_zero phrase r && says_missing_cookie r.body))

  is_auth_in-api_error_from_body :
      (map : V)
      → is_auth_in (api_error_from_body json shown is_zero phrase map)
        ≡ is_cookie (reason_of json shown is_zero phrase map)
  unfolding api_error_from_body
  is_auth_in-api_error_from_body map =
      elim (Option-cases (reason_of json shown is_zero phrase map)) [
        | inl silent ↦ rw silent refl
        | inr (reason, says) ↦ rw says (is_auth-make_api_error _ reason)
      ]

  service_error_not_auth :
      (map : V) (e : Error)
      → service_error json shown is_zero phrase map ≡ some e
      → is_auth e ≡ false
  unfolding service_error is_auth
  service_error_not_auth map e h = first_not_auth _ e h
    where
      said_not_auth :
          (code : Option Text) (o : Option Text) (e : Error)
          → then_maybe o (λ reason. some (api code reason)) ≡ some e
          → is_auth e ≡ false
      said_not_auth code none e h = absurd (none-ne-some _ h)
      said_not_auth code (some reason) e h = ap is_auth (sym (some-injective _ _ h))

      first_not_auth :
          (o : Option V) (e : Error)
          → then_maybe o (service_error_of json shown is_zero phrase) ≡ some e
          → is_auth e ≡ false
      first_not_auth none e h = absurd (none-ne-some _ h)
      first_not_auth (some first) e h = said_not_auth _ _ e h

  is_auth-error_in :
      (map : V) (other : Error)
      → is_auth other ≡ false
      → is_auth (or_value other (error_in json shown is_zero phrase map))
        ≡ is_cookie (reason_of json shown is_zero phrase map)
  unfolding api_error_from_body
  is_auth-error_in map other h = elim (Option-cases (reason_of json shown is_zero phrase map)) [
    | inr (reason, says) ↦ rw says (is_auth-make_api_error _ reason)
    | inl silent ↦ elim (Option-cases (service_error json shown is_zero phrase map)) [
      | inl fine ↦ rw (silent, fine) h
      | inr (e, fails) ↦ rw (silent, fails) (service_error_not_auth map e fails)
    ]
  ]

  is_auth-classified :
      (body : Option V) (other : Error)
      → is_auth other ≡ false
      → is_auth (
          or_value other (
            then_maybe
              (object_in json shown is_zero phrase body)
              (error_in json shown is_zero phrase)))
        ≡ says_missing_cookie body
  is_auth-classified body other h = elim (Option-cases (object_in json shown is_zero phrase body)) [
    | inl none_ ↦ rw none_ h
    | inr (map, object) ↦ rw object (is_auth-error_in map other h)
  ]

  is_auth_in-body :
      (body : Option V)
      → is_auth_in (
          then_maybe
            (object_in json shown is_zero phrase body)
            (api_error_from_body json shown is_zero phrase))
        ≡ says_missing_cookie body
  is_auth_in-body body = elim (Option-cases (object_in json shown is_zero phrase body)) [
    | inl none_ ↦ rw none_ refl
    | inr (map, object) ↦ rw object (is_auth_in-api_error_from_body map)
  ]

  -- An answer is an error of the authentication exactly if, being no success, it is a challenge for a
  -- second factor or asks to authenticate again (450), or if a body that is read as an error says that
  -- the cookie of the session is missing: no other answer asks the user for a sign-in. The phrase of
  -- the status is not that about the cookie.
  pub check_is_auth :
      (r : ApiResponse V)
      → (phrase r.status == missing_cookie) ≡ false
      → is_auth_in (check json shown is_zero phrase r) ≡ asks_sign_in r
  unfolding check classify_error is_auth
  check_is_auth r h = elim (Bool-cases (is_success r.status)) [
    | inl good ↦ elim (Bool-cases (r.is_json && not r.is_empty_body)) [
      | inl full ↦
          rw (good, full)
            (is_auth_in-body r.body ∙ sym (and_true r.is_json (not r.is_empty_body) _ full))
      | inr empty ↦
          rw (good, empty)
            (sym (and_false r.is_json (not r.is_empty_body) (says_missing_cookie r.body) empty))
    ]
    | inr bad ↦ rw bad (
        is_auth-tests
          (r.status == 409 && (r.is_json && is_hsa2_challenge json shown is_zero phrase r.body))
          (r.status == 450) (is_classified json shown is_zero phrase r) (says_missing_cookie r.body)
          _ _ _ _ (λ challenge. ground (arith, challenge)) (λ again. ground (arith, again))
          (is_auth-classified r.body _ (is_auth-make_api_error _ _ ∙ h)))
  ]
