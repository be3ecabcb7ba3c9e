-- ===== src/Session/Tests.antt =====
-- An answer without the cookie, and the theorem at it.
use icloud_linux.Prelude.{
  ◌∷◌, true, false, [], none, some, Text, codes, ◌≡◌, refl, ◌==◌, nat_eq, text_eq, if◌then◌else◌,
}
use icloud_linux.TwoFactor.{Json}
use icloud_linux.Session.{ApiResponse, check, missing_cookie}
use icloud_linux.Session.SignIn.{is_auth_in, asks_sign_in, check_is_auth}

-- Each object has the cookie's message for its reason, and a value is its text.
abbrev messages : Json Text
messages = record {
  get = λ key v. if key == codes "reason" then some missing_cookie else none;
  as_bool = λ v. none;
  as_str = λ v. if v == codes "{}" then none else some v;
  as_array = λ v. none;
  as_object = λ v. if v == codes "{}" then some ((codes "reason", missing_cookie) ∷ []) else none;
  is_integer = λ v. false;
  is_null = λ v. false;
  same = λ v w. v == w;
}

abbrev refused_answer : ApiResponse Text
refused_answer = record {
  status = 421;
  is_json = true;
  is_empty_body = false;
  body = some (codes "{}");
}

check_is_auth_example :
    is_auth_in
      (check messages (λ v. v) (λ v. false) (λ n. codes "Misdirected Request") refused_answer)
    ≡ asks_sign_in messages (λ v. v) (λ v. false) (λ n. codes "Misdirected Request") refused_answer
unfolding text_eq nat_eq
check_is_auth_example =
    check_is_auth messages (λ v. v) (λ v. false) (λ n. codes "Misdirected Request") refused_answer
      refl
