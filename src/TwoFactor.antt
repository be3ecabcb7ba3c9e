-- ===== src/TwoFactor.antt =====
-- crates/icloud-api/src/twofactor.rs: what a sign-in page and Apple's answers say of a two-factor
-- challenge. A text is a list of characters, and a JSON value is of a type `V` with the operations of
-- `serde_json::Value` that the code calls.
pub mod Phones
pub mod Page
mod Tests
use icloud_linux.Prelude.{
  ℕ, zero, suc, Bool, true, false, not, ◌&&◌, ◌||◌, List, [], ◌∷◌, ◌++◌, any, Option, none, some,
  Text, codes, is_empty, length, is_prefix, ◌==◌, nat_eq, text_eq, if◌then◌else◌,
}
use icloud_linux.Prelude.Exec.{Result, ok, err}
use icloud_linux.Path.Str.{strip_prefix}
use icloud_linux.Status.Log.{is_whitespace, split_once}

-- `serde_json::Value`; `is_integer` is `is_i64() || is_u64()`, and `same` is `==`.
pub record Json (V : Type 0) : Type 0 where
  pub get : Text → V → Option V
  pub as_bool : V → Option Bool
  pub as_str : V → Option Text
  pub as_array : V → Option (List V)
  pub as_object : V → Option (List (Text × V))
  pub is_integer : V → Bool
  pub is_null : V → Bool
  pub same : V → V → Bool

pub data CodeMethod : Type 0 where
  trusted_device : CodeMethod
  sms : CodeMethod

pub record TrustedPhone (V : Type 0) : Type 0 where
  pub id : V
  pub non_fteu : Option Bool
  pub push_mode : Option Text
  pub display : Option Text

pub record TwoFactorOptions (V : Type 0) : Type 0 where
  pub has_trusted_devices : Bool
  pub push_bridge : Bool
  pub phones : List (TrustedPhone V)
  pub security_key_required : Bool

abbrev pub is_some {ℓ} : {A : Type ℓ} → Option A → Bool
is_some none = false
is_some (some a) = true

abbrev pub or_some {ℓ} : {A : Type ℓ} → Option A → Option A → Option A
or_some none b = b
or_some (some a) b = some a

abbrev pub or_value {ℓ} : {A : Type ℓ} → A → Option A → A
or_value a none = a
or_value a (some b) = b

abbrev pub then_maybe {ℓ} : {A B : Type ℓ} → Option A → (A → Option B) → Option B
then_maybe none f = none
then_maybe (some a) f = f a

module _ {V : Type 0} where
  unfoldable pub device_code_available : TwoFactorOptions V → Bool
  device_code_available o = o.has_trusted_devices && not o.push_bridge

  unfoldable pub preferred_method : TwoFactorOptions V → CodeMethod
  preferred_method o = if device_code_available o || is_empty o.phones then trusted_device else sms

  unfoldable pub can_use_sms : TwoFactorOptions V → Bool
  can_use_sms o = not (is_empty o.phones)

module _ {V : Type 0} (json : Json V) where
  abbrev text_of : Text → V → Option Text
  text_of key v = then_maybe (json.get key v) json.as_str

  abbrev bool_of : Text → V → Option Bool
  bool_of key v = then_maybe (json.get key v) json.as_bool

  abbrev phone_with : V → V → Option (TrustedPhone V)
  phone_with v id =
      if json.is_integer id || is_some (json.as_str id)
      then some (record {
        id = id;
        non_fteu = bool_of (codes "nonFTEU") v;
        push_mode = text_of (codes "pushMode") v;
        display =
            or_some (text_of (codes "numberWithDialCode") v) (text_of (codes "obfuscatedNumber") v);
      })
      else none

  -- `TrustedPhone::from_value`
  unfoldable pub from_value : V → Option (TrustedPhone V)
  from_value v =
      then_maybe (json.as_object v) (λ o. then_maybe (json.get (codes "id") v) (phone_with v))

  abbrev pub has_id : V → TrustedPhone V → Bool
  has_id id p = json.same p.id id

  unfoldable pub add : TrustedPhone V → List (TrustedPhone V) → List (TrustedPhone V)
  add phone phones = if any (has_id phone.id) phones then phones else phones ++ (phone ∷ [])

  abbrev pub add_if : Option (TrustedPhone V) → List (TrustedPhone V) → List (TrustedPhone V)
  add_if none phones = phones
  add_if (some phone) phones = add phone phones

  unfoldable pub add_list : List V → List (TrustedPhone V) → List (TrustedPhone V)
  add_list [] phones = phones
  add_list (v ∷ vs) phones = add_list vs (add_if (from_value v) phones)

  abbrev pub list_of : Option (List V) → List V
  list_of none = []
  list_of (some vs) = vs

  abbrev pub one_of : V → Option (TrustedPhone V)
  one_of v = then_maybe (json.get (codes "trustedPhoneNumber") v) from_value

  abbrev pub several_of : V → List V
  several_of v = list_of (then_maybe (json.get (codes "trustedPhoneNumbers") v) json.as_array)

  unfoldable pub add_verifications : List (Option V) → List (TrustedPhone V) → List (TrustedPhone V)
  add_verifications [] phones = phones
  add_verifications (none ∷ vs) phones = add_verifications vs phones
  add_verifications (some v ∷ vs) phones =
      add_verifications vs (add_list (several_of v) (add_if (one_of v) phones))

  abbrev pub direct_of : V → V
  direct_of root = or_value root (json.get (codes "direct") root)

  abbrev pub two_sv_of : V → V
  two_sv_of root = or_value (direct_of root) (json.get (codes "twoSV") (direct_of root))

  abbrev pub bridge_of : V → Option V
  bridge_of root = json.get (codes "bridgeInitiateData") (two_sv_of root)

  abbrev pub verifications : V → List (Option V)
  verifications root =
      json.get (codes "phoneNumberVerification") (two_sv_of root)
      ∷ then_maybe (bridge_of root) (json.get (codes "phoneNumberVerification"))
      ∷ json.get (codes "phoneNumberVerification") root
      ∷ []

  unfoldable pub phones_of : V → List (TrustedPhone V)
  phones_of root = add_if (one_of root) (add_verifications (verifications root) [])

  abbrev says_devices : V → Bool
  says_devices v = or_value false (bool_of (codes "hasTrustedDevices") v)

  abbrev is_route : Option Text → Bool
  is_route none = false
  is_route (some route) = route == codes "auth/bridge/step"

  abbrev is_filled : Option (List (Text × V)) → Bool
  is_filled none = false
  is_filled (some members) = not (is_empty members)

  abbrev is_given : Option V → Bool
  is_given none = false
  is_given (some v) = not (json.is_null v)

  unfoldable pub from_boot_json : V → TwoFactorOptions V
  from_boot_json root =
      let devices = says_devices (direct_of root) || says_devices root in
      record {
        has_trusted_devices = devices;
        push_bridge =
            devices
            && is_route (text_of (codes "authInitialRoute") (direct_of root))
            && is_filled (then_maybe (bridge_of root) json.as_object);
        phones = phones_of root;
        security_key_required =
            is_given (json.get (codes "fsaChallenge") root)
            || not
                (is_empty (list_of (then_maybe (json.get (codes "keyNames") root) json.as_array)));
      }
