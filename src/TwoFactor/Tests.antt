-- ===== src/TwoFactor/Tests.antt =====
-- A reply and a page, and the theorems at them.
use icloud_linux.Prelude.{
  false, List, [], ◌∷◌, Option, none, some, Text, codes, ◌≡◌, refl, ◌==◌, ==_iff, ==_refl, nat_eq,
  text_eq, if◌then◌else◌,
}
use icloud_linux.State.Sql.{find_where}
use icloud_linux.TwoFactor.{Json, has_id, from_boot_json}
use icloud_linux.TwoFactor.Phones.{IsEquality, AreDistinct, all_phones, from_boot_json-phones}
use icloud_linux.Prelude.Exec.{ok}
use icloud_linux.TwoFactor.Page.{find_text, trim, parse_boot_args}
use icloud_linux.TwoFactor.Page.Class.{AreAttributes, classed, single, double, spaced}
use icloud_linux.TwoFactor.Page.Scripts.{Script, AreScripts, page, first_boot, parse_boot_args-page}

-- A reply with two phones of one id: each value is a name, and the members of each are listed.
abbrev members : List (Text × Text × Text)
members =
    (codes "reply", codes "phoneNumberVerification", codes "verification")
    ∷ (codes "verification", codes "trustedPhoneNumbers", codes "phones")
    ∷ (codes "phone", codes "id", codes "7")
    ∷ (codes "same phone", codes "id", codes "7")
    ∷ (codes "same phone", codes "pushMode", codes "sms")
    ∷ []

abbrev member_of : List (Text × Text × Text) → Text → Text → Option Text
member_of [] key v = none
member_of ((w, name, value) ∷ ms) key v =
    if w == v then (if name == key then some value else member_of ms key v) else member_of ms key v

abbrev reply : Json Text
reply = record {
  get = member_of members;
  as_bool = λ v. none;
  as_str = λ v. if v == codes "sms" then some v else none;
  as_array =
      λ v. if v == codes "phones" then some (codes "phone" ∷ codes "same phone" ∷ []) else none;
  as_object = λ v. some [];
  is_integer = λ v. v == codes "7";
  is_null = λ v. false;
  same = λ v w. v == w;
}

reply-IsEquality : IsEquality reply
reply-IsEquality = record { sound = λ v w. (==_iff v w).0; reflexive = ==_refl }

from_boot_json-phones_example :
    (find_where (has_id reply (codes "7")) (from_boot_json reply (codes "reply")).phones
      ≡ find_where (has_id reply (codes "7")) (all_phones reply (codes "reply")))
    × AreDistinct reply (from_boot_json reply (codes "reply")).phones
from_boot_json-phones_example =
    from_boot_json-phones reply reply-IsEquality (codes "reply") (codes "7")

abbrev other_script : Script
other_script = record {
  before = codes "<html><head>";
  attributes = classed (codes " ") single (codes "other" ∷ []) [];
  inside = codes "var x = 1;";
}

abbrev boot_script : Script
boot_script = record {
  before = codes ">";
  attributes =
      classed (codes " type='application/json' ") double (codes "js" ∷ codes "boot_args" ∷ []) [];
  inside = codes " {} ";
}

abbrev last_text : Text
last_text = codes "></head></html>"

other_class : AreAttributes other_script.attributes
unfolding find_text nat_eq
other_class = (refl, (record { filled = refl; no_space = refl; no_quote = refl }, tt))

boot_class : AreAttributes boot_script.attributes
unfolding find_text nat_eq
boot_class = (
  refl,
  (
    record { filled = refl; no_space = refl; no_quote = refl },
    (record { filled = refl; no_space = refl; no_quote = refl }, tt),
  ),
)

scripts_fit : AreScripts (other_script ∷ boot_script ∷ [])
unfolding find_text nat_eq spaced
scripts_fit = (
  record { no_script = refl; no_end = refl; shape = other_class; no_close = refl },
  (record { no_script = refl; no_end = refl; shape = boot_class; no_close = refl }, tt),
)

parse_boot_args-page_example :
    parse_boot_args some (page (other_script ∷ boot_script ∷ []) last_text)
    ≡ first_boot some (other_script ∷ boot_script ∷ [])
unfolding find_text nat_eq
parse_boot_args-page_example =
    parse_boot_args-page some (other_script ∷ boot_script ∷ []) last_text scripts_fit refl

boot_found : first_boot some (other_script ∷ boot_script ∷ []) ≡ ok (codes "{}")
unfolding trim nat_eq text_eq
boot_found = refl
