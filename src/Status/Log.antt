-- ===== src/Status/Log.antt =====
-- The log lines that crates/icloud-core/src/status.rs reads, and the macro `sync_event!` of
-- crates/icloud-core/src/engine/mod.rs that writes them. Here a text is a list of characters.
use icloud_linux.Prelude.Decimal.{digits, value_of}
pub mod Fields
pub mod RoundTrip
use icloud_linux.Prelude.{
  ℕ, zero, suc, ◌+◌, ◌*◌, ◌-◌, ◌/◌, ◌%◌, ◌^◌, Bool, true, false, not, ◌&&◌, ◌||◌, List, [], ◌∷◌,
  ◌++◌, any, Option, none, some, Text, codes, is_empty, length, ltb, leb, ◌==◌, nat_eq, text_eq,
  if◌then◌else◌,
}
use icloud_linux.Path.Str.{strip_prefix, starts_with, rsplit_next}

pub data Activity : Type 0 where
  listing : Text → Activity
  listed : Text → ℕ → Activity
  downloading : Text → Activity
  downloaded : Text → Activity
  syncing : Text → Activity
  synced : Text → Activity

-- `char::is_whitespace`
abbrev pub is_whitespace : ℕ → Bool
is_whitespace c =
    (leb 9 c && leb c 13)
    || (leb 0x2000 c && leb c 0x200a)
    || any (λ w. w == c)
        (32 ∷ 0x85 ∷ 0xa0 ∷ 0x1680 ∷ 0x2028 ∷ 0x2029 ∷ 0x202f ∷ 0x205f ∷ 0x3000 ∷ [])

-- A `u64` has no more than twenty digits.
abbrev pub show_u64 : ℕ → Text
show_u64 n = digits 20 n

abbrev pub is_digit : ℕ → Bool
is_digit c = leb 48 c && leb c 57

abbrev pub digits_only : Text → Bool
digits_only s = not (is_empty s) && not (any (λ c. not (is_digit c)) s)

abbrev unsigned : Text → Text
unsigned [] = []
unsigned (c ∷ s) = if c == 43 then s else c ∷ s

-- `parse::<u64>().ok()`
unfoldable pub parse_u64 : Text → Option ℕ
parse_u64 s =
    let n = value_of 0 (unsigned s) in
    if digits_only (unsigned s) && ltb n (2 ^ 64) then some n else none

abbrev plural : ℕ → Text
plural n = if n == 1 then [] else codes "s"

-- `Activity::describe`
unfoldable pub describe : Activity → Text
describe (listing name) = codes "listing: " ++ name
describe (listed name items) = name ++ codes ": " ++ show_u64 items ++ codes " item" ++ plural items
describe (downloading name) = codes "downloading: " ++ name
describe (downloaded name) = name ++ codes " downloaded"
describe (syncing name) = codes "syncing: " ++ name
describe (synced name) = name ++ codes " synced"

-- `trim_end_matches(c)`
unfoldable pub trim_end : ℕ → Text → Text
trim_end c [] = []
trim_end c (d ∷ s) = let rest = trim_end c s in if is_empty rest && d == c then [] else d ∷ rest

unfoldable pub display_name : Text → Text
display_name path =
    let name = rsplit_next b'/' (trim_end b'/' path) in
    if is_empty name then codes "iCloud" else name

-- `split_once(c)`
unfoldable pub split_once : ℕ → Text → Option (Text × Text)
split_once sep [] = none
split_once sep (c ∷ s) =
    let rest = split_once sep s in
    if c == sep
    then some ([], s)
    else elim rest [ none ↦ none | some (key, after) ↦ some (c ∷ key, after) ]

abbrev pub push_char : ℕ → Text × Text → Text × Text
push_char c (value, rest) = (c ∷ value, rest)

-- After the opening quote: the value, and what follows the closing one.
unfoldable pub quoted : Bool → Text → Text × Text
quoted escaped [] = ([], [])
quoted escaped (c ∷ s) =
    let rest = quoted (not escaped && c == 92) s in
    if escaped
    then push_char c rest
    else if c == 92
    then rest
    else if c == 39
    then ([], s)
    else push_char c rest

unfoldable pub bare : Text → Text × Text
bare [] = ([], [])
bare (c ∷ s) = let rest = bare s in if is_whitespace c then ([], c ∷ s) else push_char c rest

unfoldable pub field_value : Text → Text × Text
field_value [] = ([], [])
field_value (c ∷ s) = if c == 39 then quoted false s else bare (c ∷ s)

-- `k` counts the turns of the loop, each of which takes a character at least.
unfoldable pub fields_within : ℕ → Text → List (Text × Text)
fields_within zero s = []
fields_within (suc k) [] = []
fields_within (suc k) (c ∷ s) =
    if is_whitespace c then fields_within k s else elim (split_once 61 (c ∷ s)) [
      | none ↦ []
      | some (key, after) ↦
          let (value, rest) = field_value after in
          let more = fields_within k rest in
          if any is_whitespace key then [] else (key, value) ∷ more
    ]

unfoldable pub parse_fields : Text → List (Text × Text)
parse_fields s = fields_within (length s) s

unfoldable pub field : Text → List (Text × Text) → Option Text
field key [] = none
field key ((k, v) ∷ fields) = let rest = field key fields in if k == key then some v else rest

-- What follows the first `"sync "`.
unfoldable pub after_sync : Text → Option Text
after_sync [] = none
after_sync (c ∷ s) =
    let later = after_sync s in
    elim (strip_prefix (codes "sync ") (c ∷ s)) [ some rest ↦ some rest | none ↦ later ]

abbrev name_in : List (Text × Text) → Text
name_in fields =
    display_name (elim (field (codes "path") fields) [ none ↦ codes "/" | some path ↦ path ])

abbrev pub number_or_zero : Option ℕ → ℕ
number_or_zero none = 0
number_or_zero (some n) = n

abbrev items_in : List (Text × Text) → ℕ
items_in fields = elim (field (codes "entries") fields) [
  | none ↦ 0
  | some n ↦ number_or_zero (parse_u64 n)
]

unfoldable pub activity : Text → List (Text × Text) → Option Activity
activity event fields =
    if event == codes "list-directory-start"
    then some (listing (name_in fields))
    else if event == codes "list-directory-complete"
    then some (listed (name_in fields) (items_in fields))
    else if event == codes "hydrate-start"
    then some (downloading (name_in fields))
    else if event == codes "hydrate-complete"
    then some (downloaded (name_in fields))
    else if event == codes "file-sync-start"
    then some (syncing (name_in fields))
    else if event == codes "file-sync-complete"
    then some (synced (name_in fields))
    else none

abbrev pub parse_event : Text → Option Activity
parse_event after = elim (split_once 32 after) [
  | none ↦ activity after []
  | some (event, rest) ↦ activity event (parse_fields rest)
]

unfoldable pub parse_line : Text → Option Activity
parse_line line = elim (after_sync line) [ none ↦ none | some after ↦ parse_event after ]

-- A value of `sync_event!`: a text, or one that is written as it is (a number or a Boolean).
pub data Value : Type 0 where
  text : Text → Value
  plain : Text → Value

-- `replace('\\', "\\\\").replace('\'', "\\'")`
unfoldable pub escape : Text → Text
escape [] = []
escape (c ∷ s) = let rest = escape s in if c == 92 || c == 39 then 92 ∷ c ∷ rest else c ∷ rest

abbrev pub shown : Value → Text
shown (text s) = 39 ∷ (escape s ++ (39 ∷ []))
shown (plain s) = s

unfoldable pub shown_fields : List (Text × Value) → Text
shown_fields [] = []
shown_fields ((key, value) ∷ fields) = 32 ∷ (key ++ (61 ∷ (shown value ++ shown_fields fields)))

-- `sync_event!`
unfoldable pub event_line : Text → List (Text × Value) → Text
event_line event fields = codes "sync " ++ (event ++ shown_fields fields)
