-- ===== src/Setup.antt =====
-- The texts that crates/icloud-core/src/setup.rs writes and reads: arguments of systemd units, the file
-- `icloud.env`, a field of the mount table. A text is a list of characters, a field of the mount table
-- one of bytes (in UTF-8 before and after); a path is a text.
pub mod EnvFile
pub mod Octal
pub mod Units
mod Tests
use icloud_linux.Prelude.{
  ℕ, zero, suc, ◌+◌, ◌-◌, ◌*◌, Bool, true, false, not, ◌&&◌, ◌||◌, List, [], ◌∷◌, ◌++◌, any, Option,
  none, some, Text, codes, is_empty, leb, ltb, ◌==◌, nat_eq, text_eq, if◌then◌else◌,
}
use icloud_linux.Path.Str.{strip_prefix, starts_with}
use icloud_linux.TwoFactor.Page.{trim}

-- `replace` of a character by a text.
unfoldable pub replace : ℕ → Text → Text → Text
replace c by_ [] = []
replace c by_ (d ∷ s) = let rest = replace c by_ s in if d == c then by_ ++ rest else d ∷ rest

-- `char::is_control`
abbrev pub is_control : ℕ → Bool
is_control c = ltb c 32 || (leb 127 c && leb c 159)

-- `\` is 92, `"` is 34, `%` is 37.
unfoldable pub systemd_quote : Text → Option Text
systemd_quote arg =
    if any is_control arg
    then none
    else some (
        34
        ∷ (replace 37 (37 ∷ 37 ∷ []) (replace 34 (92 ∷ 34 ∷ []) (replace 92 (92 ∷ 92 ∷ []) arg))
            ++ (34 ∷ [])))

-- `'` is 39.
unfoldable pub shell_quote : Text → Text
shell_quote value = 39 ∷ (replace 39 (39 ∷ 92 ∷ 39 ∷ 39 ∷ []) value ++ (39 ∷ []))

abbrev pub is_break : ℕ → Bool
is_break c = c == 10 || c == 13

abbrev pub config_key : Text
config_key = codes "ICLOUD_CONFIG="

abbrev pub mount_key : Text
mount_key = codes "ICLOUD_MOUNT="

unfoldable pub env_file : Text → Text → Option Text
env_file config mount =
    if any is_break config || any is_break mount
    then none
    else some (
        config_key
        ++ (shell_quote config ++ (10 ∷ (mount_key ++ (shell_quote mount ++ (10 ∷ []))))))

-- What the loop of `unquote` remembers, and whether the next character stands for itself.
pub record Quoting : Type 0 where
  pub single : Bool
  pub double : Bool
  pub escaped : Bool

abbrev toggles_single : Quoting → ℕ → Bool
toggles_single q c = c == 39 && not q.double

abbrev toggles_double : Quoting → ℕ → Bool
toggles_double q c = c == 34 && not q.single

abbrev escapes : Quoting → ℕ → Bool
escapes q c = c == 92 && not q.single

abbrev pub after_char : Quoting → ℕ → Quoting
after_char q c =
    if q.escaped
    then record q { escaped = false }
    else if toggles_single q c
    then record q { single = not q.single }
    else if toggles_double q c
    then record q { double = not q.double }
    else record q { escaped = escapes q c }

abbrev pub is_output : Quoting → ℕ → Bool
is_output q c = q.escaped || not (toggles_single q c || (toggles_double q c || escapes q c))

unfoldable pub unquote_from : Quoting → Text → Text
unquote_from q [] = []
unquote_from q (c ∷ s) =
    let rest = unquote_from (after_char q c) s in if is_output q c then c ∷ rest else rest

unfoldable pub unquote : Text → Text
unquote raw = unquote_from (record { single = false; double = false; escaped = false }) raw

abbrev pub push_first : ℕ → List Text → List Text
push_first c [] = (c ∷ []) ∷ []
push_first c (w ∷ ws) = (c ∷ w) ∷ ws

-- `lines`
unfoldable pub lines : Text → List Text
lines [] = []
lines (c ∷ s) =
    let rest = lines s in
    if c == 10 then [] ∷ rest else if c == 13 && starts_with 10 s then rest else push_first c rest

abbrev pub or_next : Option Text → Option Text → Option Text
or_next none b = b
or_next (some a) b = some a

-- `find_map` over the lines.
unfoldable pub mount_line : List Text → Option Text
mount_line [] = none
mount_line (l ∷ ls) = or_next (strip_prefix mount_key (trim l)) (mount_line ls)

abbrev pub path_in : Option Text → Option Text
path_in none = none
path_in (some value) = let path = unquote (trim value) in if is_empty path then none else some path

-- `recorded_mount`, given what the file says.
unfoldable pub recorded_mount : Text → Option Text
recorded_mount file = path_in (mount_line (lines file))

abbrev is_octal : ℕ → Bool
is_octal b = leb 48 b && leb b 55

-- `u8::try_from(value).unwrap_or(b'?')`
abbrev to_byte : ℕ → ℕ
to_byte n = if leb n 255 then n else 63

-- The byte that three octal digits stand for.
abbrev pub octal : Text → Option ℕ
octal [] = none
octal (x ∷ []) = none
octal (x ∷ y ∷ []) = none
octal (x ∷ y ∷ z ∷ s) =
    if is_octal x && (is_octal y && is_octal z)
    then some (to_byte (((x - 48) * 8 + (y - 48)) * 8 + (z - 48)))
    else none

abbrev escape_at : ℕ → Text → Option ℕ
escape_at c s = if c == 92 then octal s else none

abbrev pub byte_or : ℕ → Option ℕ → ℕ
byte_or c none = c
byte_or c (some b) = b

abbrev pub skipped : Option ℕ → ℕ
skipped none = 0
skipped (some b) = 3

-- `skip` bytes belong to the escape that has been read.
unfoldable pub unescape_from : ℕ → Text → Text
unescape_from skip [] = []
unescape_from (suc skip) (c ∷ s) = unescape_from skip s
unescape_from zero (c ∷ s) =
    let rest = unescape_from (skipped (escape_at c s)) s in byte_or c (escape_at c s) ∷ rest

unfoldable pub unescape_octal : Text → Text
unescape_octal field = unescape_from 0 field
