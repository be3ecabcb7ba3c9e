-- ===== src/Status/Monitor.antt =====
-- `StatusMonitor` and `Watcher` of crates/icloud-core/src/status.rs. Instants are numbers of
-- nanoseconds. The log file is what `metadata` and the read of one call see of it; `decode` is
-- `String::from_utf8_lossy`.
pub mod Pieces
mod Tests
use icloud_linux.Prelude.{
  ℕ, ◌-◌, Bool, true, false, not, ◌&&◌, ◌||◌, List, [], ◌∷◌, ◌++◌, Option, none, some, Text, codes,
  length, drop, is_empty, ltb, ◌==◌, nat_eq, text_eq, if◌then◌else◌,
}
use icloud_linux.Prelude.Exec.{Result, ok, err}
use icloud_linux.Errno.{Errno, noent}
use icloud_linux.Status.{newline, lines, relabel, escape_uri_path}
use icloud_linux.Status.Log.{Activity, parse_line, describe}

pub record StatusMonitor : Type 0 where
  pub position : ℕ
  pub partial : Text
  pub last : Option (Activity × ℕ)

-- `ACTIVITY_WINDOW`, twenty seconds
abbrev pub activity_window : ℕ
activity_window = 20000000000

abbrev length_or_zero : Option (List ℕ) → ℕ
length_or_zero none = 0
length_or_zero (some bytes) = length bytes

unfoldable pub following : Option (List ℕ) → StatusMonitor
following log = record { position = length_or_zero log; partial = []; last = none }

-- `rfind('\n')` and `drain(..=end)`: the complete lines, and what follows the last line feed.
unfoldable pub cut : Text → Text × Text
cut [] = ([], [])
cut (c ∷ s) =
    let (complete, rest) = cut s in
    if c == newline || not (is_empty complete) then (c ∷ complete, rest) else ([], c ∷ rest)

abbrev pub or_keep : ℕ → Option Activity → Option (Activity × ℕ) → Option (Activity × ℕ)
or_keep now none last = last
or_keep now (some activity) last = some (activity, now)

abbrev pub is_some : Option Activity → Bool
is_some none = false
is_some (some activity) = true

-- The loop over the lines: the last activity, and whether there was one.
unfoldable pub read_lines :
    ℕ → List Text → Option (Activity × ℕ) → Bool → Option (Activity × ℕ) × Bool
read_lines now [] last changed = (last, changed)
read_lines now (line ∷ rest) last changed =
    let found = parse_line line in
    read_lines now rest (or_keep now found last) (changed || is_some found)

unfoldable pub absorb : Text → ℕ → StatusMonitor → Bool × StatusMonitor
absorb text now m =
    let (complete, rest) = cut (m.partial ++ text) in
    let (last, changed) = read_lines now (lines complete) m.last false in
    (changed, record m { partial = rest; last = last })

module _ (decode : List ℕ → Text) where
  -- `read_new`, where the file is as long as it was a moment ago.
  abbrev read_new : List ℕ → ℕ → StatusMonitor → Bool × StatusMonitor
  read_new bytes now m =
      absorb (decode (drop m.position bytes)) now (record m { position = length bytes })

  abbrev start_again : List ℕ → StatusMonitor → StatusMonitor
  start_again bytes m =
      if ltb (length bytes) m.position then record m { position = 0; partial = [] } else m

  abbrev read_if_longer : List ℕ → ℕ → StatusMonitor → Bool × StatusMonitor
  read_if_longer bytes now m =
      if ltb m.position (length bytes) then read_new bytes now m else (false, m)

  abbrev read_log : Option (List ℕ) → ℕ → StatusMonitor → Bool × StatusMonitor
  read_log none now m = (false, m)
  read_log (some bytes) now m = read_if_longer bytes now (start_again bytes m)

  abbrev is_stale : ℕ → Option (Activity × ℕ) → Bool
  is_stale now none = false
  is_stale now (some (activity, at)) = ltb activity_window (now - at)

  abbrev pub expire : ℕ → Bool × StatusMonitor → Bool × StatusMonitor
  expire now (changed, m) =
      if is_stale now m.last then (true, record m { last = none }) else (changed, m)

  unfoldable pub poll : Option (List ℕ) → ℕ → StatusMonitor → Bool × StatusMonitor
  poll log now m = expire now (read_log log now m)

unfoldable pub label_suffix : StatusMonitor → Text
label_suffix m = elim m.last [
  | none ↦ []
  | some (activity, at) ↦ codes " (" ++ describe activity ++ codes ")"
]

-- What the bookmarks file says, none if there is none.
abbrev current_text : Result Errno Text → Result Errno Text
current_text (ok text) = ok text
current_text (err noent) = ok []
current_text (err e) = err e

-- The text that is to be written, if it is another one.
abbrev updated : Text → Text → Result Errno Text → Result Errno (Option Text)
updated uri suffix (ok text) =
    let new = relabel text uri suffix in ok (if new == text then none else some new)
updated uri suffix (err e) = err e

-- `write_label`, up to the writing of the file.
unfoldable pub write_label : Result Errno Text → Text → Text → Result Errno (Option Text)
write_label bookmarks mount suffix =
    updated (codes "file://" ++ escape_uri_path mount) suffix (current_text bookmarks)

abbrev label_if_changed :
    Result Errno Text → Text → Bool × StatusMonitor → Result Errno (Option Text) × StatusMonitor
label_if_changed bookmarks mount (true, m) = (write_label bookmarks mount (label_suffix m), m)
label_if_changed bookmarks mount (false, m) = (ok none, m)

-- `Watcher::tick`, with the mount point that is recorded.
unfoldable pub tick :
    (List ℕ → Text)
    → Option (List ℕ)
    → Result Errno Text
    → Text
    → ℕ
    → StatusMonitor
    → Result Errno (Option Text) × StatusMonitor
tick decode log bookmarks mount now m = label_if_changed bookmarks mount (poll decode log now m)
