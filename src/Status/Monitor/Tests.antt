-- ===== src/Status/Monitor/Tests.antt =====
-- Lines of a log, and the theorems at them.
use icloud_linux.Prelude.{◌≡◌, refl, [], ◌∷◌, ◌++◌, map, none, some, Text, codes, nat_eq, text_eq}
use icloud_linux.Path.Str.{strip_prefix, split, rsplit_next}
use icloud_linux.Status.{newline}
use icloud_linux.Status.Log.{
  Value, text, plain, downloading, after_sync, activity, display_name, split_once, parse_fields,
  fields_within, field_value, quoted, field, parse_line, event_line, trim_end,
}
use icloud_linux.Status.Log.Fields.{raw_field, IsField}
use icloud_linux.Status.Log.RoundTrip.{parse_line-event_line}
use icloud_linux.Status.Monitor.{StatusMonitor, absorb}
use icloud_linux.Status.Monitor.Pieces.{absorb-append, both}

abbrev info : Text
info = codes "INFO core: "

-- `/it's`
abbrev path_field : Text × Value
path_field = (codes "path", text (codes "/it's"))

abbrev size_field : Text × Value
size_field = (codes "size", plain (codes "12"))

info_first : after_sync (info ++ codes "sync ") ≡ some []
unfolding after_sync strip_prefix nat_eq
info_first = refl

path_field-IsField : IsField path_field
unfolding nat_eq
path_field-IsField = (record { no_space = refl; no_equals = refl }, tt)

size_field-IsField : IsField size_field
unfolding nat_eq
size_field-IsField = (record { no_space = refl; no_equals = refl }, (refl, refl))

abbrev hydrate_start : Text
hydrate_start = codes "hydrate-start"

parse_line-event_line_example :
    parse_line (info ++ event_line hydrate_start (path_field ∷ size_field ∷ []))
    ≡ activity hydrate_start (map raw_field (path_field ∷ size_field ∷ []))
unfolding nat_eq
parse_line-event_line_example =
    parse_line-event_line info hydrate_start path_field (size_field ∷ []) info_first refl
      (path_field-IsField, (size_field-IsField, tt))

abbrev idle : StatusMonitor
idle = record { position = 0; partial = []; last = none }

absorb-append_example :
    absorb (codes "sync hydrate-start pa" ++ (codes "th='/a'" ++ (newline ∷ []))) 7 idle
    ≡ both
        (absorb
          (codes "th='/a'" ++ (newline ∷ []))
          7
          (absorb (codes "sync hydrate-start pa") 7 idle).1)
        (absorb (codes "sync hydrate-start pa") 7 idle).0
absorb-append_example =
    absorb-append (codes "sync hydrate-start pa") (codes "th='/a'" ++ (newline ∷ [])) 7 idle

quoted_path : parse_line (codes "sync hydrate-start path='/a/b'") ≡ some (downloading (codes "b"))
unfolding parse_line after_sync strip_prefix split_once parse_fields fields_within field_value
    quoted activity field display_name trim_end split rsplit_next nat_eq text_eq
quoted_path = refl
