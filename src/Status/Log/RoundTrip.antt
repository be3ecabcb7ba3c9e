-- ===== src/Status/Log/RoundTrip.antt =====
-- What the engine logs with `sync_event!` is what the status reads, whatever precedes it in the line.
use mathlib.Core.Option.{none-ne-some, some-injective}
use icloud_linux.Prelude.{
  ++_assoc, text_eq, ℕ, ◌≤◌, false, List, [], ◌∷◌, ◌++◌, map, any, All, Option-cases, none, some,
  Text, codes, ◌≡◌, refl, sym, ap, ◌∙◌, arith, inl, inr, length, ◌==◌, nat_eq,
}
use icloud_linux.Path.Str.{strip_prefix}
use icloud_linux.Status.Log.{
  Value, after_sync, fields_within, shown, split_once, activity, parse_fields, parse_line,
  parse_event, event_line, shown_fields,
}
use icloud_linux.Status.Log.Fields.{
  IsField, raw_field, parse_fields-shown_fields, split_once-append,
}

strip_prefix-append :
    (p s t r : Text) → strip_prefix p s ≡ some r → strip_prefix p (s ++ t) ≡ some (r ++ t)
unfolding strip_prefix
strip_prefix-append [] s t r h = ap (λ l. some (l ++ t)) (some-injective _ _ h)
strip_prefix-append (c ∷ p) [] t r h = absurd (none-ne-some _ h)
strip_prefix-append (c ∷ p) (d ∷ s) t r h = ground (arith, h, strip_prefix-append p s t r)

-- A text that is long enough does not get the prefix by growing.
strip_prefix-none :
    (p s t : Text) → length p ≤ length s → strip_prefix p s ≡ none → strip_prefix p (s ++ t) ≡ none
unfolding strip_prefix
strip_prefix-none [] s t long h = absurd (none-ne-some _ (sym h))
strip_prefix-none (c ∷ p) [] t long h = absurd (omega arith)
strip_prefix-none (c ∷ p) (d ∷ s) t long h = ground (arith, h, strip_prefix-none p s t)

strip_prefix-length : (p s r : Text) → strip_prefix p s ≡ some r → length p ≤ length s
unfolding strip_prefix
strip_prefix-length [] s r h = omega arith
strip_prefix-length (c ∷ p) [] r h = absurd (none-ne-some _ h)
strip_prefix-length (c ∷ p) (d ∷ s) r h = ground (arith, h, strip_prefix-length p s r)

abbrev sync : Text
sync = codes "sync "

after_here : (c : ℕ) (s r : Text) → strip_prefix sync (c ∷ s) ≡ some r → after_sync (c ∷ s) ≡ some r
unfolding after_sync
after_here c s r found = rw (found, after_sync) refl

after_later :
    (c : ℕ) (s : Text) → strip_prefix sync (c ∷ s) ≡ none → after_sync (c ∷ s) ≡ after_sync s
unfolding after_sync
after_later c s missing = rw (missing, after_sync) refl

after_sync-length : (s r : Text) → after_sync s ≡ some r → length sync ≤ length s
after_sync-length [] r h = unfold after_sync in absurd (none-ne-some _ h)
after_sync-length (c ∷ s) r h = elim (Option-cases (strip_prefix sync (c ∷ s))) [
  | inr (rest, found) ↦ strip_prefix-length sync (c ∷ s) rest found
  | inl missing ↦ omega (arith, after_sync-length s r (sym (after_later c s missing) ∙ h))
]

after_sync-append : (s t r : Text) → after_sync s ≡ some r → after_sync (s ++ t) ≡ some (r ++ t)
after_sync-append [] t r h = unfold after_sync in absurd (none-ne-some _ h)
after_sync-append (c ∷ s) t r h = elim (Option-cases (strip_prefix sync (c ∷ s))) [
  | inr (rest, found) ↦
      after_here c (s ++ t) (rest ++ t) (strip_prefix-append sync (c ∷ s) t rest found)
      ∙ ap (λ l. some (l ++ t)) (some-injective _ _ (sym (after_here c s rest found) ∙ h))
  | inl missing ↦
      let found = sym (after_later c s missing) ∙ h in
      after_later c (s ++ t)
        (strip_prefix-none sync (c ∷ s) t (omega (arith, after_sync-length s r found)) missing)
      ∙ after_sync-append s t r found
]

after_sync-event_line :
    (prefix event : Text) (fs : List (Text × Value))
    → after_sync (prefix ++ sync) ≡ some []
    → after_sync (prefix ++ event_line event fs) ≡ some (event ++ shown_fields fs)
unfolding event_line
after_sync-event_line prefix event fs h =
    ap after_sync (sym (++_assoc prefix sync (event ++ shown_fields fs)))
    ∙ after_sync-append (prefix ++ sync) (event ++ shown_fields fs) [] h

parse_fields-space : (s : Text) → parse_fields (32 ∷ s) ≡ parse_fields s
unfolding parse_fields fields_within nat_eq
parse_fields-space s = refl

parse_line_of :
    (line after : Text) → after_sync line ≡ some after → parse_line line ≡ parse_event after
unfolding parse_line
parse_line_of line after found = rw (found, parse_line) refl

parse_event_of :
    (after event rest : Text)
    → split_once 32 after ≡ some (event, rest)
    → parse_event after ≡ activity event (parse_fields rest)
parse_event_of after event rest cut = rw (cut, parse_event) refl

-- A line that `sync_event!` writes with one field or more, behind a text in which no other `sync `
-- comes before, is read as the activity of its event with the same fields, whatever characters the
-- texts have. The event has no space, a key neither a space nor an equals sign, and what is written
-- without quotes no space and no quote in front.
pub parse_line-event_line :
    (prefix event : Text) (f : Text × Value) (fs : List (Text × Value))
    → after_sync (prefix ++ sync) ≡ some []
    → any (λ c. c == 32) event ≡ false
    → All IsField (f ∷ fs)
    → parse_line (prefix ++ event_line event (f ∷ fs)) ≡ activity event (map raw_field (f ∷ fs))
unfolding shown_fields
parse_line-event_line prefix event (key, v) fs first one_word shape =
    let rest = key ++ (61 ∷ (shown v ++ shown_fields fs)) in
    parse_line_of _ _ (after_sync-event_line prefix event ((key, v) ∷ fs) first)
    ∙ (parse_event_of _ event rest (split_once-append 32 event rest one_word)
        ∙ ap (activity event)
            (sym (parse_fields-space rest) ∙ parse_fields-shown_fields ((key, v) ∷ fs) shape))
