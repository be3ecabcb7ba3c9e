-- ===== src/Status/Monitor/Pieces.antt =====
-- A log that is read in pieces is read as a whole.
use icloud_linux.Prelude.{
  ++_assoc, ==_iff, ℕ, Bool, true, false, not, ◌&&◌, ◌||◌, List, [], ◌∷◌, ◌++◌, Option, Text,
  is_empty, ◌==◌, nat_eq, ◌≡◌, refl, sym, ap, ◌∙◌, arith, inl, inr, Bool-cases, if◌then◌else◌,
}
use icloud_linux.Path.Str.{push_front}
use icloud_linux.Status.{newline, lines}
use icloud_linux.Status.Log.{Activity, parse_line}
use icloud_linux.Status.Monitor.{StatusMonitor, cut, read_lines, absorb, or_keep, is_some}

-- A text that is empty or ends with a line feed.
abbrev IsComplete : Text → Type 0
IsComplete [] = Unit
IsComplete (c ∷ []) = c ≡ newline
IsComplete (c ∷ d ∷ s) = IsComplete (d ∷ s)

abbrev cut_with : ℕ → Text × Text → Text × Text
cut_with c (complete, rest) =
    if c == newline || not (is_empty complete) then (c ∷ complete, rest) else ([], c ∷ rest)

abbrev then_cut : Text × Text → Text → Text × Text
then_cut (complete, rest) t = (complete ++ (cut (rest ++ t)).0, (cut (rest ++ t)).1)

cut_cons : (c : ℕ) (s : Text) → cut (c ∷ s) ≡ cut_with c (cut s)
unfolding cut
cut_cons c s = refl

cut_with-then_cut :
    (c : ℕ) (p : Text × Text) (t : Text) → cut_with c (then_cut p t) ≡ then_cut (cut_with c p) t
cut_with-then_cut c ([], rest) t = elim (Bool-cases (c == newline)) [
  | inl end ↦ rw end refl
  | inr other ↦ rw (other, cut_cons c (rest ++ t)) (ground (arith, other))
]
cut_with-then_cut c (d ∷ complete, rest) t = elim (Bool-cases (c == newline)) [
  | inl end ↦ rw end refl
  | inr other ↦ rw other refl
]

cut-append : (s t : Text) → cut (s ++ t) ≡ then_cut (cut s) t
cut-append [] t = unfold cut in refl
cut-append (c ∷ s) t =
    cut_cons c (s ++ t)
    ∙ (ap (cut_with c) (cut-append s t)
        ∙ (cut_with-then_cut c (cut s) t ∙ ap (λ p. then_cut p t) (sym (cut_cons c s))))

lines_step :
    (c d : ℕ) (s : Text)
    → lines (c ∷ d ∷ s) ≡ (
        if c == newline
        then [] ∷ lines (d ∷ s)
        else if c == 13 && d == newline
        then lines (d ∷ s)
        else push_front c (lines (d ∷ s)))
unfolding lines
lines_step c d s = refl

is_empty-push_front : (c : ℕ) (ls : List Text) → is_empty (push_front c ls) ≡ false
is_empty-push_front c [] = refl
is_empty-push_front c (l ∷ ls) = refl

push_front-append :
    (c : ℕ) (ls more : List Text)
    → is_empty ls ≡ false
    → push_front c (ls ++ more) ≡ push_front c ls ++ more
push_front-append c [] more h = absurd (cc)
push_front-append c (l ∷ ls) more h = refl

is_empty-lines : (c : ℕ) (s : Text) → is_empty (lines (c ∷ s)) ≡ false
is_empty-lines c [] = unfold lines in ground arith
is_empty-lines c (d ∷ s) =
    rw (lines_step c d s)
      (ground (arith, is_empty-lines d s, is_empty-push_front c (lines (d ∷ s))))

lines-append : (s t : Text) → IsComplete s → lines (s ++ t) ≡ lines s ++ lines t
lines-append [] t h = unfold lines in refl
lines-append (c ∷ []) t h = unfold lines nat_eq in rw h refl
lines-append (c ∷ d ∷ s) t h =
    rw (lines_step c d (s ++ t), lines_step c d s)
      (ground (
        arith,
        lines-append (d ∷ s) t h,
        push_front-append c (lines (d ∷ s)) (lines t) (is_empty-lines d s),
      ))

IsComplete-cons : (c : ℕ) (s : Text) → is_empty s ≡ false → IsComplete s → IsComplete (c ∷ s)
IsComplete-cons c [] h whole = absurd (cc)
IsComplete-cons c (d ∷ s) h whole = whole

cut_with-IsComplete : (c : ℕ) (p : Text × Text) → IsComplete p.0 → IsComplete (cut_with c p).0
cut_with-IsComplete c ([], rest) h = elim (Bool-cases (c == newline)) [
  | inl end ↦ rw end ((==_iff c newline).0 end)
  | inr other ↦ rw other tt
]
cut_with-IsComplete c (d ∷ complete, rest) h = elim (Bool-cases (c == newline)) [
  | inl end ↦ rw end h
  | inr other ↦ rw other h
]

cut-IsComplete : (s : Text) → IsComplete (cut s).0
cut-IsComplete [] = unfold cut in tt
cut-IsComplete (c ∷ s) = rw (cut_cons c s) (cut_with-IsComplete c (cut s) (cut-IsComplete s))

read_lines-append :
    (now : ℕ) (ls more : List Text) (last : Option (Activity × ℕ)) (changed : Bool)
    → read_lines now (ls ++ more) last changed
      ≡ read_lines now more (read_lines now ls last changed).0 (read_lines now ls last changed).1
unfolding read_lines
read_lines-append now [] more last changed = refl
read_lines-append now (l ∷ ls) more last changed = read_lines-append now ls more _ _

or_assoc : (a b c : Bool) → ((a || b) || c) ≡ (a || (b || c))
or_assoc false b c = refl
or_assoc true b c = refl

-- Whether something was read before does not matter for what is found.
read_lines-changed :
    (now : ℕ) (ls : List Text) (last : Option (Activity × ℕ)) (changed : Bool)
    → read_lines now ls last changed
      ≡ ((read_lines now ls last false).0, changed || (read_lines now ls last false).1)
unfolding read_lines
read_lines-changed now [] last false = refl
read_lines-changed now [] last true = refl
read_lines-changed now (l ∷ ls) last changed =
    let found = parse_line l in
    let here = read_lines-changed now ls (or_keep now found last) (is_some found) in
    read_lines-changed now ls (or_keep now found last) (changed || is_some found)
    ∙ (ap (λ b. ((read_lines now ls (or_keep now found last) false).0, b))
          (or_assoc changed (is_some found) _)
        ∙ ap (λ x. (x.0, changed || x.1)) (sym here))

abbrev pub both : Bool × StatusMonitor → Bool → Bool × StatusMonitor
both (now_changed, m) changed = (changed || now_changed, m)

-- A text that arrives in two pieces, cut anywhere, leaves the monitor as one that arrives at once at
-- the same instant, and the label is to change if one of the pieces says so.
pub absorb-append :
    (a b : Text) (now : ℕ) (m : StatusMonitor)
    → absorb (a ++ b) now m ≡ both (absorb b now (absorb a now m).1) (absorb a now m).0
unfolding absorb
absorb-append a b now m =
    let whole = ap cut (sym (++_assoc m.partial a b)) ∙ cut-append (m.partial ++ a) b in
    let first = (cut (m.partial ++ a)).0 in
    let second = (cut ((cut (m.partial ++ a)).1 ++ b)).0 in
    let read = read_lines now (lines first) m.last false in
    rw whole (
      rw
        (
          lines-append first second (cut-IsComplete (m.partial ++ a)),
          read_lines-append now (lines first) (lines second) m.last false,
          read_lines-changed now (lines second) read.0 read.1,
        )
        refl)
