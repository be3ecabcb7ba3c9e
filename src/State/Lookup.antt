-- ===== src/State/Lookup.antt =====
-- What a statement does to the row at a given path.
use mathlib.Core.Option.{map as map_option}
use icloud_linux.Prelude.{
  Bool, true, false, List, [], ◌∷◌, ◌++◌, ◌≡◌, refl, ◌∙◌, arith, inl, inr, any, Option, none, some,
  Text, ◌==◌, Bool-cases, nat_eq, text_eq, if◌then◌else◌,
}
use icloud_linux.State.Rows.{Row}
use icloud_linux.State.Sql.{update_where, delete_where, find_where}
use icloud_linux.State.Defs.{at_path}
use icloud_linux.State.Writes.{upsert_row}

-- The row at a path.
abbrev pub row_at : Text → List Row → Option Row
row_at p rows = find_where (at_path p) rows

-- No two rows have one path: the primary key of `entries`.
abbrev pub IsKeyed : List Row → Type 0
IsKeyed [] = Unit
IsKeyed (r ∷ rows) = (any (at_path r.path) rows ≡ false) × IsKeyed rows

pub path-row_at : (p : Text) (rows : List Row) (r : Row) → row_at p rows ≡ some r → r.path ≡ p
unfolding find_where
path-row_at p [] r h = cc
path-row_at p (s ∷ rows) r h = ground (arith, path-row_at p rows r)

pub row_at-any : (p : Text) (rows : List Row) → any (at_path p) rows ≡ false → row_at p rows ≡ none
unfolding find_where
row_at-any p [] h = refl
row_at-any p (r ∷ rows) h = ground (arith, row_at-any p rows)

pub any-row_at : (p : Text) (rows : List Row) → row_at p rows ≡ none → any (at_path p) rows ≡ false
unfolding find_where
any-row_at p [] h = refl
any-row_at p (r ∷ rows) h = ground (arith, any-row_at p rows)

-- An UPDATE that keeps the paths.
pub row_at-update_where :
    (q : Text) (c : Row → Bool) (f : Row → Row) (rows : List Row)
    → ((r : Row) → (f r).path ≡ r.path)
    → row_at q (update_where c f rows) ≡ map_option (λ r. if c r then f r else r) (row_at q rows)
unfolding find_where update_where
row_at-update_where q c f [] keep = refl
row_at-update_where q c f (r ∷ rows) keep =
    ground (arith, keep r, row_at-update_where q c f rows keep)

-- A DELETE by a test of the path.
pub row_at-delete_where :
    (q : Text) (test : Text → Bool) (rows : List Row)
    → row_at q (delete_where (λ r. test r.path) rows) ≡ (if test q then none else row_at q rows)
unfolding find_where delete_where
row_at-delete_where q test [] = ground arith
row_at-delete_where q test (r ∷ rows) = ground (arith, row_at-delete_where q test rows)

pub update_absent :
    (p : Text) (f : Row → Row) (rows : List Row)
    → any (at_path p) rows ≡ false
    → update_where (at_path p) f rows ≡ rows
unfolding update_where
update_absent p f [] h = refl
update_absent p f (r ∷ rows) h = ground (arith, update_absent p f rows)

-- An UPDATE of the one row at `p` that gives it the unused path `p'`.
pub row_at_rekeyed :
    (q p p' : Text) (f : Row → Row) (rows : List Row)
    → IsKeyed rows
    → ((r : Row) → (f r).path ≡ p')
    → any (at_path p') rows ≡ false
    → any (at_path p) rows ≡ true
    → row_at q (update_where (at_path p) f rows)
      ≡ (if p' == q then map_option f (row_at p rows) else if p == q then none else row_at q rows)
unfolding find_where update_where
row_at_rekeyed q p p' f [] keyed new free here = cc
row_at_rekeyed q p p' f (r ∷ rows) (once, keyed) new free here = elim (text_eq.dec r.path p) [
  | yes at ↦ ground (
    arith,
    new r,
    update_absent p f rows,
    row_at-any p rows,
    row_at-any p' rows,
    row_at-any q rows,
  )
  | no other ↦ ground (arith, row_at_rekeyed q p p' f rows keyed new)
]

row_at-append :
    (q : Text) (rows more : List Row)
    → row_at q (rows ++ more) ≡ elim (row_at q rows) [ none ↦ row_at q more | some r ↦ some r ]
unfolding find_where
row_at-append q [] more = refl
row_at-append q (r ∷ rows) more = ground (arith, row_at-append q rows more)

row_at_replaced :
    (q : Text) (r : Row) (rows : List Row)
    → any (at_path r.path) rows ≡ true
    → row_at q (update_where (at_path r.path) (λ _. r) rows)
      ≡ (if r.path == q then some r else row_at q rows)
unfolding find_where update_where
row_at_replaced q r [] h = cc
row_at_replaced q r (s ∷ rows) h =
    ground (arith, row_at_replaced q r rows, update_absent r.path (λ _. r) rows)

pub row_at-upsert_row :
    (q : Text) (r : Row) (rows : List Row)
    → row_at q (upsert_row r rows) ≡ (if r.path == q then some r else row_at q rows)
unfolding upsert_row
row_at-upsert_row q r rows = elim (Bool-cases (any (at_path r.path) rows)) [
  | inl old ↦ rw old (row_at_replaced q r rows old)
  | inr fresh ↦ rw fresh (
      row_at-append q rows (r ∷ [])
      ∙ unfold find_where in ground (arith, row_at-any r.path rows fresh))
]
