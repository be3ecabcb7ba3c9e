-- ===== src/State/Keyed.antt =====
-- Rows with different paths: what finds them, and which statements keep them so.
use mathlib.Core.Option.{map as map_option}
use icloud_linux.Prelude.{
  Bool, true, false, List, [], ◌∷◌, map, ◌≡◌, refl, ap, ◌∙◌, inl, inr, arith, any, some, Text, ◌==◌,
  Bool-cases, nat_eq, text_eq, if◌then◌else◌,
}
use icloud_linux.Path.{IcPath}
use icloud_linux.State.Rows.{Entry, Row, from_row}
use icloud_linux.State.Sql.{delete_where, select_where, find_where, order_by, insert_by}
use icloud_linux.State.Defs.{at_path}
use icloud_linux.State.Lookup.{IsKeyed}
use icloud_linux.State.Subtree.{
  AreNormal, any-insert_by, any-order_by, any-map-from_row, path-from_row,
}

-- `e` is the entry of the path.
abbrev pub at_entry : IcPath → Entry → Bool
at_entry p e = e.path == p

-- No two entries have one path.
abbrev pub AreDistinct : List Entry → Type 0
AreDistinct [] = Unit
AreDistinct (e ∷ es) = (any (at_entry e.path) es ≡ false) × AreDistinct es

-- Finding a row by its path does not depend on the order.
find-insert_by :
    (before : Row → Row → Bool) (p : IcPath) (a : Row) (rows : List Row)
    → any (at_path a.path) rows ≡ false
    → find_where (at_path p) (insert_by before a rows)
      ≡ (if a.path == p then some a else find_where (at_path p) rows)
unfolding find_where
find-insert_by before p a [] h = refl
find-insert_by before p a (b ∷ rows) h = ground (arith, h, find-insert_by before p a rows)

pub find-order_by :
    (before : Row → Row → Bool) (p : IcPath) (rows : List Row)
    → IsKeyed rows
    → find_where (at_path p) (order_by before rows) ≡ find_where (at_path p) rows
unfolding order_by find_where
find-order_by before p [] h = refl
find-order_by before p (r ∷ rows) h =
    find-insert_by before p r (order_by before rows)
      (any-order_by before (at_path r.path) rows ∙ h.0)
    ∙ ap (λ o. if r.path == p then some r else o) (find-order_by before p rows h.1)

pub find-select_where :
    (test : Text → Bool) (p : IcPath) (rows : List Row)
    → test p ≡ true
    → find_where (at_path p) (select_where (λ (r : Row). test r.path) rows)
      ≡ find_where (at_path p) rows
unfolding find_where select_where
find-select_where test p [] h = refl
find-select_where test p (r ∷ rows) h = ground (arith, h, find-select_where test p rows h)

pub find-map-from_row :
    (p : IcPath) (rows : List Row)
    → AreNormal rows
    → find_where (at_entry p) (map from_row rows)
      ≡ map_option from_row (find_where (at_path p) rows)
unfolding find_where
find-map-from_row p [] n = refl
find-map-from_row p (r ∷ rows) n =
    let same = ap (λ x. x == p) (path-from_row r n.0) in
    elim (Bool-cases (r.path == p)) [
      | inl here ↦ rw (same ∙ here, here) refl
      | inr other ↦ rw (same ∙ other, other) (find-map-from_row p rows n.1)
    ]

any-select_where-false :
    (c test : Row → Bool) (rows : List Row)
    → any test rows ≡ false
    → any test (select_where c rows) ≡ false
unfolding select_where
any-select_where-false c test [] h = refl
any-select_where-false c test (r ∷ rows) h = ground (arith, h, any-select_where-false c test rows)

any-delete_where-false :
    (c test : Row → Bool) (rows : List Row)
    → any test rows ≡ false
    → any test (delete_where c rows) ≡ false
unfolding delete_where
any-delete_where-false c test [] h = refl
any-delete_where-false c test (r ∷ rows) h = ground (arith, h, any-delete_where-false c test rows)

pub select_where-IsKeyed :
    (c : Row → Bool) (rows : List Row) → IsKeyed rows → IsKeyed (select_where c rows)
unfolding select_where
select_where-IsKeyed c [] h = tt
select_where-IsKeyed c (r ∷ rows) h = elim (Bool-cases (c r)) [
  | inl yes_ ↦
      rw yes_ (any-select_where-false c (at_path r.path) rows h.0, select_where-IsKeyed c rows h.1)
  | inr no_ ↦ rw no_ (select_where-IsKeyed c rows h.1)
]

insert_by-IsKeyed :
    (before : Row → Row → Bool) (a : Row) (rows : List Row)
    → any (at_path a.path) rows ≡ false
    → IsKeyed rows
    → IsKeyed (insert_by before a rows)
insert_by-IsKeyed before a [] h k = (refl, tt)
insert_by-IsKeyed before a (b ∷ rows) h k = elim (Bool-cases (before b a)) [
  | inl later ↦ rw later (
    any-insert_by before (at_path b.path) a rows ∙ ground (arith, h, k.0),
    insert_by-IsKeyed before a rows (ground (arith, h)) k.1,
  )
  | inr now ↦ rw now (h, k)
]

pub order_by-IsKeyed :
    (before : Row → Row → Bool) (rows : List Row) → IsKeyed rows → IsKeyed (order_by before rows)
unfolding order_by
order_by-IsKeyed before [] h = tt
order_by-IsKeyed before (r ∷ rows) h =
    insert_by-IsKeyed before r (order_by before rows)
      (any-order_by before (at_path r.path) rows ∙ h.0) (order_by-IsKeyed before rows h.1)

pub map-AreDistinct :
    (rows : List Row) → AreNormal rows → IsKeyed rows → AreDistinct (map from_row rows)
map-AreDistinct [] n h = tt
map-AreDistinct (r ∷ rows) n h = (
  ap (λ p. any (at_entry p) (map from_row rows)) (path-from_row r n.0)
      ∙ (any-map-from_row r.path rows n.1 ∙ h.0),
  map-AreDistinct rows n.1 h.1,
)

pub delete_where-IsKeyed :
    (c : Row → Bool) (rows : List Row) → IsKeyed rows → IsKeyed (delete_where c rows)
unfolding delete_where
delete_where-IsKeyed c [] h = tt
delete_where-IsKeyed c (r ∷ rows) h = elim (Bool-cases (c r)) [
  | inl yes_ ↦ rw yes_ (delete_where-IsKeyed c rows h.1)
  | inr no_ ↦
      rw no_ (any-delete_where-false c (at_path r.path) rows h.0, delete_where-IsKeyed c rows h.1)
]
