-- ===== src/State/Subtree.antt =====
-- What a scan of a subtree finds, and in which order.
use icloud_linux.Prelude.{
  ◌≤◌, ◌≡◌, refl, ap, ◌∙◌, Bool, true, false, ◌&&◌, ◌||◌, List, map, [], ◌∷◌, arith, any, All, ◌==◌,
  Bool-cases, inl, inr, nat_eq, text_eq,
}
use icloud_linux.Path.{IcPath, is_within}
use icloud_linux.Path.Components.{IsNormal, new_self}
use icloud_linux.Path.Bounds.{in_subtree, in_subtree-is_within}
use icloud_linux.State.Rows.{Row, Entry, from_row}
use icloud_linux.State.Sql.{select_where, insert_by, order_by, sql_length}
use icloud_linux.State.Defs.{Database, at_path, by_length}
use icloud_linux.State.Queries.{fetch_rows, fetch_subtree}

-- Paths do not get shorter.
abbrev pub IsShallowFirst : List Entry → Type 0
IsShallowFirst [] = Unit
IsShallowFirst (e ∷ es) = All (λ d. sql_length e.path ≤ sql_length d.path) es × IsShallowFirst es

abbrev IsByLength : List Row → Type 0
IsByLength [] = Unit
IsByLength (r ∷ rows) = All (λ s. sql_length r.path ≤ sql_length s.path) rows × IsByLength rows

pub any-insert_by {ℓ} :
    {A : Type ℓ} (before : A → A → Bool) (test : A → Bool) (a : A) (rows : List A)
    → any test (insert_by before a rows) ≡ (test a || any test rows)
any-insert_by before test a [] = refl
any-insert_by before test a (b ∷ rows) = ground (arith, any-insert_by before test a rows)

pub any-order_by {ℓ} :
    {A : Type ℓ} (before : A → A → Bool) (test : A → Bool) (rows : List A)
    → any test (order_by before rows) ≡ any test rows
unfolding order_by
any-order_by before test [] = refl
any-order_by before test (a ∷ rows) =
    any-insert_by before test a (order_by before rows)
    ∙ ap (λ b. test a || b) (any-order_by before test rows)

All-insert_by {ℓ κ} :
    {A : Type ℓ} (P : A → Type κ) (before : A → A → Bool) (a : A) (rows : List A)
    → P a
    → All P rows
    → All P (insert_by before a rows)
All-insert_by P before a [] p h = (p, tt)
All-insert_by P before a (b ∷ rows) p h = elim (Bool-cases (before b a)) [
  | inl later ↦ rw later (h.0, All-insert_by P before a rows p h.1)
  | inr now ↦ rw now (p, h)
]

lengthen :
    (a b : Row) (rows : List Row)
    → sql_length a.path ≤ sql_length b.path
    → All (λ s. sql_length b.path ≤ sql_length s.path) rows
    → All (λ s. sql_length a.path ≤ sql_length s.path) rows
lengthen a b [] l h = tt
lengthen a b (s ∷ rows) l h = (omega (arith, l, h.0), lengthen a b rows l h.1)

by_length_le : (a b : Row) → by_length b a ≡ true → sql_length b.path ≤ sql_length a.path
by_length_le a b h = ground (arith, h)

by_length_ge : (a b : Row) → by_length b a ≡ false → sql_length a.path ≤ sql_length b.path
by_length_ge a b h = ground (arith, h)

insert_by-IsByLength :
    (a : Row) (rows : List Row) → IsByLength rows → IsByLength (insert_by by_length a rows)
insert_by-IsByLength a [] h = (tt, tt)
insert_by-IsByLength a (b ∷ rows) h = elim (Bool-cases (by_length b a)) [
  | inl later ↦ rw later (
    All-insert_by (λ (s : Row). sql_length b.path ≤ sql_length s.path) by_length a rows
        (by_length_le a b later) h.0,
    insert_by-IsByLength a rows h.1,
  )
  | inr now ↦ rw now ((by_length_ge a b now, lengthen a b rows (by_length_ge a b now) h.0), h)
]

order_by-IsByLength : (rows : List Row) → IsByLength (order_by by_length rows)
unfolding order_by
order_by-IsByLength [] = tt
order_by-IsByLength (r ∷ rows) =
    insert_by-IsByLength r (order_by by_length rows) (order_by-IsByLength rows)

pub any-select_where {ℓ} :
    {A : Type ℓ} (c test : A → Bool) (rows : List A)
    → any test (select_where c rows) ≡ any (λ r. c r && test r) rows
unfolding select_where
any-select_where c test [] = refl
any-select_where c test (r ∷ rows) = ground (arith, any-select_where c test rows)

any_at-within :
    (p q : IcPath) (rows : List Row)
    → any (λ (r : Row). in_subtree p r.path && at_path q r) rows
      ≡ (in_subtree p q && any (at_path q) rows)
any_at-within p q [] = ground arith
any_at-within p q (r ∷ rows) = elim (text_eq.dec r.path q) [
  | yes here ↦ ground (arith, ap (in_subtree p) here, any_at-within p q rows)
  | no other ↦ ground (arith, any_at-within p q rows)
]

pub All-select_where {ℓ κ} :
    {A : Type ℓ} (P : A → Type κ) (c : A → Bool) (rows : List A)
    → All P rows
    → All P (select_where c rows)
unfolding select_where
All-select_where P c [] h = tt
All-select_where P c (r ∷ rows) h = elim (Bool-cases (c r)) [
  | inl yes_ ↦ rw yes_ (h.0, All-select_where P c rows h.1)
  | inr no_ ↦ rw no_ (All-select_where P c rows h.1)
]

pub All-order_by {ℓ κ} :
    {A : Type ℓ} (P : A → Type κ) (before : A → A → Bool) (rows : List A)
    → All P rows
    → All P (order_by before rows)
unfolding order_by
All-order_by P before [] h = tt
All-order_by P before (r ∷ rows) h =
    All-insert_by P before r (order_by before rows) h.0 (All-order_by P before rows h.1)

-- Each row has a normal path, as `upsert_entry` writes it.
abbrev pub AreNormal : List Row → Type 0
AreNormal rows = All (λ r. IsNormal r.path) rows

pub path-from_row : (r : Row) → IsNormal r.path → (from_row r).path ≡ r.path
unfolding from_row
path-from_row r n = new_self r.path n

pub any-map-from_row :
    (q : IcPath) (rows : List Row)
    → AreNormal rows
    → any (λ (e : Entry). e.path == q) (map from_row rows) ≡ any (at_path q) rows
any-map-from_row q [] n = refl
any-map-from_row q (r ∷ rows) n =
    rw (path-from_row r n.0) (ap (λ b. r.path == q || b) (any-map-from_row q rows n.1))

lengths-map :
    (r : Row) (rows : List Row)
    → IsNormal r.path
    → AreNormal rows
    → All (λ (s : Row). sql_length r.path ≤ sql_length s.path) rows
    → All (λ (e : Entry). sql_length (from_row r).path ≤ sql_length e.path) (map from_row rows)
lengths-map r [] n m h = tt
lengths-map r (s ∷ rows) n m h =
    (rw (path-from_row r n, path-from_row s m.0) h.0, lengths-map r rows n m.1 h.1)

IsShallowFirst-map :
    (rows : List Row) → AreNormal rows → IsByLength rows → IsShallowFirst (map from_row rows)
IsShallowFirst-map [] n h = tt
IsShallowFirst-map (r ∷ rows) n h =
    (lengths-map r rows n.0 n.1 h.0, IsShallowFirst-map rows n.1 h.1)

-- `fetch_subtree` finds the entry of a normal path exactly if the path lies within the subtree and has
-- a row, and finds shorter paths first, so a folder before what it holds. The rows have normal paths.
pub any-fetch_subtree :
    (db : Database) (p q : IcPath)
    → AreNormal db.entries
    → IsNormal q
    → (any (λ e. e.path == q) (fetch_subtree db p) ≡ (is_within q p && any (at_path q) db.entries))
      × IsShallowFirst (fetch_subtree db p)
unfolding fetch_subtree fetch_rows
any-fetch_subtree db p q rows n =
    let within = select_where (λ (r : Row). in_subtree p r.path) db.entries in
    let sorted = order_by by_length within in
    let normal : AreNormal sorted =
      All-order_by (λ (r : Row). IsNormal r.path) by_length within
        (All-select_where (λ (r : Row). IsNormal r.path) (λ r. in_subtree p r.path) db.entries
          rows) in
    (
      any-map-from_row q sorted normal
          ∙ any-order_by by_length (at_path q) within
          ∙ any-select_where (λ (r : Row). in_subtree p r.path) (at_path q) db.entries
          ∙ any_at-within p q db.entries
          ∙ ap (λ b. b && any (at_path q) db.entries) (in_subtree-is_within p q n),
      IsShallowFirst-map sorted normal (order_by-IsByLength within),
    )
