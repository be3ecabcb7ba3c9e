-- ===== src/State/Dirty.antt =====
-- Which methods clear the dirty flag of an entry, and which do not.
use mathlib.Core.Option.{map as map_option}
use icloud_linux.Prelude.{
  ℕ, Bool, false, List, ◌≡◌, refl, sym, ap, ◌∙◌, inl, inr, arith, Option, Option-cases, none, some,
  Text, ◌==◌, nat_eq, text_eq, if◌then◌else◌,
}
use icloud_linux.Prelude.Int.{ℤ}
use icloud_linux.Path.{IcPath}
use icloud_linux.Drive.{Node}
use icloud_linux.State.Rows.{Row, Entry, from_row}
use icloud_linux.State.Sql.{update_where}
use icloud_linux.State.Defs.{Database, at_path}
use icloud_linux.State.Lookup.{row_at, path-row_at, row_at-update_where}
use icloud_linux.State.Queries.{get_entry}
use icloud_linux.State.Writes.{cleaned, mark_clean, mark_hydrated, mark_synced_subtree}

abbrev dirty_entry : Option Entry → Bool
dirty_entry none = false
dirty_entry (some e) = e.dirty

-- Is there an entry that is dirty?
abbrev pub is_dirty_at : IcPath → Database → Bool
is_dirty_at p db = dirty_entry (get_entry db p)

abbrev dirty_row : Option Row → Bool
dirty_row none = false
dirty_row (some r) = r.dirty

dirty_entry-from_row : (o : Option Row) → dirty_entry (map_option from_row o) ≡ dirty_row o
unfolding from_row
dirty_entry-from_row none = refl
dirty_entry-from_row (some r) = refl

is_dirty_row : (p : IcPath) (db : Database) → is_dirty_at p db ≡ dirty_row (row_at p db.entries)
unfolding get_entry
is_dirty_row p db = dirty_entry-from_row (row_at p db.entries)

-- An UPDATE that leaves the flag of the rows at `p`.
dirty_row-update_where :
    (p : IcPath) (c : Row → Bool) (f : Row → Row) (rows : List Row)
    → ((r : Row) → (f r).path ≡ r.path)
    → ((r : Row) → r.path ≡ p → (if c r then f r else r).dirty ≡ r.dirty)
    → dirty_row (row_at p (update_where c f rows)) ≡ dirty_row (row_at p rows)
dirty_row-update_where p c f rows keep flag =
    ap dirty_row (row_at-update_where p c f rows keep) ∙ elim (Option-cases (row_at p rows)) [
      | inl gone ↦ rw gone refl
      | inr (r, found) ↦ rw found (flag r (path-row_at p rows r found))
    ]

module _ (db : Database) (p : IcPath) where
  pub is_dirty_at-mark_hydrated :
      (q : IcPath) (sha : Option Text) (size : Option ℕ) (mtime : Option ℤ)
      → is_dirty_at p (mark_hydrated db q sha size mtime) ≡ is_dirty_at p db
  unfolding mark_hydrated
  is_dirty_at-mark_hydrated q sha size mtime =
      is_dirty_row p _
      ∙ (dirty_row-update_where p (at_path q) _ db.entries (λ r. refl) (λ r at. ground arith)
          ∙ sym (is_dirty_row p db))

  module _ (q : IcPath) (other : (p == q) ≡ false) (now : ℤ) where
    pub is_dirty_at-mark_clean :
        (remote : Option Node) (sha : Option Text)
        → is_dirty_at p (mark_clean db now q remote sha) ≡ is_dirty_at p db
    unfolding mark_clean
    is_dirty_at-mark_clean remote sha =
        is_dirty_row p _
        ∙ (dirty_row-update_where p (at_path q) (cleaned now remote sha) db.entries (λ r. refl)
              (λ r at. ground (arith, other))
            ∙ sym (is_dirty_row p db))

    pub is_dirty_at-mark_synced_subtree :
        is_dirty_at p (mark_synced_subtree db now q) ≡ is_dirty_at p db
    unfolding mark_synced_subtree
    is_dirty_at-mark_synced_subtree =
        is_dirty_row p _
        ∙ (dirty_row-update_where p _ _ db.entries (λ r. refl) (λ r at. ground (arith, other))
            ∙ sym (is_dirty_row p db))
