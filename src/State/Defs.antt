-- ===== src/State/Defs.antt =====
-- The tables, and the clauses that several statements share.
use icloud_linux.Prelude.{
  ℕ, Bool, false, ◌&&◌, ◌||◌, List, [], Option, none, some, Text, ltb, ◌==◌, nat_eq, text_eq,
}
use icloud_linux.Prelude.Int.{ℤ}
use icloud_linux.Path.{IcPath}
use icloud_linux.Path.Bounds.{in_subtree, text_lt}
use icloud_linux.State.Rows.{Row}
use icloud_linux.State.Sql.{sql_length}

-- A row of `pending_ops`. No statement reads or writes `retry_count` and `last_error`.
pub record Op : Type 0 where
  pub id : ℕ
  pub op : Text
  pub path : Text
  pub target_path : Option Text
  pub queued_at : ℤ

-- A row of `folder_listings`.
pub record Listing : Type 0 where
  pub path : Text
  pub remote_drivewsid : Option Text
  pub listed_at : ℤ

-- `next_id` is the AUTOINCREMENT counter of `pending_ops`.
pub record Database : Type 0 where
  pub entries : List Row
  pub pending_ops : List Op
  pub next_id : ℕ
  pub folder_listings : List Listing

-- What SCHEMA creates.
abbrev pub empty : Database
empty = record { entries = []; pending_ops = []; next_id = 1; folder_listings = [] }

-- `WHERE path = ?`
abbrev pub at_path : Text → Row → Bool
at_path p r = r.path == p

-- `ORDER BY path`
abbrev pub by_path : Row → Row → Bool
by_path a b = text_lt a.path b.path

-- `ORDER BY LENGTH(path) ASC, path ASC`
abbrev pub by_length : Row → Row → Bool
by_length a b =
    ltb (sql_length a.path) (sql_length b.path)
    || (sql_length a.path == sql_length b.path && text_lt a.path b.path)

-- `target_path` fits a test; NULL fits none.
abbrev pub target_fits : (Text → Bool) → Option Text → Bool
target_fits test none = false
target_fits test (some t) = test t

-- `path = ?1 OR target_path = ?1`
abbrev pub op_at : IcPath → Op → Bool
op_at p o = o.path == p || target_fits (λ t. t == p) o.target_path

-- The same for the rows of a subtree.
abbrev pub op_in : IcPath → Op → Bool
op_in p o = in_subtree p o.path || target_fits (in_subtree p) o.target_path

abbrev pub listing_in : IcPath → Listing → Bool
listing_in p l = in_subtree p l.path
