-- ===== src/State/Queue.antt =====
-- The queued operations.
use icloud_linux.Prelude.{
  ℕ, ◌+◌, Bool, ◌&&◌, ◌||◌, [], ◌∷◌, ◌++◌, any, Option, Text, codes, length, ◌==◌, nat_eq, text_eq,
  if◌then◌else◌,
}
use icloud_linux.Prelude.Int.{ℤ}
use icloud_linux.Path.{IcPath}
use icloud_linux.State.Sql.{delete_where}
use icloud_linux.State.Defs.{Database, Op}

-- `path = ?1 AND op IN (..)`
abbrev pub op_of : IcPath → (Text → Bool) → Op → Bool
op_of path test o = o.path == path && test o.op

abbrev pub creates : Text → Bool
creates op = op == codes "create" || op == codes "mkdir"

abbrev pub writes : Text → Bool
writes op = op == codes "create" || op == codes "update"

abbrev pub changes_content : Text → Bool
changes_content op = op == codes "create" || op == codes "update" || op == codes "conflict-copy"

-- The INSERT at the end of `queue_op`.
abbrev pub push_op : Database → ℤ → Text → IcPath → Option IcPath → Database
push_op db now op path target = record db {
  pending_ops =
      db.pending_ops
      ++ (record { id = db.next_id; op = op; path = path; target_path = target; queued_at = now }
          ∷ []);
  next_id = db.next_id + 1;
}

unfoldable pub queue_op : Database → ℤ → Text → IcPath → Option IcPath → Database
queue_op db now op path target =
    if op == codes "delete" && any (op_of path creates) db.pending_ops
    then record db { pending_ops = delete_where (λ o. o.path == path) db.pending_ops }
    else if op == codes "update" && any (op_of path writes) db.pending_ops
    then db
    else push_op db now op path target

unfoldable pub has_pending_content_change : Database → IcPath → Bool
has_pending_content_change db path = any (op_of path changes_content) db.pending_ops

unfoldable pub pending_op_count : Database → ℕ
pending_op_count db = length db.pending_ops
