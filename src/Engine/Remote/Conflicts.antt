-- ===== src/Engine/Remote/Conflicts.antt =====
-- What a conflict leaves in the database: `resolve_conflict` of crates/icloud-core/src/engine/remote.rs.
use mathlib.Core.Option.{map as map_option}
use icloud_linux.Prelude.{Option, none, some, ◌≡◌}
use icloud_linux.Prelude.Exec.{Exec, Result, ok, err}
use icloud_linux.Path.{IcPath}
use icloud_linux.State.{Database}
use icloud_linux.State.Rows.{Entry}
use icloud_linux.State.Queries.{get_entry}
use icloud_linux.State.Detached.{detached}
use icloud_linux.Errno.{Errno}
use icloud_linux.Mirror
use icloud_linux.Engine.Site.{Site, Failure}

-- A run that fails leaves the database as it is, one that succeeds a database with `P`.
abbrev pub Leaves :
    {R : Type 0} → Database → (Database → Type 0) → Result Failure (Unit {0}) × Site R → Type 0
Leaves db P (ok u, s) = P s.state
Leaves db P (err e, s) = s.state ≡ db

-- The entry is a local one at the other path.
abbrev pub IsCopied : Entry → IcPath → IcPath → Database → Type 0
IsCopied d p q db = (get_entry db q ≡ some (detached d q)) × (get_entry db p ≡ none)

abbrev Same : Database → Database → Type 0
Same db db' = db' ≡ db
