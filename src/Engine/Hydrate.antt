-- ===== src/Engine/Hydrate.antt =====
-- `hydrate` of crates/icloud-core/src/engine/download.rs.
pub mod Kept
use icloud_linux.Prelude.{
  ℕ, zero, suc, Bool, true, false, not, ◌&&◌, Option, none, some, if◌then◌else◌, nat_eq, text_eq,
}
use icloud_linux.Prelude.Exec.{Exec, pure, raise, ◌>>=◌, ◌>>◌}
use icloud_linux.Path.{IcPath}
use icloud_linux.Policy.{allows}
use icloud_linux.State.{Database}
use icloud_linux.State.Rows.{Entry}
use icloud_linux.State.Queries.{get_entry}
use icloud_linux.Engine.Site.{Site, Setting, Failure, setup, forbidden, asks}
use icloud_linux.Engine.Download.{is_file, ensure_local_file}

abbrev pub max_hydrate_attempts : ℕ
max_hydrate_attempts = 3

-- A live file that is not local.
abbrev is_missing : Option Entry → Bool
is_missing none = false
is_missing (some e) = is_file e.kind && (not e.tombstone && not e.hydrated)

abbrev still_missing : IcPath → Database → Bool
still_missing path db = is_missing (get_entry db path)

module _ {R : Type 0} (set : Setting R) where
  abbrev pub unless_local :
      Exec (Site R) Failure (Unit {0}) → Bool → Exec (Site R) Failure (Unit {0})
  unless_local again true = again
  unless_local again false = pure tt

  unfoldable pub hydrate_attempts : ℕ → IcPath → Exec (Site R) Failure (Unit {0})
  hydrate_attempts zero path = raise setup
  hydrate_attempts (suc n) path = do
    ensure_local_file set path
    missing ← asks (still_missing path)
    unless_local (hydrate_attempts n path) missing

  unfoldable pub hydrate : IcPath → Exec (Site R) Failure (Unit {0})
  hydrate path =
      if not (allows set.policy path)
      then raise forbidden
      else hydrate_attempts max_hydrate_attempts path
