-- ===== src/Hydrate.antt =====
-- crates/icloud-core/src/hydrate.rs: what an explicit download plans and reports. The database is read
-- as it is; the read through the mount (`touch`) and the cancel flag are parameters.
pub mod Plans
pub mod Reports
mod Tests
use icloud_linux.Prelude.{
  ℕ, ◌+◌, ◌%◌, ◌^◌, Bool, true, false, not, ◌||◌, List, [], ◌∷◌, ◌++◌, length, Option, none, some,
  Text, if◌then◌else◌,
}
use icloud_linux.Path.{IcPath}
use icloud_linux.Policy.{SyncPolicy, allows}
use icloud_linux.Drive.{NodeKind, file, folder}
use icloud_linux.State.Rows.{Entry}
use icloud_linux.State.{Database}
use icloud_linux.State.Queries.{get_entry, list_entries}

pub record Plan : Type 0 where
  pub pending : List (IcPath × ℕ)
  pub already_local : ℕ
  pub excluded : ℕ

unfoldable pub eligible : Plan → ℕ
eligible p = (length p.pending + p.already_local) % 2 ^ 64

abbrev pub is_file : NodeKind → Bool
is_file file = true
is_file _ = false

-- The body of the loops of `plan` and `plan_files`; `at` is the path that the policy is asked about.
abbrev pub plan_entry : SyncPolicy → IcPath → Entry → Plan → Plan
plan_entry policy at e p =
    if not (is_file e.kind) || e.tombstone
    then p
    else if not (allows policy at)
    then record p { excluded = (p.excluded + 1) % 2 ^ 64 }
    else if e.hydrated
    then record p { already_local = (p.already_local + 1) % 2 ^ 64 }
    else record p { pending = p.pending ++ ((e.path, e.size) ∷ []) }

unfoldable pub plan_entries : SyncPolicy → List Entry → Plan → Plan
plan_entries policy [] p = p
plan_entries policy (e ∷ es) p = plan_entries policy es (plan_entry policy e.path e p)

abbrev pub no_plan : Plan
no_plan = record { pending = []; already_local = 0; excluded = 0 }

unfoldable pub plan : SyncPolicy → Database → Plan
plan policy db = plan_entries policy (list_entries db) no_plan

unfoldable pub plan_paths : SyncPolicy → Database → List IcPath → Plan → Plan
plan_paths policy db [] p = p
plan_paths policy db (path ∷ paths) p =
    plan_paths policy db paths
      (elim (get_entry db path) [ none ↦ p | some e ↦ plan_entry policy path e p ])

unfoldable pub plan_files : SyncPolicy → Database → List IcPath → Plan
plan_files policy db files = plan_paths policy db files no_plan

pub record Report : Type 0 where
  pub succeeded : ℕ
  pub failed : List (IcPath × Text)
  pub interrupted : Bool

-- `touch` gives the message of its error. `cancel i` is the flag before the i-th file.
unfoldable pub run_from :
    (IcPath → Option Text) → (ℕ → Bool) → ℕ → List (IcPath × ℕ) → Report → Report
run_from touch cancel i [] report = report
run_from touch cancel i ((path, size) ∷ rest) report =
    let more = run_from touch cancel (i + 1) rest (elim (touch path) [
      | none ↦ record report { succeeded = (report.succeeded + 1) % 2 ^ 64 }
      | some err ↦ record report { failed = report.failed ++ ((path, err) ∷ []) }
    ]) in
    if cancel i then record report { interrupted = true } else more

unfoldable pub run : (IcPath → Option Text) → (ℕ → Bool) → Plan → Report
run touch cancel p =
    run_from touch cancel 0 p.pending (record { succeeded = 0; failed = []; interrupted = false })
