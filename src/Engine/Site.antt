-- ===== src/Engine/Site.antt =====
-- What the sync engine works on (the `Inner` of crates/icloud-core/src/engine/mod.rs), and iCloud Drive
-- as an interface (the trait `Drive` of crates/icloud-api/src/drive.rs).
pub mod Kept
use icloud_linux.Prelude.{
  some, ℕ, Bool, true, false, List, Option, none, Text, if◌then◌else◌, suc, zero,
}
use icloud_linux.Prelude.Int.{ℤ}
use icloud_linux.Prelude.Exec.{Result, ok, err, Exec}
use icloud_linux.Errno.{Errno}
use icloud_linux.Policy.{SyncPolicy}
use icloud_linux.Drive.{Node}
use icloud_linux.Config.{DeleteMode}
use icloud_linux.State.{Database}
use icloud_linux.Mirror.Files.{Disk}

-- `Error` of crates/icloud-core/src/error.rs, without its messages and without the kinds that the
-- modelled functions never make. `api` says whether only a new sign-in helps.
pub data Failure : Type 0 where
  api : Bool → Failure
  io : Errno → Failure
  database : Failure
  setup : Failure
  forbidden : Failure

abbrev pub is_auth : Failure → Bool
is_auth (api auth) = auth
is_auth _ = false

-- `download` is the trait's `open`, read to the end: a file's bytes.
pub record Cloud (R : Type 0) : Type 0 where
  pub root : R → Result Bool Node × R
  pub node : Text → Option Text → R → Result Bool Node × R
  pub children : Node → R → Result Bool (List Node) × R
  pub download : Node → R → Result Bool (List ℕ) × R
  pub upload : Node → Text → List ℕ → ℤ → R → Result Bool (Unit {0}) × R
  pub create_folder : Node → Text → R → Result Bool (Unit {0}) × R
  pub delete : Node → DeleteMode → R → Result Bool (Unit {0}) × R
  pub rename : Node → Text → R → Result Bool (Unit {0}) × R
  pub move_to : Node → Node → R → Result Bool (Unit {0}) × R

-- `root` is the cached root folder, `stopped` the signal to stop. `faults` says of each coming access of
-- the disk, and of each coming write of the database, whether it fails: with which error, and how it
-- leaves the disk. What fails in the database is rolled back.
pub record Site (R : Type 0) : Type 0 where
  pub state : Database
  pub disk : Disk
  pub root : Option Node
  pub auth_lost : Bool
  pub stopped : Bool
  pub remote : R
  pub faults : ℕ → Option (Errno × Disk)

-- What does not change: the clock and the configuration, iCloud, SHA-256, and what other threads do
-- while a file is transferred.
pub record Setting (R : Type 0) : Type 0 where
  pub now : ℤ
  pub policy : SyncPolicy
  pub delete_mode : DeleteMode
  pub cloud : Cloud R
  pub sha256 : List ℕ → Text
  pub meanwhile : Site R → Site R

module _ {R : Type 0} where
  abbrev pub from_cloud : {A : Type 0} → Site R → Result Bool A × R → Result Failure A × Site R
  from_cloud s (ok a, r) = (ok a, record s { remote = r })
  from_cloud s (err auth, r) = (err (api auth), record s { remote = r })

  unfoldable pub on_cloud : {A : Type 0} → (R → Result Bool A × R) → Exec (Site R) Failure A
  on_cloud m s = from_cloud s (m s.remote)

  abbrev pub from_mirror : {A : Type 0} → Site R → Result Errno A × Disk → Result Failure A × Site R
  from_mirror s (ok a, d) = (ok a, record s { disk = d })
  from_mirror s (err e, d) = (err (io e), record s { disk = d })

  abbrev pub next_access : Site R → Site R
  next_access s = record s { faults = λ k. s.faults (suc k) }

  abbrev pub reached :
      {A : Type 0} → Exec Disk Errno A → Site R → Option (Errno × Disk) → Result Failure A × Site R
  reached m s none = from_mirror s (m s.disk)
  reached m s (some (e, d)) = (err (io e), record s { disk = d })

  unfoldable pub on_mirror : {A : Type 0} → Exec Disk Errno A → Exec (Site R) Failure A
  on_mirror m s = reached m (next_access s) (s.faults 0)

  abbrev pub written :
      (Database → Database) → Site R → Option (Errno × Disk) → Result Failure (Unit {0}) × Site R
  written f s none = (ok tt, record s { state = f s.state })
  written f s (some x) = (err database, s)

  -- A write of the database that may fail.
  unfoldable pub write_state : (Database → Database) → Exec (Site R) Failure (Unit {0})
  write_state f s = written f (next_access s) (s.faults 0)

  -- A write of the database that is taken to succeed.
  unfoldable pub on_state : (Database → Database) → Exec (Site R) Failure (Unit {0})
  on_state f s = (ok tt, record s { state = f s.state })

  abbrev pub stored :
      Site R → Option Database → Option (Errno × Disk) → Result Failure (Unit {0}) × Site R
  stored s (some db) none = (ok tt, record s { state = db })
  stored s _ _ = (err database, s)

  -- A write that SQLite may also refuse.
  unfoldable pub try_state : (Database → Option Database) → Exec (Site R) Failure (Unit {0})
  try_state f s = stored (next_access s) (f s.state) (s.faults 0)

  -- A look at the database, which is taken to succeed.
  unfoldable pub asks : {A : Type 0} → (Database → A) → Exec (Site R) Failure A
  asks f s = (ok (f s.state), s)

  -- `Engine::note_failure`
  unfoldable pub note_failure : Failure → Site R → Site R
  note_failure f s = if is_auth f then record s { auth_lost = true } else s

  unfoldable pub others_act : Setting R → Exec (Site R) Failure (Unit {0})
  others_act set s = (ok tt, set.meanwhile s)
