-- ===== src/Fs/Ops/Changes.antt =====
-- The operations that change something, as one type, and what they may not change.
use icloud_linux.Prelude.{
  ℕ, Bool, true, false, not, ◌||◌, List, [], ◌∷◌, ◌≡◌, refl, arith, any, some, if◌then◌else◌,
}
use icloud_linux.Prelude.Int.{ℤ}
use icloud_linux.Prelude.Exec.{err, Exec, pure, ◌>>=◌}
use icloud_linux.Path.{IcPath}
use icloud_linux.Errno.{Errno, rofs, access}
use icloud_linux.Mirror.{is_reserved}
use icloud_linux.Fs.{FsCore, check_paths, check_mutation}
use icloud_linux.Fs.Access.{may_change}
use icloud_linux.Fs.World.{World, Host, guard}
use icloud_linux.Fs.Ops.{may_mutate}
use icloud_linux.Fs.Ops
use icloud_linux.Fs.Ops.Renames

pub data Change : Type 0 where
  makes_file : IcPath → Change
  makes_folder : IcPath → Change
  writes : IcPath → ℕ → List ℕ → Change
  cuts : IcPath → ℕ → Change
  dates : IcPath → ℤ → Change
  unlinks : IcPath → Change
  removes : IcPath → Change
  renames : IcPath → IcPath → Change

-- The paths that an operation is called with.
abbrev pub operands : Change → List IcPath
operands (makes_file p) = p ∷ []
operands (makes_folder p) = p ∷ []
operands (writes p offset new) = p ∷ []
operands (cuts p len) = p ∷ []
operands (dates p mtime) = p ∷ []
operands (unlinks p) = p ∷ []
operands (removes p) = p ∷ []
operands (renames from to) = from ∷ to ∷ []

abbrev without_value : {A : Type 0} → Exec World Errno A → Exec World Errno (Unit {0})
without_value m = m >>= λ _. pure tt

abbrev pub perform : Host → Change → Exec World Errno (Unit {0})
perform host (makes_file p) = without_value (Ops.create host p)
perform host (makes_folder p) = Ops.mkdir host p
perform host (writes p offset new) = without_value (Ops.write host p offset new)
perform host (cuts p len) = Ops.truncate host p len
perform host (dates p mtime) = Ops.set_mtime p mtime
perform host (unlinks p) = Ops.unlink host p
perform host (removes p) = Ops.rmdir host p
perform host (renames from to) = Renames.rename host from to

-- May an operation not be called with this path?
abbrev pub is_closed : FsCore → IcPath → Bool
is_closed fs p = is_reserved p || not (may_change fs p)

check_paths-closed :
    (fs : FsCore) (ps : List IcPath)
    → fs.read_only ≡ false
    → fs.signed_in ≡ true
    → any (is_closed fs) ps ≡ true
    → check_paths fs.policy ps ≡ some access
unfolding check_paths
check_paths-closed fs [] w s h = cc
check_paths-closed fs (p ∷ ps) w s h = ground (arith, check_paths-closed fs ps w s)

check_mutation-closed :
    (fs : FsCore) (ps : List IcPath)
    → any (is_closed fs) ps ≡ true
    → check_mutation fs ps ≡ some (if fs.read_only then rofs else access)
unfolding check_mutation
check_mutation-closed fs ps h = ground (arith, check_paths-closed fs ps)

-- An operation that is called with a path at which nothing may be changed (there is no session, the
-- mount is read-only, the policy does not allow the path, or it is reserved) fails with `EROFS` on a
-- read-only mount and `EACCES` otherwise, and changes neither the database nor the disk.
pub perform_closed :
    (host : Host) (c : Change) (w : World)
    → any (is_closed w.fs) (operands c) ≡ true
    → perform host c w ≡ (err (if w.fs.read_only then rofs else access), w)
unfolding guard ◌>>=◌ Ops.create Ops.mkdir Ops.write Ops.truncate Ops.set_mtime Ops.unlink Ops.rmdir
    Renames.rename
perform_closed host (makes_file p) w h = rw (check_mutation-closed w.fs (p ∷ []) h) refl
perform_closed host (makes_folder p) w h = rw (check_mutation-closed w.fs (p ∷ []) h) refl
perform_closed host (writes p offset new) w h = rw (check_mutation-closed w.fs (p ∷ []) h) refl
perform_closed host (cuts p len) w h = rw (check_mutation-closed w.fs (p ∷ []) h) refl
perform_closed host (dates p mtime) w h = rw (check_mutation-closed w.fs (p ∷ []) h) refl
perform_closed host (unlinks p) w h = rw (check_mutation-closed w.fs (p ∷ []) h) refl
perform_closed host (removes p) w h = rw (check_mutation-closed w.fs (p ∷ []) h) refl
perform_closed host (renames from to) w h = rw (check_mutation-closed w.fs (from ∷ to ∷ []) h) refl
