-- ===== src/Engine/Site/Kept.antt =====
-- What the actions of the engine keep of the database.
use icloud_linux.Prelude.{Bool, Option, none, some}
use icloud_linux.Prelude.Exec.{Result, ok, err, Exec}
use icloud_linux.Prelude.Exec.Runs.{Keeps}
use icloud_linux.Errno.{Errno}
use icloud_linux.State.{Database}
use icloud_linux.Mirror.Files.{Disk}
use icloud_linux.Engine.Site.{
  Site, Setting, from_cloud, on_cloud, from_mirror, reached, on_mirror, written, write_state, asks,
  others_act,
}

-- The database of a site has `P`.
abbrev pub On : {R : Type 0} → (Database → Type 0) → Site R → Type 0
On P s = P s.state

module _ {R : Type 0} (P : Database → Type 0) where
  module _ {A : Type 0} where
    from_cloud-On : (s : Site R) (x : Result Bool A × R) → On P s → On P (from_cloud s x).1
    from_cloud-On s (ok a, r) h = h
    from_cloud-On s (err c, r) h = h

    pub Keeps-on_cloud : (m : R → Result Bool A × R) → Keeps (On P) (on_cloud m)
    unfolding on_cloud
    Keeps-on_cloud m = record { at = λ s h. from_cloud-On s (m s.remote) h }

    from_mirror-On : (s : Site R) (x : Result Errno A × Disk) → On P s → On P (from_mirror s x).1
    from_mirror-On s (ok a, d) h = h
    from_mirror-On s (err c, d) h = h

    reached-On :
        (m : Exec Disk Errno A) (s : Site R) (o : Option (Errno × Disk))
        → On P s
        → On P (reached m s o).1
    reached-On m s none h = from_mirror-On s (m s.disk) h
    reached-On m s (some (e, d)) h = h

    pub Keeps-on_mirror : (m : Exec Disk Errno A) → Keeps (On {R = R} P) (on_mirror m)
    unfolding on_mirror
    Keeps-on_mirror m = record { at = λ s h. reached-On m _ (s.faults 0) h }

    pub Keeps-asks : (f : Database → A) → Keeps (On {R = R} P) (asks f)
    unfolding asks
    Keeps-asks f = record { at = λ s h. h }

  written-On :
      (f : Database → Database) (s : Site R) (o : Option (Errno × Disk))
      → (P s.state → P (f s.state))
      → On P s
      → On P (written f s o).1
  written-On f s none keep h = keep h
  written-On f s (some x) keep h = h

  pub Keeps-write_state :
      (f : Database → Database)
      → ((db : Database) → P db → P (f db))
      → Keeps (On {R = R} P) (write_state f)
  unfolding write_state
  Keeps-write_state f keep = record { at = λ s h. written-On f _ (s.faults 0) (keep s.state) h }

  pub Keeps-others_act :
      (set : Setting R)
      → ((s : Site R) → On P s → On P (set.meanwhile s))
      → Keeps (On P) (others_act set)
  unfolding others_act
  Keeps-others_act set calm = record { at = λ s h. calm s h }
