-- ===== src/Engine/Hydrate/Kept.antt =====
-- What `hydrate` keeps.
use icloud_linux.Prelude.{
  ℕ, zero, suc, Bool, true, false, Option, Text, inl, inr, Bool-cases, nat_eq, text_eq,
}
use icloud_linux.Prelude.Int.{ℤ}
use icloud_linux.Prelude.Exec.{Exec}
use icloud_linux.Prelude.Exec.Runs.{Keeps, Keeps-bind, Keeps-ok, Keeps-err}
use icloud_linux.Path.{IcPath}
use icloud_linux.Policy.{allows}
use icloud_linux.State.{Database}
use icloud_linux.State.Writes.{mark_hydrated}
use icloud_linux.Engine.Site.{Site, Setting, Failure}
use icloud_linux.Engine.Site.Kept.{On, Keeps-asks}
use icloud_linux.Engine.Download.Kept.{Keeps-ensure_local_file}
use icloud_linux.Engine.Hydrate.{unless_local, hydrate_attempts, hydrate}

module _ {R : Type 0} (set : Setting R) (P : Database → Type 0) (q : IcPath)
    (calm : (s : Site R) → On P s → On P (set.meanwhile s))
    (noted : (db : Database) (sha : Option Text) (size : Option ℕ) (mtime : Option ℤ)
      → P db
      → P (mark_hydrated db q sha size mtime)) where
  Keeps-unless_local :
      (again : Exec (Site R) Failure (Unit {0})) (b : Bool)
      → Keeps (On P) again
      → Keeps (On P) (unless_local set again b)
  Keeps-unless_local again true k = k
  Keeps-unless_local again false k = Keeps-ok tt

  Keeps-hydrate_attempts : (n : ℕ) → Keeps (On P) (hydrate_attempts set n q)
  unfolding hydrate_attempts
  Keeps-hydrate_attempts zero = Keeps-err _
  Keeps-hydrate_attempts (suc n) = Keeps-bind _ _ (Keeps-ensure_local_file set P q calm noted) λ u.
      Keeps-bind _ _ (Keeps-asks P _)
        λ missing. Keeps-unless_local _ missing (Keeps-hydrate_attempts n)

  pub Keeps-hydrate : Keeps (On P) (hydrate set q)
  unfolding hydrate
  Keeps-hydrate = elim (Bool-cases (allows set.policy q)) [
    | inl allowed ↦ rw allowed (Keeps-hydrate_attempts 3)
    | inr denied ↦ rw denied (Keeps-err _)
  ]
