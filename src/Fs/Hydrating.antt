-- ===== src/Fs/Hydrating.antt =====
-- The engine's `hydrate` (crates/icloud-core/src/engine/download.rs) as the mount calls it.
use icloud_linux.Prelude.Int.{ℤ}
use icloud_linux.Prelude.{Bool, true, false, Option, ◌≡◌, ◌==◌, nat_eq, text_eq, ℕ, Text, refl, ◌∙◌}
use icloud_linux.Prelude.Exec.{Result, ok, err}
use icloud_linux.Path.{IcPath}
use icloud_linux.State.{Database, at_path}
use icloud_linux.State.Rows.{Row}
use icloud_linux.State.Lookup.{row_at}
use icloud_linux.State.Subtree.{AreNormal}
use icloud_linux.State.Writes.{mark_hydrated}
use icloud_linux.State.Elsewhere.{at_path_away, update_where-IsUntouched}
use icloud_linux.Engine.Site.{Site, Setting, Failure}
use icloud_linux.Engine.Hydrate
use icloud_linux.Engine.Hydrate.Kept.{Keeps-hydrate}
use icloud_linux.Fs.World.{World}

-- The row at `q` is `v`, and each row has a normal path.
pub record HasRow (q : IcPath) (v : Option Row) (db : Database) : Type 0 where
  pub same : row_at q db.entries ≡ v
  pub normal : AreNormal db.entries

mark_hydrated-HasRow :
    (q p : IcPath) (v : Option Row) (db : Database)
    → (p == q) ≡ false
    → HasRow q v db
    → (sha : Option Text) (size : Option ℕ) (mtime : Option ℤ)
    → HasRow q v (mark_hydrated db p sha size mtime)
unfolding mark_hydrated
mark_hydrated-HasRow q p v db away h sha size mtime =
    let u =
      update_where-IsUntouched q (at_path p) (λ r. at_path_away p q r away) _ db.entries
        (λ r. refl) in
    record { same = u.same ∙ h.same; normal = u.normal h.normal }

module _ {R : Type 0} where
  -- The database and the disk are those of the mount, the rest is the engine's.
  abbrev entered : Site R → World → Site R
  entered s w = record s { state = w.fs.state; disk = w.disk }

  abbrev left : World → Site R → World
  left w s = record w { fs = record w.fs { state = s.state }; disk = s.disk }

  abbrev finished : World → Result Failure (Unit {0}) × Site R → Bool × World
  finished w (ok u, s) = (true, left w s)
  finished w (err f, s) = (false, left w s)

  unfoldable pub hydrates : Setting R → Site R → IcPath → World → Bool × World
  hydrates set s path w = finished w (Hydrate.hydrate set path (entered s w))

  -- What other threads do during a download leaves the row.
  abbrev pub IsCalm : Setting R → IcPath → Option Row → Type 0
  IsCalm set q v = (s : Site R) → HasRow q v s.state → HasRow q v (set.meanwhile s).state

  finished-HasRow :
      (q : IcPath) (v : Option Row) (w : World) (x : Result Failure (Unit {0}) × Site R)
      → HasRow q v x.1.state
      → HasRow q v (finished w x).1.fs.state
  finished-HasRow q v w (ok u, s) h = h
  finished-HasRow q v w (err f, s) h = h

  -- A download leaves the row at another path.
  pub hydrates-HasRow :
      (set : Setting R) (s : Site R) (q p : IcPath) (v : Option Row) (w : World)
      → IsCalm set q v
      → (p == q) ≡ false
      → HasRow q v w.fs.state
      → HasRow q v (hydrates set s p w).1.fs.state
  unfolding hydrates
  hydrates-HasRow set s q p v w calm away h =
      finished-HasRow q v w (Hydrate.hydrate set p (entered s w)) (
        (Keeps-hydrate set (HasRow q v) p calm
            (λ db sha size mtime k. mark_hydrated-HasRow q p v db away k sha size mtime)).at
          (entered s w) h)
