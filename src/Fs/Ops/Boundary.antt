-- ===== src/Fs/Ops/Boundary.antt =====
-- No operation changes what lies outside the sync boundary.
use mathlib.Core.Option.{map as map_option}
use icloud_linux.Prelude.{
  ℕ, Bool, true, false, List, [], ◌∷◌, ◌≡◌, refl, ap, inl, inr, arith, any, All, Option, Bool-cases,
  nat_eq, text_eq, sym,
}
use icloud_linux.Prelude.Exec.Runs.{Keeps-ok, Keeps, Keeps-bind}
use icloud_linux.Path.{IcPath, is_within}
use icloud_linux.Path.Components.{IsNormal, IsSlashless}
use icloud_linux.Policy.{SyncPolicy, allows, none_or_any}
use icloud_linux.Path.Order.{within_trans}
use icloud_linux.Policy.Boundary.{IsValid, allow_mono}
use icloud_linux.State.Rows.{Row, from_row}
use icloud_linux.State.Lookup.{row_at}
use icloud_linux.State.Queries.{get_entry}
use icloud_linux.State.Subtree.{AreNormal}
use icloud_linux.State.Graves.{has_nul}
use icloud_linux.Engine.Site.{Site, Setting}
use icloud_linux.Fs.Hydrating.{IsCalm, hydrates, hydrates-HasRow}
use icloud_linux.Fs.World.{World, Host}
use mathlib.Core.Path.{subst}
use icloud_linux.Fs.Ops.Changes.{
  renames, removes, unlinks, dates, cuts, writes, makes_folder, makes_file, Change, operands,
  perform, is_closed, perform_closed,
}
use icloud_linux.Fs.Ops.Kept.{IsKept}
use icloud_linux.Fs.Ops.Frame.{
  KeepsRow, Keeps-create, Keeps-mkdir, Keeps-write, Keeps-truncate, Keeps-set_mtime, Keeps-unlink,
  Keeps-rmdir,
}
use icloud_linux.Fs.Ops.Moves.{Keeps-rename}

-- Does the path lie in one of `sync_paths`, if there are any?
abbrev pub is_covered : SyncPolicy → IcPath → Bool
is_covered policy q = none_or_any (λ d. is_within q d) policy.allow

module _ (host : Host) (q : IcPath) (v : Option Row) (calm : KeepsRow host q v) (nq : IsNormal q)
    (real : has_nul q ≡ false) (marked : (k : ℕ) → IsSlashless (host.markers k)) where
  pub Keeps-perform :
      (c : Change)
      → All IsNormal (operands c)
      → All (λ p. is_within q p ≡ false) (operands c)
      → Keeps (IsKept q v) (perform host c)
  Keeps-perform (makes_file p) n out =
      Keeps-bind _ _ (Keeps-create q v host calm p n.0 nq out.0 real marked) λ a. Keeps-ok _
  Keeps-perform (makes_folder p) n out = Keeps-mkdir q v host calm p n.0 nq out.0 real marked
  Keeps-perform (writes p offset new) n out =
      Keeps-bind _ _ (Keeps-write q v host calm p n.0 nq out.0 real marked offset new)
        λ a. Keeps-ok _
  Keeps-perform (cuts p len) n out = Keeps-truncate q v host calm p n.0 nq out.0 real marked len
  Keeps-perform (dates p mtime) n out =
      Keeps-set_mtime q v host calm p n.0 nq out.0 real marked mtime
  Keeps-perform (unlinks p) n out = Keeps-unlink q v host calm p n.0 nq out.0 real marked
  Keeps-perform (removes p) n out = Keeps-rmdir q v host calm p n.0 nq out.0 real marked
  Keeps-perform (renames from to) n out =
      Keeps-rename q v host calm from to n.0 n.1.0 nq real marked out.0 out.1.0

-- What lies in an allowed path lies in one of `sync_paths`.
covered_below :
    (policy : SyncPolicy) (p q : IcPath)
    → IsValid policy
    → IsNormal p
    → IsNormal q
    → is_within q p ≡ true
    → allows policy p ≡ true
    → is_covered policy q ≡ true
covered_below policy p q valid np nq inside allowed_ =
    allow_mono (λ d. is_within p d) (λ d. is_within q d) policy.allow valid.allowed
      (λ d nd h. within_trans q p d nq np nd inside h) (unfold allows in ground (arith, allowed_))

-- A path in none of `sync_paths` lies in no path at which something may be changed.
outside_allowed :
    (w : World) (q : IcPath)
    → IsValid w.fs.policy
    → IsNormal q
    → is_covered w.fs.policy q ≡ false
    → (ps : List IcPath) → All IsNormal ps
    → any (is_closed w.fs) ps ≡ false
    → All (λ p. is_within q p ≡ false) ps
outside_allowed w q valid nq denied [] n h = tt
outside_allowed w q valid nq denied (p ∷ ps) n h = (
  elim (Bool-cases (is_within q p)) [
    | inl inside ↦
        absurd (cc (covered_below w.fs.policy p q valid n.0 nq inside (ground (arith, h)), denied))
    | inr out ↦ out
  ],
  outside_allowed w q valid nq denied ps n.1 (ground (arith, h)),
)

hydrates-KeepsRow :
    {R : Type 0} (set : Setting R) (s : Site R) (host : Host) (q : IcPath) (v : Option Row)
    → IsCalm set q v
    → host.lazy ≡ false
    → ◌≡◌ {A = IcPath → World → Bool × World} host.hydrate (hydrates set s)
    → KeepsRow host q v
hydrates-KeepsRow set s host q v calm eager engine = record {
  eager = eager;
  fetching = λ p w away k.
      subst (λ h. IsKept q v (h p w).1) (sym engine)
        (let h =
            hydrates-HasRow set s q p v w calm away (record { same = k.same; normal = k.normal }) in
          record { same = h.same; normal = h.normal });
}

-- Where folders are not listed on demand, and downloads are those of the engine: whatever an operation is
-- called with and whether it succeeds or not, the entry at a path that lies in none of the configured
-- `sync_paths` is afterwards what it was. The path is one of a file system (it has no NUL); the paths
-- are normal, and so are those of the rows; the random markers have no slash; and what other threads do
-- during a download leaves that entry.
pub perform_outside :
    {R : Type 0} (set : Setting R) (s : Site R) (host : Host) (c : Change) (w : World) (q : IcPath)
    → IsValid w.fs.policy
    → AreNormal w.fs.state.entries
    → All IsNormal (operands c)
    → IsNormal q
    → has_nul q ≡ false
    → ((k : ℕ) → IsSlashless (host.markers k))
    → host.lazy ≡ false
    → ◌≡◌ {A = IcPath → World → Bool × World} host.hydrate (hydrates set s)
    → IsCalm set q (row_at q w.fs.state.entries)
    → is_covered w.fs.policy q ≡ false
    → get_entry (perform host c w).1.fs.state q ≡ get_entry w.fs.state q
perform_outside set s host c w q valid rows n nq real marked eager engine calm denied =
    elim (Bool-cases (any (is_closed w.fs) (operands c))) [
      | inl closed ↦ ap (λ x. get_entry x.1.fs.state q) (perform_closed host c w closed)
      | inr clear ↦
          let v = row_at q w.fs.state.entries in
          let kept =
            (Keeps-perform host q v (hydrates-KeepsRow set s host q v calm eager engine) nq real
                marked c n (outside_allowed w q valid nq denied (operands c) n clear)).at
              w (record { same = refl; normal = rows }) in
          unfold get_entry in ap (map_option from_row) kept.same
    ]
