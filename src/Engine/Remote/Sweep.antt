-- ===== src/Engine/Remote/Sweep.antt =====
-- What the sweep of a listed folder removes from the database.
use icloud_linux.Errno.{Errno}
use mathlib.Core.Path.{subst}
use icloud_linux.Prelude.{
  ◌||◌, contains, Bool, true, false, not, ◌&&◌, any, List, [], ◌∷◌, none, Text, ◌≡◌, refl, inl, inr,
  arith, if◌then◌else◌, text_eq, nat_eq, some, Option, ◌⊎◌,
}
use icloud_linux.Prelude.Exec.{ok, continue, pure, ◌>>=◌, Exec, Result, err}
use icloud_linux.Path.{IcPath, is_within}
use icloud_linux.Path.Components.{IsNormal}
use icloud_linux.State.Rows.{Entry}
use icloud_linux.State.Queries.{get_entry, list_children}
use icloud_linux.State.Writes.{remove_subtree}
use icloud_linux.State.Entries.{get_entry-remove_subtree}
use icloud_linux.Mirror.Files.{Disk}
use icloud_linux.Mirror
use icloud_linux.Engine.Site.{
  Site, from_mirror, on_mirror, Failure, write_state, written, reached, next_access,
}
use icloud_linux.Engine.Remote.{some, Option, is_seen, is_kept, remove_gone, sweep, sweep_folder}

abbrev is_unlisted : List Text → Option Text → Bool
is_unlisted seen none = false
is_unlisted seen (some id) = not (contains id seen)

-- iCloud knew the entry and does not list it, and it has no changes.
abbrev pub is_missing : List Text → Entry → Bool
is_missing seen e = not e.dirty && is_unlisted seen e.remote_drivewsid

-- Is the path in the subtree of a missing entry?
abbrev pub is_swept : List Text → List Entry → IcPath → Bool
is_swept seen es p = any (λ e. is_missing seen e && is_within p e.path) es

is_kept-is_missing : (seen : List Text) (e : Entry) → not (is_kept seen e) ≡ is_missing seen e
is_kept-is_missing seen e = go e.remote_drivewsid
  where
    go :
        (id : Option Text) → not (is_seen seen id || e.dirty) ≡ (not e.dirty && is_unlisted seen id)
    go none = ground arith
    go (some id) = ground arith

-- What a run leaves of the row at a path that held `before`: where it succeeds, none if the row is to
-- go; where it fails, the row is as before or it was to go and is gone.
abbrev pub Drops :
    {R : Type 0} → Option Entry → Bool → IcPath → Result Failure (Unit {0}) × Site R → Type 0
Drops before goes p (ok u, s) = get_entry s.state p ≡ (if goes then none else before)
Drops before goes p (err e, s) =
    (get_entry s.state p ≡ before) ⊎ ((goes ≡ true) × (get_entry s.state p ≡ none))

module _ {R : Type 0} (p : IcPath) where
  Drops-also :
      (a b : Bool) (before : Option Entry) (x : Result Failure (Unit {0}) × Site R)
      → Drops (if a then none else before) b p x
      → Drops before (a || b) p x
  Drops-also true true before (ok u, s) h = h
  Drops-also true false before (ok u, s) h = h
  Drops-also false b before (ok u, s) h = h
  Drops-also true b before (err e, s) (inl h) = inr (refl, h)
  Drops-also true b before (err e, s) (inr (goes, h)) = inr (refl, h)
  Drops-also false b before (err e, s) h = h

  continue-Drops :
      (a b : Bool) (before : Option Entry) (f : Unit {0} → Exec (Site R) Failure (Unit {0}))
      (x : Result Failure (Unit {0}) × Site R)
      → Drops before a p x
      → ((t : Site R) → Drops (get_entry t.state p) b p (f tt t))
      → Drops before (a || b) p (continue f x)
  continue-Drops a b before f (ok u, t) h k =
      Drops-also a b before (f tt t) (subst (λ o. Drops o b p (f tt t)) h (k t))
  continue-Drops a b before f (err e, t) (inl h) k = inl h
  continue-Drops a b before f (err e, t) (inr (goes, h)) k = inr (rw goes refl, h)

  module _ (n : IsNormal p) where
    mirror-Drops :
        (m : Exec Disk Errno (Unit {0})) (s : Site R)
        → Drops (get_entry s.state p) false p (on_mirror m s)
    unfolding on_mirror
    mirror-Drops m s = go (s.faults 0)
      where
        from :
            (x : Result Errno (Unit {0}) × Disk)
            → Drops (get_entry s.state p) false p (from_mirror (next_access s) x)
        from (ok u, d) = refl
        from (err e, d) = inl refl

        go :
            (o : Option (Errno × Disk))
            → Drops (get_entry s.state p) false p (reached m (next_access s) o)
        go none = from (m s.disk)
        go (some (e, d)) = inl refl

    remove_subtree-Drops :
        (path : IcPath) (s : Site R)
        → Drops
            (get_entry s.state p)
            (is_within p path)
            p
            (write_state (λ db. remove_subtree db path) s)
    unfolding write_state
    remove_subtree-Drops path s = go (s.faults 0)
      where
        go :
            (o : Option (Errno × Disk))
            → Drops
                (get_entry s.state p)
                (is_within p path)
                p
                (written (λ db. remove_subtree db path) (next_access s) o)
        go none = (get_entry-remove_subtree s.state path p n).0
        go (some x) = inl refl

    remove_gone-Drops :
        (kept : Bool) (path : IcPath) (s : Site R)
        → Drops (get_entry s.state p) (not kept && is_within p path) p (remove_gone kept path s)
    unfolding remove_gone pure ◌>>=◌
    remove_gone-Drops true path s = refl
    remove_gone-Drops false path s =
        continue-Drops false (is_within p path) (get_entry s.state p)
          (λ u. write_state (λ db. remove_subtree db path)) (on_mirror (Mirror.remove_tree path) s)
          (mirror-Drops (Mirror.remove_tree path) s) (remove_subtree-Drops path)

    sweep-Drops :
        (seen : List Text) (es : List Entry) (s : Site R)
        → Drops (get_entry s.state p) (is_swept seen es p) p (sweep seen es s)
    unfolding sweep pure ◌>>=◌
    sweep-Drops seen [] s = refl
    sweep-Drops seen (e ∷ es) s =
        continue-Drops (is_missing seen e && is_within p e.path) (is_swept seen es p)
          (get_entry s.state p) (λ u. sweep seen es) (remove_gone (is_kept seen e) e.path s)
          (subst
            (λ b.
              Drops (get_entry s.state p) (b && is_within p e.path) p
                (remove_gone (is_kept seen e) e.path s))
            (is_kept-is_missing seen e) (remove_gone-Drops (is_kept seen e) e.path s))
          (sweep-Drops seen es)

    -- A sweep of a folder that succeeds removes from the database the entries of the folder that iCloud
    -- knew, that are not among the ids now seen and that have no changes, each with all that is within
    -- it, changed or not; each other normal path keeps its entry. A sweep that fails, on the disk or in
    -- the database, leaves at each normal path the entry that was there, or none at one of those that
    -- were to be removed.
    pub sweep_folder-get_entry :
        (path : IcPath) (seen : List Text) (s : Site R)
        → Drops
            (get_entry s.state p)
            (is_swept seen (list_children s.state path) p)
            p
            (sweep_folder path seen s)
    unfolding sweep_folder
    sweep_folder-get_entry path seen s = sweep-Drops seen (list_children s.state path) s
