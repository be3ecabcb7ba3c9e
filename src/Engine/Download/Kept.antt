-- ===== src/Engine/Download/Kept.antt =====
-- What `ensure_local_file` keeps: all that the note of a file that is now local keeps.
use icloud_linux.Prelude.{
  ℕ, Bool, true, false, List, Option, none, some, Text, inl, inr, Bool-cases, nat_eq, text_eq,
}
use icloud_linux.Prelude.Int.{ℤ}
use icloud_linux.Prelude.Exec.{Result, ok, err, Exec}
use icloud_linux.Prelude.Exec.Runs.{Keeps, Keeps-bind, Keeps-ok}
use icloud_linux.Path.{IcPath}
use icloud_linux.Policy.{allows}
use icloud_linux.Drive.{Node}
use icloud_linux.State.{Database}
use icloud_linux.State.Rows.{Entry}
use icloud_linux.State.Queries.{get_entry}
use icloud_linux.State.Writes.{mark_hydrated}
use icloud_linux.Mirror.Files.{DiskNode}
use icloud_linux.Engine.Site.{Site, Setting, Failure, is_auth, note_failure}
use icloud_linux.Engine.Site.Kept.{
  On, Keeps-on_cloud, Keeps-on_mirror, Keeps-asks, Keeps-write_state, Keeps-others_act,
}
use icloud_linux.Engine.Download

module _ {R A : Type 0} (P : Database → Type 0) where
  noting-On : (x : Result Failure A × Site R) → On P x.1 → On P (Download.noting x).1
  unfolding note_failure
  noting-On (ok a, s) h = h
  noting-On (err f, s) h = elim (Bool-cases (is_auth f)) [
    | inl auth ↦ rw auth h
    | inr other ↦ rw other h
  ]

  pub Keeps-and_note :
      (m : Exec (Site R) Failure A) → Keeps (On P) m → Keeps (On P) (Download.and_note m)
  unfolding Download.and_note
  Keeps-and_note m k = record { at = λ s h. noting-On (m s) (k.at s h) }

module _ {R : Type 0} (set : Setting R) (P : Database → Type 0) (q : IcPath)
    (calm : (s : Site R) → On P s → On P (set.meanwhile s))
    (noted : (db : Database) (sha : Option Text) (size : Option ℕ) (mtime : Option ℤ)
      → P db
      → P (mark_hydrated db q sha size mtime)) where
  Keeps-note_local : (meta : DiskNode) → Keeps (On P) (Download.note_local set q meta)
  Keeps-note_local meta = Keeps-write_state P _ (λ db h. noted db _ _ _ h)

  Keeps-keep_if :
      (e : Entry) (bytes : List ℕ) (b : Bool) → Keeps (On P) (Download.keep_if set q e bytes b)
  unfolding Download.keep_download
  Keeps-keep_if e bytes false = Keeps-ok tt
  Keeps-keep_if e bytes true =
      Keeps-bind _ _ (Keeps-on_mirror P _)
        λ u. Keeps-bind _ _ (Keeps-on_mirror P _) λ meta. Keeps-note_local meta

  Keeps-fetch_or_adopt :
      (e : Entry) (o : Option Node) → Keeps (On P) (Download.fetch_or_adopt set q e o)
  unfolding Download.adopt_local Download.fetch
  Keeps-fetch_or_adopt e none =
      Keeps-bind _ _ (Keeps-on_mirror P _)
        λ u. Keeps-bind _ _ (Keeps-on_mirror P _) λ meta. Keeps-note_local meta
  Keeps-fetch_or_adopt e (some n) =
      Keeps-bind _ _ (Keeps-and_note P _ (Keeps-on_cloud P _)) λ bytes.
        Keeps-bind _ _ (Keeps-others_act P set calm)
          λ u. Keeps-bind _ _ (Keeps-asks P _) λ wanted. Keeps-keep_if e bytes wanted

  Keeps-ensure_entry : (o : Option Entry) → Keeps (On P) (Download.ensure_entry set q o)
  Keeps-ensure_entry none = Keeps-ok tt
  Keeps-ensure_entry (some e) = Keeps-fetch_or_adopt e _

  pub Keeps-ensure_local_file : Keeps (On P) (Download.ensure_local_file set q)
  unfolding Download.ensure_local_file
  Keeps-ensure_local_file = record {
    at = λ s h. elim (Bool-cases (allows set.policy q)) [
      | inr denied ↦ rw denied h
      | inl allowed ↦ elim (Bool-cases (Download.needs_work q s.disk (get_entry s.state q))) [
        | inr idle ↦ rw (allowed, idle) h
        | inl works ↦ rw (allowed, works) ((Keeps-ensure_entry (get_entry s.state q)).at s h)
      ]
    ];
  }
