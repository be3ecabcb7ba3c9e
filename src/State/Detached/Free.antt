-- ===== src/State/Detached/Free.antt =====
-- Where nothing is in the way, `detach_subtree_as_conflict` succeeds.
use icloud_linux.State.Writes.{and_then}
use icloud_linux.Prelude.{
  true, false, List, [], ◌∷◌, any, All, none, some, Text, ◌≡◌, refl, sym, ap, ◌∙◌, inl, inr, arith,
  Bool-cases, Option-cases, ◌==◌, ==_iff, nat_eq, text_eq,
}
use mathlib.Core.Option.{map as map_option, some-injective}
use icloud_linux.Path.{IcPath, is_within, rebase}
use icloud_linux.Path.Components.{IsNormal}
use icloud_linux.Path.Rebase.{rebase-rebase}
use icloud_linux.State.Rows.{Entry, Row}
use icloud_linux.State.Defs.{Database, at_path}
use icloud_linux.State.Sql.{update_where}
use icloud_linux.State.Queries.{get_entry, fetch_rows}
use icloud_linux.State.Keyed.{AreDistinct, at_entry}
use icloud_linux.State.Lookup.{IsKeyed}
use icloud_linux.State.Subtree.{AreNormal}
use icloud_linux.State.Fetched.{fetched-IsNormal}
use icloud_linux.State.Rekeyed.{any_rekeyed}
use icloud_linux.State.Relocation.{fetched-AreDistinct}
use icloud_linux.State.Trees.{update_key, detach_row, detach_rows, detach_subtree_as_conflict}
use icloud_linux.State.Detached.{detached, detached_row, detach_subtree_as_conflict-get_entry}

-- A row of a path within `new` is a row within `new`.
none_within :
    (new u : IcPath) (rows : List Row)
    → is_within u new ≡ true
    → any (λ (r : Row). is_within r.path new) rows ≡ false
    → any (at_path u) rows ≡ false
none_within new u [] inside h = refl
none_within new u (r ∷ rows) inside h = elim (Bool-cases (r.path == u)) [
  | inl same ↦
      absurd (ground (arith, h, inside, ap (λ x. is_within x new) ((==_iff r.path u).0 same)))
  | inr other ↦ ground (arith, other, none_within new u rows inside (ground (arith, h)))
]

update_key-free :
    (p p' : Text) (f : Row → Row) (rows : List Row)
    → any (at_path p') rows ≡ false
    → update_key p p' f rows ≡ some (update_where (at_path p) f rows)
unfolding update_key
update_key-free p p' f rows h = ground (arith, h)

module _ (old new : IcPath) (no_ : IsNormal old) (nn : IsNormal new) where
  -- No row is where an entry of the list goes.
  abbrev IsClear : List Row → Entry → Type 0
  IsClear rows e = (u : IcPath) → rebase e.path old new ≡ some u → any (at_path u) rows ≡ false

  -- Different paths go to different places.
  rebase_apart :
      (p p' u u' : IcPath)
      → IsNormal p
      → IsNormal p'
      → (p' == p) ≡ false
      → rebase p old new ≡ some u
      → rebase p' old new ≡ some u'
      → (u == u') ≡ false
  rebase_apart p p' u u' n n' other moves moves' = elim (Bool-cases (u == u')) [
    | inr apart ↦ apart
    | inl same ↦
        let back = (rebase-rebase p old new n no_ nn moves).3 in
        let back' = (rebase-rebase p' old new n' no_ nn moves').3 in
        let meet : p' ≡ p =
          some-injective _ _
            (sym back' ∙ (ap (λ x. rebase x new old) (sym ((==_iff u u').0 same)) ∙ back)) in
        absurd (ground (arith, other, (==_iff p' p).1 meet))
  ]

  update_where-IsClear :
      (e : Entry) (u : IcPath) (rows : List Row) (es : List Entry)
      → IsNormal e.path
      → rebase e.path old new ≡ some u
      → All (λ d. IsNormal d.path) es
      → any (at_entry e.path) es ≡ false
      → All (IsClear rows) es
      → All (IsClear (update_where (at_path e.path) (detached_row e u) rows)) es
  update_where-IsClear e u rows [] n moves ns once clear = tt
  update_where-IsClear e u rows (d ∷ es) n moves ns once clear = (
    λ v to.
        any_rekeyed v e.path u (detached_row e u) rows (λ r. refl)
          (rebase_apart e.path d.path u v n ns.0 (ground (arith, once)) moves to) (clear.0 v to),
    update_where-IsClear e u rows es n moves ns.1 (ground (arith, once)) clear.1,
  )

  detach_rows-step :
      (e : Entry) (es : List Entry) (rows : List Row) {next rows' : List Row}
      → detach_row old new e rows ≡ some next
      → detach_rows old new es next ≡ some rows'
      → detach_rows old new (e ∷ es) rows ≡ some rows'
  unfolding detach_rows
  detach_rows-step e es rows first rest =
      ap (λ o. and_then o (λ r. detach_rows old new es r)) first ∙ rest

  detach_rows_clear :
      (es : List Entry) (rows : List Row)
      → All (λ d. IsNormal d.path) es
      → AreDistinct es
      → All (IsClear rows) es
      → (rows' : List Row) × (detach_rows old new es rows ≡ some rows')
  detach_rows_clear [] rows ns once clear = (rows, unfold detach_rows in refl)
  detach_rows_clear (e ∷ es) rows ns once clear = elim (Option-cases (rebase e.path old new)) [
    | inl stays ↦
        let (rows', done) = detach_rows_clear es rows ns.1 once.1 clear.1 in
        (rows', detach_rows-step e es rows (rw (stays, detach_row) refl) done)
    | inr (u, moves) ↦
        let f = detached_row e u in
        let (rows', done) =
          detach_rows_clear es (update_where (at_path e.path) f rows) ns.1 once.1
            (update_where-IsClear e u rows es ns.0 moves ns.1 once.0 clear.1) in
        (
          rows',
          detach_rows-step e es rows
              (rw (moves, detach_row) (update_key-free e.path u f rows (clear.0 u moves))) done,
        )
  ]

  none_within-IsClear :
      (rows : List Row) (es : List Entry)
      → All (λ d. IsNormal d.path) es
      → any (λ (r : Row). is_within r.path new) rows ≡ false
      → All (IsClear rows) es
  none_within-IsClear rows [] ns h = tt
  none_within-IsClear rows (e ∷ es) ns h = (
    λ u moves. none_within new u rows (rebase-rebase e.path old new ns.0 no_ nn moves).2 h,
    none_within-IsClear rows es ns.1 h,
  )

-- Where no row lies within the conflict's place, `detach_subtree_as_conflict` succeeds: it moves the
-- entry of each path in the subtree to the rebased path and makes it one that has never been on iCloud
-- and is to be uploaded; its own path is free. Paths are normal, no two rows have one path, neither of
-- the two places is within the other.
pub detach_subtree_as_conflict-rebase :
    (db : Database) (old new p q : IcPath) (e : Entry)
    → IsKeyed db.entries
    → AreNormal db.entries
    → IsNormal old
    → IsNormal new
    → IsNormal p
    → is_within old new ≡ false
    → is_within new old ≡ false
    → any (λ (r : Row). is_within r.path new) db.entries ≡ false
    → get_entry db p ≡ some e
    → rebase p old new ≡ some q
    → (db' : Database) × (detach_subtree_as_conflict db old new ≡ some db')
      × (get_entry db' q ≡ some (detached e q))
      × (get_entry db' p ≡ none)
detach_subtree_as_conflict-rebase db old new p q e keyed n no_ nn np out_n out_o free found moves =
    let es = fetch_rows db.entries old in
    let ns = fetched-IsNormal db.entries old in
    let (rows, done) =
      detach_rows_clear old new no_ nn es db.entries ns (fetched-AreDistinct old db.entries n keyed)
        (none_within-IsClear old new no_ nn db.entries es ns free) in
    let db' = record db { entries = rows } in
    let runs : detach_subtree_as_conflict db old new ≡ some db' =
      unfold detach_subtree_as_conflict in
      ap (map_option (λ (entries : List Row). record db { entries = entries })) done in
    let (to, from) =
      detach_subtree_as_conflict-get_entry db db' old new p q e keyed n no_ nn np out_n out_o found
        moves runs in
    (db', runs, to, from)
