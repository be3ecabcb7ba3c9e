-- ===== src/State/Outside.antt =====
-- The methods leave the rows at paths that they are not about.
use icloud_linux.State.Fetched.{differs, fetched-IsNormal, fetched_away}
use mathlib.Core.Path.{subst}
use mathlib.Core.Option.{map as map_option, none-ne-some, some-injective}
use icloud_linux.Prelude.{
  ℕ, ◌+◌, Bool, false, List, [], ◌∷◌, map, ◌≡◌, refl, ap, ◌∙◌, inl, inr, arith, All, Option,
  Option-cases, none, some, Text, is_empty, ◌==◌, Bool-cases, nat_eq, text_eq,
}
use icloud_linux.Path
use icloud_linux.Path.{IcPath, is_within, rebase}
use icloud_linux.Path.Components.{IsNormal, IsSlashless, new_self, new-IsNormal}
use icloud_linux.Path.Rebase.{rebase-rebase}
use icloud_linux.State.Rows.{Entry, Row, from_row}
use icloud_linux.State.Sql.{update_where, delete_where}
use icloud_linux.State.Defs.{listing_in, Database, at_path}
use icloud_linux.State.Lookup.{row_at, path-row_at}
use icloud_linux.State.Queries.{fetch_rows}
use icloud_linux.State.Subtree.{AreNormal}
use icloud_linux.State.Writes.{and_then}
use icloud_linux.State.Graves.{has_nul, graveyard-has_nul}
use icloud_linux.State.Trees.{
  update_key, graveyard, bury, displace, clear_way, follow, relocated, move_row, move_rows,
  rename_tree, bury_if_tombstone, bury_tombstone,
}
use icloud_linux.State.Elsewhere.{
  IsUntouched, IsUntouched-refl, IsUntouched-trans, at_path_away, delete_where-IsUntouched,
  update_where_path-IsUntouched,
}

pub and_then-some {ℓ κ} :
    {A : Type ℓ} {B : Type κ} (o : Option A) (f : A → Option B) {b : B}
    → and_then o f ≡ some b
    → (a : A) × (o ≡ some a) × (f a ≡ some b)
and_then-some none f h = absurd (none-ne-some _ h)
and_then-some (some a) f h = (a, refl, h)

pub map_some {ℓ κ} :
    {A : Type ℓ} {B : Type κ} (f : A → B) (o : Option A) {b : B}
    → map_option f o ≡ some b
    → (a : A) × (o ≡ some a) × (f a ≡ b)
map_some f none h = absurd (none-ne-some _ h)
map_some f (some a) h = (a, refl, some-injective _ _ h)

update_key-IsUntouched :
    (q p p' : IcPath) (f : Row → Row) (rows : List Row) {rows' : List Row}
    → (p == q) ≡ false
    → (p' == q) ≡ false
    → IsNormal p'
    → ((r : Row) → (f r).path ≡ p')
    → update_key p p' f rows ≡ some rows'
    → IsUntouched q rows rows'
unfolding update_key
update_key-IsUntouched q p p' f rows {rows'} away to n new h =
    let done : update_where (at_path p) f rows ≡ rows' = ground arith in
    subst (IsUntouched q rows) done (
      update_where_path-IsUntouched q (at_path p) (λ r. at_path_away p q r away) f p' rows new n to)

module _ (q : IcPath) (real : has_nul q ≡ false) where
  grave_away : (p : IcPath) (marker : Text) → IsSlashless marker → (graveyard p marker == q) ≡ false
  grave_away p marker h = differs (graveyard p marker) q has_nul (graveyard-has_nul p marker h) real

  grave-IsNormal : (p : IcPath) (marker : Text) → IsNormal (graveyard p marker)
  unfolding graveyard
  grave-IsNormal p marker = new-IsNormal _

  bury-IsUntouched :
      (marker : Text) (e : Entry) (rows : List Row) {rows' : List Row}
      → IsSlashless marker
      → (e.path == q) ≡ false
      → bury marker e rows ≡ some rows'
      → IsUntouched q rows rows'
  unfolding bury
  bury-IsUntouched marker e rows h away =
      update_key-IsUntouched q e.path (graveyard e.path marker) _ rows away
        (grave_away e.path marker h) (grave-IsNormal e.path marker) (λ r. refl)

  displace-IsUntouched :
      (marker : Text) (e : Entry) (rows : List Row) {rows' : List Row}
      → IsSlashless marker
      → (e.path == q) ≡ false
      → displace marker e rows ≡ some rows'
      → IsUntouched q rows rows'
  displace-IsUntouched marker e rows {rows'} h away done = elim (Option-cases e.remote_drivewsid) [
    | inl local ↦
        let gone : delete_where (at_path e.path) rows ≡ rows' = ground (arith, local) in
        subst (IsUntouched q rows) gone
          (delete_where-IsUntouched q (at_path e.path) (λ r. at_path_away e.path q r away) rows)
    | inr (id, known) ↦ bury-IsUntouched marker e rows h away (ground (arith, known))
  ]

  pub clear_way-IsUntouched :
      (marker : ℕ → Text) (i : ℕ) (es : List Entry) (rows : List Row) {rows' : List Row}
      → ((k : ℕ) → IsSlashless (marker k))
      → All (λ (e : Entry). (e.path == q) ≡ false) es
      → clear_way marker i es rows ≡ some rows'
      → IsUntouched q rows rows'
  unfolding clear_way
  clear_way-IsUntouched marker i [] rows h away done =
      subst (IsUntouched q rows) (some-injective _ _ done) (IsUntouched-refl q rows)
  clear_way-IsUntouched marker i (e ∷ es) rows h away done =
      let (next, first, rest) =
        and_then-some (displace (marker i) e rows) (λ r. clear_way marker (i + 1) es r) done in
      IsUntouched-trans q (displace-IsUntouched (marker i) e rows (h i) away.0 first)
        (clear_way-IsUntouched marker (i + 1) es next h away.1 rest)

-- A row that is moved was in the old folder and is in the new one.
module _ (q old new : IcPath) (nq : IsNormal q) (no_ : IsNormal old) (nn : IsNormal new)
    (out : is_within q old ≡ false) (apart : is_within q new ≡ false) where
  move_row-IsUntouched :
      (dirty synced : Bool) (e : Entry) (rows : List Row) {rows' : List Row}
      → IsNormal e.path
      → move_row old new dirty synced e rows ≡ some rows'
      → IsUntouched q rows rows'
  move_row-IsUntouched dirty synced e rows {rows'} ne done =
      elim (Option-cases (rebase e.path old new)) [
        | inl stays ↦
            let same : rows ≡ rows' = ground (arith, stays) in
            subst (IsUntouched q rows) same (IsUntouched-refl q rows)
        | inr (p, moved) ↦
            let (np, from, to, back) = rebase-rebase e.path old new ne no_ nn moved in
            let write = relocated old new dirty synced e p in
            let written : update_key e.path p write rows ≡ some rows' = ground (arith, moved) in
            update_key-IsUntouched q e.path p write rows
              (differs e.path q (λ x. is_within x old) from out)
              (differs p q (λ x. is_within x new) to apart) np (λ r. refl) written
      ]

  move_rows-IsUntouched :
      (dirty synced : Bool) (es : List Entry) (rows : List Row) {rows' : List Row}
      → All (λ (e : Entry). IsNormal e.path) es
      → move_rows old new dirty synced es rows ≡ some rows'
      → IsUntouched q rows rows'
  unfolding move_rows
  move_rows-IsUntouched dirty synced [] rows ne done =
      subst (IsUntouched q rows) (some-injective _ _ done) (IsUntouched-refl q rows)
  move_rows-IsUntouched dirty synced (e ∷ es) rows ne done =
      let (next, first, rest) =
        and_then-some (move_row old new dirty synced e rows)
          (λ r. move_rows old new dirty synced es r) done in
      IsUntouched-trans q (move_row-IsUntouched dirty synced e rows ne.0 first)
        (move_rows-IsUntouched dirty synced es next ne.1 rest)

-- `rename_tree` leaves what is neither within the old nor within the new place.
pub rename_tree-IsUntouched :
    (db : Database) (marker : ℕ → Text) (old new q : IcPath) (dirty synced : Bool) {db' : Database}
    → AreNormal db.entries
    → ((k : ℕ) → IsSlashless (marker k))
    → IsNormal old
    → IsNormal new
    → IsNormal q
    → has_nul q ≡ false
    → is_within q old ≡ false
    → is_within q new ≡ false
    → rename_tree db marker old new dirty synced ≡ some db'
    → IsUntouched q db.entries db'.entries
unfolding rename_tree
rename_tree-IsUntouched db marker old new q dirty synced {db'} n hm no_ nn nq real out apart done =
    let subtree = fetch_rows db.entries old in
    let cleared = clear_way marker 0 (fetch_rows db.entries new) db.entries in
    let move = move_rows old new dirty synced subtree in
    elim (Bool-cases (is_empty subtree)) [
      | inl nothing ↦
          let same : db.entries ≡ db'.entries = ground (arith, nothing, done) in
          subst (IsUntouched q db.entries) same (IsUntouched-refl q db.entries)
      | inr some_ ↦
          let keep = λ (entries : List Row). record db {
            entries = entries;
            pending_ops = map (follow old new) db.pending_ops;
            folder_listings = delete_where (listing_in old) db.folder_listings;
          } in
          let made : map_option keep (and_then cleared move) ≡ some db' =
            ground (arith, some_, done) in
          let (rows, moved, kept) = map_some keep (and_then cleared move) made in
          let (rows', clear, rest) = and_then-some cleared move moved in
          subst (IsUntouched q db.entries) (ap (λ (d : Database). d.entries) kept) (
            IsUntouched-trans q
              (clear_way-IsUntouched q real marker 0 (fetch_rows db.entries new) db.entries hm
                (fetched_away db.entries new q n nq apart) clear)
              (move_rows-IsUntouched q old new nq no_ nn out apart dirty synced subtree rows'
                (fetched-IsNormal db.entries old) rest))
    ]

bury_if_tombstone-IsUntouched :
    (q : IcPath)
    → has_nul q ≡ false
    → (marker : Text) (p : IcPath) (rows : List Row) {rows' : List Row} → IsSlashless marker
    → IsNormal p
    → (p == q) ≡ false
    → bury_if_tombstone marker (map_option from_row (row_at p rows)) rows ≡ some rows'
    → IsUntouched q rows rows'
bury_if_tombstone-IsUntouched q real marker p rows {rows'} hm np away done =
    elim (Option-cases (row_at p rows)) [
      | inl gone ↦
          let same : rows ≡ rows' = ground (arith, gone, done) in
          subst (IsUntouched q rows) same (IsUntouched-refl q rows)
      | inr (r, here) ↦
          let at : (from_row r).path ≡ p =
            unfold from_row in (ap Path.new (path-row_at p rows r here) ∙ new_self p np) in
          elim (Bool-cases r.tombstone) [
            | inl dead ↦
                bury-IsUntouched q real marker (from_row r) rows hm (ap (λ x. x == q) at ∙ away)
                  (unfold from_row in ground (arith, here, done, dead))
            | inr living ↦
                let same : rows ≡ rows' = unfold from_row in ground (arith, here, done, living) in
                subst (IsUntouched q rows) same (IsUntouched-refl q rows)
          ]
    ]

-- `bury_tombstone` leaves what is at another path.
pub bury_tombstone-IsUntouched :
    (db : Database) (marker : Text) (p q : IcPath) {db' : Database}
    → IsSlashless marker
    → IsNormal p
    → has_nul q ≡ false
    → (p == q) ≡ false
    → bury_tombstone db marker p ≡ some db'
    → IsUntouched q db.entries db'.entries
unfolding bury_tombstone
bury_tombstone-IsUntouched db marker p q {db'} hm np real away done =
    let (rows, made, kept) =
      map_some _ (bury_if_tombstone marker (map_option from_row (row_at p db.entries)) db.entries)
        done in
    subst (IsUntouched q db.entries) (ap (λ (d : Database). d.entries) kept)
      (bury_if_tombstone-IsUntouched q real marker p db.entries hm np away made)
