-- ===== src/State/Burial.antt =====
-- What `bury_tombstone` does to the entry at each path.
use mathlib.Core.Path.{subst}
use mathlib.Core.Option.{map as map_option}
use icloud_linux.Prelude.{
  true, false, List, [], ◌∷◌, ◌≡◌, refl, sym, ap, ◌∙◌, arith, any, Option, none, some, Text, ◌==◌,
  nat_eq, text_eq, if◌then◌else◌,
}
use icloud_linux.Path
use icloud_linux.Path.{IcPath}
use icloud_linux.Path.Components.{IsNormal, new_self, new-IsNormal}
use icloud_linux.State.Rows.{Entry, Row, from_row}
use icloud_linux.State.Sql.{update_where, find_where}
use icloud_linux.State.Defs.{Database, at_path}
use icloud_linux.State.Queries.{get_entry}
use icloud_linux.State.Lookup.{row_at, IsKeyed, path-row_at, row_at_rekeyed}
use icloud_linux.State.Entries.{row_of-get_entry}
use icloud_linux.State.Trees.{
  update_key, or_path, graveyard, bury, bury_if_tombstone, bury_tombstone,
}

-- The entry as it is kept.
abbrev pub buried : Text → Entry → Entry
buried marker e = record e {
  path = graveyard e.path marker;
  tombstone = true;
  dirty = true;
  synced_path = some (or_path e.synced_path e.path);
}

abbrev buried_row : Text → Entry → Row → Row
buried_row marker e r = record r {
  path = graveyard e.path marker;
  tombstone = true;
  dirty = true;
  synced_path = some (or_path e.synced_path e.path);
}

pub any-here :
    (p : Text) (rows : List Row) (r : Row) → row_at p rows ≡ some r → any (at_path p) rows ≡ true
unfolding find_where
any-here p [] r h = cc
any-here p (s ∷ rows) r h = ground (arith, any-here p rows r)

bury-free :
    (marker : Text) (e : Entry) (rows : List Row)
    → any (at_path (graveyard e.path marker)) rows ≡ false
    → bury marker e rows ≡ some (update_where (at_path e.path) (buried_row marker e) rows)
unfolding bury update_key
bury-free marker e rows free = ground (arith, free)

new_of_or_path :
    (raw : Text) (synced : Option Text)
    → Path.new (or_path (map_option Path.new synced) (Path.new raw))
      ≡ or_path (map_option Path.new synced) (Path.new raw)
new_of_or_path raw none = new_self (Path.new raw) (new-IsNormal raw)
new_of_or_path raw (some s) = new_self (Path.new s) (new-IsNormal s)

from_row-buried_row :
    (marker : Text) (r : Row)
    → from_row (buried_row marker (from_row r) r) ≡ buried marker (from_row r)
unfolding from_row graveyard
from_row-buried_row marker r = λ i. record (from_row r) {
  path = new_self (graveyard (Path.new r.path) marker) (new-IsNormal _) i;
  tombstone = true;
  dirty = true;
  synced_path = some (new_of_or_path r.path r.synced_path i);
}

bury_tombstone-some :
    (db : Database) (marker : Text) (e : Entry)
    → get_entry db e.path ≡ some e
    → e.tombstone ≡ true
    → any (at_path (graveyard e.path marker)) db.entries ≡ false
    → bury_tombstone db marker e.path
      ≡ some
          (record db { entries = update_where (at_path e.path) (buried_row marker e) db.entries })
unfolding get_entry bury_tombstone
bury_tombstone-some db marker e found dead free =
    let keep = λ (rows : List Row). record db { entries = rows } in
    ap (λ o. map_option keep (bury_if_tombstone marker o db.entries)) found
    ∙ ap (map_option keep) (ground (arith, dead) ∙ bury-free marker e db.entries free)

get_entry-buried :
    (db : Database) (marker : Text) (e : Entry) (q : IcPath)
    → IsKeyed db.entries
    → get_entry db e.path ≡ some e
    → any (at_path (graveyard e.path marker)) db.entries ≡ false
    → get_entry
        (record db { entries = update_where (at_path e.path) (buried_row marker e) db.entries })
        q
      ≡ (if graveyard e.path marker == q
          then some (buried marker e)
          else if e.path == q
          then none
          else get_entry db q)
unfolding get_entry
get_entry-buried db marker e q keyed found free =
    let (r, here, same) = row_of-get_entry db e.path found in
    let kept : from_row (buried_row marker e r) ≡ buried marker e =
      subst (λ x. from_row (buried_row marker x r) ≡ buried marker x) same
        (from_row-buried_row marker r) in
    ap (map_option from_row) (
      row_at_rekeyed q e.path (graveyard e.path marker) (buried_row marker e) db.entries keyed
        (λ _. refl) free (any-here e.path db.entries r here))
    ∙ rw here (ground (arith, kept))

-- A deletion that is still to be sent is moved to its private path, keeps its remote identity and
-- stays one, and its own path is free; each other entry stays where it is. The private path is
-- unused, its own one is normal, and no two rows have one path.
pub get_entry-bury_tombstone :
    (db : Database) (marker : Text) (path q : IcPath) {e : Entry}
    → IsKeyed db.entries
    → IsNormal path
    → get_entry db path ≡ some e
    → e.tombstone ≡ true
    → any (at_path (graveyard path marker)) db.entries ≡ false
    → map_option (λ t. get_entry t q) (bury_tombstone db marker path)
      ≡ some (
          if graveyard path marker == q
          then some (buried marker e)
          else if path == q
          then none
          else get_entry db q)
get_entry-bury_tombstone db marker path q {e} keyed n found dead free =
    let (r, here, same) = row_of-get_entry db path found in
    let at : e.path ≡ path =
      ap (λ (x : Entry). x.path) (sym same)
      ∙ unfold from_row in (ap Path.new (path-row_at path db.entries r here) ∙ new_self path n) in
    subst
      (λ p.
        map_option (λ t. get_entry t q) (bury_tombstone db marker p)
        ≡ some (
            if graveyard p marker == q
            then some (buried marker e)
            else if p == q
            then none
            else get_entry db q))
      at
      (let found' = subst (λ p. get_entry db p ≡ some e) (sym at) found in
        let free' =
          subst (λ p. any (at_path (graveyard p marker)) db.entries ≡ false) (sym at) free in
        ap (map_option (λ t. get_entry t q)) (bury_tombstone-some db marker e found' dead free')
        ∙ ap some (get_entry-buried db marker e q keyed found' free'))
