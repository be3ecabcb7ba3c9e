-- ===== src/State/Markers.antt =====
-- The listing markers of folders.
use mathlib.Core.Option.{map as map_option}
use icloud_linux.Prelude.{
  true, false, List, [], ◌∷◌, ◌++◌, ◌≡◌, refl, ap, ◌∙◌, arith, any, inl, inr, Option, none, some,
  Text, ◌==◌, Bool-cases, nat_eq, text_eq, if◌then◌else◌,
}
use icloud_linux.Prelude.Int.{ℤ}
use icloud_linux.Path.{IcPath, is_within}
use icloud_linux.Path.Components.{IsNormal}
use icloud_linux.Path.Bounds.{in_subtree-is_within}
use icloud_linux.State.Sql.{update_where, find_where}
use icloud_linux.State.Defs.{Database, Listing}
use icloud_linux.State.Listings.{
  listed, folder_listed_at, mark_folder_listed, forget_folder_listings,
}
use icloud_linux.State.Entries.{find-delete_where}

find-unchanged :
    (q : IcPath) (row : Listing) (ls : List Listing)
    → any (listed row.path) ls ≡ false
    → find_where (listed q) (update_where (listed row.path) (λ _. row) ls)
      ≡ find_where (listed q) ls
unfolding find_where update_where
find-unchanged q row [] h = refl
find-unchanged q row (l ∷ ls) h = ground (arith, find-unchanged q row ls)

find-replaced :
    (q : IcPath) (row : Listing) (ls : List Listing)
    → any (listed row.path) ls ≡ true
    → find_where (listed q) (update_where (listed row.path) (λ _. row) ls)
      ≡ (if row.path == q then some row else find_where (listed q) ls)
unfolding find_where update_where
find-replaced q row [] h = cc
find-replaced q row (l ∷ ls) h = ground (arith, find-replaced q row ls, find-unchanged q row ls)

find-added :
    (q : IcPath) (row : Listing) (ls : List Listing)
    → any (listed row.path) ls ≡ false
    → find_where (listed q) (ls ++ (row ∷ []))
      ≡ (if row.path == q then some row else find_where (listed q) ls)
unfolding find_where
find-added q row [] h = ground arith
find-added q row (l ∷ ls) h = ground (arith, find-added q row ls)

find-marked :
    (db : Database) (p q : IcPath) (id : Option Text) (at : ℤ)
    → find_where (listed q) (mark_folder_listed db p id at).folder_listings ≡ (
        if p == q
        then some (record { path = p; remote_drivewsid = id; listed_at = at })
        else find_where (listed q) db.folder_listings)
unfolding mark_folder_listed
find-marked db p q id at =
    let row : Listing = record { path = p; remote_drivewsid = id; listed_at = at } in
    elim (Bool-cases (any (listed p) db.folder_listings)) [
      | inl old ↦ rw old (find-replaced q row db.folder_listings old)
      | inr fresh ↦ rw fresh (find-added q row db.folder_listings fresh)
    ]

-- Marking a folder as listed sets its time, and leaves the other markers; forgetting a folder forgets
-- it and all that lies within it, however they were marked, and leaves the others.
pub folder_listed_at-mark_folder_listed :
    (db : Database) (p r q : IcPath) (id : Option Text) (at : ℤ)
    → IsNormal q
    → (folder_listed_at (mark_folder_listed db p id at) q
        ≡ (if p == q then some at else folder_listed_at db q))
      × (folder_listed_at (forget_folder_listings (mark_folder_listed db p id at) r) q
          ≡ (if is_within q r then none else if p == q then some at else folder_listed_at db q))
unfolding folder_listed_at forget_folder_listings
folder_listed_at-mark_folder_listed db p r q id at n =
    let found = find-marked db p q id at in
    let gone = find-delete_where r q (mark_folder_listed db p id at).folder_listings in
    (
      ap (map_option (λ l. l.listed_at)) found ∙ ground arith,
      ap (map_option (λ l. l.listed_at)) gone ∙ ground (arith, found, in_subtree-is_within r q n),
    )
