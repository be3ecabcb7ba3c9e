-- ===== src/State/Listings.antt =====
-- The markers of folders that have been listed.
use mathlib.Core.Option.{map as map_option}
use icloud_linux.Prelude.{
  ℕ, Bool, List, [], ◌∷◌, ◌++◌, map, any, Option, Text, ◌==◌, nat_eq, text_eq, if◌then◌else◌,
}
use icloud_linux.Prelude.Int.{ℤ, lt_int, clamp_i64, to_u64, saturating_sub}
use icloud_linux.Path
use icloud_linux.Path.{IcPath}
use icloud_linux.State.Sql.{update_where, delete_where, select_where, find_where, order_by}
use icloud_linux.State.Defs.{Database, Listing, listing_in}

abbrev pub listed : IcPath → Listing → Bool
listed path l = l.path == path

unfoldable pub folder_listed_at : Database → IcPath → Option ℤ
folder_listed_at db path =
    map_option (λ l. l.listed_at) (find_where (listed path) db.folder_listings)

-- `mark_folder_listed_at`; `mark_folder_listed` passes the present time.
unfoldable pub mark_folder_listed : Database → IcPath → Option Text → ℤ → Database
mark_folder_listed db path drivewsid at = record db {
  folder_listings =
      let row : Listing = record { path = path; remote_drivewsid = drivewsid; listed_at = at } in
      if any (listed path) db.folder_listings
      then update_where (listed path) (λ _. row) db.folder_listings
      else db.folder_listings ++ (row ∷ []);
}

-- `ORDER BY listed_at ASC`
abbrev pub by_time : Listing → Listing → Bool
by_time a b = lt_int a.listed_at b.listed_at

unfoldable pub list_listed_folders : Database → List IcPath
list_listed_folders db = map (λ l. Path.new l.path) (order_by by_time db.folder_listings)

unfoldable pub list_stale_folder_listings : Database → ℤ → ℕ → List IcPath
list_stale_folder_listings db now ttl_seconds =
    let cutoff = saturating_sub now (to_u64 (clamp_i64 ttl_seconds)) in
    map (λ l. Path.new l.path)
      (order_by by_time (select_where (λ l. lt_int l.listed_at cutoff) db.folder_listings))

unfoldable pub forget_folder_listings : Database → IcPath → Database
forget_folder_listings db path = record db {
  folder_listings = delete_where (listing_in path) db.folder_listings;
}
