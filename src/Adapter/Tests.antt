-- ===== src/Adapter/Tests.antt =====
-- A lookup of a folder in the root.
use icloud_linux.Prelude.{
  true, false, [], ◌∷◌, some, codes, ◌≡◌, refl, arith, get, insert, remove, nat_eq, text_eq,
}
use icloud_linux.Prelude.Int.{pos}
use icloud_linux.Prelude.Exec.{ok, ◌>>=◌}
use icloud_linux.Path.{IcPath, root, join, is_root, is_valid_name, file_name, parent}
use icloud_linux.Path.Str.{split, rfind, rsplit_next}
use icloud_linux.Path.Samples.{docs}
use icloud_linux.Policy.{unrestricted}
use icloud_linux.Inodes
use icloud_linux.Inodes.{ino_for}
use icloud_linux.Inodes.Links.{IsValid, new-IsValid}
use icloud_linux.State.{empty}
use icloud_linux.State.Sql.{find_where}
use icloud_linux.State.Queries.{get_entry}
use icloud_linux.Mirror
use icloud_linux.Mirror.Files.{new_dir}
use icloud_linux.Fs.World.{Host}
use icloud_linux.Fs.Ops.Reads
use icloud_linux.Adapter.{IcloudFs, on_core, number, path_of, child_path, attr_of, lookup}
use icloud_linux.Adapter.Numbers.{lookup-path}

abbrev quiet : Host
quiet = record {
  now = pos 9;
  markers = λ i. codes "00ff";
  lazy = false;
  list_directory = λ p w. (true, w);
  hydrate = λ p w. (true, w);
}

abbrev mounted : IcloudFs
mounted = record {
  inodes = Inodes.new;
  core = record {
    fs = record {
      state = empty;
      policy = unrestricted;
      signed_in = true;
      read_only = false;
      preview_max_bytes = 10;
    };
    disk = (root, new_dir (pos 1)) ∷ (docs, new_dir (pos 1)) ∷ [];
  };
}

abbrev looked_up : IcloudFs
looked_up = record mounted { inodes = (ino_for Inodes.new docs).0 }

docs_found :
    lookup quiet 1 (codes "docs") mounted
    ≡ (ok (2, record { directory = true; size = 0; mtime = pos 1 }), looked_up)
unfolding lookup child_path path_of attr_of on_core number ◌>>=◌ Inodes.path Inodes.new ino_for join
    is_valid_name is_root Reads.getattr Reads.stat_known get_entry find_where Mirror.is_reserved
    file_name parent rfind rsplit_next split get insert remove nat_eq text_eq
docs_found = refl

lookup-path_example :
    (dir : IcPath) × (p : IcPath) × (Inodes.path looked_up.inodes 1 ≡ some dir)
    × (join dir (codes "docs") ≡ some p)
    × (Inodes.path looked_up.inodes 2 ≡ some p)
    × IsValid looked_up.inodes
unfolding Inodes.new
lookup-path_example =
    lookup-path quiet 1 (codes "docs") mounted looked_up 2
      (record { directory = true; size = 0; mtime = pos 1 }) new-IsValid (omega arith) docs_found
