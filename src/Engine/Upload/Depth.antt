-- ===== src/Engine/Upload/Depth.antt =====
-- `sync_directory` climbs no further than a path is deep.
use icloud_linux.State.Entries.{path-get_entry}
use icloud_linux.Prelude.{nat_eq, text_eq}
use icloud_linux.Prelude.Exec.{Exec}
use icloud_linux.State.Entries.{path-get_entry}
use icloud_linux.Engine.Site.{Site}
