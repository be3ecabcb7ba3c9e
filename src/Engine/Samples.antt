-- ===== src/Engine/Samples.antt =====
-- A setting without a network, for the tests.
use icloud_linux.Prelude.{false}
use icloud_linux.Prelude.Int.{pos}
use icloud_linux.Prelude.Exec.{err}
use icloud_linux.Policy.{unrestricted}
use icloud_linux.Config.{trash}
use icloud_linux.Engine.Site.{Cloud, Setting}

-- Each call fails.
abbrev pub offline : Cloud (Unit {0})
offline = record {
  root = λ r. (err false, r);
  node = λ id share r. (err false, r);
  children = λ n r. (err false, r);
  download = λ n r. (err false, r);
  upload = λ n name bytes mtime r. (err false, r);
  create_folder = λ n name r. (err false, r);
  delete = λ n mode r. (err false, r);
  rename = λ n name r. (err false, r);
  move_to = λ n to r. (err false, r);
}

abbrev pub alone : Setting (Unit {0})
alone = record {
  now = pos 9;
  policy = unrestricted;
  delete_mode = trash;
  cloud = offline;
  sha256 = λ bytes. bytes;
  meanwhile = λ s. s;
}
