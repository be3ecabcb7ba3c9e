-- ===== src/Setup/Tests.antt =====
-- A mount point that is recorded, and one in a unit.
use icloud_linux.Prelude.{
  any, false, ◌≡◌, refl, ◌++◌, ◌∷◌, [], some, Text, codes, nat_eq, ◌↔◌, none, ◌||◌, if◌then◌else◌,
  true,
}
use icloud_linux.Setup.{env_file, replace, systemd_quote, is_control}
use icloud_linux.Setup.EnvFile.{recorded_mount-env_file, has_break, read_back}
use icloud_linux.Setup.Units.{read_argument, read_argument-systemd_quote}

abbrev config_path : Text
config_path = codes "/home/me/config.yaml"

abbrev mount_path : Text
mount_path = codes "/home/me/my 'own' iCloud"

recorded_mount-env_file_example :
    ((env_file config_path mount_path ≡ none)
      ↔ ((has_break config_path || has_break mount_path) ≡ true))
    × (read_back (env_file config_path mount_path)
        ≡ (if has_break config_path || has_break mount_path then none else some mount_path))
recorded_mount-env_file_example = recorded_mount-env_file config_path mount_path refl

abbrev quoted_path : Text
quoted_path = 34 ∷ (mount_path ++ (34 ∷ []))

read_argument-systemd_quote_example :
    (read_argument (quoted_path ++ codes " next") ≡ some (mount_path, codes " next"))
    × (any is_control quoted_path ≡ false)
unfolding systemd_quote replace nat_eq
read_argument-systemd_quote_example =
    read_argument-systemd_quote mount_path quoted_path (codes " next") refl
