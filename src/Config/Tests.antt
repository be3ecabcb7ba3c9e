-- ===== src/Config/Tests.antt =====
-- The defaults pass the validation.
use icloud_linux.Prelude.{◌≡◌, refl, none, nat_eq}
use icloud_linux.Config.{default_config, validate}

default_config_passes : validate default_config ≡ none
unfolding validate nat_eq
default_config_passes = refl
