-- ===== src/Config.antt =====
-- crates/icloud-core/src/config.rs: the configuration, its defaults and its validation, and the part
-- that the engine keeps (`EngineConfig` of crates/icloud-core/src/engine/mod.rs). The reading of the
-- YAML is a library's.
mod Tests
use icloud_linux.Prelude.{
  ℕ, ◌*◌, Bool, true, false, ◌||◌, List, [], Option, none, some, Text, codes, ltb, ◌==◌, nat_eq,
  if◌then◌else◌,
}

pub data CrawlMode : Type 0 where
  lazy : CrawlMode
  full : CrawlMode

pub data WarmupMode : Type 0 where
  on_demand : WarmupMode
  background : WarmupMode

pub data ConflictMode : Type 0 where
  copy : ConflictMode

pub data DeleteMode : Type 0 where
  trash : DeleteMode
  permanent : DeleteMode

pub record FuseOptions : Type 0 where
  pub allow_other : Bool
  pub ro : Bool
  pub nonempty : Bool

pub record Config : Type 0 where
  pub username : Text
  pub password : Option Text
  pub cache_dir : Text
  pub cookie_dir : Text
  pub mount_dir : Option Text
  pub crawl_mode : CrawlMode
  pub warmup_mode : WarmupMode
  pub conflict_mode : ConflictMode
  pub delete_mode : DeleteMode
  pub upload_interval_seconds : ℕ
  pub remote_refresh_interval_seconds : ℕ
  pub warmup_workers : ℕ
  pub preview_max_bytes : ℕ
  pub sync_paths : List Text
  pub exclude_paths : List Text
  pub auto_sync : Bool
  pub fuse_options : FuseOptions

abbrev pub default_fuse_options : FuseOptions
default_fuse_options = record { allow_other = false; ro = false; nonempty = true }

abbrev pub default_config : Config
default_config = record {
  username = [];
  password = none;
  cache_dir = codes "~/.cache/icloud-linux";
  cookie_dir = codes "~/.config/icloud-linux/cookies";
  mount_dir = none;
  crawl_mode = lazy;
  warmup_mode = on_demand;
  conflict_mode = copy;
  delete_mode = trash;
  upload_interval_seconds = 30;
  remote_refresh_interval_seconds = 300;
  warmup_workers = 1;
  preview_max_bytes = 200000;
  sync_paths = [];
  exclude_paths = [];
  auto_sync = true;
  fuse_options = default_fuse_options;
}

-- The message of the error, if there is one.
unfoldable pub validate : Config → Option Text
validate c =
    if c.upload_interval_seconds == 0 || c.remote_refresh_interval_seconds == 0
    then some (codes "the sync intervals must be at least one second")
    else if c.warmup_workers == 0 || ltb 16 c.warmup_workers
    then some (codes "warmup_workers must be between 1 and 16")
    else none

-- Durations are nanoseconds.
unfoldable pub upload_interval : Config → ℕ
upload_interval c = c.upload_interval_seconds * 1000000000

unfoldable pub refresh_interval : Config → ℕ
refresh_interval c = c.remote_refresh_interval_seconds * 1000000000

pub record EngineConfig : Type 0 where
  pub crawl_mode : CrawlMode
  pub warmup_mode : WarmupMode
  pub conflict_mode : ConflictMode
  pub delete_mode : DeleteMode
  pub upload_interval : ℕ
  pub refresh_interval : ℕ
  pub warmup_workers : ℕ
  pub auto_sync : Bool
  pub listing_retry_backoff : ℕ

unfoldable pub from_config : Config → EngineConfig
from_config c = record {
  crawl_mode = c.crawl_mode;
  warmup_mode = c.warmup_mode;
  conflict_mode = c.conflict_mode;
  delete_mode = c.delete_mode;
  upload_interval = upload_interval c;
  refresh_interval = refresh_interval c;
  warmup_workers = c.warmup_workers;
  auto_sync = c.auto_sync;
  listing_retry_backoff = 15 * 1000000000;
}
