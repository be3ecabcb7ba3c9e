-- ===== src/Policy.antt =====
-- crates/icloud-core/src/policy.rs: which paths may be fetched, changed or removed.
pub mod Boundary
mod Tests
use icloud_linux.Prelude.{
  Bool, false, true, not, ◌||◌, List, [], map, Option, none, some, Text, any, is_empty,
  if◌then◌else◌,
}
use icloud_linux.Path
use icloud_linux.Path.{IcPath, is_within}

-- `None` in `allow` means "everything".
pub record SyncPolicy : Type 0 where
  pub allow : Option (List IcPath)
  pub deny : List IcPath

-- `SyncPolicy::new`
unfoldable pub new : List Text → List Text → SyncPolicy
new sync_paths exclude_paths =
    let allow = map Path.new sync_paths in
    record {
      allow = if is_empty allow then none else some allow;
      deny = map Path.new exclude_paths;
    }

-- `SyncPolicy::unrestricted`
abbrev pub unrestricted : SyncPolicy
unrestricted = record { allow = none; deny = [] }

-- `Option::is_none_or(|allow| allow.iter().any(..))`
abbrev pub none_or_any : (IcPath → Bool) → Option (List IcPath) → Bool
none_or_any test none = true
none_or_any test (some allow) = any test allow

unfoldable pub allows : SyncPolicy → IcPath → Bool
allows policy path =
    if any (λ prefix. is_within path prefix) policy.deny
    then false
    else none_or_any (λ prefix. is_within path prefix) policy.allow

unfoldable pub should_descend : SyncPolicy → IcPath → Bool
should_descend policy folder =
    none_or_any (λ prefix. is_within folder prefix || is_within prefix folder) policy.allow

abbrev is_some {ℓ} : {A : Type ℓ} → Option A → Bool
is_some none = false
is_some (some a) = true

unfoldable pub is_restricted : SyncPolicy → Bool
is_restricted policy = is_some policy.allow || not (is_empty policy.deny)
