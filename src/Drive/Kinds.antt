-- ===== src/Drive/Kinds.antt =====
-- The names under which the state database keeps the kinds.
use icloud_linux.Prelude.{◌≡◌, refl, nat_eq, text_eq}
use icloud_linux.Drive.{NodeKind, file, folder, app_library, other, parse_kind, as_str}

pub parse_kind-as_str : (k : NodeKind) → parse_kind (as_str k) ≡ k
unfolding parse_kind text_eq
parse_kind-as_str file = refl
parse_kind-as_str folder = refl
parse_kind-as_str app_library = refl
parse_kind-as_str other = refl
