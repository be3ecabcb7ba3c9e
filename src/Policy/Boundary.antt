-- ===== src/Policy/Boundary.antt =====
-- The boundary holds by components, and a crawl that follows it reaches all that it allows.
use mathlib.Core.Bool.{or-false}
use mathlib.Core.Path.{ap₂}
use icloud_linux.Prelude.{
  Bool, true, false, not, ◌&&◌, ◌||◌, List, [], ◌∷◌, ◌≡◌, refl, sym, ap, ◌∙◌, arith, inl, inr, map,
  Text, nat_eq, text_eq, All, any, is_empty, Option, none, some, is_prefix, if◌then◌else◌,
  Bool-cases,
}
use icloud_linux.Path
use icloud_linux.Path.{IcPath, is_within}
use icloud_linux.Path.Components.{components, IsNormal, new-IsNormal}
use icloud_linux.Path.Within.{is_within-components}
use icloud_linux.Path.Order.{within_trans, within_chain}
use icloud_linux.Policy.{SyncPolicy, new, allows, should_descend, none_or_any}

abbrev NormalAllow : Option (List IcPath) → Type 0
NormalAllow none = Unit
NormalAllow (some paths) = All IsNormal paths

pub record IsValid (policy : SyncPolicy) : Type 0 where
  pub allowed : NormalAllow policy.allow
  pub denied : All IsNormal policy.deny

map-new-All : (raws : List Text) → All IsNormal (map Path.new raws)
map-new-All [] = tt
map-new-All (r ∷ raws) = (new-IsNormal r, map-new-All raws)

allow-Normal :
    (paths : List IcPath)
    → All IsNormal paths
    → NormalAllow (if is_empty paths then none else some paths)
allow-Normal [] h = tt
allow-Normal (p ∷ paths) h = h

-- A policy read from the configuration holds normal paths only.
pub new-IsValid : (sync_paths exclude_paths : List Text) → IsValid (new sync_paths exclude_paths)
unfolding new
new-IsValid sync_paths exclude_paths = record {
  allowed = allow-Normal (map Path.new sync_paths) (map-new-All sync_paths);
  denied = map-new-All exclude_paths;
}

-- A hit of `any` moves to another test that holds wherever the first does.
any_mono :
    (f g : IcPath → Bool) (paths : List IcPath)
    → All IsNormal paths
    → ((d : IcPath) → IsNormal d → f d ≡ true → g d ≡ true)
    → any f paths ≡ true
    → any g paths ≡ true
any_mono f g [] n h k = k
any_mono f g (d ∷ paths) n h k = elim (Bool-cases (f d)) [
  | inl here ↦ rw (h d n.0 here)
  | inr there ↦ ground (arith, any_mono f g paths n.1 h)
]

module _ (policy : SyncPolicy) (v : IsValid policy) (p q : IcPath) (np : IsNormal p)
    (nq : IsNormal q) (below : is_within q p ≡ true) where
  denied_mono :
      any (λ d. is_within p d) policy.deny ≡ true → any (λ d. is_within q d) policy.deny ≡ true
  denied_mono =
      any_mono (λ d. is_within p d) (λ d. is_within q d) policy.deny v.denied
        (λ d nd h. within_trans q p d nq np nd below h)

pub allow_mono :
    (f g : IcPath → Bool) (allow : Option (List IcPath))
    → NormalAllow allow
    → ((d : IcPath) → IsNormal d → f d ≡ true → g d ≡ true)
    → none_or_any f allow ≡ true
    → none_or_any g allow ≡ true
allow_mono f g none n h k = refl
allow_mono f g (some paths) n h k = any_mono f g paths n h k

allows_split :
    (policy : SyncPolicy) (p : IcPath)
    → allows policy p ≡ true
    → (any (λ d. is_within p d) policy.deny ≡ false)
      × (none_or_any (λ d. is_within p d) policy.allow ≡ true)
unfolding allows
allows_split policy p h = ground arith

-- Below a path that is allowed or that an excluded path covers: if it is allowed, exactly what no
-- excluded path covers is allowed below it; if an excluded path covers it, nothing below it is.
pub allows_below :
    (policy : SyncPolicy) (p q : IcPath)
    → IsValid policy
    → IsNormal p
    → IsNormal q
    → is_within q p ≡ true
    → (allows policy p || any (λ d. is_within p d) policy.deny) ≡ true
    → allows policy q ≡ (allows policy p && not (any (λ d. is_within q d) policy.deny))
allows_below policy p q v np nq below h = elim (Bool-cases (any (λ d. is_within p d) policy.deny)) [
  | inl cut ↦ unfold allows in rw cut (rw (denied_mono policy v p q np nq below cut))
  | inr clear ↦
      let ok : allows policy p ≡ true =
        sym (or-false (allows policy p)) ∙ ap (λ b. allows policy p || b) (sym clear) ∙ h in
      let kept =
        allow_mono (λ d. is_within p d) (λ d. is_within q d) policy.allow v.allowed
          (λ d nd k. within_trans q p d nq np nd below k) (allows_split policy p ok).1 in
      rw ok (unfold allows in rw kept (ground arith))
]

-- A crawl that descends where `should_descend` says so reaches everything that is allowed: each
-- folder on the way to an allowed path is descended into.
pub should_descend-allows :
    (policy : SyncPolicy) (folder p : IcPath)
    → IsValid policy
    → IsNormal folder
    → IsNormal p
    → is_within p folder ≡ true
    → allows policy p ≡ true
    → should_descend policy folder ≡ true
unfolding should_descend
should_descend-allows policy folder p v nf np below ok =
    allow_mono (λ d. is_within p d) (λ d. is_within folder d || is_within d folder) policy.allow
      v.allowed (λ d nd h. within_chain p folder d np nf nd below h) (allows_split policy p ok).1

any-map-components :
    (p : IcPath) (raws : List Text)
    → IsNormal p
    → any (λ d. is_within p d) (map Path.new raws)
      ≡ any (λ raw. is_prefix (components (Path.new raw)) (components p)) raws
any-map-components p [] n = refl
any-map-components p (r ∷ raws) n =
    ap₂ ◌||◌ (is_within-components p (Path.new r) n (new-IsNormal r)) (any-map-components p raws n)

-- What the two lists of the configuration mean: a path is allowed if the components of no excluded
-- path are the first of its own, and if `sync_paths` is empty or the components of one of its paths
-- are the first of its own.
pub allows-components :
    (sync_paths exclude_paths : List Text) (p : IcPath)
    → IsNormal p
    → allows (new sync_paths exclude_paths) p ≡ (
        not (any (λ raw. is_prefix (components (Path.new raw)) (components p)) exclude_paths)
        && (is_empty sync_paths
            || any (λ raw. is_prefix (components (Path.new raw)) (components p)) sync_paths))
unfolding allows new
allows-components [] exclude_paths p n = rw (any-map-components p exclude_paths n) (ground arith)
allows-components (s ∷ sync_paths) exclude_paths p n =
    rw (any-map-components p exclude_paths n)
      (rw (any-map-components p (s ∷ sync_paths) n) (ground arith))
