-- ===== src/Policy/Tests.antt =====
-- Runs of the unit tests of policy.rs, and the theorems at concrete paths.
use icloud_linux.Prelude.{
  ◌≡◌, [], ◌∷◌, refl, true, false, not, ◌&&◌, ◌||◌, any, codes, is_prefix, is_empty, nat_eq,
  text_eq,
}
use icloud_linux.Path
use icloud_linux.Path.Str.{split, join_with, strip_prefix}
use icloud_linux.Path.{is_within}
use icloud_linux.Path.Components.{components}
use icloud_linux.Path.Samples.{docs, note, note-IsNormal}
use icloud_linux.Policy.{SyncPolicy, new, allows}
use icloud_linux.Policy.Boundary.{allows-components}

abbrev work : SyncPolicy
work = new (codes "/docs/" ∷ []) (codes "/docs/private" ∷ [])

runs :
    (allows work note ≡ true)
    × (allows work (codes "/docs/private/x") ≡ false)
    × (allows work (codes "/docs2") ≡ false)
unfolding allows new Path.new split join_with is_within strip_prefix nat_eq text_eq
runs = (refl, refl, refl)

note_below : is_within note docs ≡ true
unfolding is_within strip_prefix nat_eq text_eq
note_below = refl

docs_open : (allows work docs || any (λ d. is_within docs d) work.deny) ≡ true
unfolding allows new Path.new split join_with is_within strip_prefix nat_eq text_eq
docs_open = refl

allows-components_example : allows work note ≡ (
    not (
      any
        (λ raw. is_prefix (components (Path.new raw)) (components note))
        (codes "/docs/private" ∷ []))
    && (is_empty (codes "/docs/" ∷ [])
        || any
            (λ raw. is_prefix (components (Path.new raw)) (components note))
            (codes "/docs/" ∷ [])))
allows-components_example =
    allows-components (codes "/docs/" ∷ []) (codes "/docs/private" ∷ []) note note-IsNormal
