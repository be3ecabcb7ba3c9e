-- ===== src/Status/Label.antt =====
-- What a new label changes.
use mathlib.Core.Bool.{or-true}
use icloud_linux.Prelude.{
  ◌∙◌, ap, ◌≡◌, refl, Bool, true, false, not, ◌||◌, List, [], ◌∷◌, ◌++◌, arith, Option, none, some,
  Text, codes, ◌==◌, nat_eq, text_eq,
}
use icloud_linux.Path.Str.{strip_prefix, starts_with}
use icloud_linux.State.Sql.{select_where}
use icloud_linux.Status.{is_ours, wanted, relabel_lines}

strip_prefix-append : (p s : Text) → strip_prefix p (p ++ s) ≡ some s
unfolding strip_prefix
strip_prefix-append [] s = refl
strip_prefix-append (c ∷ p) s = ground (arith, strip_prefix-append p s)

wanted-ours : (uri suffix : Text) → is_ours uri (wanted uri suffix) ≡ true
unfolding nat_eq
wanted-ours uri suffix =
    let line = wanted uri suffix in
    let spaced : Option Text → Bool =
      λ o. elim o [ none ↦ false | some rest ↦ starts_with 32 rest ] in
    ap (λ o. line == uri || spaced o) (strip_prefix-append uri (codes " iCloud" ++ suffix))
    ∙ or-true (line == uri)

module _ (uri suffix : Text) where
  -- Once our line is written, the other ones are copied.
  relabel_found :
      (ls : List Text)
      → relabel_lines uri suffix true ls ≡ select_where (λ l. not (is_ours uri l)) ls
  unfolding relabel_lines select_where
  relabel_found [] = refl
  relabel_found (l ∷ ls) = ground (arith, relabel_found ls)

  others_none :
      (ls : List Text) → select_where (is_ours uri) (relabel_lines uri suffix true ls) ≡ []
  unfolding relabel_lines select_where
  others_none [] = refl
  others_none (l ∷ ls) = ground (arith, others_none ls)

  others_again :
      (ls : List Text)
      → relabel_lines uri suffix true (relabel_lines uri suffix true ls)
        ≡ relabel_lines uri suffix true ls
  unfolding relabel_lines
  others_again [] = refl
  others_again (l ∷ ls) = ground (arith, others_again ls)

  others_same :
      (ls : List Text)
      → select_where (λ l. not (is_ours uri l)) (relabel_lines uri suffix true ls)
        ≡ select_where (λ l. not (is_ours uri l)) ls
  unfolding relabel_lines select_where
  others_same [] = refl
  others_same (l ∷ ls) = ground (arith, others_same ls)

-- Whatever lines the file has, one line of ours is written, with the label, every other line is kept
-- in its order, and labelling again changes nothing.
pub relabel_lines_once :
    (uri suffix : Text) (lines : List Text)
    → (select_where (is_ours uri) (relabel_lines uri suffix false lines) ≡ wanted uri suffix ∷ [])
      × (select_where (λ l. not (is_ours uri l)) (relabel_lines uri suffix false lines)
          ≡ select_where (λ l. not (is_ours uri l)) lines)
      × (relabel_lines uri suffix false (relabel_lines uri suffix false lines)
          ≡ relabel_lines uri suffix false lines)
unfolding relabel_lines select_where
relabel_lines_once uri suffix [] = let ours = wanted-ours uri suffix in ground (arith, ours)
relabel_lines_once uri suffix (l ∷ ls) =
    let ours = wanted-ours uri suffix in
    ground (
      arith,
      ours,
      relabel_lines_once uri suffix ls,
      others_none uri suffix ls,
      others_again uri suffix ls,
      others_same uri suffix ls,
    )
