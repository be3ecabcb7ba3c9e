-- ===== src/TwoFactor/Page/Scripts.antt =====
-- The boot data is that of the first script of its class, on a page that is written as scripts with
-- text between them.
use icloud_linux.Prelude.{
  ℕ, zero, suc, ◌≤◌, false, List, [], ◌∷◌, ◌++◌, contains, length, length-append, Option, none,
  some, Text, codes, ◌≡◌, refl, ap, ◌∙◌, arith, nat_eq, text_eq,
}
use icloud_linux.Prelude.Exec.{Result, err}
use icloud_linux.Status.Log.Fields.{split_once-append}
use icloud_linux.TwoFactor.Page.Find.{find_text-append}
use icloud_linux.TwoFactor.Page.Class.{
  Attributes, written, AreAttributes, has_word_of, has_class-written,
}
use icloud_linux.TwoFactor.Page.{
  PageError, missing, push_before, find_text, has_class, open_tag, close_tag, boot_args, answer,
  at_script, in_tag, in_script, scan, parse_boot_args,
}

-- A script of a page, and the text before it; its attributes stand between `<script` and `>`.
pub record Script : Type 0 where
  pub before : Text
  pub attributes : Attributes
  pub inside : Text

-- The text before it has no script, its tag ends where it is written to, and so does the script.
pub record IsScript (x : Script) : Type 0 where
  pub no_script : find_text open_tag x.before ≡ none
  pub no_end : contains 62 (written x.attributes) ≡ false
  pub shape : AreAttributes x.attributes
  pub no_close : find_text close_tag x.inside ≡ none

abbrev pub AreScripts : List Script → Type 0
AreScripts [] = Unit
AreScripts (x ∷ xs) = IsScript x × AreScripts xs

-- The page, with the text behind its last script.
unfoldable pub page : List Script → Text → Text
page [] tail = tail
page (x ∷ xs) tail =
    x.before
    ++ (open_tag ++ (written x.attributes ++ (62 ∷ (x.inside ++ (close_tag ++ page xs tail)))))

length-page : (xs : List Script) (tail : Text) → length xs ≤ length (page xs tail)
unfolding page
length-page [] tail = omega arith
length-page (x ∷ xs) tail = omega (
  arith,
  length-page xs tail,
  length-append x.before
      (open_tag ++ (written x.attributes ++ (62 ∷ (x.inside ++ (close_tag ++ page xs tail))))),
  length-append (written x.attributes) (62 ∷ (x.inside ++ (close_tag ++ page xs tail))),
  length-append x.inside (close_tag ++ page xs tail),
)

module _ {V : Type 0} (from_str : Text → Option V) where
  -- The first script with `boot_args` among the words of its class.
  abbrev pub first_boot : List Script → Result PageError V
  first_boot [] = err missing
  first_boot (x ∷ xs) =
      answer from_str (has_word_of x.attributes boot_args) x.inside (first_boot xs)

  at_script-push_before :
      (more : Text → Result PageError V) (c : ℕ) (o : Option (Text × Text))
      → at_script from_str more (push_before c o) ≡ at_script from_str more o
  at_script-push_before more c none = refl
  at_script-push_before more c (some found) = refl

  -- A closing tag before a page makes no difference.
  at_script-close_tag :
      (more : Text → Result PageError V) (s : Text)
      → at_script from_str more (find_text open_tag (close_tag ++ s))
        ≡ at_script from_str more (find_text open_tag s)
  unfolding find_text nat_eq
  at_script-close_tag more s = simp (at_script-push_before)

  scan-close_tag : (k : ℕ) (s : Text) → scan from_str k (close_tag ++ s) ≡ scan from_str k s
  unfolding scan
  scan-close_tag zero s = refl
  scan-close_tag (suc k) s = at_script-close_tag (λ from. scan from_str k from) s

  scan-page :
      (k : ℕ) (xs : List Script) (tail : Text)
      → AreScripts xs
      → find_text open_tag tail ≡ none
      → length xs ≤ k
      → scan from_str k (page xs tail) ≡ first_boot xs
  unfolding scan page nat_eq
  scan-page zero [] tail hs h enough = refl
  scan-page (suc k) [] tail hs h enough = ap (at_script from_str (λ from. scan from_str k from)) h
  scan-page zero (x ∷ xs) tail hs h enough = absurd (omega (arith, enough))
  scan-page (suc k) (x ∷ xs) tail (hx, hs) h enough =
      let rest = page xs tail in
      let body = x.inside ++ (close_tag ++ rest) in
      let more = λ (from : Text). scan from_str k from in
      let tag = open_tag ++ written x.attributes in
      ap (at_script from_str more) (
        find_text-append 60 (codes "script") x.before (written x.attributes ++ (62 ∷ body)) refl
          hx.no_script)
      ∙ (ap (in_tag from_str more) (split_once-append 62 tag body (hx.no_end))
          ∙ (ap (in_script from_str more tag)
                (find_text-append 60 (codes "/script") x.inside rest refl hx.no_close)
              ∙ (ap (answer from_str (has_class tag boot_args) x.inside)
                    (scan-close_tag k rest ∙ scan-page k xs tail hs h (omega (arith, enough)))
                  ∙ ap (λ b. answer from_str b x.inside (first_boot xs))
                      (has_class-written x.attributes boot_args hx.shape))))

  -- On a page of scripts, the boot data is what stands in the first one with `boot_args` among the words
  -- of its class, read as JSON; a page that has none is an error. The class of a script is the list of
  -- words, between quotes, behind the first `class=` in its tag, whatever comes before that; a tag
  -- without `class=` has none. One space is between each two words, and a word has no white space and
  -- no quote of that kind. The text before a script and behind the last has no `<script`, its
  -- attributes no `>` and its text no `</script`.
  pub parse_boot_args-page :
      (xs : List Script) (tail : Text)
      → AreScripts xs
      → find_text open_tag tail ≡ none
      → parse_boot_args from_str (page xs tail) ≡ first_boot xs
  unfolding parse_boot_args
  parse_boot_args-page xs tail hs h =
      scan-page (length (page xs tail)) xs tail hs h (length-page xs tail)
