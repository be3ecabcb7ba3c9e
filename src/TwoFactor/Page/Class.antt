-- ===== src/TwoFactor/Page/Class.antt =====
-- The attributes of a tag, as they are written, and the words of its class.
use icloud_linux.Prelude.{
  ℕ, Bool, false, ◌||◌, List, [], ◌∷◌, ◌++◌, any, All, contains, none, Text, codes, is_empty, ◌≡◌,
  refl, ap, ◌∙◌, arith, ◌==◌, nat_eq, text_eq,
}
use icloud_linux.Path.Str.{strip_prefix}
use icloud_linux.Status.Log.{is_whitespace, split_once}
use icloud_linux.Status.Log.Fields.{split_once-append}
use icloud_linux.TwoFactor.Page.{
  find_text, split_space, has_word, word_within, in_quotes, class_value, has_class, open_tag,
}
use icloud_linux.TwoFactor.Page.Find.{find_text-append}

pub data Quote : Type 0 where
  double : Quote
  single : Quote

abbrev pub sign : Quote → ℕ
sign double = 34
sign single = 39

-- The attributes of a tag: without `class=`, or with the words of the class between two quotes.
pub data Attributes : Type 0 where
  unclassed : Text → Attributes
  classed : Text → Quote → List Text → Text → Attributes

-- The words with a space between each two.
unfoldable pub spaced : List Text → Text
spaced [] = []
spaced (w ∷ []) = w
spaced (w ∷ (v ∷ ws)) = w ++ (32 ∷ spaced (v ∷ ws))

abbrev pub written : Attributes → Text
written (unclassed t) = t
written (classed before quote words after) =
    before ++ (codes "class=" ++ (sign quote ∷ (spaced words ++ (sign quote ∷ after))))

pub record IsWord (quote : Quote) (w : Text) : Type 0 where
  pub filled : is_empty w ≡ false
  pub no_space : any is_whitespace w ≡ false
  pub no_quote : contains (sign quote) w ≡ false

-- What comes before the class has no `class=`.
abbrev pub AreAttributes : Attributes → Type 0
AreAttributes (unclassed t) = find_text (codes "class=") t ≡ none
AreAttributes (classed before quote words after) =
    (find_text (codes "class=") before ≡ none) × All (IsWord quote) words

-- Is the word one of the class?
abbrev pub has_word_of : Attributes → Text → Bool
has_word_of (unclassed t) wanted = false
has_word_of (classed before quote words after) wanted = any (λ w. w == wanted) words

split_space-word : (w : Text) → any is_whitespace w ≡ false → split_space w ≡ w ∷ []
unfolding split_space
split_space-word [] h = refl
split_space-word (c ∷ w) h = ground (arith, h, split_space-word w)

split_space-append :
    (w s : Text) → any is_whitespace w ≡ false → split_space (w ++ (32 ∷ s)) ≡ w ∷ split_space s
unfolding split_space nat_eq
split_space-append [] s h = refl
split_space-append (c ∷ w) s h = ground (arith, h, split_space-append w s)

has_word-spaced :
    (quote : Quote) (wanted : Text) (words : List Text)
    → All (IsWord quote) words
    → has_word wanted (spaced words) ≡ any (λ w. w == wanted) words
unfolding spaced
has_word-spaced quote wanted [] h = unfold split_space in refl
has_word-spaced quote wanted (w ∷ []) h = rw (split_space-word w h.0.no_space, h.0.filled) refl
has_word-spaced quote wanted (w ∷ (v ∷ ws)) h =
    rw (split_space-append w (spaced (v ∷ ws)) h.0.no_space, h.0.filled)
      (ap (λ b. w == wanted || b) (has_word-spaced quote wanted (v ∷ ws) h.1))

contains-append :
    (c : ℕ) (s t : Text) → contains c s ≡ false → contains c t ≡ false → contains c (s ++ t) ≡ false
contains-append c [] t hs ht = ht
contains-append c (d ∷ s) t hs ht = ground (arith, hs, contains-append c s t)

contains-space :
    (quote : Quote) (t : Text) → contains (sign quote) (32 ∷ t) ≡ contains (sign quote) t
unfolding nat_eq
contains-space double t = refl
contains-space single t = refl

contains-spaced :
    (quote : Quote) (words : List Text)
    → All (IsWord quote) words
    → contains (sign quote) (spaced words) ≡ false
unfolding spaced
contains-spaced quote [] h = refl
contains-spaced quote (w ∷ []) h = h.0.no_quote
contains-spaced quote (w ∷ (v ∷ ws)) h =
    contains-append (sign quote) w (32 ∷ spaced (v ∷ ws)) h.0.no_quote
      (contains-space quote (spaced (v ∷ ws)) ∙ contains-spaced quote (v ∷ ws) h.1)

in_quotes-sign :
    (quote : Quote) (wanted value : Text)
    → in_quotes wanted (sign quote ∷ value) ≡ word_within wanted (split_once (sign quote) value)
unfolding in_quotes nat_eq
in_quotes-sign double wanted value = refl
in_quotes-sign single wanted value = refl

find_text-open_tag :
    (t : Text)
    → find_text (codes "class=") t ≡ none
    → find_text (codes "class=") (open_tag ++ t) ≡ none
unfolding find_text nat_eq
find_text-open_tag t h = rw h refl

-- The code finds the words of the class.
pub has_class-written :
    (a : Attributes) (wanted : Text)
    → AreAttributes a
    → has_class (open_tag ++ written a) wanted ≡ has_word_of a wanted
unfolding has_class strip_prefix nat_eq
has_class-written (unclassed t) wanted h = ap (class_value wanted) (find_text-open_tag t h)
has_class-written (classed before quote words after) wanted h =
    let value = spaced words ++ (sign quote ∷ after) in
    ap (class_value wanted) (
      find_text-append 99 (codes "lass=") (open_tag ++ before) (sign quote ∷ value) refl
        (find_text-open_tag before h.0))
    ∙ (in_quotes-sign quote wanted value
        ∙ (ap (word_within wanted) (
              split_once-append (sign quote) (spaced words) after (contains-spaced quote words h.1))
            ∙ has_word-spaced quote wanted words h.1))
