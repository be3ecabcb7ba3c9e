-- ===== src/State/Elsewhere.antt =====
-- What the methods leave as it was: the rows at other paths, and that each row has a normal path.
use mathlib.Core.Path.{subst}
use icloud_linux.Prelude.{
  Bool, true, false, List, [], ◌∷◌, ◌++◌, ◌≡◌, refl, sym, ap, ◌∙◌, inl, inr, arith, any, All,
  All-append, ◌==◌, Bool-cases, nat_eq, text_eq,
}
use icloud_linux.Path.{IcPath}
use icloud_linux.Path.Components.{IsNormal}
use icloud_linux.State.Rows.{Row}
use icloud_linux.State.Sql.{update_where, delete_where, find_where}
use icloud_linux.State.Defs.{at_path}
use icloud_linux.State.Lookup.{row_at}
use icloud_linux.State.Subtree.{AreNormal}
use icloud_linux.State.Writes.{upsert_row}

module _ {ℓ κ} {A : Type ℓ} (P : A → Type κ) (c : A → Bool) where
  All-update_where :
      (f : A → A) (xs : List A)
      → ((x : A) → c x ≡ true → P x → P (f x))
      → All P xs
      → All P (update_where c f xs)
  unfolding update_where
  All-update_where f [] keep h = tt
  All-update_where f (x ∷ xs) keep h = elim (Bool-cases (c x)) [
    | inl yes_ ↦ rw yes_ (keep x yes_ h.0, All-update_where f xs keep h.1)
    | inr no_ ↦ rw no_ (h.0, All-update_where f xs keep h.1)
  ]

  All-delete_where : (xs : List A) → All P xs → All P (delete_where c xs)
  unfolding delete_where
  All-delete_where [] h = tt
  All-delete_where (x ∷ xs) h = elim (Bool-cases (c x)) [
    | inl yes_ ↦ rw yes_ (All-delete_where xs h.1)
    | inr no_ ↦ rw no_ (h.0, All-delete_where xs h.1)
  ]

-- The row at `q` stays, and paths stay normal.
pub record IsUntouched (q : IcPath) (rows rows' : List Row) : Type 0 where
  pub same : row_at q rows' ≡ row_at q rows
  pub normal : AreNormal rows → AreNormal rows'

pub IsUntouched-refl : (q : IcPath) (rows : List Row) → IsUntouched q rows rows
IsUntouched-refl q rows = record { same = refl; normal = λ n. n }

pub IsUntouched-trans :
    (q : IcPath) {rows rows' rows'' : List Row}
    → IsUntouched q rows rows'
    → IsUntouched q rows' rows''
    → IsUntouched q rows rows''
IsUntouched-trans q a b = record { same = b.same ∙ a.same; normal = λ n. b.normal (a.normal n) }

module _ (q : IcPath) (c : Row → Bool) (away : (r : Row) → c r ≡ true → (r.path == q) ≡ false) where
  pub row_at-update_away :
      (f : Row → Row) (rows : List Row)
      → ((r : Row) → c r ≡ true → ((f r).path == q) ≡ false)
      → row_at q (update_where c f rows) ≡ row_at q rows
  unfolding find_where update_where
  row_at-update_away f [] to = refl
  row_at-update_away f (r ∷ rows) to = ground (arith, away r, to r, row_at-update_away f rows to)

  row_at-delete_away : (rows : List Row) → row_at q (delete_where c rows) ≡ row_at q rows
  unfolding find_where delete_where
  row_at-delete_away [] = refl
  row_at-delete_away (r ∷ rows) = ground (arith, away r, row_at-delete_away rows)

  pub delete_where-IsUntouched : (rows : List Row) → IsUntouched q rows (delete_where c rows)
  delete_where-IsUntouched rows = record {
    same = row_at-delete_away rows;
    normal = λ n. All-delete_where (λ r. IsNormal r.path) c rows n;
  }

  -- An UPDATE that keeps the paths.
  pub update_where-IsUntouched :
      (f : Row → Row) (rows : List Row)
      → ((r : Row) → (f r).path ≡ r.path)
      → IsUntouched q rows (update_where c f rows)
  update_where-IsUntouched f rows keep = record {
    same = row_at-update_away f rows (λ r h. ap (λ p. p == q) (keep r) ∙ away r h);
    normal = λ n.
        All-update_where (λ (r : Row). IsNormal r.path) c f rows
          (λ r h k. subst IsNormal (sym (keep r)) k) n;
  }

  -- An UPDATE that gives the rows a path.
  pub update_where_path-IsUntouched :
      (f : Row → Row) (p : IcPath) (rows : List Row)
      → ((r : Row) → (f r).path ≡ p)
      → IsNormal p
      → (p == q) ≡ false
      → IsUntouched q rows (update_where c f rows)
  update_where_path-IsUntouched f p rows new np h = record {
    same = row_at-update_away f rows (λ r k. ap (λ x. x == q) (new r) ∙ h);
    normal = λ n.
        All-update_where (λ (r : Row). IsNormal r.path) c f rows
          (λ r k m. subst IsNormal (sym (new r)) np) n;
  }

pub at_path_away :
    (p q : IcPath) (r : Row) → (p == q) ≡ false → at_path p r ≡ true → (r.path == q) ≡ false
at_path_away p q r h k = ground arith

row_at-append_away :
    (q : IcPath) (rows : List Row) (r : Row)
    → (r.path == q) ≡ false
    → row_at q (rows ++ (r ∷ [])) ≡ row_at q rows
unfolding find_where
row_at-append_away q [] r h = ground arith
row_at-append_away q (s ∷ rows) r h = ground (arith, row_at-append_away q rows r h)

pub upsert_row-IsUntouched :
    (q : IcPath) (r : Row) (rows : List Row)
    → IsNormal r.path
    → (r.path == q) ≡ false
    → IsUntouched q rows (upsert_row r rows)
unfolding upsert_row
upsert_row-IsUntouched q r rows np h = elim (Bool-cases (any (at_path r.path) rows)) [
  | inl old ↦ rw old (
      update_where_path-IsUntouched q (at_path r.path) (λ s k. at_path_away r.path q s h k) (λ _. r)
        r.path rows (λ _. refl) np h)
  | inr fresh ↦ rw fresh (record {
    same = row_at-append_away q rows r h;
    normal = λ n. All-append (λ (s : Row). IsNormal s.path) rows (r ∷ []) n (np, tt);
  })
]
