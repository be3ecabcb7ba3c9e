-- ===== src/State/Fetched.antt =====
-- The entries that a scan of a subtree returns: where they are and where not.
use icloud_linux.Prelude.{
  Bool, true, false, List, [], ◌∷◌, map, ◌≡◌, sym, ◌∙◌, inl, inr, All, ◌==◌, ==_iff, Bool-cases,
  nat_eq, text_eq,
}
use icloud_linux.Path
use icloud_linux.Path.{IcPath, is_within, rebase}
use icloud_linux.Path.Bounds.{in_subtree, in_subtree-is_within}
use icloud_linux.Path.Components.{IsNormal, new_self, new-IsNormal}
use icloud_linux.State.Rows.{Entry, Row, from_row}
use icloud_linux.State.Sql.{select_where, order_by}
use icloud_linux.State.Defs.{by_length}
use icloud_linux.State.Queries.{fetch_rows}
use icloud_linux.State.Subtree.{AreNormal, All-order_by}

pub differs : (p q : IcPath) (f : IcPath → Bool) → f p ≡ true → f q ≡ false → (p == q) ≡ false
differs p q f h k = elim (Bool-cases (p == q)) [
  | inl same ↦ absurd (cc (h, k, (==_iff p q).0 same))
  | inr other ↦ other
]

All-map-from_row :
    (P : Entry → Type 0) (rows : List Row)
    → All (λ r. P (from_row r)) rows
    → All P (map from_row rows)
All-map-from_row P [] h = tt
All-map-from_row P (r ∷ rows) h = (h.0, All-map-from_row P rows h.1)

All_any {ℓ} : {A : Type ℓ} (P : A → Type 0) (xs : List A) → ((x : A) → P x) → All P xs
All_any P [] h = tt
All_any P (x ∷ xs) h = (h x, All_any P xs h)

All-select_where_fits :
    (P : Row → Type 0) (c : Row → Bool) (rows : List Row)
    → AreNormal rows
    → ((r : Row) → c r ≡ true → IsNormal r.path → P r)
    → All P (select_where c rows)
unfolding select_where
All-select_where_fits P c [] n h = tt
All-select_where_fits P c (r ∷ rows) n h = elim (Bool-cases (c r)) [
  | inl yes_ ↦ rw yes_ (h r yes_ n.0, All-select_where_fits P c rows n.1 h)
  | inr no_ ↦ rw no_ (All-select_where_fits P c rows n.1 h)
]

pub fetched-IsNormal :
    (rows : List Row) (p : IcPath) → All (λ (e : Entry). IsNormal e.path) (fetch_rows rows p)
unfolding fetch_rows from_row
fetched-IsNormal rows p =
    All-map-from_row (λ e. IsNormal e.path)
      (order_by by_length (select_where (λ r. in_subtree p r.path) rows))
      (All_any _ _ (λ r. new-IsNormal r.path))

pub fetched_away :
    (rows : List Row) (p q : IcPath)
    → AreNormal rows
    → IsNormal q
    → is_within q p ≡ false
    → All (λ (e : Entry). (e.path == q) ≡ false) (fetch_rows rows p)
unfolding fetch_rows from_row
fetched_away rows p q n nq out =
    let within = λ (r : Row). in_subtree p r.path in
    All-map-from_row (λ e. (e.path == q) ≡ false) (order_by by_length (select_where within rows))
      (All-order_by (λ (r : Row). (Path.new r.path == q) ≡ false) by_length
        (select_where within rows)
        (All-select_where_fits (λ (r : Row). (Path.new r.path == q) ≡ false) within rows n
          (λ r inside nr. rw (new_self r.path nr) (
            differs r.path q (λ x. is_within x p) (sym (in_subtree-is_within p r.path nr) ∙ inside)
              out))))
