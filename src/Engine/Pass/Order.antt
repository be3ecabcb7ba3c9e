-- ===== src/Engine/Pass/Order.antt =====
-- The order in which a pass works off what is dirty.
use mathlib.Core.List.{append-nil}
use icloud_linux.Prelude.{
  Text, ◌<◌, ◌≤◌, Bool, true, false, not, ◌&&◌, List, [], ◌∷◌, ◌++◌, ◌≡◌, refl, sym, ap, ◌∙◌, ◌⊎◌,
  inl, inr, arith, any, All, length, length-append, ◌==◌, ==_refl, Bool-cases, nat_eq, text_eq,
}
use icloud_linux.Path.{IcPath, is_within, depth}
use icloud_linux.Path.Components.{IsNormal, components, render}
use icloud_linux.Path.Moves.{depth-render}
use icloud_linux.Path.Rebase.{within_rest}
use icloud_linux.Drive.{is_directory}
use icloud_linux.State.Rows.{Entry}
use icloud_linux.State.Sql.{select_where, order_by, insert_by}
use icloud_linux.State.Subtree.{All-order_by, All-select_where, any-order_by, any-select_where}
use icloud_linux.Engine.Pass.{deeper, earlier, tombstones, regular}

abbrev IsOrdered {ℓ κ} : {A : Type ℓ} → (A → A → Type κ) → List A → Type κ
IsOrdered P [] = Unit
IsOrdered P (a ∷ rows) = All (P a) rows × IsOrdered P rows

module _ {ℓ κ} {A : Type ℓ} (P : A → A → Type κ) (before : A → A → Bool)
    (trans : (a b c : A) → P a b → P b c → P a c) (first : (a b : A) → before a b ≡ true → P a b)
    (second : (a b : A) → before a b ≡ false → P b a) where
  All_trans : (a b : A) (rows : List A) → P a b → All (P b) rows → All (P a) rows
  All_trans a b [] h k = tt
  All_trans a b (c ∷ rows) h k = (trans a b c h k.0, All_trans a b rows h k.1)

  All-insert :
      (b a : A) (rows : List A) → P b a → All (P b) rows → All (P b) (insert_by before a rows)
  All-insert b a [] h k = (h, tt)
  All-insert b a (c ∷ rows) h k = elim (Bool-cases (before c a)) [
    | inl yes_ ↦ rw yes_ (k.0, All-insert b a rows h k.1)
    | inr no_ ↦ rw no_ (h, k)
  ]

  insert_by-IsOrdered :
      (a : A) (rows : List A) → IsOrdered P rows → IsOrdered P (insert_by before a rows)
  insert_by-IsOrdered a [] h = (tt, tt)
  insert_by-IsOrdered a (b ∷ rows) h = elim (Bool-cases (before b a)) [
    | inl yes_ ↦ rw yes_ (All-insert b a rows (first b a yes_) h.0, insert_by-IsOrdered a rows h.1)
    | inr no_ ↦ rw no_ ((second b a no_, All_trans a b rows (second b a no_) h.0), h)
  ]

  order_by-IsOrdered : (rows : List A) → IsOrdered P (order_by before rows)
  unfolding order_by
  order_by-IsOrdered [] = tt
  order_by-IsOrdered (a ∷ rows) =
      insert_by-IsOrdered a (order_by before rows) (order_by-IsOrdered rows)

rest_cases : (rest : List Text) → (rest ≡ []) ⊎ (0 < length rest)
rest_cases [] = inl refl
rest_cases (c ∷ rest) = inr (omega arith)

-- A path that lies in another one, other than itself, is deeper.
pub within-depth :
    (p q : IcPath) → IsNormal p → IsNormal q → is_within p q ≡ true → (p ≡ q) ⊎ (depth q < depth p)
within-depth p q np nq h =
    let (rest, split_) = within_rest p q np nq h in
    let dp : depth p ≡ length (components p) =
      ap depth (sym np.rendered) ∙ depth-render (components p) np.parts in
    let dq : depth q ≡ length (components q) =
      ap depth (sym nq.rendered) ∙ depth-render (components q) nq.parts in
    elim (rest_cases rest) [
      | inl none_ ↦ inl (
          sym np.rendered
          ∙ (ap render (split_ ∙ (ap (λ r. components q ++ r) none_ ∙ append-nil (components q)))
              ∙ nq.rendered))
      | inr more ↦
          inr (omega (arith, dp, dq, ap length split_, length-append (components q) rest, more))
    ]

-- Is `p` in `q` and not `q` itself?
abbrev pub is_below : IcPath → IcPath → Bool
is_below p q = is_within p q && not (p == q)

-- Nothing that comes later lies in what comes before.
abbrev pub IsInnerFirst : List Entry → Type 0
IsInnerFirst es = IsOrdered (λ (a b : Entry). is_below b.path a.path ≡ false) es

-- No folder that comes later holds what comes before.
abbrev pub IsOuterFirst : List Entry → Type 0
IsOuterFirst es =
    IsOrdered (λ (a b : Entry). (is_directory b.kind && is_below a.path b.path) ≡ false) es

below-depth : (p q : IcPath) → IsNormal p → IsNormal q → depth p ≤ depth q → is_below p q ≡ false
below-depth p q np nq h = elim (Bool-cases (is_within p q)) [
  | inr out ↦ rw out refl
  | inl inside ↦ elim (within-depth p q np nq inside) [
    | inl same ↦ ground (arith, same, ==_refl p)
    | inr deep ↦ absurd (omega (arith, h, deep))
  ]
]

All_weaken {ℓ κ μ ν} :
    {A : Type ℓ} (Q : A → Type μ) (P : A → Type κ) (P' : A → Type ν) (xs : List A)
    → ((a : A) → Q a → P a → P' a)
    → All Q xs
    → All P xs
    → All P' xs
All_weaken Q P P' [] f q h = tt
All_weaken Q P P' (x ∷ xs) f q h = (f x q.0 h.0, All_weaken Q P P' xs f q.1 h.1)

-- What `P` orders, of elements that all have `Q`.
IsOrdered-weaken {ℓ κ μ ν} :
    {A : Type ℓ} (Q : A → Type μ) (P : A → A → Type κ) (P' : A → A → Type ν) (xs : List A)
    → ((a b : A) → Q a → Q b → P a b → P' a b)
    → All Q xs
    → IsOrdered P xs
    → IsOrdered P' xs
IsOrdered-weaken Q P P' [] f q h = tt
IsOrdered-weaken Q P P' (a ∷ xs) f q h = (
  All_weaken Q (P a) (P' a) xs (λ b qb h'. f a b q.0 qb h') q.1 h.0,
  IsOrdered-weaken Q P P' xs f q.1 h.1,
)

abbrev NotDeeper : Entry → Entry → Type 0
NotDeeper a b = depth b.path ≤ depth a.path

abbrev OuterBefore : Entry → Entry → Type 0
OuterBefore a b =
    is_directory b.kind ≡ true → (is_directory a.kind ≡ true) × (depth a.path ≤ depth b.path)

outer-before :
    (a b : Entry)
    → IsNormal a.path
    → IsNormal b.path
    → OuterBefore a b
    → (is_directory b.kind && is_below a.path b.path) ≡ false
outer-before a b na nb h = elim (Bool-cases (is_directory b.kind)) [
  | inl dir ↦ rw dir (below-depth a.path b.path na nb (h dir).1)
  | inr plain ↦ rw plain refl
]

-- A pass sends deletions from the inside out: none of something that lies in what has been deleted
-- before. The rest it sends from the outside in: no folder after something that lies in it. Each
-- dirty entry is in one of the two, the deletions in the first. The paths are normal.
pub sync_order :
    (dirty : List Entry) (test : Entry → Bool)
    → All (λ (e : Entry). IsNormal e.path) dirty
    → IsInnerFirst (tombstones dirty)
      × IsOuterFirst (regular dirty)
      × (any test (tombstones dirty) ≡ any (λ e. e.tombstone && test e) dirty)
      × (any test (regular dirty) ≡ any (λ e. not e.tombstone && test e) dirty)
unfolding tombstones regular
sync_order dirty test n =
    let dead = select_where (λ (e : Entry). e.tombstone) dirty in
    let rest = select_where (λ (e : Entry). not e.tombstone) dirty in
    let normal = λ (e : Entry). IsNormal e.path in
    (
      IsOrdered-weaken normal NotDeeper _ (order_by deeper dead)
          (λ a b na nb h. below-depth b.path a.path nb na h)
          (All-order_by normal deeper dead (All-select_where normal (λ e. e.tombstone) dirty n))
          (order_by-IsOrdered NotDeeper deeper (λ a b c h k. omega (arith, h, k))
            (λ a b h. ground (arith, h)) (λ a b h. ground (arith, h)) dead),
      IsOrdered-weaken normal OuterBefore _ (order_by earlier rest)
          (λ a b na nb h. outer-before a b na nb h)
          (All-order_by normal earlier rest
            (All-select_where normal (λ e. not e.tombstone) dirty n))
          (order_by-IsOrdered OuterBefore earlier
            (λ a b c h k dir.
              let (db, shallow) = k dir in
              let (da, more) = h db in (da, omega (arith, shallow, more)))
            (λ a b h dir. ground (arith, h, dir)) (λ a b h dir. ground (arith, h, dir)) rest),
      any-order_by deeper test dead ∙ any-select_where (λ e. e.tombstone) test dirty,
      any-order_by earlier test rest ∙ any-select_where (λ e. not e.tombstone) test dirty,
    )
