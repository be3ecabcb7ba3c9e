-- ===== src/State/Sql.antt =====
-- The statements that the code sends to SQLite, over lists of rows: `UPDATE .. WHERE`,
-- `DELETE .. WHERE`, `SELECT .. WHERE .. ORDER BY`, `COALESCE`, and the key of `entries`.
use icloud_linux.Prelude.{
  ℕ, ◌+◌, Bool, ◌&&◌, List, [], ◌∷◌, Option, none, some, Text, ltb, leb, ◌==◌, nat_eq, text_eq,
  if◌then◌else◌,
}

module _ {ℓ} {A : Type ℓ} where
  unfoldable pub update_where : (A → Bool) → (A → A) → List A → List A
  update_where c f [] = []
  update_where c f (r ∷ rows) = (if c r then f r else r) ∷ update_where c f rows

  unfoldable pub delete_where : (A → Bool) → List A → List A
  delete_where c [] = []
  delete_where c (r ∷ rows) = let rest = delete_where c rows in if c r then rest else r ∷ rest

  unfoldable pub select_where : (A → Bool) → List A → List A
  select_where c [] = []
  select_where c (r ∷ rows) = let rest = select_where c rows in if c r then r ∷ rest else rest

  -- The first row that fits: `query_row(..).optional()`.
  unfoldable pub find_where : (A → Bool) → List A → Option A
  find_where c [] = none
  find_where c (r ∷ rows) = if c r then some r else find_where c rows

  -- `ORDER BY`: `before a b` says that `a` comes strictly before `b`.
  abbrev pub insert_by : (A → A → Bool) → A → List A → List A
  insert_by before a [] = a ∷ []
  insert_by before a (b ∷ rows) =
      let rest = insert_by before a rows in if before b a then b ∷ rest else a ∷ b ∷ rows

  unfoldable pub order_by : (A → A → Bool) → List A → List A
  order_by before [] = []
  order_by before (a ∷ rows) = insert_by before a (order_by before rows)

  -- `COALESCE(a, b)` for a column `b` that cannot be NULL, and for one that can.
  abbrev pub coalesce : Option A → A → A
  coalesce none b = b
  coalesce (some a) b = a

  abbrev pub coalesce? : Option A → Option A → Option A
  coalesce? none b = b
  coalesce? (some a) b = some a

-- `LENGTH(path)`: the characters before the first NUL.
abbrev pub sql_length : Text → ℕ
sql_length [] = 0
sql_length (c ∷ s) =
    let rest = sql_length s in
    if c == 0 then 0 else if leb 128 c && ltb c 192 then rest else rest + 1
