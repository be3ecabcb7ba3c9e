-- ===== src/Engine/Queue/Order.antt =====
-- In which order `DelayQueue` gives its items out.
use mathlib.Core.Path.{subst}
use mathlib.Core.Option.{some-injective}
use cubical.Cubical.Foundations.Prelude.{Lift}
use icloud_linux.Prelude.{
  ℕ, ◌+◌, ◌-◌, ◌%◌, ◌^◌, ◌≤◌, ◌<◌, ◌≡◌, refl, sym, ap, ◌∙◌, ◌⊎◌, inl, inr, Bool, true, false, List,
  [], ◌∷◌, ◌++◌, arith, All, none, some, leb, Option-cases, Bool-cases, nat_eq,
}
use icloud_linux.Engine.Queue.{
  wait, over, got, push, turn, earlier, wait_for, Turn, Timed, DelayQueue, pop_least,
}

module _ {ℓ} {T : Type ℓ} where
  -- The numbers of the elements go up, from above `n` to `top` at most.
  abbrev IsAscending : ℕ → ℕ → List (Timed T) → Type 0
  IsAscending n top [] = n ≤ top
  IsAscending n top (x ∷ xs) = (n < x.seq) × IsAscending x.seq top xs

  -- The elements are numbered in the order of their pushes, up to the queue's counter.
  abbrev pub IsValid : DelayQueue T → Type 0
  IsValid q = IsAscending 0 q.seq q.heap

  -- `x` is due after `first`, or at the same time and was pushed later.
  abbrev pub IsAfter : Timed T → Timed T → Type 0
  IsAfter first x = (first.due < x.due) ⊎ ((first.due ≡ x.due) × (first.seq < x.seq))

  -- `ys` is `xs` without its element `x`.
  abbrev pub IsTaken : Timed T → List (Timed T) → List (Timed T) → Type ℓ
  IsTaken x xs ys =
      (front : List (Timed T)) × (back : List (Timed T)) × (xs ≡ front ++ (x ∷ back))
      × (ys ≡ front ++ back)

  IsAscending-all :
      (n top : ℕ) (xs : List (Timed T)) → IsAscending n top xs → All (λ x. n < x.seq) xs
  IsAscending-all n top [] h = tt
  IsAscending-all n top (x ∷ xs) h = (h.0, lift xs (IsAscending-all x.seq top xs h.1))
    where
      lift : (ys : List (Timed T)) → All (λ y. x.seq < y.seq) ys → All (λ y. n < y.seq) ys
      lift [] a = tt
      lift (y ∷ ys) a = (omega (arith, h.0, a.0), lift ys a.1)

  IsAscending-snoc :
      (n top : ℕ) (xs : List (Timed T)) (x : Timed T)
      → IsAscending n top xs
      → top < x.seq
      → IsAscending n x.seq (xs ++ (x ∷ []))
  IsAscending-snoc n top [] x h l = ground arith
  IsAscending-snoc n top (y ∷ xs) x h l = (h.0, IsAscending-snoc y.seq top xs x h.1 l)

  IsAscending-weaken :
      (m n top : ℕ) (xs : List (Timed T)) → m ≤ n → IsAscending n top xs → IsAscending m top xs
  IsAscending-weaken m n top [] l h = omega arith
  IsAscending-weaken m n top (x ∷ xs) l h = (omega (arith, h.0), h.1)

  IsAscending-without :
      (n top : ℕ) (front : List (Timed T)) (x : Timed T) (back : List (Timed T))
      → IsAscending n top (front ++ (x ∷ back))
      → IsAscending n top (front ++ back)
  IsAscending-without n top [] x back h =
      IsAscending-weaken n x.seq top back (omega (arith, h.0)) h.1
  IsAscending-without n top (y ∷ front) x back h =
      (h.0, IsAscending-without y.seq top front x back h.1)

  All-without {κ} :
      (P : Timed T → Type κ) (front : List (Timed T)) (x : Timed T) (back : List (Timed T))
      → P x
      → All P (front ++ back)
      → All P (front ++ (x ∷ back))
  All-without P [] x back p h = (p, h)
  All-without P (y ∷ front) x back p h = (h.0, All-without P front x back p h.1)

  All-middle {κ} :
      (P : Timed T → Type κ) (front : List (Timed T)) (x : Timed T) (back : List (Timed T))
      → All P (front ++ (x ∷ back))
      → P x × All P (front ++ back)
  All-middle P [] x back h = h
  All-middle P (y ∷ front) x back h =
      let rest = All-middle P front x back h.1 in (rest.0, (h.0, rest.1))

module _ {ℓ} {T : Type ℓ} (before : T → T → Bool) where
  abbrev IsFirst : ℕ → List (Timed T) → Timed T → List (Timed T) → Type ℓ
  IsFirst top xs first rest = IsTaken first xs rest × All (IsAfter first) rest

  later_all :
      (x y : Timed T) (ys : List (Timed T))
      → IsAfter x y
      → All (λ z. x.seq < z.seq) ys
      → All (IsAfter y) ys
      → All (IsAfter x) ys
  later_all x y [] d a h = tt
  later_all x y (z ∷ ys) d a h = (ground (arith, d, a.0, h.0), later_all x y ys d a.1 h.1)

  earlier-IsAfter : (x y : Timed T) → x.seq < y.seq → earlier before y x ≡ true → IsAfter y x
  earlier-IsAfter x y l h = ground arith

  later-IsAfter : (x y : Timed T) → x.seq < y.seq → earlier before y x ≡ false → IsAfter x y
  later-IsAfter x y l h = ground arith

  pub pop_least-none : (xs : List (Timed T)) → pop_least before xs ≡ none → xs ≡ []
  unfolding pop_least
  pop_least-none [] e = refl
  pop_least-none (x ∷ xs) e = ground arith

  pop_least-IsFirst :
      (n top : ℕ) (xs : List (Timed T)) (first : Timed T) (rest : List (Timed T))
      → IsAscending n top xs
      → pop_least before xs ≡ some (first, rest)
      → IsFirst top xs first rest
  unfolding pop_least
  pop_least-IsFirst n top [] first rest h e = absurd (cc)
  pop_least-IsFirst n top (x ∷ xs) first rest h e = elim (Option-cases (pop_least before xs)) [
    | inl none_left ↦
        let same : some (x, []) ≡ some (first, rest) = sym (rw none_left refl) ∙ e in
        subst (λ p. IsFirst top (x ∷ xs) p.0 p.1) (some-injective _ _ same)
          (([], [], ap (◌∷◌ x) (pop_least-none xs none_left), refl), tt)
    | inr ((y, ys), found) ↦
        let (front, back, at, left) = (pop_least-IsFirst x.seq top xs y ys h.1 found).0 in
        let after = (pop_least-IsFirst x.seq top xs y ys h.1 found).1 in
        let above : All (λ z. x.seq < z.seq) (front ++ (y ∷ back)) =
          subst (All (λ z. x.seq < z.seq)) at (IsAscending-all x.seq top xs h.1) in
        let middle = All-middle (λ z. x.seq < z.seq) front y back above in
        let others : All (λ z. x.seq < z.seq) ys =
          subst (All (λ z. x.seq < z.seq)) (sym left) middle.1 in
        elim (Bool-cases (earlier before y x)) [
          | inl sooner ↦
              let same : some (y, x ∷ ys) ≡ some (first, rest) =
                sym (rw (found, sooner) refl) ∙ e in
              subst (λ p. IsFirst top (x ∷ xs) p.0 p.1) (some-injective _ _ same)
                (
                  (x ∷ front, back, ap (◌∷◌ x) at, ap (◌∷◌ x) left),
                  (earlier-IsAfter x y (middle.0) sooner, after),
                )
          | inr not_sooner ↦
              let next = later-IsAfter x y (middle.0) not_sooner in
              let same : some (x, xs) ≡ some (first, rest) =
                sym (rw (found, not_sooner) refl) ∙ e in
              subst (λ p. IsFirst top (x ∷ xs) p.0 p.1) (some-injective _ _ same)
                (
                  ([], xs, refl, refl),
                  subst (All (IsAfter x)) (sym at) (
                      All-without (IsAfter x) front y back next
                        (subst (All (IsAfter x)) left (later_all x y ys next others after))),
                )
        ]
  ]

  -- What a turn of `pop` promises, on each of its outcomes.
  abbrev pub IsFair : ℕ → DelayQueue T → Turn T → Type ℓ
  IsFair now q over = Lift {0, ℓ} (q.closed ≡ true)
  IsFair now q wait = (q.closed ≡ false) × (q.heap ≡ [])
  IsFair now q (wait_for d) =
      (q.closed ≡ false)
      × (0 < d)
      × ((first : Timed T) × (rest : List (Timed T)) × IsTaken first q.heap rest
          × All (IsAfter first) rest
          × (first.due ≡ now + d))
  IsFair now q (got item q') =
      (q.closed ≡ false)
      × IsValid q'
      × ((first : Timed T) × IsTaken first q.heap q'.heap
          × All (IsAfter first) q'.heap
          × (first.item ≡ item)
          × (first.due ≤ now))

  -- Of a valid queue, a turn of `pop` gives out the element that is due first, of those due at the same
  -- time the one that was pushed first, never one that is not due, and leaves the others in a valid
  -- queue; if none is due yet, it waits until the first is; it waits for a push if there is none, and
  -- ends if the queue is closed.
  pub turn-IsFair : (now : ℕ) (q : DelayQueue T) → IsValid q → IsFair now q (turn before now q)
  turn-IsFair now q v = elim (Bool-cases q.closed) [
    | inl c ↦
        let at : turn before now q ≡ over = unfold turn in rw c refl in
        subst (IsFair now q) (sym at) (record { lower = c })
    | inr c ↦ elim (Option-cases (pop_least before q.heap)) [
      | inl e ↦
          let at : turn before now q ≡ wait = unfold turn in rw (c, e) refl in
          subst (IsFair now q) (sym at) (c, pop_least-none q.heap e)
      | inr ((first, rest), e) ↦
          let (taken, after) = pop_least-IsFirst 0 q.seq q.heap first rest v e in
          let (front, back, whole, left) = taken in
          elim (Bool-cases (leb first.due now)) [
            | inl due ↦
                let at : turn before now q ≡ got first.item (record q { heap = rest }) =
                  unfold turn in ground (arith, c, e, due) in
                subst (IsFair now q) (sym at) (
                  c,
                  subst (IsAscending 0 q.seq) (sym left) (
                      IsAscending-without 0 q.seq front first back
                        (subst (IsAscending 0 q.seq) whole v)),
                  (first, taken, after, refl, ground arith),
                )
            | inr early ↦
                let at : turn before now q ≡ wait_for (first.due - now) =
                  unfold turn in rw (c, e, early) refl in
                subst (IsFair now q) (sym at)
                  (c, ground arith, (first, rest, taken, after, ground arith))
          ]
    ]
  ]

module _ {ℓ} {T : Type ℓ} where
  -- A push keeps the queue valid, as long as the counter does not wrap around.
  pub push-IsValid :
      (now : ℕ) (q : DelayQueue T) (item : T) (delay : ℕ)
      → q.seq + 1 < 2 ^ 64
      → IsValid q
      → IsValid (push now q item delay)
  unfolding push
  push-IsValid now q item delay small v =
      let wrap : (q.seq + 1) % 2 ^ 64 ≡ q.seq + 1 = omega (arith, small) in
      subst
        (λ k. IsAscending 0 k (q.heap ++ (record { due = now + delay; seq = k; item = item } ∷ [])))
        (sym wrap)
        (IsAscending-snoc 0 q.seq q.heap
          (record { due = now + delay; seq = q.seq + 1; item = item }) v (omega arith))
