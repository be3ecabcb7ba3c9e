-- ===== src/Hydrate/Plans.antt =====
-- What is planned.
use mathlib.Core.List.{append-nil, append_assoc}
use icloud_linux.Prelude.{
  ◌≤◌, ℕ, ◌+◌, ◌^◌, ◌<◌, ◌≡◌, refl, sym, ap, ◌∙◌, Bool, not, ◌&&◌, List, [], ◌∷◌, ◌++◌, length, map,
  arith, if◌then◌else◌,
}
use icloud_linux.Path.{IcPath}
use icloud_linux.Policy.{SyncPolicy, allows}
use icloud_linux.State.Rows.{Entry}
use icloud_linux.State.Sql.{select_where}
use icloud_linux.State.{Database}
use icloud_linux.State.Queries.{list_entries}
use icloud_linux.Hydrate.{Plan, is_file, plan_entry, plan_entries, plan, no_plan, eligible}

-- A file that is not deleted.
abbrev pub is_present : Entry → Bool
is_present e = is_file e.kind && not e.tombstone

abbrev pub is_pending : SyncPolicy → Entry → Bool
is_pending policy e = is_present e && (allows policy e.path && not e.hydrated)

abbrev pub is_local : SyncPolicy → Entry → Bool
is_local policy e = is_present e && (allows policy e.path && e.hydrated)

abbrev pub is_excluded : SyncPolicy → Entry → Bool
is_excluded policy e = is_present e && not (allows policy e.path)

abbrev pub named : Entry → IcPath × ℕ
named e = (e.path, e.size)

-- How many entries a test holds for.
unfoldable pub count_where : (Entry → Bool) → List Entry → ℕ
count_where test [] = 0
count_where test (e ∷ es) = (if test e then 1 else 0) + count_where test es

abbrev Planned : SyncPolicy → List Entry → Plan → Plan → Type 0
Planned policy es p q =
    (q.pending ≡ p.pending ++ map named (select_where (is_pending policy) es))
    × (q.already_local ≡ p.already_local + count_where (is_local policy) es)
    × (q.excluded ≡ p.excluded + count_where (is_excluded policy) es)

count_where_le : (test : Entry → Bool) (es : List Entry) → count_where test es ≤ length es
unfolding count_where
count_where_le test [] = omega arith
count_where_le test (e ∷ es) = ground (arith, count_where_le test es)

-- What the body of the loop adds.
one_planned :
    (policy : SyncPolicy) (e : Entry) (p : Plan)
    → p.already_local + 1 < 2 ^ 64
    → p.excluded + 1 < 2 ^ 64
    → ((plan_entry policy e.path e p).pending
        ≡ p.pending ++ (if is_pending policy e then named e ∷ [] else []))
      × ((plan_entry policy e.path e p).already_local
          ≡ p.already_local + (if is_local policy e then 1 else 0))
      × ((plan_entry policy e.path e p).excluded
          ≡ p.excluded + (if is_excluded policy e then 1 else 0))
one_planned policy e p l x = ground (arith, append-nil p.pending)

select_step :
    (policy : SyncPolicy) (e : Entry) (es : List Entry)
    → map named (select_where (is_pending policy) (e ∷ es))
      ≡ (if is_pending policy e then named e ∷ [] else [])
        ++ map named (select_where (is_pending policy) es)
unfolding select_where
select_step policy e es = ground arith

plan_entries-Planned :
    (policy : SyncPolicy) (es : List Entry) (p : Plan)
    → p.already_local + length es < 2 ^ 64
    → p.excluded + length es < 2 ^ 64
    → Planned policy es p (plan_entries policy es p)
unfolding plan_entries count_where select_where
plan_entries-Planned policy [] p l x = (sym (append-nil p.pending), omega arith, omega arith)
plan_entries-Planned policy (e ∷ es) p l x =
    let once = one_planned policy e p (omega (arith, l)) (omega (arith, x)) in
    let p' = plan_entry policy e.path e p in
    let rest =
      plan_entries-Planned policy es p' (ground (arith, once.1, l)) (ground (arith, once.2, x)) in
    (
      rest.0
          ∙ ap (λ ps. ps ++ map named (select_where (is_pending policy) es)) once.0
          ∙ append_assoc p.pending _ _
          ∙ ap (λ ps. p.pending ++ ps) (sym (select_step policy e es)),
      omega (arith, rest.1, once.1),
      omega (arith, rest.2, once.2),
    )

counts_sum :
    (policy : SyncPolicy) (es : List Entry)
    → length (map named (select_where (is_pending policy) es))
        + count_where (is_local policy) es
        + count_where (is_excluded policy) es
      ≡ count_where is_present es
unfolding count_where select_where
counts_sum policy [] = refl
counts_sum policy (e ∷ es) = ground (arith, counts_sum policy es)

-- What `plan` finds: pending are the files outside the mirror that the policy allows, in the order of
-- their paths and with their sizes; the others are counted by what they are, and no file that is not
-- deleted is left out. There are fewer than 2 ^ 64 entries.
pub plan-counts :
    (policy : SyncPolicy) (db : Database)
    → length (list_entries db) < 2 ^ 64
    → ((plan policy db).pending ≡ map named (select_where (is_pending policy) (list_entries db)))
      × ((plan policy db).already_local ≡ count_where (is_local policy) (list_entries db))
      × ((plan policy db).excluded ≡ count_where (is_excluded policy) (list_entries db))
      × (eligible (plan policy db) + (plan policy db).excluded
          ≡ count_where is_present (list_entries db))
unfolding plan eligible
plan-counts policy db small =
    let q =
      plan_entries-Planned policy (list_entries db) no_plan (omega (arith, small))
        (omega (arith, small)) in
    let all = counts_sum policy (list_entries db) in
    let few = count_where_le is_present (list_entries db) in
    (
      q.0,
      omega (arith, q.1),
      omega (arith, q.2),
      omega (arith, ap length q.0, q.1, q.2, all, few, small),
    )
