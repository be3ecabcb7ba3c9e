-- ===== src/Hydrate/Reports.antt =====
-- What is reported.
use mathlib.Core.List.{append-nil, append_assoc}
use icloud_linux.Prelude.{
  Option-cases, inr, inl, Bool-cases, ℕ, ◌+◌, ◌%◌, ◌^◌, ◌<◌, ◌≡◌, refl, sym, Bool, true, false,
  List, [], ◌∷◌, ◌++◌, length, arith, Option, none, some, Text, if◌then◌else◌,
}
use icloud_linux.Path.{IcPath}
use icloud_linux.Hydrate.{Plan, Report, run_from, run}

-- The files that cannot be read, with their errors, and how many can.
unfoldable pub errors : (IcPath → Option Text) → List (IcPath × ℕ) → List (IcPath × Text)
errors touch [] = []
errors touch ((path, size) ∷ rest) =
    let more = errors touch rest in
    elim (touch path) [ none ↦ more | some err ↦ (path, err) ∷ more ]

unfoldable pub readable : (IcPath → Option Text) → List (IcPath × ℕ) → ℕ
readable touch [] = 0
readable touch ((path, size) ∷ rest) =
    let more = readable touch rest in elim (touch path) [ none ↦ more + 1 | some err ↦ more ]

-- The files before the flag is raised.
unfoldable pub until : (ℕ → Bool) → ℕ → List (IcPath × ℕ) → List (IcPath × ℕ)
until cancel i [] = []
until cancel i (file ∷ rest) =
    let more = until cancel (i + 1) rest in if cancel i then [] else file ∷ more

-- Is the flag raised before a file?
unfoldable pub is_cancelled : (ℕ → Bool) → ℕ → List (IcPath × ℕ) → Bool
is_cancelled cancel i [] = false
is_cancelled cancel i (file ∷ rest) =
    let more = is_cancelled cancel (i + 1) rest in if cancel i then true else more

run_from_lem :
    (touch : IcPath → Option Text) (cancel : ℕ → Bool) (i : ℕ) (files : List (IcPath × ℕ))
    (r : Report)
    → r.succeeded + length files < 2 ^ 64
    → r.interrupted ≡ false
    → ((run_from touch cancel i files r).succeeded
        ≡ r.succeeded + readable touch (until cancel i files))
      × ((run_from touch cancel i files r).failed ≡ r.failed ++ errors touch (until cancel i files))
      × ((run_from touch cancel i files r).interrupted ≡ is_cancelled cancel i files)
unfolding run_from errors readable until is_cancelled
run_from_lem touch cancel i [] r small fresh = (omega arith, sym (append-nil r.failed), fresh)
run_from_lem touch cancel i ((path, size) ∷ rest) r small fresh = elim (Bool-cases (cancel i)) [
  | inl stop ↦ ground (arith, stop, append-nil r.failed)
  | inr go ↦ elim (Option-cases (touch path)) [
    | inl read ↦
        let r' = record r { succeeded = (r.succeeded + 1) % 2 ^ 64 } in
        let h = run_from_lem touch cancel (i + 1) rest r' (omega (arith, small)) fresh in
        ground (arith, go, read, h, small)
    | inr (err, unread) ↦
        let r' = record r { failed = r.failed ++ ((path, err) ∷ []) } in
        let h = run_from_lem touch cancel (i + 1) rest r' (omega (arith, small)) fresh in
        ground (
          arith,
          go,
          unread,
          h,
          append_assoc r.failed ((path, err) ∷ []) (errors touch (until cancel (i + 1) rest)),
        )
  ]
]

-- A run reads the planned files in order until the flag is raised, if it is: it counts those that can
-- be read, reports each other one with its error, and says whether it was interrupted. There are
-- fewer than 2 ^ 64 files.
pub run_report :
    (touch : IcPath → Option Text) (cancel : ℕ → Bool) (p : Plan)
    → length p.pending < 2 ^ 64
    → ((run touch cancel p).succeeded ≡ readable touch (until cancel 0 p.pending))
      × ((run touch cancel p).failed ≡ errors touch (until cancel 0 p.pending))
      × ((run touch cancel p).interrupted ≡ is_cancelled cancel 0 p.pending)
unfolding run
run_report touch cancel p small =
    let h =
      run_from_lem touch cancel 0 p.pending
        (record { succeeded = 0; failed = []; interrupted = false }) (omega (arith, small)) refl in
    (omega (arith, h.0), h.1, h.2)
