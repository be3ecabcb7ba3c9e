-- ===== src/Mirror/Contents.antt =====
-- What is read after a write.
use icloud_linux.Prelude.{
  inr, inl, Option-cases, ℕ, zero, suc, ◌+◌, ◌-◌, ◌≡◌, refl, sym, ap, ◌∙◌, false, List, [], ◌∷◌,
  ◌++◌, arith, Option, none, some, length, take, drop, is_empty, insert, get-insert, length-append,
  nat_eq, text_eq,
}
use icloud_linux.Prelude.Int.{ℤ}
use icloud_linux.Prelude.Exec.{ok, ◌>>=◌, ◌>>◌, pure, continue}
use icloud_linux.Path.{IcPath}
use icloud_linux.Mirror.Files.{
  new_file, Disk, DiskNode, lstat, zeros, resized, spliced, open_create, open_existing,
}
use icloud_linux.Mirror.{put, dir_at, written, ensure_parent, read_at, write_at}

module _ {ℓ} {A : Type ℓ} where
  take_all : (xs ys : List A) → take (length xs) (xs ++ ys) ≡ xs
  take_all [] ys = refl
  take_all (x ∷ xs) ys = ap (◌∷◌ x) (take_all xs ys)

  drop_all : (xs ys : List A) → drop (length xs) (xs ++ ys) ≡ ys
  drop_all [] ys = refl
  drop_all (x ∷ xs) ys = drop_all xs ys

  length-take : (n : ℕ) (xs : List A) → length (take n xs) + (n - length xs) ≡ n
  length-take zero xs = ground arith
  length-take (suc n) [] = ground arith
  length-take (suc n) (x ∷ xs) = ground (arith, length-take n xs)

length-zeros : (n : ℕ) → length (zeros n) ≡ n
unfolding zeros
length-zeros zero = refl
length-zeros (suc n) = ap suc (length-zeros n)

length-resized : (n : ℕ) (bytes : List ℕ) → length (resized n bytes) ≡ n
length-resized n bytes =
    length-append (take n bytes) (zeros (n - length bytes))
    ∙ ap (λ k. length (take n bytes) + k) (length-zeros (n - length bytes))
    ∙ length-take n bytes

read-spliced :
    (offset : ℕ) (new bytes : List ℕ)
    → (take (length new) (drop offset (spliced offset new bytes)) ≡ new)
      × (take offset (spliced offset new bytes) ≡ resized offset bytes)
read-spliced offset new bytes =
    let front = resized offset bytes in
    let rest = new ++ drop (offset + length new) bytes in
    let len = length-resized offset bytes in
    (
      ap (take (length new)) (ap (λ k. drop k (front ++ rest)) (sym len) ∙ drop_all front rest)
          ∙ take_all new (drop (offset + length new) bytes),
      ap (λ k. take k (front ++ rest)) (sym len) ∙ take_all front rest,
    )

-- The bytes of what is at a place.
abbrev pub bytes_of : Option DiskNode → List ℕ
bytes_of none = []
bytes_of (some n) = n.bytes

abbrev opened : ℤ → Option DiskNode → DiskNode
opened now none = new_file now
opened now (some n) = n

-- A write that succeeds opens the file that is there, or a new one.
write_at-ok :
    (now : ℤ) (path : IcPath) (offset : ℕ) (new : List ℕ) (d : Disk) {n : ℕ} {d' : Disk}
    → is_empty new ≡ false
    → ensure_parent now path d ≡ (ok tt, d)
    → write_at now path offset new d ≡ (ok n, d')
    → (n ≡ length new)
      × (lstat path d' ≡ some (written now offset new (opened now (lstat path d))))
      × (dir_at (lstat path d) ≡ false)
unfolding write_at open_create ◌>>=◌
write_at-ok now path offset new d {n} {d'} full here h =
    let rest = λ (u : Unit {0}).
      (open_create now path >>= λ file.
      put path (written now offset new file) >> pure (length new)) in
    let h' : rest tt d ≡ (ok n, d') = sym (ap (continue rest) here) ∙ h in
    elim (Option-cases (lstat path d)) [
      | inl gone ↦
          let n' = written now offset new (new_file now) in
          let made : rest tt d ≡ (ok (length new), insert path n' (insert path (new_file now) d)) =
            ground (arith, gone) in
          let same = sym made ∙ h' in
          ground (arith, gone, same, get-insert path path n' (insert path (new_file now) d))
      | inr (m, found) ↦
          let n' = written now offset new m in ground (arith, found, h', get-insert path path n' d)
    ]

read_at-found :
    (path : IcPath) (offset len : ℕ) (d : Disk) {n : DiskNode}
    → lstat path d ≡ some n
    → n.dir ≡ false
    → read_at path offset len d ≡ (ok (take len (drop offset n.bytes)), d)
unfolding read_at open_existing ◌>>=◌
read_at-found path offset len d at file = ground (arith, at, file)

-- After a write of some bytes into a folder that is there, the same bytes are read at their place; what
-- was before them is read unchanged, and where the file ended before the place, zeros fill the gap.
pub read_at-write_at :
    (now : ℤ) (path : IcPath) (offset : ℕ) (new : List ℕ) (d : Disk) {n : ℕ} {d' : Disk}
    → is_empty new ≡ false
    → ensure_parent now path d ≡ (ok tt, d)
    → write_at now path offset new d ≡ (ok n, d')
    → (n ≡ length new)
      × (read_at path offset (length new) d' ≡ (ok new, d'))
      × (read_at path 0 offset d' ≡ (ok (resized offset (bytes_of (lstat path d))), d'))
read_at-write_at now path offset new d {n} {d'} full here h =
    let (count, at, plain) = write_at-ok now path offset new d full here h in
    let n' = written now offset new (opened now (lstat path d)) in
    let bytes : n'.bytes ≡ spliced offset new (bytes_of (lstat path d)) = ground (arith, full) in
    let file : n'.dir ≡ false = ground (arith, plain, full) in
    let (back, front) = read-spliced offset new (bytes_of (lstat path d)) in
    let read = λ (from len : ℕ). read_at-found path from len d' at file in
    (
      count,
      read offset (length new)
          ∙ ap (λ x. (ok x, d')) (ap (λ b. take (length new) (drop offset b)) bytes ∙ back),
      read 0 offset ∙ ap (λ x. (ok x, d')) (ap (take offset) bytes ∙ front),
    )
