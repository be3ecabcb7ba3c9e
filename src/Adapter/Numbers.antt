-- ===== src/Adapter/Numbers.antt =====
-- The numbers that the kernel is given name the files that it asked for.
use mathlib.Core.Path.{subst, ap₂}
use icloud_linux.Prelude.{ℕ, ◌+◌, ◌<◌, ◌^◌, Option, none, some, Text, ◌≡◌, sym, ap, ◌∙◌}
use icloud_linux.Prelude.Exec.{Result, ok, err, need, pure}
use icloud_linux.Prelude.Exec.Runs.{bind_ok, ok_injective}
use icloud_linux.Path.{IcPath, join}
use icloud_linux.Path.Components.{IsNormal}
use icloud_linux.Path.Steps.{parent-join}
use icloud_linux.Errno.{Errno, noent, inval}
use icloud_linux.Inodes
use icloud_linux.Inodes.{InodeTable, ino_for}
use icloud_linux.Inodes.Links.{IsValid, ino_for_stable}
use icloud_linux.Fs.World.{World, Host, Attr}
use icloud_linux.Fs.Ops.Reads
use icloud_linux.Adapter.{
  IcloudFs, from_core, on_core, number, path_of, child_path, attr_of, lookup,
}

need_ok :
    {A : Type 0} (e : Errno) (o : Option A) (m : IcloudFs) {a : A} {m' : IcloudFs}
    → need e o m ≡ (ok a, m')
    → (o ≡ some a) × (m ≡ m')
unfolding need
need_ok e none m h = cc
need_ok e (some b) m {a} h = let (same, kept) = ok_injective b a m _ h in (ap some same, kept)

from_core-inodes :
    {A : Type 0} (m : IcloudFs) (x : Result Errno A × World) {a : A} {m' : IcloudFs}
    → from_core m x ≡ (ok a, m')
    → m'.inodes ≡ m.inodes
from_core-inodes m (ok b, w) {a} h = sym (ap (λ n. n.inodes) (ok_injective b a _ _ h).1)
from_core-inodes m (err e, w) h = cc

attr_of-inodes :
    (host : Host) (p : IcPath) (m m' : IcloudFs) (ino : ℕ) (a : Attr)
    → attr_of host p m ≡ (ok (ino, a), m')
    → (m'.inodes ≡ (ino_for m.inodes p).0) × (ino ≡ (ino_for m.inodes p).1)
unfolding attr_of on_core number pure
attr_of-inodes host p m m' ino a h =
    let (b, m1, asked, rest) = bind_ok (on_core (Reads.getattr host p)) _ m h in
    let (i, m2, given, last) = bind_ok (number p) _ m1 rest in
    let (number_, table) = ok_injective _ i _ m2 given in
    let (reply, done) = ok_injective (i, b) (ino, a) m2 m' last in
    let same = ap (λ t. ino_for t p) (from_core-inodes m _ asked) in
    (
      ap (λ (n : IcloudFs). n.inodes) (sym done ∙ sym table) ∙ ap (λ x. x.0) same,
      sym (ap (λ x. x.0) reply) ∙ (sym number_ ∙ ap (λ x. x.1) same),
    )

path-IsNormal :
    (t : InodeTable) (ino : ℕ) (p : IcPath) → IsValid t → Inodes.path t ino ≡ some p → IsNormal p
unfolding Inodes.path
path-IsNormal t ino p v h = v.linked.normal p ino (v.linked.backward p ino h)

-- If a lookup succeeds, the number that it answers is from then on that of the file of this name in the
-- folder with the number asked for, and that folder keeps its number. The table of numbers is valid,
-- stays so, and has room.
pub lookup-path :
    (host : Host) (parent : ℕ) (name : Text) (m m' : IcloudFs) (ino : ℕ) (a : Attr)
    → IsValid m.inodes
    → m.inodes.next + 1 < 2 ^ 64
    → lookup host parent name m ≡ (ok (ino, a), m')
    → (dir : IcPath) × (p : IcPath) × (Inodes.path m'.inodes parent ≡ some dir)
      × (join dir name ≡ some p)
      × (Inodes.path m'.inodes ino ≡ some p)
      × IsValid m'.inodes
unfolding lookup child_path path_of
lookup-path host parent name m m' ino a v room h =
    let (p, m1, child, rest) = bind_ok (child_path parent name) _ m h in
    let (dir, m2, known, joined) = bind_ok (path_of parent) _ m child in
    let (at, same) = need_ok noent _ m known in
    let (join_p, same') = need_ok inval _ m2 joined in
    let nd = path-IsNormal m.inodes parent dir v at in
    let (np, up, named, deep) = parent-join dir name nd join_p in
    let (table, numbered) = attr_of-inodes host p m1 m' ino a rest in
    let before : m1.inodes ≡ m.inodes = ap (λ (n : IcloudFs). n.inodes) (sym (same ∙ same')) in
    let now_ : m'.inodes ≡ (ino_for m.inodes p).0 = table ∙ ap (λ t. (ino_for t p).0) before in
    let here : ino ≡ (ino_for m.inodes p).1 = numbered ∙ ap (λ t. (ino_for t p).1) before in
    let (valid, found, kept, again) = ino_for_stable m.inodes p parent dir v np room at in
    (
      dir,
      p,
      ap (λ t. Inodes.path t parent) now_ ∙ kept,
      join_p,
      ap₂ Inodes.path now_ here ∙ found,
      subst IsValid (sym now_) valid,
    )
