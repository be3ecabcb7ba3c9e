-- ===== src/Inodes/Links.antt =====
-- The two maps undo one another, and every number handed out lies below `next`.
use mathlib.Core.Option.{map as map_option}
use mathlib.Core.Path.{subst}
use icloud_linux.Prelude.{
  ℕ, ◌+◌, ◌<◌, ◌^◌, [], ◌≡◌, refl, ◌∙◌, arith, inl, inr, ◌==◌, ==_refl, nat_eq, text_eq,
  Option-cases, none, some, if◌then◌else◌, get, insert, remove, get-insert, get-remove, get-nil,
}
use icloud_linux.Path.{IcPath, root}
use icloud_linux.Path.Components.{IsNormal, render-IsNormal}
use icloud_linux.Inodes.{InodeTable, new, root_ino, path, ino_for, forget, relink, bump}

pub record IsLinked (t : InodeTable) : Type 0 where
  pub forward : (p : IcPath) (i : ℕ) → get p t.by_path ≡ some i → get i t.by_ino ≡ some p
  pub backward : (p : IcPath) (i : ℕ) → get i t.by_ino ≡ some p → get p t.by_path ≡ some i
  pub fresh : (p : IcPath) (i : ℕ) → get i t.by_ino ≡ some p → i < t.next
  pub normal : (p : IcPath) (i : ℕ) → get p t.by_path ≡ some i → IsNormal p

pub record IsValid (t : InodeTable) : Type 0 where
  pub linked : IsLinked t
  pub rooted : get root_ino t.by_ino ≡ some root
  pub in_range : t.next < 2 ^ 64

module _ (t : InodeTable) (v : IsLinked t) (p : IcPath) where
  pub forget-IsLinked : IsLinked (forget p t)
  unfolding forget
  forget-IsLinked = elim (Option-cases (get p t.by_path)) [
    | inl gone ↦ rw (gone, forget) v
    | inr (ino, e) ↦
        rw (e, forget)
          (record {
            forward = λ q i h. ground (
              arith,
              get-remove p q t.by_path,
              get-remove ino i t.by_ino,
              v.forward q i,
              v.forward p ino,
            );
            backward = λ q i h. ground (
              arith,
              get-remove p q t.by_path,
              get-remove ino i t.by_ino,
              v.backward q i,
              v.backward p ino,
            );
            fresh = λ q i h. ground (arith, get-remove ino i t.by_ino, v.fresh q i);
            normal = λ q i h. v.normal q i (ground (arith, get-remove p q t.by_path));
          })
  ]

pub by_path-forget :
    (t : InodeTable) (p q : IcPath)
    → get q (forget p t).by_path ≡ (if p == q then none else get q t.by_path)
unfolding forget
by_path-forget t p q = ground (arith, get-remove p q t.by_path)

module _ (t : InodeTable) (v : IsLinked t) (src dst : IcPath) (n : IsNormal dst)
    (vacant : get dst t.by_path ≡ none) where
  pub relink-IsLinked : IsLinked (relink src dst t)
  unfolding relink
  relink-IsLinked = elim (Option-cases (get src t.by_path)) [
    | inl gone ↦ rw (gone, relink) v
    | inr (ino, e) ↦
        rw (e, relink)
          (record {
            forward = λ q i h. ground (
              arith,
              get-insert dst q ino (remove src t.by_path),
              get-remove src q t.by_path,
              get-insert ino i dst t.by_ino,
              v.forward q i,
              v.forward src ino,
            );
            backward = λ q i h. ground (
              arith,
              get-insert dst q ino (remove src t.by_path),
              get-remove src q t.by_path,
              get-insert ino i dst t.by_ino,
              v.backward q i,
              v.forward src ino,
              v.backward src i,
            );
            fresh = λ q i h. ground (
              arith,
              get-insert ino i dst t.by_ino,
              v.fresh q i,
              v.forward src ino,
              v.fresh src ino,
            );
            normal = λ q i h. elim (text_eq.dec dst q) [
              | yes here ↦ subst IsNormal here n
              | no other ↦ v.normal q i (
                  ground (
                    arith,
                    get-insert dst q ino (remove src t.by_path),
                    get-remove src q t.by_path,
                  ))
            ];
          })
  ]

-- What a path becomes when `src` is moved to `dst`.
abbrev pub replace : IcPath → IcPath → IcPath → IcPath
replace src dst p = if p == src then dst else p

-- An inode of `src` now stands for `dst`, and every other for what it did.
pub by_ino-relink :
    (t : InodeTable)
    → IsLinked t
    → (src dst : IcPath) (i : ℕ)
    → get i (relink src dst t).by_ino ≡ map_option (replace src dst) (get i t.by_ino)
unfolding relink
by_ino-relink t v src dst i = elim (Option-cases (get src t.by_path)) [
  | inl gone ↦
      rw (gone, relink)
        (elim (Option-cases (get i t.by_ino)) [
          | inl e ↦ rw e refl
          | inr (p, e) ↦ rw e (ground (arith, v.backward p i e))
        ])
  | inr (ino, e) ↦
      rw (e, relink)
        (rw (get-insert ino i dst t.by_ino) (elim (Option-cases (get i t.by_ino)) [
          | inl k ↦ rw k (ground (arith, v.forward src ino))
          | inr (p, k) ↦ rw k (ground (arith, v.forward src ino, v.backward p i))
        ]))
]

pub by_path-relink :
    (t : InodeTable) (src dst q : IcPath) {ino : ℕ}
    → get src t.by_path ≡ some ino
    → get q (relink src dst t).by_path
      ≡ (if dst == q then some ino else if src == q then none else get q t.by_path)
unfolding relink
by_path-relink t src dst q {ino} e =
    rw (e, relink)
      (rw (get-insert dst q ino (remove src t.by_path)) (rw (get-remove src q t.by_path) refl))

pub relink_absent :
    (t : InodeTable) (src dst : IcPath) → get src t.by_path ≡ none → relink src dst t ≡ t
unfolding relink
relink_absent t src dst e = rw (e, relink)

-- The table that `new` makes is valid.
pub new-IsValid : IsValid new
unfolding new
new-IsValid = record {
  linked = record {
    forward = λ p i h. ground (
      arith,
      get-insert {V = ℕ} root p 1 [],
      get-insert {K = ℕ} 1 i root [],
      get-nil {K = IcPath} {V = ℕ} p,
    );
    backward = λ p i h. ground (
      arith,
      get-insert {V = ℕ} root p 1 [],
      get-insert {K = ℕ} 1 i root [],
      get-nil {K = ℕ} {V = IcPath} i,
    );
    fresh = λ p i h. ground (arith, get-insert {K = ℕ} 1 i root [], get-nil {K = ℕ} {V = IcPath} i);
    normal = λ p i h.
        let here : root ≡ p =
          ground (arith, get-insert {V = ℕ} root p 1 [], get-nil {K = IcPath} {V = ℕ} p) in
        subst IsNormal here (render-IsNormal [] tt);
  };
  rooted = get-insert {K = ℕ} 1 1 root [] ∙ rw (==_refl {A = ℕ} 1);
  in_range = omega arith;
}

ino_for_known :
    (t : InodeTable) (p : IcPath) {i : ℕ} → get p t.by_path ≡ some i → ino_for t p ≡ (t, i)
unfolding ino_for
ino_for_known t p e = rw (e, ino_for)

-- The table with `p` at the next number.
abbrev numbered : InodeTable → IcPath → InodeTable
numbered t p = record t {
  next = bump t.next;
  by_ino = insert t.next p t.by_ino;
  by_path = insert p t.next t.by_path;
}

ino_for_new :
    (t : InodeTable) (p : IcPath) → get p t.by_path ≡ none → ino_for t p ≡ (numbered t p, t.next)
unfolding ino_for
ino_for_new t p e = rw (e, ino_for)

module _ (t : InodeTable) (v : IsLinked t) (p : IcPath) (n : IsNormal p)
    (absent : get p t.by_path ≡ none) (room : t.next + 1 < 2 ^ 64) where
  numbered-IsLinked : IsLinked (numbered t p)
  numbered-IsLinked = record {
    forward = λ q i h. ground (
      arith,
      get-insert p q t.next t.by_path,
      get-insert t.next i p t.by_ino,
      v.forward q i,
      v.fresh q i,
    );
    backward = λ q i h.
        ground
          (arith, get-insert p q t.next t.by_path, get-insert t.next i p t.by_ino, v.backward q i);
    fresh = λ q i h. ground (arith, get-insert t.next i p t.by_ino, v.fresh q i);
    normal = λ q i h. elim (text_eq.dec p q) [
      | yes here ↦ subst IsNormal here n
      | no other ↦ v.normal q i (ground (arith, get-insert p q t.next t.by_path))
    ];
  }

-- Asking for the inode of a path keeps the table valid and every number at its path; the number
-- returned stands for the path, and asking again gives the same number and changes nothing. The
-- numbers must not be used up.
pub ino_for_stable :
    (t : InodeTable) (p : IcPath) (j : ℕ) (q : IcPath)
    → IsValid t
    → IsNormal p
    → t.next + 1 < 2 ^ 64
    → path t j ≡ some q
    → IsValid (ino_for t p).0
      × (path (ino_for t p).0 (ino_for t p).1 ≡ some p)
      × (path (ino_for t p).0 j ≡ some q)
      × (ino_for (ino_for t p).0 p ≡ ino_for t p)
unfolding path
ino_for_stable t p j q v n room here = elim (Option-cases (get p t.by_path)) [
  | inr (i, e) ↦ rw (ino_for_known t p e) (v, v.linked.forward p i e, here, ino_for_known t p e)
  | inl e ↦
      let again : get p (numbered t p).by_path ≡ some t.next =
        get-insert p p t.next t.by_path ∙ rw (==_refl p) in
      rw (ino_for_new t p e) (
        record {
          linked = numbered-IsLinked t v.linked p n e room;
          rooted =
              ground
                (arith, get-insert t.next 1 p t.by_ino, v.rooted, v.linked.fresh root 1 v.rooted);
          in_range = omega arith;
        },
        get-insert t.next t.next p t.by_ino ∙ rw (==_refl t.next),
        ground (arith, get-insert t.next j p t.by_ino, v.linked.fresh q j here),
        ino_for_known (numbered t p) p again,
      )
]
