-- ===== src/State/Pending.antt =====
-- What the queue of operations says after any sequence of notes.
use mathlib.Core.Bool.{or-true, or-false}
use mathlib.Core.Path.{subst}
use icloud_linux.Prelude.{
  length-append, ◌+◌, Bool, true, false, ◌&&◌, ◌||◌, List, [], ◌∷◌, ◌++◌, ◌≡◌, refl, sym, ap, ◌∙◌,
  arith, inl, inr, any, Option, none, Text, codes, ◌==◌, ==_refl, Bool-cases, nat_eq, text_eq,
  if◌then◌else◌,
}
use icloud_linux.Prelude.Int.{ℤ}
use icloud_linux.Path.{IcPath}
use icloud_linux.State.Sql.{delete_where}
use icloud_linux.State.Defs.{Database, Op}
use icloud_linux.State.Queue.{
  op_of, creates, writes, changes_content, push_op, queue_op, has_pending_content_change,
  pending_op_count,
}

any-append {ℓ} :
    {A : Type ℓ} (test : A → Bool) (xs ys : List A)
    → any test (xs ++ ys) ≡ (any test xs || any test ys)
any-append test [] ys = refl
any-append test (x ∷ xs) ys = ground (arith, any-append test xs ys)

pending-delete_where :
    (p q : IcPath) (ops : List Op)
    → any (op_of q changes_content) (delete_where (λ o. o.path == p) ops)
      ≡ (if p == q then false else any (op_of q changes_content) ops)
unfolding delete_where
pending-delete_where p q [] = ground arith
pending-delete_where p q (o ∷ ops) = elim (text_eq.dec o.path p) [
  | yes at ↦ ground (arith, pending-delete_where p q ops)
  | no other ↦ ground (arith, pending-delete_where p q ops)
]

-- A noted write is a pending change of the content.
any-writes :
    (p : IcPath) (ops : List Op)
    → any (op_of p writes) ops ≡ true
    → any (op_of p changes_content) ops ≡ true
any-writes p [] h = cc
any-writes p (o ∷ ops) h = ground (arith, any-writes p ops)

changes_content-update : changes_content (codes "update") ≡ true
unfolding text_eq nat_eq
changes_content-update = refl

covered :
    (db : Database) (p q : IcPath) (b : Bool)
    → any (op_of p changes_content) db.pending_ops ≡ true
    → has_pending_content_change db q ≡ (has_pending_content_change db q || (p == q && b))
unfolding has_pending_content_change
covered db p q b h = elim (text_eq.dec p q) [
  | yes same ↦
      let k : any (op_of q changes_content) db.pending_ops ≡ true =
        subst (λ r. any (op_of r changes_content) db.pending_ops ≡ true) same h in
      rw k refl
  | no other ↦ ground arith
]

module _ (db : Database) (now : ℤ) (op : Text) (p : IcPath) (target : Option IcPath)
    (q : IcPath) where
  pushed :
      has_pending_content_change (push_op db now op p target) q
      ≡ (has_pending_content_change db q || (p == q && changes_content op))
  unfolding has_pending_content_change
  pushed = any-append (op_of q changes_content) db.pending_ops _ ∙ rw or-false refl

  -- After `queue_op`, the content of a path has a pending change if it had one or if the operation
  -- is such a change of it; a deletion of something whose creation is queued cancels those of its
  -- path instead.
  pub has_pending_content_change-queue_op :
      has_pending_content_change (queue_op db now op p target) q ≡ (
        if op == codes "delete" && any (op_of p creates) db.pending_ops
        then (if p == q then false else has_pending_content_change db q)
        else has_pending_content_change db q || (p == q && changes_content op))
  unfolding queue_op
  has_pending_content_change-queue_op =
      elim (Bool-cases (op == codes "delete" && any (op_of p creates) db.pending_ops)) [
        | inl cancel ↦
            rw cancel (unfold has_pending_content_change in pending-delete_where p q db.pending_ops)
        | inr keep ↦
            rw keep
              (elim (Bool-cases (op == codes "update" && any (op_of p writes) db.pending_ops)) [
                | inl already ↦ rw already (
                    covered db p q (changes_content op)
                      (ground (arith, any-writes p db.pending_ops)))
                | inr new ↦ rw new pushed
              ])
      ]

-- Any number of writes, each with the time at which it is noted.
pub note_writes : Database → IcPath → List ℤ → Database
note_writes db p [] = db
note_writes db p (now ∷ times) = note_writes (queue_op db now (codes "update") p none) p times

queue_op-create :
    (db : Database) (now : ℤ) (p : IcPath)
    → queue_op db now (codes "create") p none ≡ push_op db now (codes "create") p none
unfolding queue_op text_eq nat_eq
queue_op-create db now p = refl

queue_op-update :
    (db : Database) (now : ℤ) (p : IcPath)
    → queue_op db now (codes "update") p none
      ≡ (if any (op_of p writes) db.pending_ops then db else push_op db now (codes "update") p none)
unfolding queue_op text_eq nat_eq
queue_op-update db now p = refl

queue_op-delete :
    (db : Database) (now : ℤ) (p : IcPath)
    → any (op_of p creates) db.pending_ops ≡ true
    → (queue_op db now (codes "delete") p none).pending_ops
      ≡ delete_where (λ o. o.path == p) db.pending_ops
unfolding queue_op text_eq nat_eq
queue_op-delete db now p h = rw h refl

literals :
    (writes (codes "update") ≡ true)
    × (writes (codes "create") ≡ true)
    × (creates (codes "create") ≡ true)
unfolding text_eq nat_eq
literals = (refl, refl, refl)

update_covered :
    (db : Database) (now : ℤ) (p : IcPath)
    → any (op_of p writes) db.pending_ops ≡ true
    → queue_op db now (codes "update") p none ≡ db
update_covered db now p h = queue_op-update db now p ∙ rw h refl

note_writes_covered :
    (db : Database) (p : IcPath) (times : List ℤ)
    → any (op_of p writes) db.pending_ops ≡ true
    → note_writes db p times ≡ db
unfolding note_writes
note_writes_covered db p [] h = refl
note_writes_covered db p (now ∷ times) h =
    ap (λ s. note_writes s p times) (update_covered db now p h) ∙ note_writes_covered db p times h

any-push_op :
    (db : Database) (now : ℤ) (op : Text) (p : IcPath) (test : Text → Bool)
    → test op ≡ true
    → any (op_of p test) (push_op db now op p none).pending_ops ≡ true
any-push_op db now op p test h =
    any-append (op_of p test) db.pending_ops _
    ∙ rw (==_refl p, h) (or-true (any (op_of p test) db.pending_ops))

-- However often a file is written, one note is kept: the first write is queued unless a creation or
-- a write of the file is queued already, and the later ones change nothing.
pub note_writes_once :
    (db : Database) (p : IcPath) (now : ℤ) (times : List ℤ)
    → (note_writes db p (now ∷ times) ≡ queue_op db now (codes "update") p none)
      × (pending_op_count (note_writes db p (now ∷ times))
          ≡ (if any (op_of p writes) db.pending_ops then 0 else 1) + pending_op_count db)
note_writes_once db p now times = elim (Bool-cases (any (op_of p writes) db.pending_ops)) [
  | inl covered ↦
      let same = update_covered db now p covered in
      let all = note_writes_covered db p (now ∷ times) covered in
      (all ∙ sym same, ap pending_op_count all ∙ rw covered (omega arith))
  | inr first ↦
      let queued : queue_op db now (codes "update") p none
          ≡ push_op db now (codes "update") p none =
        queue_op-update db now p ∙ rw first refl in
      let rest : note_writes db p (now ∷ times) ≡ queue_op db now (codes "update") p none =
        unfold note_writes in
        note_writes_covered (queue_op db now (codes "update") p none) p times
          (rw queued (any-push_op db now (codes "update") p writes literals.0)) in
      (
        rest,
        ap pending_op_count (rest ∙ queued)
            ∙ unfold pending_op_count in (length-append db.pending_ops _ ∙ rw first (omega arith)),
      )
]

delete-absent :
    (p : IcPath) (ops : List Op) (o : Op)
    → any (λ o. o.path == p) ops ≡ false
    → o.path ≡ p
    → delete_where (λ o. o.path == p) (ops ++ (o ∷ [])) ≡ ops
unfolding delete_where
delete-absent p [] o h at = ground arith
delete-absent p (x ∷ ops) o h at = ground (arith, delete-absent p ops o)

-- A file that is created, written any number of times and deleted before any of it is sent leaves
-- the queue as it was, if nothing was queued for its path.
pub created_and_deleted :
    (db : Database) (p : IcPath) (created deleted : ℤ) (times : List ℤ)
    → any (λ o. o.path == p) db.pending_ops ≡ false
    → (queue_op
        (note_writes (queue_op db created (codes "create") p none) p times)
        deleted
        (codes "delete")
        p
        none).pending_ops
      ≡ db.pending_ops
created_and_deleted db p created deleted times fresh =
    let s = push_op db created (codes "create") p none in
    let start : note_writes (queue_op db created (codes "create") p none) p times ≡ s =
      ap (λ t. note_writes t p times) (queue_op-create db created p)
      ∙ note_writes_covered s p times
          (any-push_op db created (codes "create") p writes literals.1) in
    rw start (
      queue_op-delete s deleted p (any-push_op db created (codes "create") p creates literals.2)
      ∙ delete-absent p db.pending_ops _ fresh refl)
