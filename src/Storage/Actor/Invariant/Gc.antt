-- ===== src/Storage/Actor/Invariant/Gc.antt =====
-- The garbage collector's operations in src/storage/db/actor.rs: they keep the invariant, and a part
-- that is marked takes no new reference.
use s3lite.Common.{
  ℕ, ◌<◌, ◌≡◌, refl, ap, inl, inr, true, false, Option, none, some, List, [], ◌∷◌, ok, err,
  Result-cases, arith, Option-cases,
}
use s3lite.Common.Order.{bytes_order, same, same_refl, cmp_bytes_eq}
use s3lite.Storage.Manifest.{Hash, PartRef, Time, gc_pending, PartEntry, Manifest}
use s3lite.Storage.Errors.{MetaError, part_gc_pending}
use s3lite.Storage.Engine.{Engine, Db}
use s3lite.Storage.Engine.Laws.{get-insert, get-remove}
use s3lite.Storage.Actor.Parts.{
  inc_part_refcount, inc_all, handle_mark_gc_pending, handle_remove_part,
}
use s3lite.Storage.Actor.Parts.Counts.{refs}
use s3lite.Storage.Actor.Manifests.{handle_put_manifest}
use s3lite.Storage.Actor.Invariant.{IsConsistent}

-- The row of a part that the collector may drop: it is marked, or gone already.
abbrev pub IsMarked : Option PartEntry → Type 0
IsMarked none = Unit
IsMarked (some entry) = entry.state ≡ gc_pending

module _ (e : Engine) where
  -- `mark_part_gc_pending` keeps the invariant.
  pub mark-IsConsistent :
      (db : Db e) (h : Hash) → IsConsistent e db → IsConsistent e (handle_mark_gc_pending e db h).1
  unfolding handle_mark_gc_pending
  mark-IsConsistent db h c = record {
    counted = λ q. grind (arith, c.counted q, get-insert e.parts, cmp_bytes_eq q h);
    gc_safe = λ q. grind (arith, c.gc_safe q, get-insert e.parts, cmp_bytes_eq q h);
  }

  -- `remove_part` of a marked part keeps the invariant.
  pub remove-IsConsistent :
      (db : Db e) (h : Hash)
      → IsConsistent e db
      → IsMarked (e.parts.get db.parts h)
      → IsConsistent e (handle_remove_part e db h).1
  unfolding handle_remove_part
  remove-IsConsistent db h c ready = record {
    counted = λ q. grind (arith, c.counted q, c.gc_safe h, get-remove e.parts, cmp_bytes_eq q h);
    gc_safe = λ q. grind (arith, c.gc_safe q, get-remove e.parts, cmp_bytes_eq q h);
  }

  -- The row of a part that is marked.
  abbrev pub Pending : e.PartTable → Hash → Type 0
  Pending parts h =
      (entry : PartEntry) × (e.parts.get parts h ≡ some entry) × (entry.state ≡ gc_pending)

  -- A marked row stays as it is while references to other parts are counted.
  inc_keeps_pending :
      (parts : e.PartTable) (hash h : Hash) (size : ℕ) (now : Time) {parts' : e.PartTable}
      → Pending parts h
      → inc_part_refcount e parts hash size now ≡ ok parts'
      → Pending parts' h
  unfolding inc_part_refcount
  inc_keeps_pending parts hash h size now {parts'} (entry, row, pending) g =
      (entry, grind (arith, get-insert e.parts, cmp_bytes_eq h hash), pending)

  -- The only error of a count is the interlock.
  inc_error :
      (parts : e.PartTable) (hash : Hash) (size : ℕ) (now : Time) (x : MetaError)
      → inc_part_refcount e parts hash size now ≡ err x
      → x ≡ part_gc_pending hash
  unfolding inc_part_refcount
  inc_error parts hash size now x g = ground arith

  inc_pending :
      (parts : e.PartTable) (hash h : Hash) (size : ℕ) (now : Time) (parts' : e.PartTable)
      → Pending parts h
      → inc_part_refcount e parts hash size now ≡ ok parts'
      → same bytes_order h hash ≡ false
  unfolding inc_part_refcount
  inc_pending parts hash h size now parts' (entry, row, pending) g =
      ground (arith, cmp_bytes_eq h hash)

  -- A reference to a marked part cannot be counted.
  inc_all_refused :
      (parts : e.PartTable) (l : List PartRef) (now : Time) (h : Hash)
      → Pending parts h
      → 0 < refs h l
      → (q : Hash) × (inc_all e parts l now ≡ err (part_gc_pending q))
  unfolding inc_all
  inc_all_refused parts [] now h p r = absurd (omega arith)
  inc_all_refused parts (p ∷ l) now h pending r =
      elim (Result-cases (inc_part_refcount e parts p.hash p.size now)) [
        | inr (x, g) ↦ (p.hash, rw g (ap err (inc_error parts p.hash p.size now x g)))
        | inl (mid, g) ↦
            let other = inc_pending parts p.hash h p.size now mid pending g in
            let kept = inc_keeps_pending parts p.hash h p.size now pending g in
            let (q, refused) = inc_all_refused mid l now h kept (ground (arith, other)) in
            (q, rw g refused)
      ]

  mark_row :
      (db : Db e) (h : Hash)
      → (handle_mark_gc_pending e db h).0 ≡ ok true
      → Pending (handle_mark_gc_pending e db h).1.parts h
  unfolding handle_mark_gc_pending
  mark_row db h g = elim (Option-cases (e.parts.get db.parts h)) [
    | inl absent ↦ absurd (cc (rw absent at g))
    | inr (entry, row) ↦
        let marked = record entry { state = gc_pending } in
        (
          marked,
          ground (arith, get-insert e.parts db.parts h h marked, same_refl bytes_order h),
          refl,
        )
  ]

  -- Once the collector has marked a part, no manifest that refers to it can be stored: the write
  -- fails with `PartGcPending` and the database stays as it is.
  pub mark-put_refused :
      (db : Db e) (h : Hash) (m : Manifest) (now : Time)
      → (handle_mark_gc_pending e db h).0 ≡ ok true
      → 0 < refs h m.parts
      → (q : Hash) × (handle_put_manifest e (handle_mark_gc_pending e db h).1 m now
          ≡ (err (part_gc_pending q), (handle_mark_gc_pending e db h).1))
  unfolding handle_put_manifest
  mark-put_refused db h m now g r =
      let db' = (handle_mark_gc_pending e db h).1 in
      let (q, refused) = inc_all_refused db'.parts m.parts now h (mark_row db h g) r in
      (q, rw refused)
