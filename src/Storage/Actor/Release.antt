-- ===== src/Storage/Actor/Release.antt =====
-- What the handlers of src/storage/db/actor.rs report as freed: exactly the parts that lost their
-- last reference, so the caller hands the garbage collector all of them and no other.
pub mod Completed
use s3lite.Common.{
  ℕ, ◌+◌, ◌≤◌, ◌<◌, ◌≡◌, ◌↔◌, ap, inl, inr, Option, some, List, [], ok, Result-cases, arith,
}
use s3lite.Common.OrdMap.Members.{In}
use s3lite.Storage.Manifest.{Hash, PartRef, Time, ManifestKey, Manifest, DeletionEffect, encode}
use s3lite.Storage.Engine.{Engine, Db}
use s3lite.Storage.Actor.Parts.{u32_max, inc_all, dec_all}
use s3lite.Storage.Actor.Parts.Counts.{refs, refcount, inc_all_refcount}
use s3lite.Storage.Actor.Parts.Freed.{freed_sound, freed_complete, freed_refs}
use s3lite.Storage.Actor.Manifests.{parts_of, handle_put_manifest, handle_delete_manifest}
use s3lite.Storage.Actor.Invariant.{references, IsConsistent, references-remove}
use s3lite.Storage.Actor.Invariant.Manifests.{put-IsConsistent, delete-IsConsistent}

module _ (e : Engine) where
  -- A release of parts, each with a count that covers its references, reports exactly the parts
  -- referred to whose count is 0 after it.
  release_exact :
      (parts : e.PartTable) (l : List PartRef) (q : Hash)
      → refs q l ≤ refcount e parts q
      → In q (dec_all e [] parts l).0
        ↔ ((0 < refs q l) × (refcount e (dec_all e [] parts l).1 q ≡ 0))
  release_exact parts l q covered = (
    λ i. (
      elim (freed_refs e [] parts l q i) [ inl x ↦ absurd x | inr x ↦ x ],
      elim (freed_sound e [] parts l q i) [ inl x ↦ absurd x | inr x ↦ x ],
    ),
    λ h. freed_complete e [] parts l q (omega arith) h.1,
  )

  pub refs-le-old :
      (objects : e.ObjectTable) (k q : Hash)
      → refs q (parts_of (e.objects.get objects k)) ≤ references e objects q
  refs-le-old objects k q = omega (arith, references-remove e objects k q)

  -- The same at the invariant of the database after the release.
  report_exact :
      (parts : e.PartTable) (l : List PartRef) (q : Hash) (reported : List Hash) (left : ℕ)
      → refs q l ≤ refcount e parts q
      → (dec_all e [] parts l).0 ≡ reported
      → refcount e (dec_all e [] parts l).1 q ≡ left
      → In q reported ↔ ((0 < refs q l) × (left ≡ 0))
  report_exact parts l q reported left covered same after =
      rw (← same, ← after) (release_exact parts l q covered)

  -- A successful `put_manifest` on a consistent database reports as freed exactly the parts of the
  -- row that it replaced to which no manifest refers any more.
  pub put-freed :
      (db : Db e) (m : Manifest) (now : Time) {eff : DeletionEffect}
      → IsConsistent e db
      → ((q : Hash) → references e db.objects q + refs q m.parts ≤ u32_max)
      → (handle_put_manifest e db m now).0 ≡ ok eff
      → (q : Hash)
      → In q eff.freed_parts ↔ (
          (0 < refs q (parts_of (e.objects.get db.objects (encode m.key))))
          × (references e (handle_put_manifest e db m now).1.objects q ≡ 0))
  unfolding handle_put_manifest
  put-freed db m now {eff} c room h q =
      let old = parts_of (e.objects.get db.objects (encode m.key)) in
      elim (Result-cases (inc_all e db.parts m.parts now)) [
        | inl (parts, g) ↦
            let after = rw g at ((put-IsConsistent e db m now c room).counted q) in
            let reported = rw g at h in
            rw g (
              report_exact parts old q eff.freed_parts _
                (omega (
                  arith,
                  inc_all_refcount e db.parts m.parts now (λ r. rw (c.counted r) (room r)) g q,
                  c.counted q,
                  refs-le-old db.objects (encode m.key) q,
                ))
                (ground arith) after)
        | inr (x, g) ↦ absurd (cc (rw g at h))
      ]

  -- `delete_manifest` of a row on a consistent database reports as freed exactly the parts of the row
  -- to which no manifest refers any more.
  pub delete-freed :
      (db : Db e) (k : ManifestKey) (m : Manifest) {eff : DeletionEffect}
      → IsConsistent e db
      → e.objects.get db.objects (encode k) ≡ some m
      → (handle_delete_manifest e db k).0 ≡ ok eff
      → (q : Hash)
      → In q eff.freed_parts
        ↔ ((0 < refs q m.parts) × (references e (handle_delete_manifest e db k).1.objects q ≡ 0))
  unfolding handle_delete_manifest
  delete-freed db k m {eff} c row h q =
      let after = rw row at ((delete-IsConsistent e db k c).counted q) in
      let reported = rw row at h in
      rw row (
        report_exact db.parts m.parts q eff.freed_parts _
          (omega (
            arith,
            c.counted q,
            refs-le-old db.objects (encode k) q,
            ap (λ (o : Option Manifest). refs q (parts_of o)) row,
          ))
          (ground arith) after)
