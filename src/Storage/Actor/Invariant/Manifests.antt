-- ===== src/Storage/Actor/Invariant/Manifests.antt =====
-- The handlers of single manifest rows keep the invariant of the database.
use s3lite.Common.{
  ◌+◌, ◌≤◌, ◌≡◌, refl, ap, inl, inr, Option, some, [], Result-cases, arith, Option-cases,
}
use s3lite.Storage.Manifest.{
  Hash, Time, ManifestKey, ManifestState, Manifest, ObjectLock, StringMap, encode,
}
use s3lite.Storage.Engine.{Engine, Db}
use s3lite.Storage.Actor.Parts.{u32_max, inc_all}
use s3lite.Storage.Actor.Parts.Counts.{refs, inc_all_refcount, dec_all_refcount}
use s3lite.Storage.Actor.Manifests.{
  parts_of, handle_put_manifest, handle_delete_manifest, handle_update_state,
  handle_update_manifest_tags, handle_update_manifest_lock,
}
use s3lite.Storage.Actor.Invariant.{
  references, IsConsistent, references-insert, references-remove, inc_all-GcSafe, dec_all-GcSafe,
}

module _ (e : Engine) where
  -- Whether it succeeds or fails, `put_manifest` keeps the invariant, as long as no part gets more
  -- than `u32::MAX` references.
  pub put-IsConsistent :
      (db : Db e) (m : Manifest) (now : Time)
      → IsConsistent e db
      → ((q : Hash) → references e db.objects q + refs q m.parts ≤ u32_max)
      → IsConsistent e (handle_put_manifest e db m now).1
  unfolding handle_put_manifest
  put-IsConsistent db m now c room = elim (Result-cases (inc_all e db.parts m.parts now)) [
    | inl (parts, h) ↦ rw h (record {
      counted = λ q.
          let step = inc_all_refcount e db.parts m.parts now (λ r. rw (c.counted r) (room r)) h q in
          let last =
            dec_all_refcount e [] parts (parts_of (e.objects.get db.objects (encode m.key))) q in
          omega (arith, step, last, c.counted q, references-insert e db.objects (encode m.key) m q);
      gc_safe = dec_all-GcSafe e [] parts _ (inc_all-GcSafe e db.parts m.parts now c.gc_safe h);
    })
    | inr (x, h) ↦ rw h c
  ]

  -- `delete_manifest` keeps the invariant, whether it finds the row or not.
  pub delete-IsConsistent :
      (db : Db e) (k : ManifestKey)
      → IsConsistent e db
      → IsConsistent e (handle_delete_manifest e db k).1
  unfolding handle_delete_manifest
  delete-IsConsistent db k c = elim (Option-cases (e.objects.get db.objects (encode k))) [
    | inl h ↦ rw h c
    | inr (m, h) ↦ rw h (record {
      counted = λ q.
          let last = dec_all_refcount e [] db.parts m.parts q in
          let gone = references-remove e db.objects (encode k) q in
          omega (arith, last, c.counted q, rw h at gone);
      gc_safe = dec_all-GcSafe e [] db.parts _ c.gc_safe;
    })
  ]

  -- A row written back with the parts that it had.
  rewrite-IsConsistent :
      (db : Db e) (k : ManifestKey) (m m' : Manifest)
      → e.objects.get db.objects (encode k) ≡ some m
      → m'.parts ≡ m.parts
      → IsConsistent e db
      → IsConsistent e (record db { objects = e.objects.insert db.objects (encode k) m' })
  rewrite-IsConsistent db k m m' h same_parts c = record {
    counted = λ q.
        let step = references-insert e db.objects (encode k) m' q in
        omega (
          arith,
          c.counted q,
          step,
          ap (λ (o : Option Manifest). refs q (parts_of o)) h,
          ap (refs q) same_parts,
        );
    gc_safe = c.gc_safe;
  }

  pub state-IsConsistent :
      (db : Db e) (k : ManifestKey) (s : ManifestState) (now : Time)
      → IsConsistent e db
      → IsConsistent e (handle_update_state e db k s now).1
  unfolding handle_update_state
  state-IsConsistent db k s now c = elim (Option-cases (e.objects.get db.objects (encode k))) [
    | inl h ↦ rw h c
    | inr (m, h) ↦ rw h (rewrite-IsConsistent db k m _ h refl c)
  ]

  pub tags-IsConsistent :
      (db : Db e) (k : ManifestKey) (tags : StringMap)
      → IsConsistent e db
      → IsConsistent e (handle_update_manifest_tags e db k tags).1
  unfolding handle_update_manifest_tags
  tags-IsConsistent db k tags c = elim (Option-cases (e.objects.get db.objects (encode k))) [
    | inl h ↦ rw h c
    | inr (m, h) ↦ rw h (rewrite-IsConsistent db k m _ h refl c)
  ]

  pub lock-IsConsistent :
      (db : Db e) (k : ManifestKey) (lock : Option ObjectLock)
      → IsConsistent e db
      → IsConsistent e (handle_update_manifest_lock e db k lock).1
  unfolding handle_update_manifest_lock
  lock-IsConsistent db k lock c = elim (Option-cases (e.objects.get db.objects (encode k))) [
    | inl h ↦ rw h c
    | inr (m, h) ↦ rw h (rewrite-IsConsistent db k m _ h refl c)
  ]
