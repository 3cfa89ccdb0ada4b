-- ===== src/S3/Maintenance/Locked.antt =====
-- src/s3/maintenance.rs: the lifecycle sweep leaves locked versions alone.
use s3lite.Common.{
  ◌≡◌, ◌≢◌, refl, sym, ap, ◌∙◌, inl, inr, true, false, some, List, ok, arith, Bool-cases,
  Option-cases, Result-cases,
}
use s3lite.Common.Order.{Bytes, bytes_order, same, cmp_bytes_eq}
use s3lite.Common.OrdMap.Members.{In, lookup-In}
use s3lite.Storage.Manifest.{
  Time, ManifestKey, committed, Manifest, VersioningState, off, BucketConfig, encode,
}
use s3lite.Storage.Manifest.Key.{NulFree}
use s3lite.Storage.Engine.{Engine, Db}
use s3lite.Storage.Engine.Laws.{get-insert, get-remove}
use s3lite.Storage.Actor.Parts.{inc_all}
use s3lite.Storage.Actor.Manifests.{handle_put_manifest, handle_delete_manifest}
use s3lite.Storage.Actor.Scan.{
  handle_list_all_manifests_in_bucket, rows_of_bucket, bucket_start, bucket_end,
}
use s3lite.Storage.Actor.Scan.Stored.{rows_of_bucket-In, In-stored}
use s3lite.Storage.Actor.Ops.Keyed.{IsKeyed, put-IsKeyed, delete-IsKeyed}
use s3lite.S3.Object.{next_version_id, key_of, tombstone_at}
use s3lite.S3.Object.Delete.{is_locked}
use s3lite.S3.Maintenance.{sweep_lifecycle_at}
use s3lite.S3.Maintenance.Rows.{In-All, In-AllWrite}
use s3lite.S3.Maintenance.Steps.{IsKeptBySweeps, sweep_lifecycle-keeps}

module _ (e : Engine) where
  delete-other :
      (db : Db e) (target : ManifestKey) (k : Bytes)
      → same bytes_order k (encode target) ≡ false
      → e.objects.get (handle_delete_manifest e db target).1.objects k ≡ e.objects.get db.objects k
  unfolding handle_delete_manifest
  delete-other db target k other = elim (Option-cases (e.objects.get db.objects (encode target))) [
    | inl gone ↦ rw gone refl
    | inr (m, row) ↦ rw (row, get-remove e.objects db.objects (encode target) k, other) refl
  ]

  put-other :
      (db : Db e) (m : Manifest) (now : Time) (k : Bytes)
      → same bytes_order k (encode m.key) ≡ false
      → e.objects.get (handle_put_manifest e db m now).1.objects k ≡ e.objects.get db.objects k
  unfolding handle_put_manifest
  put-other db m now k other = elim (Result-cases (inc_all e db.parts m.parts now)) [
    | inr (y, failed) ↦ rw failed refl
    | inl (parts, counted) ↦
        rw (counted, get-insert e.objects db.objects (encode m.key) k m, other) refl
  ]

module _ (e : Engine) (now actor_now : Time) (fresh : ManifestKey → Bytes) (k : Bytes)
    (m0 : Manifest) (current : m0.state ≡ committed) (locked : is_locked (some m0) now ≡ true) where
  -- The database with the locked row under `k`.
  abbrev Holds : Db e → Type 0
  Holds db = IsKeyed e db.objects × (e.objects.get db.objects k ≡ some m0)

  abbrev Listed : Manifest → Type 0
  Listed m = NulFree m.key.key × (encode m.key ≡ k → m ≡ m0)

  -- A bucket whose delete markers take other keys.
  abbrev pub MarksElsewhere : Bytes → VersioningState → Type 0
  MarksElsewhere bucket versioning =
      NulFree bucket
      × (versioning ≢ off
          → (key : Bytes) (marked : ManifestKey)
          → same bytes_order k
              (encode (key_of bucket key (next_version_id versioning (fresh marked))))
            ≡ false)

  unlocked-other :
      (m : Manifest)
      → Listed m
      → (m.state ≡ committed → is_locked (some m) now ≡ false)
      → same bytes_order k (encode m.key) ≡ false
  unlocked-other m listed free = elim (Bool-cases (same bytes_order k (encode m.key))) [
    | inr other ↦ other
    | inl own ↦
        let one : m ≡ m0 = listed.1 (sym (cmp_bytes_eq k (encode m.key) (ground arith))) in
        let unlocked = free (ap (λ (r : Manifest). r.state) one ∙ current) in
        absurd (cc (locked, one, unlocked))
  ]

  manifests-Listed :
      (db : Db e) (bucket : Bytes) (manifests : List Manifest) (m : Manifest)
      → Holds db
      → handle_list_all_manifests_in_bucket e db bucket ≡ ok manifests
      → In m manifests
      → Listed m
  unfolding handle_list_all_manifests_in_bucket
  manifests-Listed db bucket manifests m h g i =
      let rows = e.objects.range db.objects (bucket_start bucket) (bucket_end bucket) in
      let same_list : rows_of_bucket bucket rows ≡ manifests = ground arith in
      let (b, (j, found)) = rows_of_bucket-In bucket m rows (rw same_list i) in
      let (own_key, row, inside, bucket_free, key_free) =
        In-stored e db h.0 (bucket_start bucket) (bucket_end bucket) j m found in
      (
        key_free,
        λ own.
            let both : some m ≡ some m0 = sym row ∙ ap (e.objects.get db.objects) own ∙ h.1 in
            ground arith,
      )

  steps-kept : IsKeptBySweeps e now actor_now fresh Holds Listed MarksElsewhere
  steps-kept = record {
    on_remove = λ db m h listed free. (
      delete-IsKeyed e db h.0 m.key,
      delete-other e db m.key k (unlocked-other m listed free) ∙ h.1,
    );
    on_mark = λ db bucket v m h writes listed on. (
      put-IsKeyed e db h.0
          (tombstone_at (key_of bucket m.key.key (next_version_id v (fresh m.key))) now) actor_now
          (writes.0, listed.0),
      put-other e db (tombstone_at (key_of bucket m.key.key (next_version_id v (fresh m.key))) now)
            actor_now k (writes.1 on m.key.key m.key)
          ∙ h.1,
    );
    on_list = λ db bucket manifests h g.
        In-All Listed manifests (λ m i. manifests-Listed db bucket manifests m h g i);
  }

-- The lifecycle sweep leaves every committed row whose lock forbids its removal as it is, if the rows
-- stand under their own keys, and every bucket has a name with no NUL byte and is not versioned or
-- gives its delete markers other keys.
pub sweep-keeps_locked :
    (e : Engine) (now actor_now : Time) (fresh : ManifestKey → Bytes) (k : Bytes) (m : Manifest)
    (db : Db e)
    → m.state ≡ committed
    → is_locked (some m) now ≡ true
    → IsKeyed e db.objects
    → e.objects.get db.objects k ≡ some m
    → ((bucket : Bytes) (cfg : BucketConfig)
        → e.buckets.get db.buckets bucket ≡ some cfg
        → NulFree bucket
          × (cfg.versioning ≢ off
              → (key : Bytes) (marked : ManifestKey)
              → same bytes_order k
                  (encode (key_of bucket key (next_version_id cfg.versioning (fresh marked))))
                ≡ false))
    → e.objects.get (sweep_lifecycle_at e now actor_now fresh db).1.objects k ≡ some m
sweep-keeps_locked e now actor_now fresh k m db current locked keyed row writes =
    (sweep_lifecycle-keeps e now actor_now fresh
      (steps-kept e now actor_now fresh k m current locked) db (keyed, row)
      (In-AllWrite (MarksElsewhere e now actor_now fresh k m current locked)
        (e.buckets.iter db.buckets)
        (λ bucket cfg i. writes bucket cfg (
          e.buckets.get_view db.buckets bucket
          ∙ lookup-In bytes_order bucket cfg _ (e.buckets.iter_IsSorted db.buckets) i)))).1
