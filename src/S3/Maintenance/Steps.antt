-- ===== src/S3/Maintenance/Steps.antt =====
-- src/s3/maintenance.rs: what every removal and every delete marker of a sweep keeps, the sweep keeps.
use s3lite.Common.{
  not, ◌&&◌, Bool, true, false, ◌≡◌, ◌≢◌, refl, inl, inr, Option, some, List, [], ◌∷◌, Result, ok,
  err, Bool-cases, Result-cases, if◌then◌else◌,
}
use s3lite.Common.Order.{Bytes}
use s3lite.Storage.Manifest.{
  Time, ManifestKey, ManifestState, in_progress, committed, aborted, Manifest, VersioningState, off,
  enabled, suspended, LifecycleRule, BucketConfig,
}
use s3lite.Storage.Errors.{MetaError}
use s3lite.Storage.Engine.{Engine, Db}
use s3lite.Storage.Actor.Manifests.{handle_put_manifest, handle_delete_manifest}
use s3lite.Storage.Actor.Buckets.{handle_list_buckets}
use s3lite.Storage.Actor.Scan.{handle_list_all_manifests_in_bucket}
use s3lite.Storage.Actor.Listing.{is_object}
use s3lite.Storage.Actor.Versions.{sort_newest}
use s3lite.S3.Object.{next_version_id, key_of, tombstone_at}
use s3lite.S3.Object.Delete.{is_locked}
use s3lite.S3.Maintenance.{
  SweepReport, no_report, remove, counted, go_on, expire_current, abort_upload, expire_version,
  evaluate_state, evaluate_manifest, sweep_versions, sweep_keys, sweep_bucket, matching, abort_due,
  expiration_due, noncurrent_due, count_current, count_noncurrent, count_aborted, sweep_buckets,
  sweep_lifecycle_at, by_key, active_rules,
}
use s3lite.S3.Maintenance.Rows.{All, AllGroups, AllWrite, by_key-All, sort_newest-All}

module _ (e : Engine) (now actor_now : Time) (fresh : ManifestKey → Bytes) where
  -- A property of the database with what the steps of a sweep need to keep it: `Listed` holds of the
  -- manifests that are listed, and `Writes` of the buckets that get delete markers.
  pub record IsKeptBySweeps (P : Db e → Type 0) (Listed : Manifest → Type 0)
      (Writes : Bytes → VersioningState → Type 0) : Type 0 where
    pub on_remove :
        (db : Db e) (m : Manifest)
        → P db
        → Listed m
        → (m.state ≡ committed → is_locked (some m) now ≡ false)
        → P (handle_delete_manifest e db m.key).1
    pub on_mark :
        (db : Db e) (bucket : Bytes) (versioning : VersioningState) (m : Manifest)
        → P db
        → Writes bucket versioning
        → Listed m
        → versioning ≢ off
        → P
            (handle_put_manifest e db
              (tombstone_at
                (key_of bucket m.key.key (next_version_id versioning (fresh m.key)))
                now)
              actor_now).1
    pub on_list :
        (db : Db e) (bucket : Bytes) (manifests : List Manifest)
        → P db
        → handle_list_all_manifests_in_bucket e db bucket ≡ ok manifests
        → All Listed manifests

  module _ {P : Db e → Type 0} {Listed : Manifest → Type 0}
      {Writes : Bytes → VersioningState → Type 0} (kept : IsKeptBySweeps P Listed Writes) where
    counted-keeps :
        {A : Type 0} (result : Result MetaError A × Db e) (report : SweepReport)
        → P result.1
        → P (counted e now actor_now fresh result report).1
    counted-keeps (ok a, db) report p = p
    counted-keeps (err y, db) report p = p

    go_on-keeps :
        {R : Type 0} (result : Result MetaError R × Db e)
        (f : R → Db e → Result MetaError SweepReport × Db e)
        → P result.1
        → ((r : R) (db : Db e) → P db → P (f r db).1)
        → P (go_on e now actor_now fresh result f).1
    go_on-keeps (ok r, db) f p h = h r db p
    go_on-keeps (err y, db) f p h = p

    if-keeps :
        (b : Bool) (u v : Result MetaError SweepReport × Db e)
        → P u.1
        → P v.1
        → P (if b then u else v).1
    if-keeps true u v p q = p
    if-keeps false u v p q = q

    expire_current-keeps :
        (db : Db e) (bucket : Bytes) (v : VersioningState) (m : Manifest) (report : SweepReport)
        → P db
        → Writes bucket v
        → Listed m
        → (m.state ≡ committed → is_locked (some m) now ≡ false)
        → P (expire_current e now actor_now fresh db bucket v m report).1
    unfolding expire_current
    expire_current-keeps db bucket off m report p w l free =
        counted-keeps _ report (kept.on_remove db m p l free)
    expire_current-keeps db bucket enabled m report p w l free =
        counted-keeps _ report (kept.on_mark db bucket enabled m p w l (λ h. cc h))
    expire_current-keeps db bucket suspended m report p w l free =
        counted-keeps _ report (kept.on_mark db bucket suspended m p w l (λ h. cc h))

    abort_upload-keeps :
        (db : Db e) (m : Manifest) (rules : List LifecycleRule) (report : SweepReport)
        → P db
        → Listed m
        → (m.state ≡ committed → is_locked (some m) now ≡ false)
        → P (abort_upload e now actor_now fresh db m rules report).1
    unfolding abort_upload
    abort_upload-keeps db m [] report p l free = p
    abort_upload-keeps db m (rule ∷ rules) report p l free =
        if-keeps
          (matching m rule.filter_prefix && abort_due m now rule.abort_incomplete_multipart_upload)
          (remove e now actor_now fresh db m (count_aborted report))
          (abort_upload e now actor_now fresh db m rules report)
          (counted-keeps (handle_delete_manifest e db m.key) (count_aborted report)
            (kept.on_remove db m p l free))
          (abort_upload-keeps db m rules report p l free)

    expire_version-keeps :
        (db : Db e) (bucket : Bytes) (v : VersioningState) (m : Manifest) (is_current : Bool)
        (rules : List LifecycleRule) (report : SweepReport)
        → P db
        → Writes bucket v
        → Listed m
        → (m.state ≡ committed → is_locked (some m) now ≡ false)
        → P (expire_version e now actor_now fresh db bucket v m is_current rules report).1
    unfolding expire_version
    expire_version-keeps db bucket v m is_current [] report p w l free = p
    expire_version-keeps db bucket v m is_current (rule ∷ rules) report p w l free =
        let rest = expire_version e now actor_now fresh db bucket v m is_current rules report in
        let rest_keeps = expire_version-keeps db bucket v m is_current rules report p w l free in
        let removal = remove e now actor_now fresh db m (count_noncurrent report) in
        let old = not is_current && noncurrent_due m now rule.noncurrent_version_expiration in
        let expiry = expire_current e now actor_now fresh db bucket v m (count_current report) in
        let due = is_current && is_object m.kind && expiration_due m now rule.expiration in
        if-keeps (not (matching m rule.filter_prefix)) rest
          (if due then expiry else if old then removal else rest) rest_keeps
          (if-keeps due expiry (if old then removal else rest)
            (expire_current-keeps db bucket v m (count_current report) p w l free)
            (if-keeps old removal rest
              (counted-keeps (handle_delete_manifest e db m.key) (count_noncurrent report)
                (kept.on_remove db m p l free))
              rest_keeps))

    evaluate_state-keeps :
        (db : Db e) (bucket : Bytes) (v : VersioningState) (m : Manifest) (state : ManifestState)
        (current : Option Bytes) (rules : List LifecycleRule) (report : SweepReport)
        → m.state ≡ state
        → P db
        → Writes bucket v
        → Listed m
        → P (evaluate_state e now actor_now fresh db bucket v m state current rules report).1
    evaluate_state-keeps db bucket v m in_progress current rules report is p w l =
        abort_upload-keeps db m rules report p l (λ h. absurd (cc (is, h)))
    evaluate_state-keeps db bucket v m aborted current rules report is p w l =
        counted-keeps _ _ (kept.on_remove db m p l (λ h. absurd (cc (is, h))))
    evaluate_state-keeps db bucket v m committed current rules report is p w l =
        elim (Bool-cases (is_locked (some m) now)) [
          | inl locked ↦ rw locked p
          | inr free ↦ rw free (expire_version-keeps db bucket v m _ rules report p w l (λ h. free))
        ]

    sweep_versions-keeps :
        (db : Db e) (bucket : Bytes) (v : VersioningState) (current : Option Bytes)
        (rules : List LifecycleRule) (versions : List Manifest) (report : SweepReport)
        → P db
        → Writes bucket v
        → All Listed versions
        → P (sweep_versions e now actor_now fresh db bucket v current rules versions report).1
    unfolding sweep_versions evaluate_manifest
    sweep_versions-keeps db bucket v current rules [] report p w a = p
    sweep_versions-keeps db bucket v current rules (m ∷ versions) report p w a =
        go_on-keeps _ _
          (evaluate_state-keeps db bucket v m m.state current rules report refl p w a.0)
          (λ report' db' p'.
            sweep_versions-keeps db' bucket v current rules versions report' p' w a.1)

    sweep_keys-keeps :
        (db : Db e) (bucket : Bytes) (v : VersioningState) (rules : List LifecycleRule)
        (groups : List (Bytes × List Manifest)) (report : SweepReport)
        → P db
        → Writes bucket v
        → AllGroups Listed groups
        → P (sweep_keys e now actor_now fresh db bucket v rules groups report).1
    unfolding sweep_keys
    sweep_keys-keeps db bucket v rules [] report p w a = p
    sweep_keys-keeps db bucket v rules ((k, unsorted) ∷ groups) report p w a =
        go_on-keeps _ _
          (sweep_versions-keeps db bucket v _ rules (sort_newest unsorted) report p w
            (sort_newest-All Listed unsorted a.0))
          (λ report' db' p'. sweep_keys-keeps db' bucket v rules groups report' p' w a.1)

    sweep_bucket-keeps :
        (db : Db e) (bucket : Bytes) (v : VersioningState) (rules : List LifecycleRule)
        (report : SweepReport)
        → P db
        → Writes bucket v
        → P (sweep_bucket e now actor_now fresh db bucket v rules report).1
    unfolding sweep_bucket
    sweep_bucket-keeps db bucket v [] report p w = p
    sweep_bucket-keeps db bucket v (rule ∷ rules) report p w =
        elim (Result-cases (handle_list_all_manifests_in_bucket e db bucket)) [
          | inr (y, failed) ↦ rw failed p
          | inl (manifests, listed) ↦ rw listed (
              sweep_keys-keeps db bucket v (rule ∷ rules) (by_key [] manifests) report p w
                (by_key-All Listed [] manifests tt (kept.on_list db bucket manifests p listed)))
        ]

    sweep_buckets-keeps :
        (db : Db e) (buckets : List (Bytes × BucketConfig)) (report : SweepReport)
        → P db
        → AllWrite Writes buckets
        → P (sweep_buckets e now actor_now fresh db buckets report).1
    unfolding sweep_buckets
    sweep_buckets-keeps db [] report p w = p
    sweep_buckets-keeps db ((bucket, cfg) ∷ buckets) report p w =
        go_on-keeps _ _
          (sweep_bucket-keeps db bucket cfg.versioning (active_rules cfg.lifecycle_rules) report p
            w.0)
          (λ report' db' p'. sweep_buckets-keeps db' buckets report' p' w.1)

    -- The whole sweep keeps what its steps keep.
    pub sweep_lifecycle-keeps :
        (db : Db e)
        → P db
        → AllWrite Writes (e.buckets.iter db.buckets)
        → P (sweep_lifecycle_at e now actor_now fresh db).1
    unfolding sweep_lifecycle_at handle_list_buckets
    sweep_lifecycle-keeps db p w = sweep_buckets-keeps db (e.buckets.iter db.buckets) no_report p w
