-- ===== src/S3/Maintenance.antt =====
-- src/s3/maintenance.rs: the lifecycle sweep. It runs without another request in between. `fresh` is
-- the `Uuid::new_v4()` that is drawn for a manifest's delete marker, and `actor_now` the actor's clock.
pub mod Rows
pub mod Steps
pub mod Locked
use s3lite.Common.{
  ℕ, ◌+◌, ◌*◌, ◌%◌, ◌^◌, leb, not, ◌&&◌, Bool, true, false, Option, none, some, List, [], ◌∷◌, ◌++◌,
  Result, ok, err, if◌then◌else◌,
}
use s3lite.Common.Order.{Bytes, bytes_order, same}
use s3lite.Common.OrdMap.{lookup, upsert}
use s3lite.Common.Text.{is_prefix}
use s3lite.Storage.Manifest.{
  Time, ManifestKey, ManifestKind, object, tombstone, ManifestState, in_progress, committed,
  aborted, Manifest, VersioningState, off, enabled, suspended, LifecycleRule, LifecycleStatus,
  disabled, LifecycleExpiration, NoncurrentVersionExpiration, AbortIncompleteMultipart,
  BucketConfig,
}
use s3lite.Storage.Errors.{MetaError}
use s3lite.Storage.Engine.{Engine, Db}
use s3lite.Storage.Actor.Manifests.{handle_put_manifest, handle_delete_manifest}
use s3lite.Storage.Actor.Buckets.{handle_list_buckets}
use s3lite.Storage.Actor.Scan.{handle_list_all_manifests_in_bucket, is_committed}
use s3lite.Storage.Actor.Listing.{is_object}
use s3lite.Storage.Actor.Versions.{or_default, sort_newest}
use s3lite.S3.World.{World}
use s3lite.S3.Collect.{sweep_gc}
use s3lite.S3.Object.{null_version_id, next_version_id, key_of, tombstone_at}
use s3lite.S3.Object.Delete.{is_locked}

pub record SweepReport : Type 0 where
  pub expired_current : ℕ
  pub expired_noncurrent : ℕ
  pub aborted_multipart : ℕ
  pub gc_parts_removed : ℕ

abbrev pub no_report : SweepReport
no_report = record {
  expired_current = 0;
  expired_noncurrent = 0;
  aborted_multipart = 0;
  gc_parts_removed = 0;
}

-- `count += 1` of a `u32`
abbrev next_count : ℕ → ℕ
next_count n = (n + 1) % 2 ^ 32

abbrev pub count_current : SweepReport → SweepReport
count_current r = record r { expired_current = next_count r.expired_current }

abbrev pub count_noncurrent : SweepReport → SweepReport
count_noncurrent r = record r { expired_noncurrent = next_count r.expired_noncurrent }

abbrev pub count_aborted : SweepReport → SweepReport
count_aborted r = record r { aborted_multipart = next_count r.aborted_multipart }

-- `Duration::days(1)` in nanoseconds
abbrev pub day : ℕ
day = 86400000000000

-- `now - created_at >= Duration::days(days)`
abbrev pub is_due : Time → Time → ℕ → Bool
is_due now created_at days = leb (created_at + days * day) now

-- The closure `matching`.
abbrev pub matching : Manifest → Option Bytes → Bool
matching m none = true
matching m (some p) = is_prefix p m.key.key

abbrev pub abort_due : Manifest → Time → Option AbortIncompleteMultipart → Bool
abort_due m now none = false
abort_due m now (some a) = is_due now m.created_at a.days_after_initiation

abbrev pub expiration_due : Manifest → Time → Option LifecycleExpiration → Bool
expiration_due m now none = false
expiration_due m now (some exp) = is_due now m.created_at exp.days

abbrev pub noncurrent_due : Manifest → Time → Option NoncurrentVersionExpiration → Bool
noncurrent_due m now none = false
noncurrent_due m now (some n) = is_due now m.created_at n.noncurrent_days

abbrev is_active : LifecycleRule → Bool
is_active rule = elim rule.status [ LifecycleStatus.enabled ↦ true | disabled ↦ false ]

-- `active_rules`
unfoldable pub active_rules : List LifecycleRule → List LifecycleRule
active_rules [] = []
active_rules (rule ∷ rules) =
    let rest = active_rules rules in if is_active rule then rule ∷ rest else rest

-- `by_key`
unfoldable pub by_key : List (Bytes × List Manifest) → List Manifest → List (Bytes × List Manifest)
by_key groups [] = groups
by_key groups (m ∷ manifests) =
    by_key
      (upsert bytes_order m.key.key (or_default (lookup bytes_order m.key.key groups) ++ m ∷ [])
        groups)
      manifests

-- `current_version_id`
unfoldable pub current_version_id : List Manifest → Option Bytes
current_version_id [] = none
current_version_id (m ∷ versions) =
    let rest = current_version_id versions in
    if is_committed m.state then some m.key.version_id else rest

-- `current_version_id == Some(version_id)`
abbrev is_version : Option Bytes → Bytes → Bool
is_version none version_id = false
is_version (some current) version_id = same bytes_order current version_id

module _ (e : Engine) (now actor_now : Time) (fresh : ManifestKey → Bytes) where
  -- A step with the report: its error ends the sweep.
  abbrev pub counted :
      {A : Type 0} → Result MetaError A × Db e → SweepReport → Result MetaError SweepReport × Db e
  counted (ok a, db) report = (ok report, db)
  counted (err y, db) report = (err y, db)

  abbrev pub remove : Db e → Manifest → SweepReport → Result MetaError SweepReport × Db e
  remove db m report = counted (handle_delete_manifest e db m.key) report

  abbrev pub mark :
      Db e → Bytes → VersioningState → Manifest → SweepReport → Result MetaError SweepReport × Db e
  mark db bucket versioning m report =
      counted
        (handle_put_manifest e db
          (tombstone_at (key_of bucket m.key.key (next_version_id versioning (fresh m.key))) now)
          actor_now)
        report

  -- `expire_current`, and the count of it
  unfoldable pub expire_current :
      Db e → Bytes → VersioningState → Manifest → SweepReport → Result MetaError SweepReport × Db e
  expire_current db bucket off m report = remove db m report
  expire_current db bucket enabled m report = mark db bucket enabled m report
  expire_current db bucket suspended m report = mark db bucket suspended m report

  -- The rules for an upload in progress.
  unfoldable pub abort_upload :
      Db e → Manifest → List LifecycleRule → SweepReport → Result MetaError SweepReport × Db e
  abort_upload db m [] report = (ok report, db)
  abort_upload db m (rule ∷ rules) report =
      let rest = abort_upload db m rules report in
      if matching m rule.filter_prefix && abort_due m now rule.abort_incomplete_multipart_upload
      then remove db m (count_aborted report)
      else rest

  -- The rules for a committed version.
  unfoldable pub expire_version :
      Db e
      → Bytes
      → VersioningState
      → Manifest
      → Bool
      → List LifecycleRule
      → SweepReport
      → Result MetaError SweepReport × Db e
  expire_version db bucket versioning m is_current [] report = (ok report, db)
  expire_version db bucket versioning m is_current (rule ∷ rules) report =
      let rest = expire_version db bucket versioning m is_current rules report in
      if not (matching m rule.filter_prefix)
      then rest
      else if is_current && is_object m.kind && expiration_due m now rule.expiration
      then expire_current db bucket versioning m (count_current report)
      else if not is_current && noncurrent_due m now rule.noncurrent_version_expiration
      then remove db m (count_noncurrent report)
      else rest

  abbrev pub evaluate_state :
      Db e
      → Bytes
      → VersioningState
      → Manifest
      → ManifestState
      → Option Bytes
      → List LifecycleRule
      → SweepReport
      → Result MetaError SweepReport × Db e
  evaluate_state db bucket versioning m in_progress current rules report =
      abort_upload db m rules report
  evaluate_state db bucket versioning m committed current rules report =
      if is_locked (some m) now
      then (ok report, db)
      else expire_version db bucket versioning m (is_version current m.key.version_id) rules report
  evaluate_state db bucket versioning m aborted current rules report =
      remove db m (count_aborted report)

  -- `evaluate_manifest`
  unfoldable pub evaluate_manifest :
      Db e
      → Bytes
      → VersioningState
      → Manifest
      → Option Bytes
      → List LifecycleRule
      → SweepReport
      → Result MetaError SweepReport × Db e
  evaluate_manifest db bucket versioning m current rules report =
      evaluate_state db bucket versioning m m.state current rules report

  -- The next step of the sweep, on the report and the database of the last.
  abbrev pub go_on :
      {R : Type 0}
      → Result MetaError R × Db e
      → (R → Db e → Result MetaError SweepReport × Db e)
      → Result MetaError SweepReport × Db e
  go_on (ok report, db) f = f report db
  go_on (err y, db) f = (err y, db)

  unfoldable pub sweep_versions :
      Db e
      → Bytes
      → VersioningState
      → Option Bytes
      → List LifecycleRule
      → List Manifest
      → SweepReport
      → Result MetaError SweepReport × Db e
  sweep_versions db bucket versioning current rules [] report = (ok report, db)
  sweep_versions db bucket versioning current rules (m ∷ versions) report =
      go_on (evaluate_manifest db bucket versioning m current rules report)
        (λ report' db'. sweep_versions db' bucket versioning current rules versions report')

  unfoldable pub sweep_keys :
      Db e
      → Bytes
      → VersioningState
      → List LifecycleRule
      → List (Bytes × List Manifest)
      → SweepReport
      → Result MetaError SweepReport × Db e
  sweep_keys db bucket versioning rules [] report = (ok report, db)
  sweep_keys db bucket versioning rules ((_, unsorted) ∷ groups) report =
      let versions = sort_newest unsorted in
      go_on
        (sweep_versions db bucket versioning (current_version_id versions) rules versions report)
        (λ report' db'. sweep_keys db' bucket versioning rules groups report')

  abbrev pub sweep_listed_bucket :
      Db e
      → Bytes
      → VersioningState
      → List LifecycleRule
      → SweepReport
      → Result MetaError (List Manifest)
      → Result MetaError SweepReport × Db e
  sweep_listed_bucket db bucket versioning rules report (err y) = (err y, db)
  sweep_listed_bucket db bucket versioning rules report (ok manifests) =
      sweep_keys db bucket versioning rules (by_key [] manifests) report

  -- The body of the loop over the buckets; without an active rule nothing is read.
  unfoldable pub sweep_bucket :
      Db e
      → Bytes
      → VersioningState
      → List LifecycleRule
      → SweepReport
      → Result MetaError SweepReport × Db e
  sweep_bucket db bucket versioning [] report = (ok report, db)
  sweep_bucket db bucket versioning (rule ∷ rules) report =
      sweep_listed_bucket db bucket versioning (rule ∷ rules) report
        (handle_list_all_manifests_in_bucket e db bucket)

  unfoldable pub sweep_buckets :
      Db e → List (Bytes × BucketConfig) → SweepReport → Result MetaError SweepReport × Db e
  sweep_buckets db [] report = (ok report, db)
  sweep_buckets db ((bucket, cfg) ∷ buckets) report =
      go_on (sweep_bucket db bucket cfg.versioning (active_rules cfg.lifecycle_rules) report)
        (λ report' db'. sweep_buckets db' buckets report')

  abbrev sweep_all :
      Db e → Result MetaError (List (Bytes × BucketConfig)) → Result MetaError SweepReport × Db e
  sweep_all db (err y) = (err y, db)
  sweep_all db (ok buckets) = sweep_buckets db buckets no_report

  -- `sweep_lifecycle_at`
  unfoldable pub sweep_lifecycle_at : Db e → Result MetaError SweepReport × Db e
  sweep_lifecycle_at db = sweep_all db (handle_list_buckets e db)

  abbrev then_gc :
      Result MetaError SweepReport
      → Result MetaError ℕ × World e
      → Result MetaError SweepReport × World e
  then_gc (ok report) (ok gc, w) = (ok (record report { gc_parts_removed = gc }), w)
  then_gc (ok report) (err y, w) = (err y, w)
  then_gc (err y) (gc, w) = (err y, w)

  abbrev then_sweep :
      World e → Result MetaError SweepReport × Db e → Result MetaError SweepReport × World e
  then_sweep w (err y, db) = (err y, record w { db = db })
  then_sweep w (ok report, db) = then_gc (ok report) (sweep_gc e (record w { db = db }))

  -- `sweep_at`
  unfoldable pub sweep_at : World e → Result MetaError SweepReport × World e
  sweep_at w = then_sweep w (sweep_lifecycle_at w.db)
