-- ===== src/Storage/Actor/Buckets.antt =====
-- src/storage/db/actor.rs: the handlers of the BUCKETS table and of the dead-letter queue.
use s3lite.Common.{
  ℕ, ◌+◌, ◌^◌, ◌%◌, Bool, true, false, Option, none, some, List, [], ◌∷◌, Result, ok, err, ◌>>=◌,
  ok_or, if◌then◌else◌,
}
use s3lite.Common.Order.{Bytes}
use s3lite.Storage.Manifest.{
  VersioningState, CorsRule, ObjectLockConfig, LifecycleRule, BucketConfig,
}
use s3lite.Storage.Errors.{MetaError, bucket_exists, bucket_not_found, bucket_not_empty}
use s3lite.Storage.Engine.{Engine, Db}
use s3lite.Storage.Actor.Tx.{commit}
use s3lite.Storage.Actor.Scan.{bucket_start, bucket_end}

-- `Option::is_some`, and `iter.next().is_some()`.
abbrev pub is_some : {A : Type 0} → Option A → Bool
is_some none = false
is_some (some a) = true

abbrev pub is_empty : {A : Type 0} → List A → Bool
is_empty [] = true
is_empty (a ∷ l) = false

module _ (e : Engine) where
  -- `handle_create_bucket`
  unfoldable pub handle_create_bucket :
      Db e → Bytes → BucketConfig → Result MetaError (Unit {0}) × Db e
  handle_create_bucket db name config = commit db (
      if is_some (e.buckets.get db.buckets name)
      then err (bucket_exists name)
      else ok (tt, record db { buckets = e.buckets.insert db.buckets name config }))

  -- `handle_get_bucket`
  unfoldable pub handle_get_bucket : Db e → Bytes → Result MetaError (Option BucketConfig)
  handle_get_bucket db name = ok (e.buckets.get db.buckets name)

  -- `handle_delete_bucket`
  unfoldable pub handle_delete_bucket : Db e → Bytes → Result MetaError (Unit {0}) × Db e
  handle_delete_bucket db name = commit db (
      if is_some (e.buckets.get db.buckets name)
      then (if is_empty (e.objects.range db.objects (bucket_start name) (bucket_end name))
          then ok (tt, record db { buckets = e.buckets.remove db.buckets name })
          else err (bucket_not_empty name))
      else err (bucket_not_found name))

  -- `handle_list_buckets`
  unfoldable pub handle_list_buckets : Db e → Result MetaError (List (Bytes × BucketConfig))
  handle_list_buckets db = ok (e.buckets.iter db.buckets)

  -- The handlers that change one field of a bucket's row.
  abbrev pub update_bucket :
      Db e → Bytes → (BucketConfig → BucketConfig) → Result MetaError (Unit {0}) × Db e
  update_bucket db name change = commit db (do
    cfg ← ok_or (e.buckets.get db.buckets name) (bucket_not_found name)
    ok (tt, record db { buckets = e.buckets.insert db.buckets name (change cfg) }))

  -- `handle_update_bucket_versioning`
  unfoldable pub handle_update_bucket_versioning :
      Db e → Bytes → VersioningState → Result MetaError (Unit {0}) × Db e
  handle_update_bucket_versioning db name new_state =
      update_bucket db name (λ cfg. record cfg { versioning = new_state })

  -- `handle_update_bucket_cors`
  unfoldable pub handle_update_bucket_cors :
      Db e → Bytes → List CorsRule → Result MetaError (Unit {0}) × Db e
  handle_update_bucket_cors db name rules =
      update_bucket db name (λ cfg. record cfg { cors_rules = rules })

  -- `handle_update_bucket_object_lock`
  unfoldable pub handle_update_bucket_object_lock :
      Db e → Bytes → Option ObjectLockConfig → Result MetaError (Unit {0}) × Db e
  handle_update_bucket_object_lock db name cfg =
      update_bucket db name (λ bucket. record bucket { object_lock = cfg })

  -- `handle_update_bucket_lifecycle`
  unfoldable pub handle_update_bucket_lifecycle :
      Db e → Bytes → List LifecycleRule → Result MetaError (Unit {0}) × Db e
  handle_update_bucket_lifecycle db name rules =
      update_bucket db name (λ cfg. record cfg { lifecycle_rules = rules })

-- `table.iter()?.next_back()` with `+ 1` on its `u64` key, or 1 for an empty table.
unfoldable pub next_id : List (ℕ × Bytes) → ℕ
next_id [] = 1
next_id ((k, v) ∷ []) = (k + 1) % 2 ^ 64
next_id ((k, v) ∷ r ∷ rows) = next_id (r ∷ rows)

module _ (e : Engine) where
  -- `handle_insert_dlq`
  unfoldable pub handle_insert_dlq : Db e → Bytes → Result MetaError ℕ × Db e
  unfolding next_id
  handle_insert_dlq db entry =
      let next = next_id (e.events_dlq.iter db.events_dlq) in
      commit db (ok (next, record db { events_dlq = e.events_dlq.insert db.events_dlq next entry }))

  -- `handle_list_dlq`
  unfoldable pub handle_list_dlq : Db e → Result MetaError (List (ℕ × Bytes))
  handle_list_dlq db = ok (e.events_dlq.iter db.events_dlq)
