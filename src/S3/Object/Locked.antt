-- ===== src/S3/Object/Locked.antt =====
-- src/s3/object.rs: `delete_object` leaves locked versions alone.
use s3lite.Common.{
  ◌≡◌, ◌≢◌, refl, sym, ap, ◌∙◌, inl, inr, true, false, Option, none, some, Result, ok, err, arith,
  Option-cases, Bool, Bool-cases,
}
use s3lite.Common.Order.{Bytes, bytes_order, same, cmp_bytes_eq}
use s3lite.Storage.Manifest.{
  Time, ManifestKey, Manifest, BucketConfig, VersioningState, off, enabled, suspended, encode,
}
use s3lite.Storage.Errors.{MetaError, manifest_not_found}
use s3lite.Storage.Engine.{Engine}
use s3lite.Storage.Engine.Laws.{get-insert, get-remove}
use s3lite.Storage.Actor.Buckets.{handle_get_bucket}
use s3lite.Storage.Actor.Manifests.{handle_get_manifest}
use s3lite.S3.World.{External, World}
use s3lite.S3.Object.{
  Moment, null_version_id, next_version_id, key_of, tombstone_at, put_row, delete_row,
  require_bucket,
}
use s3lite.S3.Object.Delete.{
  is_locked, delete_specific_version, delete_unversioned, insert_marker, delete_current, delete_in,
  delete_object, finish_version, finish_unversioned, finish_marker,
}
use s3lite.S3.Object.Rows.{put_row-cases, delete_row-cases}

module _ (e : Engine) (x : External) where
  abbrev pub row_of : World e → Bytes → Option Manifest
  row_of w k = e.objects.get w.db.objects k

  pub delete_row-other :
      (w : World e) (target : ManifestKey) (k : Bytes)
      → same bytes_order k (encode target) ≡ false
      → row_of (delete_row e w target).1 k ≡ row_of w k
  delete_row-other w target k other = elim (delete_row-cases e w target) [
    | inl failed ↦ rw failed refl
    | inr (done, gone) ↦
        ap (λ objects. e.objects.get objects k) (gone.kept.objects ∙ gone.objects)
        ∙ rw other at (get-remove e.objects w.db.objects (encode target) k)
  ]

  put_row-other :
      (w : World e) (m : Manifest) (now : Time) (k : Bytes)
      → same bytes_order k (encode m.key) ≡ false
      → row_of (put_row e w m now).1 k ≡ row_of w k
  put_row-other w m now k other = elim (put_row-cases e w m now) [
    | inl (y, failed) ↦ rw failed refl
    | inr (done, put) ↦
        ap (λ objects. e.objects.get objects k) (put.kept.objects ∙ put.objects)
        ∙ rw other at (get-insert e.objects w.db.objects (encode m.key) k m)
  ]

  -- What ends a deletion leaves the rows as they are.
  finish_version-rows :
      (vid : Bytes) (marker : Bool) (result : Result MetaError (Unit {0}) × World e) (k : Bytes)
      → row_of (finish_version e x vid marker result).1 k ≡ row_of result.1 k
  finish_version-rows vid marker (ok u, w) k = refl
  finish_version-rows vid marker (err (manifest_not_found key), w) k = refl
  finish_version-rows vid marker (err y, w) k = refl

  finish_unversioned-rows :
      (bucket key : Bytes) (result : Result MetaError (Unit {0}) × World e) (k : Bytes)
      → row_of (finish_unversioned e x bucket key result).1 k ≡ row_of result.1 k
  finish_unversioned-rows bucket key (ok u, w) k = refl
  finish_unversioned-rows bucket key (err (manifest_not_found t), w) k = refl
  finish_unversioned-rows bucket key (err y, w) k = refl

  finish_marker-rows :
      (v : VersioningState) (bucket key version : Bytes)
      (result : Result MetaError (Unit {0}) × World e) (k : Bytes)
      → row_of (finish_marker e x v bucket key version result).1 k ≡ row_of result.1 k
  finish_marker-rows v bucket key version (ok u, w) k = refl
  finish_marker-rows v bucket key version (err y, w) k = refl

  -- A row that is deleted is not the locked one.
  unlocked-other :
      (w : World e) (target : ManifestKey) (k : Bytes) (m : Manifest) (now : Time)
      → row_of w k ≡ some m
      → is_locked (some m) now ≡ true
      → is_locked (row_of w (encode target)) now ≡ false
      → same bytes_order k (encode target) ≡ false
  unlocked-other w target k m now row locked unlocked =
      elim (Bool-cases (same bytes_order k (encode target))) [
        | inr other ↦ other
        | inl own ↦
            let here : row_of w (encode target) ≡ some m =
              ap (row_of w) (sym (cmp_bytes_eq k (encode target) (ground arith))) ∙ row in
            absurd (cc (rw here at unlocked))
      ]

  delete_specific_version-locked :
      (w : World e) (bucket key vid : Bytes) (now : Time) (k : Bytes) (m : Manifest)
      → row_of w k ≡ some m
      → is_locked (some m) now ≡ true
      → row_of (delete_specific_version e x w bucket key vid now).1 k ≡ some m
  unfolding delete_specific_version handle_get_manifest
  delete_specific_version-locked w bucket key vid now k m row locked =
      let target = key_of bucket key vid in
      elim (Bool-cases (is_locked (row_of w (encode target)) now)) [
        | inl refused ↦ rw refused row
        | inr free ↦ rw free (
            finish_version-rows vid _ (delete_row e w target) k
            ∙ (delete_row-other w target k (unlocked-other w target k m now row locked free) ∙ row))
      ]

  delete_unversioned-locked :
      (w : World e) (bucket key : Bytes) (now : Time) (k : Bytes) (m : Manifest)
      → row_of w k ≡ some m
      → is_locked (some m) now ≡ true
      → row_of (delete_unversioned e x w bucket key now).1 k ≡ some m
  unfolding delete_unversioned handle_get_manifest
  delete_unversioned-locked w bucket key now k m row locked =
      let target = key_of bucket key null_version_id in
      elim (Bool-cases (is_locked (row_of w (encode target)) now)) [
        | inl refused ↦ rw refused row
        | inr free ↦ rw free (
            finish_unversioned-rows bucket key (delete_row e w target) k
            ∙ (delete_row-other w target k (unlocked-other w target k m now row locked free) ∙ row))
      ]

  insert_marker-other :
      (w : World e) (v : VersioningState) (bucket key : Bytes) (moment : Moment) (k : Bytes)
      → same bytes_order k (encode (key_of bucket key (next_version_id v moment.uuid))) ≡ false
      → row_of (insert_marker e x w v bucket key moment).1 k ≡ row_of w k
  unfolding insert_marker
  insert_marker-other w v bucket key moment k other =
      let marker = tombstone_at (key_of bucket key (next_version_id v moment.uuid)) moment.now in
      finish_marker-rows v bucket key _ (put_row e w marker moment.actor_now) k
      ∙ put_row-other w marker moment.actor_now k other

  delete_current-locked :
      (w : World e) (v : VersioningState) (bucket key : Bytes) (moment : Moment) (k : Bytes)
      (m : Manifest)
      → row_of w k ≡ some m
      → is_locked (some m) moment.lock_now ≡ true
      → (v ≢ off
          → same bytes_order k (encode (key_of bucket key (next_version_id v moment.uuid))) ≡ false)
      → row_of (delete_current e x w v bucket key moment).1 k ≡ some m
  delete_current-locked w off bucket key moment k m row locked elsewhere =
      delete_unversioned-locked w bucket key moment.lock_now k m row locked
  delete_current-locked w enabled bucket key moment k m row locked elsewhere =
      insert_marker-other w enabled bucket key moment k (elsewhere (λ h. cc h)) ∙ row
  delete_current-locked w suspended bucket key moment k m row locked elsewhere =
      insert_marker-other w suspended bucket key moment k (elsewhere (λ h. cc h)) ∙ row

  delete_in-locked :
      (w : World e) (v : VersioningState) (bucket key : Bytes) (version_id : Option Bytes)
      (moment : Moment) (k : Bytes) (m : Manifest)
      → row_of w k ≡ some m
      → is_locked (some m) moment.lock_now ≡ true
      → (v ≢ off
          → same bytes_order k (encode (key_of bucket key (next_version_id v moment.uuid))) ≡ false)
      → row_of (delete_in e x w v bucket key version_id moment).1 k ≡ some m
  delete_in-locked w v bucket key none moment k m row locked elsewhere =
      delete_current-locked w v bucket key moment k m row locked elsewhere
  delete_in-locked w v bucket key (some vid) moment k m row locked elsewhere =
      delete_specific_version-locked w bucket key vid moment.lock_now k m row locked

  -- `delete_object`, with or without a version, leaves a row whose lock forbids its removal as it is, if
  -- the bucket is not versioned or the row is not the one that a delete marker would take.
  pub delete-keeps_locked :
      (w : World e) (bucket key : Bytes) (version_id : Option Bytes) (moment : Moment) (k : Bytes)
      (m : Manifest)
      → e.objects.get w.db.objects k ≡ some m
      → is_locked (some m) moment.lock_now ≡ true
      → ((cfg : BucketConfig)
          → e.buckets.get w.db.buckets bucket ≡ some cfg
          → cfg.versioning ≢ off
          → same bytes_order k
              (encode (key_of bucket key (next_version_id cfg.versioning moment.uuid)))
            ≡ false)
      → e.objects.get (delete_object e x w bucket key version_id moment).1.db.objects k ≡ some m
  unfolding delete_object require_bucket handle_get_bucket
  delete-keeps_locked w bucket key version_id moment k m row locked elsewhere =
      elim (Option-cases (e.buckets.get w.db.buckets bucket)) [
        | inl gone ↦ rw gone row
        | inr (cfg, there) ↦ rw there (
            delete_in-locked w cfg.versioning bucket key version_id moment k m row locked
              (elsewhere cfg there))
      ]
