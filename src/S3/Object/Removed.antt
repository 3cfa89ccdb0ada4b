-- ===== src/S3/Object/Removed.antt =====
-- src/s3/object.rs: `delete_object` keeps the server intact.
use s3lite.Common.{
  ◌≤◌, inl, inr, Bool, Option, none, some, Result, ok, err, arith, Option-cases, Bool-cases,
}
use s3lite.Common.Order.{Bytes}
use s3lite.Storage.Manifest.{
  Hash, Time, ManifestKey, VersioningState, off, enabled, suspended, encode,
}
use s3lite.Storage.Errors.{MetaError, manifest_not_found}
use s3lite.Storage.Engine.{Engine}
use s3lite.Storage.Actor.Buckets.{handle_get_bucket}
use s3lite.Storage.Actor.Manifests.{handle_get_manifest}
use s3lite.Storage.Actor.Parts.{u32_max}
use s3lite.Storage.Actor.Invariant.{references}
use s3lite.S3.World.{External, World}
use s3lite.S3.Object.{
  Moment, null_version_id, next_version_id, key_of, tombstone_at, put_row, delete_row,
  require_bucket,
}
use s3lite.S3.Object.Delete.{
  is_locked, delete_specific_version, delete_unversioned, insert_marker, delete_current, delete_in,
  delete_object, finish_version, finish_unversioned, finish_marker,
}
use s3lite.S3.Object.Intact.{IsIntact}
use s3lite.S3.Object.Rows.{put_row-IsIntact, delete_row-IsIntact}

module _ (x : External) (e : Engine) where
  finish_version-IsIntact :
      (vid : Bytes) (marker : Bool) (result : Result MetaError (Unit {0}) × World e)
      → IsIntact x e result.1
      → IsIntact x e (finish_version e x vid marker result).1
  finish_version-IsIntact vid marker (ok u, w) i = i
  finish_version-IsIntact vid marker (err (manifest_not_found key), w) i = i
  finish_version-IsIntact vid marker (err y, w) i = i

  finish_unversioned-IsIntact :
      (bucket key : Bytes) (result : Result MetaError (Unit {0}) × World e)
      → IsIntact x e result.1
      → IsIntact x e (finish_unversioned e x bucket key result).1
  finish_unversioned-IsIntact bucket key (ok u, w) i = record {
    consistent = i.consistent;
    rows = i.rows;
  }
  finish_unversioned-IsIntact bucket key (err (manifest_not_found t), w) i = i
  finish_unversioned-IsIntact bucket key (err y, w) i = i

  finish_marker-IsIntact :
      (v : VersioningState) (bucket key version : Bytes)
      (result : Result MetaError (Unit {0}) × World e)
      → IsIntact x e result.1
      → IsIntact x e (finish_marker e x v bucket key version result).1
  finish_marker-IsIntact v bucket key version (ok u, w) i = record {
    consistent = i.consistent;
    rows = i.rows;
  }
  finish_marker-IsIntact v bucket key version (err y, w) i = i

  delete_specific_version-IsIntact :
      (w : World e) (bucket key vid : Bytes) (now : Time)
      → IsIntact x e w
      → IsIntact x e (delete_specific_version e x w bucket key vid now).1
  unfolding delete_specific_version handle_get_manifest
  delete_specific_version-IsIntact w bucket key vid now i =
      let target = key_of bucket key vid in
      elim (Bool-cases (is_locked (e.objects.get w.db.objects (encode target)) now)) [
        | inl refused ↦ rw refused i
        | inr free ↦ rw free (
            finish_version-IsIntact vid _ (delete_row e w target)
              (delete_row-IsIntact x e w target i))
      ]

  delete_unversioned-IsIntact :
      (w : World e) (bucket key : Bytes) (now : Time)
      → IsIntact x e w
      → IsIntact x e (delete_unversioned e x w bucket key now).1
  unfolding delete_unversioned handle_get_manifest
  delete_unversioned-IsIntact w bucket key now i =
      let target = key_of bucket key null_version_id in
      elim (Bool-cases (is_locked (e.objects.get w.db.objects (encode target)) now)) [
        | inl refused ↦ rw refused i
        | inr free ↦ rw free (
            finish_unversioned-IsIntact bucket key (delete_row e w target)
              (delete_row-IsIntact x e w target i))
      ]

  module _ (w : World e) (i : IsIntact x e w)
      (room : (q : Hash) → references e w.db.objects q ≤ u32_max) where
    -- A delete marker refers to no part.
    pub put_tombstone-IsIntact :
        (k : ManifestKey) (now later : Time)
        → IsIntact x e (put_row e w (tombstone_at k now) later).1
    put_tombstone-IsIntact k now later =
        put_row-IsIntact x e w (tombstone_at k now) later i (λ q. omega (arith, room q))
          (λ is_object. absurd (cc is_object))

    insert_marker-IsIntact :
        (v : VersioningState) (bucket key : Bytes) (moment : Moment)
        → IsIntact x e (insert_marker e x w v bucket key moment).1
    unfolding insert_marker
    insert_marker-IsIntact v bucket key moment = finish_marker-IsIntact v bucket key _ _ (
        put_tombstone-IsIntact (key_of bucket key (next_version_id v moment.uuid)) moment.now
          moment.actor_now)

    delete_current-IsIntact :
        (v : VersioningState) (bucket key : Bytes) (moment : Moment)
        → IsIntact x e (delete_current e x w v bucket key moment).1
    delete_current-IsIntact off bucket key moment =
        delete_unversioned-IsIntact w bucket key moment.lock_now i
    delete_current-IsIntact enabled bucket key moment =
        insert_marker-IsIntact enabled bucket key moment
    delete_current-IsIntact suspended bucket key moment =
        insert_marker-IsIntact suspended bucket key moment

    delete_in-IsIntact :
        (v : VersioningState) (bucket key : Bytes) (version_id : Option Bytes) (moment : Moment)
        → IsIntact x e (delete_in e x w v bucket key version_id moment).1
    delete_in-IsIntact v bucket key none moment = delete_current-IsIntact v bucket key moment
    delete_in-IsIntact v bucket key (some vid) moment =
        delete_specific_version-IsIntact w bucket key vid moment.lock_now i

    -- `delete_object` keeps the server intact, if no part has more than `u32::MAX` references.
    pub delete_object-IsIntact :
        (bucket key : Bytes) (version_id : Option Bytes) (moment : Moment)
        → IsIntact x e (delete_object e x w bucket key version_id moment).1
    unfolding delete_object require_bucket handle_get_bucket
    delete_object-IsIntact bucket key version_id moment =
        elim (Option-cases (e.buckets.get w.db.buckets bucket)) [
          | inl gone ↦ rw gone i
          | inr (cfg, there) ↦
              rw there (delete_in-IsIntact cfg.versioning bucket key version_id moment)
        ]
