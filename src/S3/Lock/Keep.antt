-- ===== src/S3/Lock/Keep.antt =====
-- src/s3/lock.rs: what a change of a legal hold or of a bucket's configuration leaves as it is.
use s3lite.Common.{
  ◌&&◌, not, ◌||◌, ◌>>=◌, if◌then◌else◌, Bool, false, Option, none, some, ◌≡◌, refl, ap, ◌∙◌, inl,
  inr, List, Result, ok, err, chain_succeeds, arith, Bool-cases, Option-cases, Result-cases,
}
use s3lite.Common.Order.{Bytes, bytes_order, same, cmp_bytes_eq}
use s3lite.Storage.Manifest.{
  ObjectLock, ManifestKey, Manifest, BucketConfig, DefaultRetention, ObjectLockConfig, encode,
}
use s3lite.S3.Error.{S3Error}
use s3lite.Storage.Engine.{Engine, Db}
use s3lite.Storage.Engine.Laws.{get-insert}
use s3lite.Storage.Actor.Buckets.{handle_get_bucket, handle_update_bucket_object_lock}
use s3lite.Storage.Actor.Ops.{Message, run}
use s3lite.Storage.Actor.Ops.Keyed.{IsKeyed}
use s3lite.S3.Lock.{Formats, retention_of, map_err}
use s3lite.S3.Lock.Objects.{
  require_object_with_version, parse_hold, write_lock, hold_plan, put_object_legal_hold,
}
use s3lite.S3.Lock.Buckets.{
  was_enabled, says_enabled, lock_config_plan, put_bucket_object_lock_config,
}
use s3lite.S3.Lock.Extend.{require-stored, write-row, row_at}

-- The second row has the first one's retention.
abbrev pub SameRetention : Option Manifest → Option Manifest → Type 0
SameRetention none row = Unit
SameRetention (some m) none = ⊥
SameRetention (some m) (some m') = retention_of m'.object_lock ≡ retention_of m.object_lock

SameRetention-refl : (row : Option Manifest) → SameRetention row row
SameRetention-refl none = tt
SameRetention-refl (some m) = refl

module _ (e : Engine) (f : Formats) (db : Db e) (keyed : IsKeyed e db.objects) where
  -- The row under a key, with its retention as it was.
  hold_plan-fits :
      (bucket key : Bytes) (version_id : Option Bytes) (body : Bytes) (k : ManifestKey)
      (lock : ObjectLock)
      → hold_plan e f db bucket key version_id body ≡ ok (k, lock)
      → (m : Manifest) × (e.objects.get db.objects (encode k) ≡ some m)
        × (lock.retention ≡ retention_of m.object_lock)
  unfolding hold_plan
  hold_plan-fits bucket key version_id body k lock h =
      let (xml, rest1, read) = chain_succeeds _ _ (map_err _ (f.read_legal_hold body)) h in
      let (on, rest2, status) = chain_succeeds _ _ (parse_hold e f bucket key xml.status) rest1 in
      let (m, last, found) =
        chain_succeeds _ _ (require_object_with_version e f db bucket key version_id) rest2 in
      let given : (m.key ≡ k) × (lock.retention ≡ retention_of m.object_lock) = ground arith in
      (m, rw (← given.0) (require-stored e f db keyed bucket key version_id m found), given.1)

  -- `put_object_legal_hold` leaves the retention of every row as it is, if no message that comes
  -- between its read and its write changes a row.
  pub hold-keeps_retention :
      (between : List Message) (bucket key : Bytes) (version_id : Option Bytes) (body : Bytes)
      → ((q : Bytes) → e.objects.get (run e db between).objects q ≡ e.objects.get db.objects q)
      → (q : Bytes)
      → SameRetention (e.objects.get db.objects q) (
          e.objects.get
            (put_object_legal_hold e f db between bucket key version_id body).1.objects
            q)
  unfolding put_object_legal_hold write_lock
  hold-keeps_retention between bucket key version_id body same_rows q =
      elim (Result-cases (hold_plan e f db bucket key version_id body)) [
        | inr (x, g) ↦ rw g (SameRetention-refl (e.objects.get db.objects q))
        | inl ((k, lock), g) ↦
            let (m, row, own_retention) = hold_plan-fits bucket key version_id body k lock g in
            rw (g, write-row e f db keyed between k lock m same_rows row q)
              (elim (Bool-cases (same bytes_order q (encode k))) [
                | inl own ↦ rw (own, row_at e f db keyed k m q row own) own_retention
                | inr other ↦ rw other (SameRetention-refl (e.objects.get db.objects q))
              ])
      ]

-- Whether object lock is enabled for a bucket's row.
abbrev pub lock_flag : Option BucketConfig → Bool
lock_flag none = false
lock_flag (some cfg) = was_enabled cfg.object_lock

-- The guard of the flag, before a configuration with the combined flag.
fits_flag :
    (now was : Bool) (x : S3Error) (read : Result S3Error (Option DefaultRetention))
    (c : ObjectLockConfig)
    → (if now && not was
        then err x
        else read >>= λ default. ok (record { enabled = was || now; default_retention = default }))
      ≡ ok c
    → c.enabled ≡ was
fits_flag now was x (err y) c h = ground arith
fits_flag now was x (ok default) c h = ground arith

module _ (e : Engine) (f : Formats) (db : Db e) where
  lock_config_plan-fits :
      (bucket body : Bytes) (c : ObjectLockConfig)
      → lock_config_plan e f db bucket body ≡ ok c
      → (row : BucketConfig) × (e.buckets.get db.buckets bucket ≡ some row)
        × (c.enabled ≡ was_enabled row.object_lock)
  unfolding lock_config_plan handle_get_bucket
  lock_config_plan-fits bucket body c h =
      let (xml, rest1, read) = chain_succeeds _ _ (map_err _ (f.read_lock_configuration body)) h in
      elim (Option-cases (e.buckets.get db.buckets bucket)) [
        | inl gone ↦ ground arith
        | inr (row, there) ↦ (
          row,
          there,
          fits_flag (says_enabled xml.object_lock_enabled) (was_enabled row.object_lock) _ _ c
              (rw there at rest1),
        )
      ]

  -- `put_bucket_object_lock_config` neither enables nor disables object lock of any bucket, if no
  -- message that comes between its read and its write changes a bucket.
  pub config-keeps_enabled :
      (between : List Message) (bucket body : Bytes)
      → ((q : Bytes) → e.buckets.get (run e db between).buckets q ≡ e.buckets.get db.buckets q)
      → (q : Bytes)
      → lock_flag
          (e.buckets.get (put_bucket_object_lock_config e f db between bucket body).1.buckets q)
        ≡ lock_flag (e.buckets.get db.buckets q)
  unfolding put_bucket_object_lock_config handle_update_bucket_object_lock
  config-keeps_enabled between bucket body same_rows q =
      elim (Result-cases (lock_config_plan e f db bucket body)) [
        | inr (x, g) ↦ rw g refl
        | inl (c, g) ↦
            let (row, there, flag) = lock_config_plan-fits bucket body c g in
            let now_there : e.buckets.get (run e db between).buckets bucket ≡ some row =
              same_rows bucket ∙ there in
            rw (g, now_there, get-insert e.buckets _ bucket q _, same_rows q)
              (elim (Bool-cases (same bytes_order q bucket)) [
                | inr other ↦ rw other refl
                | inl own ↦
                    let here : e.buckets.get db.buckets q ≡ some row =
                      ap (e.buckets.get db.buckets) (cmp_bytes_eq q bucket (ground arith))
                      ∙ there in
                    rw (own, here) flag
              ])
      ]
