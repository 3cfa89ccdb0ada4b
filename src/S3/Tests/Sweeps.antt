-- ===== src/S3/Tests/Sweeps.antt =====
-- The theorem about the lifecycle sweep at a concrete server.
use s3lite.Common.{
  ◌≡◌, ◌≢◌, refl, sym, ◌∙◌, inl, inr, Bool-cases, if◌then◌else◌, true, false, none, some, [], ◌∷◌,
  arith,
}
use s3lite.Common.Order.{Bytes, bytes_order, same, cmp_bytes, cmp_bytes_eq}
use s3lite.Common.OrdMap.{lookup, upsert}
use s3lite.Common.Text.{bytes}
use s3lite.Storage.Manifest.{
  ManifestKey, Manifest, BucketConfig, off, LifecycleRule, LifecycleStatus, forbids_delete, encode,
}
use s3lite.Storage.Manifest.Key.{NulFree}
use s3lite.Storage.Engine.{Db}
use s3lite.Storage.Engine.Sorted.{engine, empty}
use s3lite.Storage.Actor.Buckets.{handle_create_bucket}
use s3lite.Storage.Actor.Manifests.{handle_put_manifest}
use s3lite.Storage.Actor.Parts.{inc_all, dec_all}
use s3lite.Storage.Actor.Ops.Keyed.{IsKeyed, put-IsKeyed}
use s3lite.Storage.Actor.Samples.{photo, photo_row, photo-IsNamed}
use s3lite.S3.Object.{next_version_id, key_of}
use s3lite.S3.Object.Delete.{is_locked}
use s3lite.S3.Maintenance.{sweep_lifecycle_at}
use s3lite.S3.Maintenance.Locked.{sweep-keeps_locked}
use s3lite.S3.Tests.Samples.{pics, pics_bucket}

-- A rule that expires every object after a day.
abbrev short_lived : LifecycleRule
short_lived = record {
  id = none;
  status = LifecycleStatus.enabled;
  filter_prefix = none;
  expiration = some (record { days = 1 });
  noncurrent_version_expiration = none;
  abort_incomplete_multipart_upload = none;
}

abbrev with_rule : Db engine
with_rule =
    (handle_create_bucket engine empty pics
      (record pics_bucket { lifecycle_rules = short_lived ∷ [] })).1

abbrev held_row : Manifest
held_row = record photo_row {
  parts = [];
  size = 0;
  object_lock = some (record { retention = none; legal_hold = true });
}

abbrev swept : Db engine
swept = (handle_put_manifest engine with_rule held_row 100).1

sweeping : Unit {0}
unfolding handle_put_manifest handle_create_bucket inc_all dec_all lookup upsert cmp_bytes encode
    forbids_delete
sweeping = tt

with_rule-IsKeyed : IsKeyed engine with_rule.objects
unfolding sweeping
with_rule-IsKeyed k = tt

row_there : engine.objects.get swept.objects (encode photo) ≡ some held_row
unfolding sweeping
row_there = refl

held : is_locked (some held_row) 200000000000000 ≡ true
unfolding sweeping
held = refl

abbrev no_uuid : ManifestKey → Bytes
no_uuid k = bytes "5f"

abbrev expiring : BucketConfig
expiring = record pics_bucket { lifecycle_rules = short_lived ∷ [] }

one_bucket :
    (bucket : Bytes)
    → engine.buckets.get swept.buckets bucket
      ≡ (if same bytes_order bucket pics then some expiring else none)
unfolding sweeping
one_bucket bucket = refl

pics-NulFree : NulFree pics
pics-NulFree = (omega arith, (omega arith, (omega arith, (omega arith, tt))))

unversioned :
    (bucket : Bytes) (cfg : BucketConfig)
    → engine.buckets.get swept.buckets bucket ≡ some cfg
    → NulFree bucket
      × (cfg.versioning ≢ off
          → (key : Bytes) (marked : ManifestKey)
          → same bytes_order
              (encode photo)
              (encode (key_of bucket key (next_version_id cfg.versioning (no_uuid marked))))
            ≡ false)
unversioned bucket cfg there = elim (Bool-cases (same bytes_order bucket pics)) [
  | inr other ↦ absurd (cc (one_bucket bucket, other, there))
  | inl own ↦
      let row : some expiring ≡ some cfg = sym (one_bucket bucket ∙ rw own refl) ∙ there in
      (rw (cmp_bytes_eq bucket pics (ground arith)) pics-NulFree, λ on. absurd (on (ground arith)))
]

sweep-keeps_locked_example :
    engine.objects.get
      (sweep_lifecycle_at engine 200000000000000 200000000000001 no_uuid swept).1.objects
      (encode photo)
    ≡ some held_row
sweep-keeps_locked_example =
    sweep-keeps_locked engine 200000000000000 200000000000001 no_uuid (encode photo) held_row swept
      refl held (put-IsKeyed engine with_rule with_rule-IsKeyed held_row 100 photo-IsNamed)
      row_there unversioned
