-- ===== src/Storage/Actor/Scan.antt =====
-- src/storage/db/actor.rs: the byte ranges that the handlers scan in the OBJECTS table, and the
-- handlers that scan without paging.
pub mod Ranges
pub mod Latest
pub mod Stored
use s3lite.Common.{
  ℕ, ◌+◌, ltb, not, ◌&&◌, ◌||◌, Bool, true, false, Option, none, some, List, [], ◌∷◌, ◌++◌, Result,
  ok, if◌then◌else◌,
}
use s3lite.Common.Order.{Bytes, bytes_order, same}
use s3lite.Storage.Manifest.{ManifestState, in_progress, committed, aborted, Manifest, BucketConfig}
use s3lite.Storage.Errors.{MetaError}
use s3lite.Storage.Engine.{Engine, Db}

-- `bucket\0` and `bucket\1`
unfoldable pub bucket_start : Bytes → Bytes
bucket_start bucket = bucket ++ (0 ∷ [])

unfoldable pub bucket_end : Bytes → Bytes
bucket_end bucket = bucket ++ (1 ∷ [])

-- `bucket\0key\0` and `bucket\0key\1`
unfoldable pub key_start : Bytes → Bytes → Bytes
key_start bucket key = bucket ++ (0 ∷ (key ++ (0 ∷ [])))

unfoldable pub key_end : Bytes → Bytes → Bytes
key_end bucket key = bucket ++ (0 ∷ (key ++ (1 ∷ [])))

unfoldable pub initial_scan_start : Bytes → Bytes → Bytes
initial_scan_start bucket prefix = bucket ++ (0 ∷ prefix)

unfoldable pub after_key : Bytes → Bytes → Bytes
after_key bucket key = bucket ++ (0 ∷ (key ++ (1 ∷ [])))

-- The loop of `after_prefix` from the last byte: the bytes up to the last one below 0xff, with that
-- byte raised by 1.
unfoldable pub bump_last : Bytes → Option Bytes
bump_last [] = none
bump_last (b ∷ s) = elim (bump_last s) [
  | some t ↦ some (b ∷ t)
  | none ↦ if ltb b 0xff then some ((b + 1) ∷ []) else none
]

-- The bytes that `after_prefix` appends behind `bucket\0`.
unfoldable pub prefix_end : Bytes → Bytes
unfolding bump_last
prefix_end [] = 1 ∷ []
prefix_end (b ∷ s) = elim (bump_last (b ∷ s)) [ some t ↦ t | none ↦ b ∷ s ++ (1 ∷ []) ]

unfoldable pub after_prefix : Bytes → Bytes → Bytes
unfolding prefix_end
after_prefix bucket prefix = bucket ++ (0 ∷ prefix_end prefix)

-- `matches!(m.state, ManifestState::Committed)`
abbrev pub is_committed : ManifestState → Bool
is_committed in_progress = false
is_committed committed = true
is_committed aborted = false

-- `match latest { None => true, Some(l) => m.last_modified > l.last_modified }`
abbrev pub is_newer : Option Manifest → Manifest → Bool
is_newer none m = true
is_newer (some l) m = ltb l.last_modified m.last_modified

-- One round of the loop of `handle_get_latest_version`.
unfoldable pub pick_step : Bytes → Bytes → Option Manifest → Manifest → Option Manifest
pick_step bucket key latest m =
    if not (is_committed m.state)
    then latest
    else if not (same bytes_order m.key.bucket bucket) || not (same bytes_order m.key.key key)
    then latest
    else if is_newer latest m
    then some m
    else latest

unfoldable pub pick_latest :
    Bytes → Bytes → Option Manifest → List (Bytes × Manifest) → Option Manifest
pick_latest bucket key latest [] = latest
pick_latest bucket key latest ((_, m) ∷ rows) =
    pick_latest bucket key (pick_step bucket key latest m) rows

-- The rows of a range whose manifest names the bucket.
unfoldable pub rows_of_bucket : Bytes → List (Bytes × Manifest) → List Manifest
rows_of_bucket bucket [] = []
rows_of_bucket bucket ((_, m) ∷ rows) =
    let rest = rows_of_bucket bucket rows in
    if not (same bytes_order m.key.bucket bucket) then rest else m ∷ rest

module _ (e : Engine) where
  -- `handle_get_latest_version`
  unfoldable pub handle_get_latest_version :
      Db e → Bytes → Bytes → Result MetaError (Option Manifest)
  handle_get_latest_version db bucket key = ok (
      pick_latest bucket key none
        (e.objects.range db.objects (key_start bucket key) (key_end bucket key)))

  -- `handle_list_all_manifests_in_bucket`
  unfoldable pub handle_list_all_manifests_in_bucket :
      Db e → Bytes → Result MetaError (List Manifest)
  handle_list_all_manifests_in_bucket db bucket =
      ok (
        rows_of_bucket bucket
          (e.objects.range db.objects (bucket_start bucket) (bucket_end bucket)))
