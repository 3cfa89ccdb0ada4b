-- ===== src/S3/Tagging.antt =====
-- src/s3/tagging.rs: the tags of an object, with their document of src/s3/xml.rs. A handler runs
-- without another request in between. The header of PutObject is in S3/Request.antt.
pub mod Last
pub mod Stored
use s3lite.Common.{ℕ, List, [], ◌∷◌, Option, none, some, Result, ok, err, ok_or, ◌>>=◌}
use s3lite.Common.Order.{Bytes, bytes_order}
use s3lite.Common.OrdMap.{upsert}
use s3lite.Common.Text.{bytes}
use s3lite.Storage.Manifest.{Manifest, ManifestKey, StringMap}
use s3lite.Storage.Errors.{MetaError}
use s3lite.Storage.Engine.{Engine, Db}
use s3lite.Storage.Actor.Manifests.{handle_update_manifest_tags}
use s3lite.S3.Error.{S3Error, new_error, with_resource, no_such_key}
use s3lite.S3.Lock.{Formats, object_resource, malformed, current_object, map_err, map_meta_err}
use s3lite.S3.Lock.Objects.{find_version}

pub record Tag : Type 0 where
  pub key : Bytes
  pub value : Bytes

pub record TagSet : Type 0 where
  pub tags : List Tag

pub record Tagging : Type 0 where
  pub tag_set : TagSet

-- The pairs of a map, in the order of its keys, as the tags of the document.
unfoldable pub tag_list : StringMap → List Tag
tag_list [] = []
tag_list ((k, v) ∷ tags) = record { key = k; value = v } ∷ tag_list tags

-- `collect` of the document's tags into a map: of two tags with a key, the later one stays.
unfoldable pub collect_tags : StringMap → List Tag → StringMap
collect_tags out [] = out
collect_tags out (t ∷ tags) = collect_tags (upsert bytes_order t.key t.value out) tags

-- A result of the actor as the answer with a status, beside the database.
abbrev answer_status :
    {D : Type 0}
    → (MetaError → S3Error)
    → ℕ
    → Result MetaError (Unit {0}) × D
    → Result S3Error ℕ × D
answer_status f status (ok u, db) = (ok status, db)
answer_status f status (err x, db) = (err (f x), db)

module _ (e : Engine) (f : Formats) (read_tagging : Bytes → Result Bytes Tagging) where
  -- `load_target`
  unfoldable pub load_target : Db e → Bytes → Bytes → Option Bytes → Result S3Error Manifest
  load_target db bucket key version_id = do
    result ← map_err (map_meta_err f) (find_version e f db bucket key version_id)
    ok_or (current_object result) (
        with_resource (new_error no_such_key (bytes "key does not exist"))
          (object_resource bucket key))

  -- `get_object_tagging`
  unfoldable pub get_object_tagging : Db e → Bytes → Bytes → Option Bytes → Result S3Error Tagging
  get_object_tagging db bucket key version_id = do
    manifest ← load_target db bucket key version_id
    ok (record { tag_set = record { tags = tag_list manifest.tags } })

  -- What `put_object_tagging` decides before it writes: the row's key and its new tags.
  unfoldable pub tagging_plan :
      Db e → Bytes → Bytes → Option Bytes → Bytes → Result S3Error (ManifestKey × StringMap)
  tagging_plan db bucket key version_id body = do
    manifest ← load_target db bucket key version_id
    parsed ←
        map_err (malformed f (bytes "Tagging") (object_resource bucket key)) (read_tagging body)
    ok (manifest.key, collect_tags [] parsed.tag_set.tags)

  abbrev pub write_tags :
      Db e → ℕ → Result S3Error (ManifestKey × StringMap) → Result S3Error ℕ × Db e
  write_tags db status (err y) = (err y, db)
  write_tags db status (ok (key, tags)) =
      answer_status (map_meta_err f) status (handle_update_manifest_tags e db key tags)

  -- `put_object_tagging`
  unfoldable pub put_object_tagging :
      Db e → Bytes → Bytes → Option Bytes → Bytes → Result S3Error ℕ × Db e
  put_object_tagging db bucket key version_id body =
      write_tags db 200 (tagging_plan db bucket key version_id body)

  -- `delete_object_tagging`
  unfoldable pub delete_object_tagging :
      Db e → Bytes → Bytes → Option Bytes → Result S3Error ℕ × Db e
  delete_object_tagging db bucket key version_id =
      write_tags db 204 (do manifest ← load_target db bucket key version_id; ok (manifest.key, []))
