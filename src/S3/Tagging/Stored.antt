-- ===== src/S3/Tagging/Stored.antt =====
-- src/s3/tagging.rs: the tags that `put_object_tagging` writes are those that are read back.
use s3lite.Common.{◌↔◌, [], some, Result, ok, ◌≡◌, refl, true, arith}
use s3lite.Common.Order.{Bytes, bytes_order, same, cmp_bytes_refl}
use s3lite.Storage.Manifest.{Manifest, ManifestKey, StringMap, encode, committed, object}
use s3lite.Storage.Engine.{Engine, Db}
use s3lite.Storage.Engine.Laws.{get-insert}
use s3lite.Storage.Actor.Manifests.{handle_get_manifest, handle_update_manifest_tags}
use s3lite.Storage.Actor.Ops.Keyed.{IsKeyed}
use s3lite.S3.Lock.{Formats, current_object}
use s3lite.S3.Lock.Objects.{find_version}
use s3lite.S3.Tagging.{
  Tagging, tag_list, collect_tags, load_target, get_object_tagging, tagging_plan,
  put_object_tagging,
}
use s3lite.S3.Tagging.Last.{InKeyOrder, HasTag, IsLast, listed_exact, listed-InKeyOrder}

abbrev key_of : Bytes → Bytes → Bytes → ManifestKey
key_of bucket key version = record { bucket = bucket; key = key; version_id = version }

module _ (e : Engine) (f : Formats) (read_tagging : Bytes → Result Bytes Tagging) (db : Db e) where
  load_target-row :
      (bucket key version : Bytes) (m : Manifest)
      → e.objects.get db.objects (encode (key_of bucket key version)) ≡ some m
      → m.state ≡ committed
      → m.kind ≡ object
      → load_target e f read_tagging db bucket key (some version) ≡ ok m
  unfolding load_target find_version handle_get_manifest
  load_target-row bucket key version m row state kind =
      let current : current_object (some m) ≡ some m = rw (state, kind) refl in
      rw (row, current) refl

  load_target-updated :
      (bucket key version : Bytes) (m : Manifest) (tags : StringMap)
      → encode (key_of bucket key version) ≡ encode m.key
      → m.state ≡ committed
      → m.kind ≡ object
      → load_target e f read_tagging
          (record db {
            objects = e.objects.insert db.objects (encode m.key) (record m { tags = tags });
          })
          bucket
          key
          (some version)
        ≡ ok (record m { tags = tags })
  unfolding load_target find_version handle_get_manifest
  load_target-updated bucket key version m tags own state kind =
      let now : Manifest = record m { tags = tags } in
      let kept : current_object (some now) ≡ some now = rw (state, kind) refl in
      let own_key : same bytes_order (encode m.key) (encode m.key) ≡ true =
        ground (arith, cmp_bytes_refl (encode m.key)) in
      rw (own, get-insert e.objects db.objects (encode m.key) (encode m.key) now, own_key, kept)
        refl

  -- If the rows stand under their own keys, a version has a row of a committed object, and the body is
  -- read as a document, then `put_object_tagging` answers 200, and `get_object_tagging` after it gives
  -- tags in strictly ascending order of their keys; a key has a value there if and only if a tag of
  -- the document has the two and no later tag of it has the key.
  pub put-get_tags :
      (bucket key version body : Bytes) (m : Manifest) (parsed : Tagging) (k v : Bytes)
      → IsKeyed e db.objects
      → e.objects.get db.objects (encode (key_of bucket key version)) ≡ some m
      → m.state ≡ committed
      → m.kind ≡ object
      → read_tagging body ≡ ok parsed
      → ((put_object_tagging e f read_tagging db bucket key (some version) body).0 ≡ ok 200)
        × (got : Tagging) × (get_object_tagging e f read_tagging
              (put_object_tagging e f read_tagging db bucket key (some version) body).1
              bucket
              key
              (some version)
            ≡ ok got)
        × InKeyOrder got.tag_set.tags
        × (HasTag k v got.tag_set.tags ↔ IsLast k v parsed.tag_set.tags)
  unfolding put_object_tagging tagging_plan get_object_tagging handle_update_manifest_tags
  put-get_tags bucket key version body m parsed k v keyed row state kind read =
      let found = load_target-row bucket key version m row state kind in
      let own = rw row at (keyed (encode (key_of bucket key version))) in
      let tags = collect_tags [] parsed.tag_set.tags in
      let stored : e.objects.get db.objects (encode m.key) ≡ some m = rw own.0 at row in
      let after = load_target-updated bucket key version m tags own.0 state kind in
      (
        rw (found, read, stored) refl,
        record { tag_set = record { tags = tag_list tags } },
        rw (found, read, stored, after) refl,
        listed-InKeyOrder parsed.tag_set.tags,
        listed_exact k v parsed.tag_set.tags,
      )
