-- ===== src/S3/Object/Stored.antt =====
-- src/s3/object.rs: what `put_object` leaves behind.
use s3lite.Common.{
  ◌+◌, ◌≤◌, ◌<◌, ◌≡◌, refl, sym, ap, inl, inr, Option, none, some, [], ◌∷◌, Result, ok, err, arith,
  Option-cases, Result-cases, chain_succeeds, if◌then◌else◌,
}
use s3lite.Common.Order.{Bytes, bytes_order, same, same_refl}
use s3lite.Common.Text.{length}
use s3lite.Storage.Manifest.{
  Hash, Manifest, BucketConfig, VersioningState, AdditionalChecksum, object, committed, single_put,
}
use s3lite.Storage.Errors.{MetaError}
use s3lite.Storage.Engine.{Engine}
use s3lite.Storage.PartStore.{Files, PartWriteResult, is_file, open_read, write_stream}
use s3lite.Storage.PartStore.Content.{write_stream-result, write_stream-files}
use s3lite.Storage.Actor.Parts.{u32_max}
use s3lite.Storage.Actor.Parts.Counts.{refs}
use s3lite.Storage.Actor.Invariant.{references}
use s3lite.Storage.Manifest.Etag.{quote, etag}
use s3lite.S3.Lock.{object_resource, parse_lock_headers}
use s3lite.S3.Request.{parse_x_amz_tagging}
use s3lite.S3.World.{header_string, Headers, External, World, etag_of}
use s3lite.S3.Object.{Moment, put_row, key_of, next_version_id}
use s3lite.S3.Object.Get.{read_parts}
use s3lite.S3.Object.Put.{
  at_resource, check_request, object_manifest, finish_put, store_manifest, write_object, put_object,
}
use s3lite.S3.Object.Intact.{IsWhole, RowWhole, RowWhole-moved, IsIntact}
use s3lite.S3.Object.Rows.{put_row-IsIntact}

module _ (x : External) where
  -- The file that the content's hash names, if there is one, has the content.
  abbrev pub NoCollision : Files → Bytes → Type 0
  NoCollision files body = (c : Bytes) → open_read files (x.blake3.digest body) ≡ some c → c ≡ body

  abbrev pub part_of : Bytes → PartWriteResult
  part_of body = record { hash = x.blake3.digest body; md5 = x.md5.digest body; size = length body }

  pub written : Files → Bytes → Files
  written files body = (write_stream x.blake3 x.md5 files (x.reads body)).1

  pub written-part :
      (files : Files) (body : Bytes)
      → write_stream x.blake3 x.md5 files (x.reads body) ≡ (part_of body, written files body)
  unfolding written
  written-part files body =
      ap (λ p. (p, (write_stream x.blake3 x.md5 files (x.reads body)).1))
        (rw (x.reads_all body) at
          (write_stream-result x.blake3 x.md5 files (x.reads body) (x.reads_NonEmpty body)))

  -- The files after the write.
  written-files :
      (files : Files) (body : Bytes) (q : Hash)
      → open_read (written files body) q ≡ (
          if is_file (open_read files q)
          then open_read files q
          else if same bytes_order q (x.blake3.digest body)
          then some body
          else none)
  unfolding written
  written-files files body q =
      rw (x.reads_all body) at
        (write_stream-files x.blake3 x.md5 files (x.reads body) q (x.reads_NonEmpty body))

  pub written-there :
      (files : Files) (body : Bytes)
      → NoCollision files body
      → open_read (written files body) (x.blake3.digest body) ≡ some body
  written-there files body unique = elim (Option-cases (open_read files (x.blake3.digest body))) [
    | inl free ↦
        rw
          (
            written-files files body (x.blake3.digest body),
            free,
            same_refl bytes_order (x.blake3.digest body),
          )
          refl
    | inr (c, there) ↦
        rw (written-files files body (x.blake3.digest body), there) (ap some (unique c there))
  ]

  pub written-kept :
      (files : Files) (body : Bytes) (q : Hash) (c : Bytes)
      → open_read files q ≡ some c
      → open_read (written files body) q ≡ some c
  written-kept files body q c there = rw (written-files files body q, there) refl

  -- What the theorems use of the manifest that `put_object` makes.
  pub record IsMade (cfg : BucketConfig) (bucket key : Bytes) (moment : Moment) (body : Bytes)
      (m : Manifest) : Type 0 where
    pub own_key : m.key ≡ key_of bucket key (next_version_id cfg.versioning moment.uuid)
    pub own_parts :
        m.parts
        ≡ record {
          part_number = 1;
          hash = x.blake3.digest body;
          md5 = x.md5.digest body;
          size = length body;
        }
          ∷ []
    pub own_size : m.size ≡ length body
    pub is_object : m.kind ≡ object
    pub is_single : m.upload_mode ≡ single_put
    pub is_current : m.state ≡ committed

  module _ (e : Engine) where
    pub object_manifest-IsMade :
        (cfg : BucketConfig) (checksum : Option AdditionalChecksum) (bucket key : Bytes)
        (headers : Headers) (moment : Moment) (body : Bytes) (m : Manifest)
        → object_manifest e x cfg checksum bucket key headers moment (part_of body) ≡ ok m
        → IsMade cfg bucket key moment body m
    unfolding object_manifest
    object_manifest-IsMade cfg checksum bucket key headers moment body m h =
        let resource = object_resource bucket key in
        let (tags, rest, first) =
          chain_succeeds _ _ (at_resource resource (parse_x_amz_tagging x headers)) h in
        let (lock, last, second) =
          chain_succeeds _ _
            (at_resource resource (parse_lock_headers x.formats (header_string x headers))) rest in
        record {
          own_key = ground arith;
          own_parts = ground arith;
          own_size = ground arith;
          is_object = ground arith;
          is_single = ground arith;
          is_current = ground arith;
        }

  pub made-IsWhole :
      (files : Files) (cfg : BucketConfig) (bucket key : Bytes) (moment : Moment) (body : Bytes)
      (m : Manifest)
      → IsMade cfg bucket key moment body m
      → NoCollision files body
      → IsWhole x (written files body) m
  unfolding read_parts etag
  made-IsWhole files cfg bucket key moment body m made unique = record {
    content = body;
    text = quote (x.hex (x.md5.digest body));
    read = rw (made.own_parts, written-there files body unique) refl;
    sized = sym made.own_size;
    tagged = rw (made.is_single, made.own_parts) refl;
  }

module _ (e : Engine) (x : External) where
  -- New files keep the server intact.
  pub written-IsIntact :
      (w : World e) (body : Bytes)
      → IsIntact x e w
      → IsIntact x e (record w { files = written x w.files body })
  written-IsIntact w body i = record {
    consistent = i.consistent;
    rows = λ k.
        RowWhole-moved x w.files (written x w.files body) (e.objects.get w.db.objects k)
          (λ q c found. written-kept x w.files body q c found) (i.rows k);
  }

  -- What ends `put_object` leaves of the server, whether the row could be written or not.
  finish_put-IsIntact :
      (versioning : VersioningState) (m : Manifest) (etag : Bytes)
      (result : Result MetaError (Unit {0}) × World e)
      → IsIntact x e result.1
      → IsIntact x e (finish_put e x versioning m etag result).1
  finish_put-IsIntact versioning m etag (err y, w) i = i
  finish_put-IsIntact versioning m etag (ok u, w) i = record {
    consistent = i.consistent;
    rows = i.rows;
  }

  store_manifest-IsIntact :
      (w : World e) (versioning : VersioningState) (m : Manifest) (moment : Moment)
      → IsIntact x e w
      → ((q : Hash) → references e w.db.objects q + refs q m.parts ≤ u32_max)
      → RowWhole x w.files (some m)
      → IsIntact x e (store_manifest e x w versioning m moment).1
  unfolding store_manifest
  store_manifest-IsIntact w versioning m moment i room new = elim (Option-cases (etag_of x m)) [
    | inl none_there ↦ rw none_there i
    | inr (etag, there) ↦ rw there (
        finish_put-IsIntact versioning m etag (put_row e w m moment.actor_now)
          (put_row-IsIntact x e w m moment.actor_now i room new))
  ]

  -- `put_object` keeps the server intact whether it succeeds or fails, if the content's hash names no
  -- other content and no part has `u32::MAX` references.
  pub put_object-IsIntact :
      (w : World e) (bucket key : Bytes) (headers : Headers) (body : Bytes) (moment : Moment)
      → IsIntact x e w
      → NoCollision x w.files body
      → ((q : Hash) → references e w.db.objects q < u32_max)
      → IsIntact x e (put_object e x w bucket key headers body moment).1
  unfolding put_object write_object
  put_object-IsIntact w bucket key headers body moment i unique room =
      elim (Result-cases (check_request e x w.db bucket key headers body)) [
        | inr (y, refused) ↦ rw refused i
        | inl ((cfg, checksum), passed) ↦
            let w' : World e = record w { files = written x w.files body } in
            let i' = written-IsIntact w body i in
            elim (Result-cases
              (object_manifest e x cfg checksum bucket key headers moment (part_of x body))) [
                | inr (y, refused) ↦ rw (passed, written-part x w.files body, refused) i'
                | inl (m, made) ↦
                    let shape =
                      object_manifest-IsMade x e cfg checksum bucket key headers moment body m
                        made in
                    rw (passed, written-part x w.files body, made)
                      (store_manifest-IsIntact w' cfg.versioning m moment i'
                        (λ q. rw shape.own_parts (ground (arith, room q)))
                        (λ is_object.
                          made-IsWhole x w.files cfg bucket key moment body m shape unique))
              ]
      ]
