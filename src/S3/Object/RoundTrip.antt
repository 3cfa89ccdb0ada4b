-- ===== src/S3/Object/RoundTrip.antt =====
-- src/s3/object.rs: an object that `put_object` stored is fetched as it was sent.
use s3lite.Common.{
  ◌+◌, ◌≤◌, ◌<◌, ◌≡◌, refl, ap, ◌∙◌, inl, inr, false, Option, none, some, [], Result, ok, err,
  arith, Option-cases, Result-cases, chain_succeeds,
}
use s3lite.Common.Order.{Bytes, bytes_order, same_refl}
use s3lite.Storage.Manifest.{
  Hash, Time, Manifest, BucketConfig, VersioningState, AdditionalChecksum, object, committed,
  encode,
}
use s3lite.Storage.Errors.{MetaError}
use s3lite.Storage.Engine.{Engine, Db}
use s3lite.Storage.Engine.Laws.{get-insert}
use s3lite.Storage.PartStore.{open_read}
use s3lite.Storage.Actor.Buckets.{handle_get_bucket}
use s3lite.Storage.Actor.Parts.{u32_max}
use s3lite.Storage.Actor.Parts.Counts.{refs}
use s3lite.Storage.Actor.Invariant.{references, IsConsistent}
use s3lite.Storage.Actor.Invariant.Manifests.{put-IsConsistent}
use s3lite.S3.World.{Headers, External, World, Response, etag_of, faulting}
use s3lite.S3.Object.{Moment, next_version_id, key_of, put_row, require_bucket}
use s3lite.S3.Object.Get.{read_parts, object_headers, get_or_head_object}
use s3lite.S3.Object.Put.{
  check_content, check_request, object_manifest, finish_put, store_manifest, write_object,
  put_object,
}
use s3lite.S3.Object.Intact.{refs-references}
use s3lite.S3.Object.Rows.{IsPut, put_row-cases}
use s3lite.S3.Object.Stored.{
  NoCollision, part_of, written, written-part, written-there, IsMade, object_manifest-IsMade,
  made-IsWhole,
}
use s3lite.S3.Object.Fetched.{
  get-found, find_manifest-version, send_object-plain, evaluate_preconditions-none,
}

module _ (e : Engine) (x : External) where
  -- The state in which an object's row and its content are there.
  pub record IsStored (w : World e) (bucket key vid body : Bytes) (cfg : BucketConfig)
      : Type 0 where
    pub m : Manifest
    pub etag : Bytes
    pub bucket_row : e.buckets.get w.db.buckets bucket ≡ some cfg
    pub row : e.objects.get w.db.objects (encode (key_of bucket key vid)) ≡ some m
    pub is_object : m.kind ≡ object
    pub is_current : m.state ≡ committed
    pub tagged : etag_of x m ≡ some etag
    pub read : read_parts x w.files [] m.parts ≡ ok body

  stored-fetched :
      (w : World e) (bucket key vid body : Bytes) (cfg : BucketConfig)
      → IsStored w bucket key vid body cfg
      → (h : Headers) × (get_or_head_object x e w bucket key (some vid) [] false
          ≡ ok (record { status = 200; headers = h; body = body }))
  stored-fetched w bucket key vid body cfg s = (
    object_headers x s.m s.etag none,
    rw
        (
          get-found e x w bucket key (some vid) [] false cfg s.m s.etag s.bucket_row
              (find_manifest-version e x w.db bucket key vid s.m s.row s.is_current) s.is_object
              s.tagged,
          evaluate_preconditions-none e x s.m s.etag bucket key,
        )
        (send_object-plain e x w.files s.m s.etag body s.read),
  )

  check_request-bucket :
      (db : Db e) (bucket key : Bytes) (headers : Headers) (body : Bytes) (cfg : BucketConfig)
      (checksum : Option AdditionalChecksum)
      → check_request e x db bucket key headers body ≡ ok (cfg, checksum)
      → e.buckets.get db.buckets bucket ≡ some cfg
  unfolding check_request require_bucket handle_get_bucket
  check_request-bucket db bucket key headers body cfg checksum h =
      let (found, rest, first) =
        chain_succeeds _ _ (faulting (require_bucket e x.formats db bucket)) h in
      let (ac, last, second) =
        chain_succeeds _ _ (check_content e x db bucket key headers body) rest in
      elim (Option-cases (e.buckets.get db.buckets bucket)) [
        | inl gone ↦ absurd (grind arith)
        | inr (row, there) ↦ rw there (ap some (grind arith))
      ]

  -- After a row is written, every part that it refers to is there as before.
  put-contents :
      (w w' : World e) (m : Manifest) (now : Time) (q : Hash)
      → IsPut e w w' m now
      → IsConsistent e w.db
      → ((q : Hash) → references e w.db.objects q + refs q m.parts ≤ u32_max)
      → 0 < refs q m.parts
      → open_read w'.files q ≡ open_read w.files q
  put-contents w w' m now q put c room positive =
      let after : IsConsistent e put.after.db =
        rw put.database (put-IsConsistent e w.db m now c room) in
      let row : e.objects.get put.after.db.objects (encode m.key) ≡ some m =
        rw
          (
            put.objects,
            get-insert e.objects w.db.objects (encode m.key) (encode m.key) m,
            same_refl bytes_order (encode m.key),
          )
          refl in
      put.kept.contents q (
        omega (
          arith,
          after.counted q,
          refs-references x e put.after.db.objects (encode m.key) q m row,
          positive,
        ))
      ∙ ap (λ files. open_read files q) put.files

  -- A `put_row` that succeeds leaves the object stored.
  put_row-IsStored :
      (w w' : World e) (bucket key body : Bytes) (cfg : BucketConfig) (moment : Moment)
      (m : Manifest)
      → IsPut e (record w { files = written x w.files body }) w' m moment.actor_now
      → IsMade x cfg bucket key moment body m
      → IsConsistent e w.db
      → NoCollision x w.files body
      → ((q : Hash) → references e w.db.objects q < u32_max)
      → e.buckets.get w.db.buckets bucket ≡ some cfg
      → IsStored w' bucket key (next_version_id cfg.versioning moment.uuid) body cfg
  unfolding read_parts
  put_row-IsStored w w' bucket key body cfg moment m put made c unique room there =
      let whole = made-IsWhole x w.files cfg bucket key moment body m made unique in
      let hash = x.blake3.digest body in
      let content : open_read w'.files hash ≡ some body =
        put-contents (record w { files = written x w.files body }) w' m moment.actor_now hash put c
          (λ q. rw made.own_parts (ground (arith, room q)))
          (rw (made.own_parts, same_refl bytes_order hash) (omega arith))
        ∙ written-there x w.files body unique in
      record {
        m = m;
        etag = whole.text;
        bucket_row = rw (put.kept.buckets, put.buckets) there;
        row =
            rw
              (
                put.kept.objects,
                put.objects,
                ← made.own_key,
                get-insert e.objects w.db.objects (encode m.key) (encode m.key) m,
                same_refl bytes_order (encode m.key),
              )
              refl;
        is_object = made.is_object;
        is_current = made.is_current;
        tagged = whole.tagged;
        read = rw (made.own_parts, content) refl;
      }

  finish_put-IsStored :
      (result : Result MetaError (Unit {0}) × World e) (bucket key vid body : Bytes)
      (cfg : BucketConfig) (versioning : VersioningState) (m : Manifest) (etag : Bytes)
      → IsStored result.1 bucket key vid body cfg
      → IsStored (finish_put e x versioning m etag result).1 bucket key vid body cfg
  finish_put-IsStored (err y, w) bucket key vid body cfg versioning m etag s = s
  finish_put-IsStored (ok u, w) bucket key vid body cfg versioning m etag s = record {
    m = s.m;
    etag = s.etag;
    bucket_row = s.bucket_row;
    row = s.row;
    is_object = s.is_object;
    is_current = s.is_current;
    tagged = s.tagged;
    read = s.read;
  }

  -- The state that a successful end of `put_object` leaves is the one after the row.
  IsStored-through :
      (w : World e) (bucket key vid body : Bytes) (cfg : BucketConfig)
      (versioning : VersioningState) (m : Manifest) (moment : Moment) (r : Response)
      → (store_manifest e x w versioning m moment).0 ≡ ok r
      → (IsPut e w (put_row e w m moment.actor_now).1 m moment.actor_now
          → IsStored (put_row e w m moment.actor_now).1 bucket key vid body cfg)
      → IsStored (store_manifest e x w versioning m moment).1 bucket key vid body cfg
  unfolding store_manifest
  IsStored-through w bucket key vid body cfg versioning m moment r h from =
      elim (Option-cases (etag_of x m)) [
        | inl none_there ↦ absurd (cc (rw none_there at h))
        | inr (text, there) ↦ elim (put_row-cases e w m moment.actor_now) [
          | inl (y, failed) ↦ absurd (cc (rw (there, failed) at h))
          | inr (done, put) ↦ rw there (
              finish_put-IsStored (put_row e w m moment.actor_now) bucket key vid body cfg
                versioning m text (from put))
        ]
      ]

  -- An object that `put_object` stores is fetched from its version with status 200 and its body, if
  -- the content's hash names no other content, no part has `u32::MAX` references, and the counts of the
  -- database are right.
  pub put-get :
      (w : World e) (bucket key : Bytes) (headers : Headers) (body : Bytes) (moment : Moment)
      (cfg : BucketConfig) (r : Response)
      → IsConsistent e w.db
      → NoCollision x w.files body
      → ((q : Hash) → references e w.db.objects q < u32_max)
      → e.buckets.get w.db.buckets bucket ≡ some cfg
      → (put_object e x w bucket key headers body moment).0 ≡ ok r
      → (h : Headers) × (get_or_head_object x e
            (put_object e x w bucket key headers body moment).1
            bucket
            key
            (some (next_version_id cfg.versioning moment.uuid))
            []
            false
          ≡ ok (record { status = 200; headers = h; body = body }))
  unfolding put_object write_object
  put-get w bucket key headers body moment cfg r c unique room there h =
      elim (Result-cases (check_request e x w.db bucket key headers body)) [
        | inr (y, refused) ↦ absurd (cc (rw refused at h))
        | inl ((cfg', checksum), passed) ↦
            elim (Result-cases
              (object_manifest e x cfg' checksum bucket key headers moment (part_of x body))) [
                | inr (y, refused) ↦
                    absurd (cc (rw (passed, written-part x w.files body, refused) at h))
                | inl (m, made) ↦
                    let there' =
                      check_request-bucket w.db bucket key headers body cfg' checksum passed in
                    let one : cfg' ≡ cfg = ground arith in
                    rw (passed, written-part x w.files body, made, ← one)
                      (stored-fetched _ bucket key _ body cfg' (
                        IsStored-through (record w { files = written x w.files body }) bucket key _
                          body cfg' cfg'.versioning m moment r
                          (rw (passed, written-part x w.files body, made) at h)
                          (λ put.
                            put_row-IsStored w _ bucket key body cfg' moment m put
                              (object_manifest-IsMade x e cfg' checksum bucket key headers moment
                                body m made)
                              c unique room there')))
              ]
      ]
