-- ===== src/Storage/Actor/Ops/Keyed.antt =====
-- Every row of the OBJECTS table stands under the encoding of its own key: what the scans of
-- src/storage/db/actor.rs rely on, and what every run of the actor keeps.
use s3lite.Common.{
  ℕ, ◌≡◌, refl, inl, inr, Option, none, some, List, [], ◌∷◌, Option-cases, Bool-cases, Result-cases,
  arith,
}
use s3lite.Common.Order.{Bytes, cmp_bytes_eq}
use s3lite.Storage.Manifest.{
  ManifestKey, ManifestState, StringMap, ObjectLock, PartRef, Manifest, encode,
}
use s3lite.Storage.Manifest.Key.{NulFree}
use s3lite.Storage.Engine.{Engine, Db}
use s3lite.Storage.Engine.Laws.{get-insert, get-remove}
use s3lite.Storage.Actor.Parts.{
  inc_part_refcount, inc_all, dec_all, handle_mark_gc_pending, handle_remove_part,
}
use s3lite.Storage.Actor.Manifests.{
  parts_of, find_part, release_old, handle_put_manifest, handle_delete_manifest,
  handle_update_state, handle_update_manifest_tags, handle_update_manifest_lock, handle_append_part,
}
use s3lite.Storage.Actor.Multipart.{is_in_progress, handle_complete_multipart}
use s3lite.Storage.Actor.Buckets.{
  handle_create_bucket, handle_delete_bucket, handle_update_bucket_versioning,
  handle_update_bucket_cors, handle_update_bucket_object_lock, handle_update_bucket_lifecycle,
  handle_insert_dlq,
}
use s3lite.Storage.Actor.Ops.{
  Op, put_manifest, append_part, complete_multipart_upload, create_bucket, delete_bucket,
  delete_manifest, update_manifest_state, mark_part_gc_pending, update_bucket_versioning,
  update_bucket_cors, update_manifest_tags, update_bucket_object_lock, update_manifest_lock,
  update_bucket_lifecycle, Message, answer, is_shutdown, run,
}

-- Bucket name and object key hold no NUL byte.
abbrev pub IsNamed : ManifestKey → Type 0
IsNamed k = NulFree k.bucket × NulFree k.key

-- What a row under a key may be.
abbrev pub RowFits : Bytes → Option Manifest → Type 0
RowFits k none = Unit
RowFits k (some m) = (k ≡ encode m.key) × NulFree m.key.bucket × NulFree m.key.key

module _ (e : Engine) where
  abbrev pub IsKeyed : e.ObjectTable → Type 0
  IsKeyed objects = (k : Bytes) → RowFits k (e.objects.get objects k)

  insert-IsKeyed :
      (objects : e.ObjectTable) (k : Bytes) (m : Manifest)
      → IsKeyed objects
      → RowFits k (some m)
      → IsKeyed (e.objects.insert objects k m)
  insert-IsKeyed objects k m keyed fits q =
      grind (arith, get-insert e.objects objects k q m, keyed q, cmp_bytes_eq q k)

  remove-IsKeyed :
      (objects : e.ObjectTable) (k : Bytes) → IsKeyed objects → IsKeyed (e.objects.remove objects k)
  remove-IsKeyed objects k keyed q =
      grind (arith, get-remove e.objects objects k q, keyed q, cmp_bytes_eq q k)

  abbrev pub NamesFit : Op → Type 0
  NamesFit (put_manifest m) = IsNamed m.key
  NamesFit (complete_multipart_upload key m) = IsNamed m.key
  NamesFit _ = Unit

  module _ (db : Db e) (keyed : IsKeyed db.objects) where
    -- The row that a handler loads is written back under its own key.
    loaded :
        (k : ManifestKey) (m : Manifest)
        → e.objects.get db.objects (encode k) ≡ some m
        → RowFits (encode k) (some m)
    loaded k m h = rw h at (keyed (encode k))

    pub put-IsKeyed :
        (m : Manifest) (now : ℕ)
        → IsNamed m.key
        → IsKeyed (handle_put_manifest e db m now).1.objects
    unfolding handle_put_manifest
    put-IsKeyed m now names = elim (Result-cases (inc_all e db.parts m.parts now)) [
      | inl (parts, g) ↦
          rw g (insert-IsKeyed db.objects (encode m.key) m keyed (refl, names.0, names.1))
      | inr (x, g) ↦ rw g keyed
    ]

    pub delete-IsKeyed : (k : ManifestKey) → IsKeyed (handle_delete_manifest e db k).1.objects
    unfolding handle_delete_manifest
    delete-IsKeyed k = elim (Option-cases (e.objects.get db.objects (encode k))) [
      | inl h ↦ rw h keyed
      | inr (m, h) ↦ rw h (remove-IsKeyed db.objects (encode k) keyed)
    ]

    -- A handler that changes other fields of a row.
    rewritten :
        (k : ManifestKey) (m m' : Manifest)
        → e.objects.get db.objects (encode k) ≡ some m
        → m'.key ≡ m.key
        → IsKeyed (e.objects.insert db.objects (encode k) m')
    rewritten k m m' h same_key =
        insert-IsKeyed db.objects (encode k) m' keyed (rw same_key (loaded k m h))

    state-IsKeyed :
        (k : ManifestKey) (s : ManifestState) (now : ℕ)
        → IsKeyed (handle_update_state e db k s now).1.objects
    unfolding handle_update_state
    state-IsKeyed k s now = elim (Option-cases (e.objects.get db.objects (encode k))) [
      | inl h ↦ rw h keyed
      | inr (m, h) ↦ rw h (rewritten k m _ h refl)
    ]

    tags-IsKeyed :
        (k : ManifestKey) (tags : StringMap)
        → IsKeyed (handle_update_manifest_tags e db k tags).1.objects
    unfolding handle_update_manifest_tags
    tags-IsKeyed k tags = elim (Option-cases (e.objects.get db.objects (encode k))) [
      | inl h ↦ rw h keyed
      | inr (m, h) ↦ rw h (rewritten k m _ h refl)
    ]

    lock-IsKeyed :
        (k : ManifestKey) (lock : Option ObjectLock)
        → IsKeyed (handle_update_manifest_lock e db k lock).1.objects
    unfolding handle_update_manifest_lock
    lock-IsKeyed k lock = elim (Option-cases (e.objects.get db.objects (encode k))) [
      | inl h ↦ rw h keyed
      | inr (m, h) ↦ rw h (rewritten k m _ h refl)
    ]

    append-IsKeyed :
        (k : ManifestKey) (part : PartRef) (now later : ℕ)
        → IsKeyed (handle_append_part e db k part now later).1.objects
    unfolding handle_append_part
    append-IsKeyed k part now later = elim (Option-cases (e.objects.get db.objects (encode k))) [
      | inl h ↦ rw h keyed
      | inr (m, h) ↦
          let parts = (release_old e db.parts (find_part part.part_number m.parts) part).1 in
          elim (Result-cases (inc_part_refcount e parts part.hash part.size now)) [
            | inl (parts', g) ↦ rw (h, g) (rewritten k m _ h refl)
            | inr (x, g) ↦ rw (h, g) keyed
          ]
    ]

    complete-IsKeyed :
        (k : ManifestKey) (m : Manifest) (now : ℕ)
        → IsNamed m.key
        → IsKeyed (handle_complete_multipart e db k m now).1.objects
    unfolding handle_complete_multipart
    complete-IsKeyed k m now names = elim (Option-cases (e.objects.get db.objects (encode k))) [
      | inl h ↦ rw h keyed
      | inr (up, h) ↦ elim (Bool-cases (is_in_progress up.state)) [
        | inr done ↦ rw (h, done) keyed
        | inl open_upload ↦
            let old = parts_of (e.objects.get db.objects (encode m.key)) in
            let parts1 = (dec_all e [] db.parts up.parts).1 in
            elim (Result-cases (inc_all e (dec_all e [] parts1 old).1 m.parts now)) [
              | inl (parts3, g) ↦
                  rw (h, open_upload, g)
                    (remove-IsKeyed _ (encode k)
                      (insert-IsKeyed db.objects (encode m.key) m keyed (refl, names.0, names.1)))
              | inr (x, g) ↦ rw (h, open_upload, g) keyed
            ]
      ]
    ]

  answer-IsKeyed :
      (db : Db e) (op : Op) (now later : ℕ)
      → IsKeyed db.objects
      → NamesFit op
      → IsKeyed (answer e db op now later).1.objects
  unfolding answer handle_create_bucket handle_delete_bucket handle_update_bucket_versioning
      handle_update_bucket_cors handle_update_bucket_object_lock handle_update_bucket_lifecycle
      handle_insert_dlq handle_mark_gc_pending handle_remove_part
  answer-IsKeyed db (put_manifest m) now later c f q = put-IsKeyed db c m now f q
  answer-IsKeyed db (append_part key p) now later c f q = append-IsKeyed db c key p now later q
  answer-IsKeyed db (complete_multipart_upload key m) now later c f q =
      complete-IsKeyed db c key m now f q
  answer-IsKeyed db (delete_manifest key) now later c f q = delete-IsKeyed db c key q
  answer-IsKeyed db (update_manifest_state key s) now later c f q = state-IsKeyed db c key s now q
  answer-IsKeyed db (update_manifest_tags key tags) now later c f q = tags-IsKeyed db c key tags q
  answer-IsKeyed db (update_manifest_lock key lock) now later c f q = lock-IsKeyed db c key lock q
  answer-IsKeyed db (create_bucket name config) now later c f q = ground (arith, c q)
  answer-IsKeyed db (delete_bucket name) now later c f q = ground (arith, c q)
  answer-IsKeyed db (update_bucket_versioning name s) now later c f q = ground (arith, c q)
  answer-IsKeyed db (update_bucket_cors name rules) now later c f q = ground (arith, c q)
  answer-IsKeyed db (update_bucket_object_lock name cfg) now later c f q = ground (arith, c q)
  answer-IsKeyed db (update_bucket_lifecycle name rules) now later c f q = ground (arith, c q)
  answer-IsKeyed db (mark_part_gc_pending h) now later c f q = ground (arith, c q)
  answer-IsKeyed db _ now later c f q = c q

  abbrev pub NamesFitAll : List Message → Type 0
  NamesFitAll [] = Unit
  NamesFitAll (msg ∷ messages) = NamesFit msg.op × NamesFitAll messages

  -- Any run of messages whose stored keys hold no NUL byte keeps every row under its own key.
  pub run-IsKeyed :
      (db : Db e) (messages : List Message)
      → IsKeyed db.objects
      → NamesFitAll messages
      → IsKeyed (run e db messages).objects
  unfolding run
  run-IsKeyed db [] c f = c
  run-IsKeyed db (msg ∷ messages) c f =
      let next = answer-IsKeyed db msg.op msg.now msg.later c f.0 in
      elim (Bool-cases (is_shutdown msg.op)) [
        | inl stop ↦ rw (stop, run) c
        | inr go ↦
            rw (go, run) (run-IsKeyed (answer e db msg.op msg.now msg.later).1 messages next f.1)
      ]
