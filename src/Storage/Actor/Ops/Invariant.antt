-- ===== src/Storage/Actor/Ops/Invariant.antt =====
-- Every run of the actor of src/storage/db/actor.rs keeps the invariant of the database.
use s3lite.Common.{ℕ, ◌+◌, ◌≤◌, ◌<◌, ◌≡◌, ◌≢◌, refl, inl, inr, List, [], ◌∷◌, Bool-cases, arith}
use s3lite.Common.OrdMap.{lookup}
use s3lite.Storage.Manifest.{Hash, encode}
use s3lite.Storage.Engine.{Engine, Db}
use s3lite.Storage.Actor.Parts.{u32_max}
use s3lite.Storage.Actor.Parts.Counts.{refs}
use s3lite.Storage.Actor.Buckets.{
  handle_create_bucket, handle_delete_bucket, handle_update_bucket_versioning,
  handle_update_bucket_cors, handle_update_bucket_object_lock, handle_update_bucket_lifecycle,
  handle_insert_dlq,
}
use s3lite.Storage.Actor.Invariant.{references, IsConsistent}
use s3lite.Storage.Actor.Invariant.Manifests.{
  put-IsConsistent, delete-IsConsistent, state-IsConsistent, tags-IsConsistent, lock-IsConsistent,
}
use s3lite.Storage.Actor.Invariant.Multipart.{append-IsConsistent, complete-IsConsistent}
use s3lite.Storage.Actor.Invariant.Gc.{IsMarked, mark-IsConsistent, remove-IsConsistent}
use s3lite.Storage.Actor.Ops.{
  Op, put_manifest, append_part, complete_multipart_upload, remove_part, create_bucket,
  delete_bucket, delete_manifest, update_manifest_state, mark_part_gc_pending,
  update_bucket_versioning, update_bucket_cors, update_manifest_tags, update_bucket_object_lock,
  update_manifest_lock, update_bucket_lifecycle, insert_dlq_entry, Message, answer, is_shutdown,
  run,
}

module _ (e : Engine) where
  -- What the callers of the actor see to: no part gets more than `u32::MAX` references, a committed
  -- row has another key than its upload, and only a marked part is dropped.
  abbrev pub Fits : Db e → Op → Type 0
  Fits db (put_manifest m) = (q : Hash) → references e db.objects q + refs q m.parts ≤ u32_max
  Fits db (append_part key p) = references e db.objects p.hash < u32_max
  Fits db (complete_multipart_upload key m) =
      (encode key ≢ encode m.key)
      × ((q : Hash) → references e db.objects q + refs q m.parts ≤ u32_max)
  Fits db (remove_part h) = IsMarked (e.parts.get db.parts h)
  Fits db _ = Unit

  -- Every message fits the database at its turn.
  abbrev pub FitsAll : Db e → List Message → Type 0
  FitsAll db [] = Unit
  FitsAll db (msg ∷ messages) =
      Fits db msg.op × FitsAll (answer e db msg.op msg.now msg.later).1 messages

  -- A database with the same objects and parts.
  kept :
      (db db' : Db e)
      → db'.objects ≡ db.objects
      → db'.parts ≡ db.parts
      → IsConsistent e db
      → IsConsistent e db'
  kept db db' objects parts c = record {
    counted = λ q. rw (objects, parts) (c.counted q);
    gc_safe = λ q. rw parts (c.gc_safe q);
  }

  answer-IsConsistent :
      (db : Db e) (op : Op) (now later : ℕ)
      → IsConsistent e db
      → Fits db op
      → IsConsistent e (answer e db op now later).1
  unfolding answer handle_create_bucket handle_delete_bucket handle_update_bucket_versioning
      handle_update_bucket_cors handle_update_bucket_object_lock handle_update_bucket_lifecycle
      handle_insert_dlq
  answer-IsConsistent db (create_bucket name config) now later c f =
      kept db _ (ground arith) (ground arith) c
  answer-IsConsistent db (put_manifest m) now later c f = put-IsConsistent e db m now c f
  answer-IsConsistent db (append_part key p) now later c f =
      append-IsConsistent e db key p now later c f
  answer-IsConsistent db (complete_multipart_upload key m) now later c f =
      complete-IsConsistent e db key m now c f.0 f.1
  answer-IsConsistent db (delete_manifest key) now later c f = delete-IsConsistent e db key c
  answer-IsConsistent db (update_manifest_state key s) now later c f =
      state-IsConsistent e db key s now c
  answer-IsConsistent db (update_manifest_tags key tags) now later c f =
      tags-IsConsistent e db key tags c
  answer-IsConsistent db (update_manifest_lock key lock) now later c f =
      lock-IsConsistent e db key lock c
  answer-IsConsistent db (mark_part_gc_pending h) now later c f = mark-IsConsistent e db h c
  answer-IsConsistent db (remove_part h) now later c f = remove-IsConsistent e db h c f
  answer-IsConsistent db (delete_bucket name) now later c f =
      kept db _ (ground arith) (ground arith) c
  answer-IsConsistent db (update_bucket_versioning name s) now later c f =
      kept db _ (ground arith) (ground arith) c
  answer-IsConsistent db (update_bucket_cors name rules) now later c f =
      kept db _ (ground arith) (ground arith) c
  answer-IsConsistent db (update_bucket_object_lock name cfg) now later c f =
      kept db _ (ground arith) (ground arith) c
  answer-IsConsistent db (update_bucket_lifecycle name rules) now later c f =
      kept db _ (ground arith) (ground arith) c
  answer-IsConsistent db (insert_dlq_entry entry) now later c f = kept db _ refl refl c
  answer-IsConsistent db _ now later c f = c

  -- From a consistent database, any messages that fit leave a consistent database: in it the count
  -- of each part is the number of references to it, and no marked part has a reference.
  pub run-IsConsistent :
      (db : Db e) (messages : List Message)
      → IsConsistent e db
      → FitsAll db messages
      → IsConsistent e (run e db messages)
  unfolding run
  run-IsConsistent db [] c f = c
  run-IsConsistent db (msg ∷ messages) c f =
      let next = answer-IsConsistent db msg.op msg.now msg.later c f.0 in
      elim (Bool-cases (is_shutdown msg.op)) [
        | inl stop ↦ rw (stop, run) c
        | inr go ↦
            rw (go, run)
              (run-IsConsistent (answer e db msg.op msg.now msg.later).1 messages next f.1)
      ]

  -- A database with no manifests and no parts, as after `bootstrap_tables`, is consistent.
  pub initial-IsConsistent :
      (db : Db e) → e.objects.iter db.objects ≡ [] → e.parts.iter db.parts ≡ [] → IsConsistent e db
  unfolding lookup
  initial-IsConsistent db objects parts = record {
    counted = λ q. rw (objects, e.parts.get_view, parts);
    gc_safe = λ q. rw (e.parts.get_view, parts) tt;
  }
