-- ===== src/S3/Multipart/Committed.antt =====
-- src/s3/multipart.rs: the object that `complete_multipart_upload` commits.
use s3lite.Common.{
  ◌≡◌, ◌≢◌, refl, sym, ap, inl, inr, true, false, none, some, [], ◌∷◌, ◌++◌, Result, ok, err, arith,
  Bool-cases, Option-cases, Result-cases, chain_succeeds,
}
use s3lite.Common.Order.{Bytes, bytes_order, same, same_refl, cmp_bytes_eq}
use s3lite.Storage.Manifest.{Time, ManifestKey, Manifest, encode, committed, object}
use s3lite.Storage.Engine.{Engine, Db}
use s3lite.Storage.Engine.Laws.{get-insert, get-remove}
use s3lite.Storage.Actor.Manifests.{parts_of, sum_sizes}
use s3lite.Storage.Actor.Parts.{inc_all, dec_all}
use s3lite.Storage.Actor.Multipart.{handle_complete_multipart, is_in_progress}
use s3lite.Storage.Errors.{MetaError}
use s3lite.S3.Lock.{map_err}
use s3lite.S3.World.{External, World, etag_of}
use s3lite.S3.Object.{key_of, null_version_id, collected}
use s3lite.S3.Collect.Kept.{gc_freed_parts-IsKept}
use s3lite.S3.Multipart.{
  CompleteMultipartUploadRequest, CompleteMultipartUploadResult, complete_plan, finish_complete,
  complete_multipart_upload, not_empty, check_sorted, find_upload, select_parts,
}
use s3lite.S3.Multipart.Chosen.{AreChosen, Ascending, complete_plan-chosen}

append-cancel : (a b c : Bytes) → a ++ b ≡ a ++ c → b ≡ c
append-cancel [] b c h = h
append-cancel (x ∷ a) b c h = append-cancel a b c (ground arith)

tail-cancel : (b c : Bytes) → (0 ∷ b) ≡ (0 ∷ c) → b ≡ c
tail-cancel b c h = ground arith

-- Two versions of an object have rows under different keys.
encode-version :
    (bucket key v u : Bytes) → encode (key_of bucket key v) ≡ encode (key_of bucket key u) → v ≡ u
unfolding encode
encode-version bucket key v u h = tail-cancel v u (
    append-cancel key (0 ∷ v) (0 ∷ u) (
      tail-cancel (key ++ (0 ∷ v)) (key ++ (0 ∷ u))
        (append-cancel bucket (0 ∷ (key ++ (0 ∷ v))) (0 ∷ (key ++ (0 ∷ u))) h)))

version_rows :
    (bucket key v u : Bytes)
    → v ≢ u
    → same bytes_order (encode (key_of bucket key v)) (encode (key_of bucket key u)) ≡ false
version_rows bucket key v u differ =
    let a = encode (key_of bucket key v) in
    let b = encode (key_of bucket key u) in
    elim (Bool-cases (same bytes_order a b)) [
      | inr other ↦ other
      | inl own ↦ absurd (differ (encode-version bucket key v u (cmp_bytes_eq a b (ground arith))))
    ]

module _ (e : Engine) where
  -- A completion that the actor answers has set the row of the manifest and removed the upload's.
  swapped-rows :
      (w : World e) (k : ManifestKey) (m : Manifest) (now : Time)
      → (collected e w (handle_complete_multipart e w.db k m now)).0 ≡ ok tt
      → (collected e w (handle_complete_multipart e w.db k m now)).1.db.objects
        ≡ e.objects.remove (e.objects.insert w.db.objects (encode m.key) m) (encode k)
  unfolding handle_complete_multipart
  swapped-rows w k m now h = elim (Option-cases (e.objects.get w.db.objects (encode k))) [
    | inl gone ↦ absurd (cc (rw gone at h))
    | inr (upload, row) ↦ elim (Bool-cases (is_in_progress upload.state)) [
      | inr other ↦ absurd (cc (rw (row, other) at h))
      | inl current ↦
          let old = parts_of (e.objects.get w.db.objects (encode m.key)) in
          let parts = (dec_all e [] (dec_all e [] w.db.parts upload.parts).1 old).1 in
          elim (Result-cases (inc_all e parts m.parts now)) [
            | inr (y, failed) ↦ absurd (cc (rw (row, current, failed) at h))
            | inl (counted, done) ↦ rw (row, current, done) (gc_freed_parts-IsKept e _ _).objects
          ]
    ]
  ]

  swapped-gone :
      (objects : e.ObjectTable) (k : ManifestKey) (m : Manifest)
      → e.objects.get
          (e.objects.remove (e.objects.insert objects (encode m.key) m) (encode k))
          (encode k)
        ≡ none
  swapped-gone objects k m =
      rw
        (
          get-remove e.objects (e.objects.insert objects (encode m.key) m) (encode k) (encode k),
          same_refl bytes_order (encode k),
        )
        refl

  swapped-there :
      (objects : e.ObjectTable) (k final : ManifestKey) (m : Manifest)
      → encode m.key ≡ encode final
      → same bytes_order (encode final) (encode k) ≡ false
      → e.objects.get
          (e.objects.remove (e.objects.insert objects (encode m.key) m) (encode k))
          (encode final)
        ≡ some m
  swapped-there objects k final m own other =
      rw
        (
          own,
          get-remove e.objects (e.objects.insert objects (encode final) m) (encode k)
              (encode final),
          other,
          get-insert e.objects objects (encode final) (encode final) m,
          same_refl bytes_order (encode final),
        )
        refl

module _ (x : External) (e : Engine)
    (read_complete : Bytes → Result Bytes CompleteMultipartUploadRequest) where
  -- A committed object under the null version, of the size of its parts.
  abbrev pub IsWholeObject : Bytes → Bytes → Manifest → Type 0
  IsWholeObject bucket key m =
      (m.key ≡ key_of bucket key null_version_id)
      × (m.state ≡ committed)
      × (m.kind ≡ object)
      × (m.size ≡ sum_sizes m.parts)

  complete_plan-whole :
      (db : Db e) (bucket key upload_id body : Bytes) (now : Time) (m : Manifest)
      → complete_plan x e read_complete db bucket key upload_id body now ≡ ok m
      → IsWholeObject bucket key m
  unfolding complete_plan
  complete_plan-whole db bucket key upload_id body now m h =
      let (request, rest1, first) = chain_succeeds _ _ (map_err _ (read_complete body)) h in
      let (u, rest2, second) =
        chain_succeeds _ _ (not_empty x e read_complete request.parts) rest1 in
      let (v, rest3, third) = chain_succeeds _ _ (check_sorted 0 request.parts) rest2 in
      let (upload, rest4, fourth) =
        chain_succeeds _ _ (find_upload x e db bucket key upload_id) rest3 in
      let (selected, last, fifth) =
        chain_succeeds _ _ (select_parts x bucket key upload.parts request.parts) rest4 in
      (ground arith, ground arith, ground arith, ground arith)

  -- What the answer of the handler says of its steps.
  finish_complete-answer :
      (bucket key : Bytes) (m : Manifest) (etag : Bytes) (r : Result MetaError (Unit {0}) × World e)
      (answer : CompleteMultipartUploadResult)
      → (finish_complete x e read_complete bucket key m etag r).0 ≡ ok answer
      → (r.0 ≡ ok tt)
        × (answer.etag ≡ etag)
        × ((finish_complete x e read_complete bucket key m etag r).1.db ≡ r.1.db)
  finish_complete-answer bucket key m etag (ok u, w) answer h = (refl, ground arith, refl)
  finish_complete-answer bucket key m etag (err y, w) answer h = absurd (cc h)

  -- If `complete_multipart_upload` answers with a result, for an upload id that is not the null version,
  -- then its body was read as a request and the upload's row was there and in progress. Afterwards the
  -- upload's row is gone, and the null version has the row of a committed object, of the size of its
  -- parts, with the answered ETag. Its parts are, in strictly ascending order, stored parts of the
  -- upload: for each part of the request the one with its number, whose ETag is the request's.
  pub complete-chosen :
      (w : World e) (bucket key upload_id body : Bytes) (now actor_now : Time)
      (answer : CompleteMultipartUploadResult)
      → upload_id ≢ null_version_id
      → (complete_multipart_upload x e read_complete w bucket key upload_id body now actor_now).0
        ≡ ok answer
      → (request : CompleteMultipartUploadRequest) × (upload m : Manifest) × (read_complete body
          ≡ ok request)
        × (e.objects.get w.db.objects (encode (key_of bucket key upload_id)) ≡ some upload)
        × (is_in_progress upload.state ≡ true)
        × (e.objects.get
              (complete_multipart_upload x e read_complete w bucket key upload_id body now
                actor_now).1.db.objects
              (encode (key_of bucket key upload_id))
            ≡ none)
        × (e.objects.get
              (complete_multipart_upload x e read_complete w bucket key upload_id body now
                actor_now).1.db.objects
              (encode (key_of bucket key null_version_id))
            ≡ some m)
        × IsWholeObject bucket key m
        × (etag_of x m ≡ some answer.etag)
        × AreChosen x upload.parts request.parts m.parts
        × Ascending 0 m.parts
  unfolding complete_multipart_upload
  complete-chosen w bucket key upload_id body now actor_now answer differs h =
      elim (Result-cases (complete_plan x e read_complete w.db bucket key upload_id body now)) [
        | inr (y, refused) ↦ absurd (cc (rw refused at h))
        | inl (m, planned) ↦ elim (Option-cases (etag_of x m)) [
          | inl panics ↦ absurd (cc (rw (planned, panics) at h))
          | inr (tag, tagged) ↦
              let k = key_of bucket key upload_id in
              let final = key_of bucket key null_version_id in
              let r = collected e w (handle_complete_multipart e w.db k m actor_now) in
              let (done, same_tag, same_db) =
                finish_complete-answer bucket key m tag r answer (rw (planned, tagged) at h) in
              let whole = complete_plan-whole w.db bucket key upload_id body now m planned in
              let rows = swapped-rows e w k m actor_now done in
              let own : encode m.key ≡ encode final = ap encode whole.0 in
              let (request, upload, read, row, current, chosen, order) =
                complete_plan-chosen x e read_complete w.db bucket key upload_id body now m
                  planned in
              (
                request,
                upload,
                m,
                read,
                row,
                current,
                rw (planned, tagged, same_db, rows) (swapped-gone e w.db.objects k m),
                rw (planned, tagged, same_db, rows)
                    (swapped-there e w.db.objects k final m own
                      (version_rows bucket key null_version_id upload_id (λ h. differs (sym h)))),
                whole,
                rw same_tag tagged,
                chosen,
                order,
              )
        ]
      ]
