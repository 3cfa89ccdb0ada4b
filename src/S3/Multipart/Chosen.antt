-- ===== src/S3/Multipart/Chosen.antt =====
-- src/s3/multipart.rs: the parts that a completed upload gets, and what an abort leaves.
use s3lite.Common.{
  ℕ, ◌==◌, leb, ◌<◌, ◌≡◌, refl, sym, ap, ◌∙◌, inl, inr, true, false, some, List, [], ◌∷◌, Result,
  ok, err, ok_or, arith, Bool-cases, Option-cases, Result-cases, chain_succeeds,
}
use s3lite.Common.Order.{Bytes, bytes_order, same, cmp_bytes_eq}
use s3lite.Common.OrdMap.Members.{In}
use s3lite.Storage.Manifest.{Time, ManifestKey, Manifest, PartRef, encode}
use s3lite.Storage.Errors.{MetaError}
use s3lite.Storage.Manifest.Etag.{quote}
use s3lite.Storage.Engine.{Engine, Db}
use s3lite.Storage.Actor.Manifests.{handle_get_manifest, find_part}
use s3lite.Storage.Actor.Multipart.{is_in_progress}
use s3lite.S3.Error.{S3Error}
use s3lite.S3.Text.{trim}
use s3lite.S3.Lock.{map_err, map_meta_err}
use s3lite.S3.World.{External, World, plain_response}
use s3lite.S3.Object.{key_of, delete_row}
use s3lite.S3.Object.Locked.{delete_row-other}
use s3lite.S3.Multipart.{
  CompletePart, CompleteMultipartUploadRequest, check_sorted, select_part, select_parts,
  find_upload, not_empty, complete_plan, abort_multipart_upload, answer_with,
}

-- Parts in strictly ascending order of their numbers, all above the first argument.
abbrev pub Ascending : ℕ → List PartRef → Type 0
Ascending last_n [] = Unit
Ascending last_n (p ∷ l) = (last_n < p.part_number) × Ascending p.part_number l

find_part-found :
    (n : ℕ) (parts : List PartRef) (p : PartRef)
    → find_part n parts ≡ some p
    → (p.part_number ≡ n) × In p parts
unfolding find_part
find_part-found n [] p h = absurd (ground arith)
find_part-found n (r ∷ parts) p h = elim (Bool-cases (r.part_number == n)) [
  | inl own ↦ let one : r ≡ p = ground arith in (rw (← one) (ground arith), inl (sym one))
  | inr other ↦ let (number, i) = find_part-found n parts p (rw other at h) in (number, inr i)
]

map_err-ok {ℓ} :
    {E : Type 0} {T : Type ℓ} (f : E → S3Error) (r : Result E T) (t : T)
    → map_err f r ≡ ok t
    → r ≡ ok t
map_err-ok f (ok u) t h = ground arith
map_err-ok f (err y) t h = absurd (ground arith)

module _ (x : External) where
  -- Every part of the second list is the upload's part for its place in the request, with the ETag that
  -- the request gives.
  abbrev pub AreChosen : List PartRef → List CompletePart → List PartRef → Type 0
  AreChosen parts [] [] = Unit
  AreChosen parts [] (p ∷ selected) = ⊥
  AreChosen parts (req_part ∷ request) [] = ⊥
  AreChosen parts (req_part ∷ request) (p ∷ selected) =
      (p.part_number ≡ req_part.part_number)
      × In p parts
      × (trim req_part.etag ≡ quote (x.hex p.md5))
      × AreChosen parts request selected

  select_parts-AreChosen :
      (bucket key : Bytes) (parts : List PartRef) (request : List CompletePart)
      (selected : List PartRef)
      → select_parts x bucket key parts request ≡ ok selected
      → AreChosen parts request selected
  unfolding select_parts
  select_parts-AreChosen bucket key parts [] [] h = tt
  select_parts-AreChosen bucket key parts [] (p ∷ selected) h = absurd (ground arith)
  select_parts-AreChosen bucket key parts (q ∷ request) selected h =
      let (stored, rest, first) = chain_succeeds _ _ (select_part x bucket key parts q) h in
      let (others, last, second) =
        chain_succeeds _ _ (select_parts x bucket key parts request) rest in
      let (found, checked, there) =
        chain_succeeds _ _ (ok_or (find_part q.part_number parts) _) first in
      let one : found ≡ stored = ground arith in
      let tag : same bytes_order (trim q.etag) (quote (x.hex found.md5)) ≡ true = ground arith in
      let (number, i) = find_part-found q.part_number parts found (ground arith) in
      let whole : stored ∷ others ≡ selected = ground arith in
      rw (← whole, ← one)
        (
          number,
          i,
          cmp_bytes_eq (trim q.etag) (quote (x.hex found.md5)) (ground arith),
          select_parts-AreChosen bucket key parts request others second,
        )

  sorted-Ascending :
      (last_n : ℕ) (parts : List PartRef) (request : List CompletePart) (selected : List PartRef)
      → check_sorted last_n request ≡ ok tt
      → AreChosen parts request selected
      → Ascending last_n selected
  unfolding check_sorted
  sorted-Ascending last_n parts [] [] h a = tt
  sorted-Ascending last_n parts [] (p ∷ selected) h a = absurd a
  sorted-Ascending last_n parts (q ∷ request) [] h a = absurd a
  sorted-Ascending last_n parts (q ∷ request) (p ∷ selected) h (number, i, tag, a) =
      elim (Bool-cases (leb q.part_number last_n)) [
        | inl low ↦ absurd (cc (rw low at h))
        | inr high ↦ (
          ground arith,
          rw number (sorted-Ascending q.part_number parts request selected (rw high at h) a),
        )
      ]

  module _ (e : Engine) where
    -- The upload that is found is stored and in progress.
    find_upload-stored :
        (db : Db e) (bucket key upload_id : Bytes) (upload : Manifest)
        → find_upload x e db bucket key upload_id ≡ ok upload
        → (e.objects.get db.objects (encode (key_of bucket key upload_id)) ≡ some upload)
          × (is_in_progress upload.state ≡ true)
    unfolding find_upload handle_get_manifest
    find_upload-stored db bucket key upload_id upload h =
        elim (Option-cases (e.objects.get db.objects (encode (key_of bucket key upload_id)))) [
          | inl gone ↦ absurd (cc (rw gone at h))
          | inr (m, row) ↦ elim (Bool-cases (is_in_progress m.state)) [
            | inr other ↦ absurd (cc (rw (row, other) at h))
            | inl current ↦
                let one : m ≡ upload = ground arith in (row ∙ ap some one, rw one at current)
          ]
        ]

    -- A manifest that `complete_plan` returns has, in strictly ascending order, stored
    -- parts of the upload in progress: for each part of the request the one with its number, whose ETag
    -- is the request's.
    pub complete_plan-chosen :
        (read_complete : Bytes → Result Bytes CompleteMultipartUploadRequest) (db : Db e)
        (bucket key upload_id body : Bytes) (now : Time) (m : Manifest)
        → complete_plan x e read_complete db bucket key upload_id body now ≡ ok m
        → (request : CompleteMultipartUploadRequest) × (upload : Manifest) × (read_complete body
            ≡ ok request)
          × (e.objects.get db.objects (encode (key_of bucket key upload_id)) ≡ some upload)
          × (is_in_progress upload.state ≡ true)
          × AreChosen upload.parts request.parts m.parts
          × Ascending 0 m.parts
    unfolding complete_plan
    complete_plan-chosen read_complete db bucket key upload_id body now m h =
        let (request, rest1, first) = chain_succeeds _ _ (map_err _ (read_complete body)) h in
        let (u, rest2, second) =
          chain_succeeds _ _ (not_empty x e read_complete request.parts) rest1 in
        let (v, rest3, sorted) = chain_succeeds _ _ (check_sorted 0 request.parts) rest2 in
        let (upload, rest4, found) =
          chain_succeeds _ _ (find_upload x e db bucket key upload_id) rest3 in
        let (selected, last, chosen) =
          chain_succeeds _ _ (select_parts x bucket key upload.parts request.parts) rest4 in
        let stored = find_upload-stored db bucket key upload_id upload found in
        let are = select_parts-AreChosen bucket key upload.parts request.parts selected chosen in
        let own : selected ≡ m.parts = ground arith in
        (
          request,
          upload,
          map_err-ok _ (read_complete body) request first,
          stored.0,
          stored.1,
          rw (← own) are,
          rw (← own) (sorted-Ascending 0 upload.parts request.parts selected sorted are),
        )

    answered-rows :
        {A : Type 0} (f : MetaError → S3Error) (result : Result MetaError (Unit {0}) × World e)
        (answer : A)
        → (answer_with x e f result answer).1.db.objects ≡ result.1.db.objects
    answered-rows f (ok u, w) answer = refl
    answered-rows f (err y, w) answer = refl

    settled-other :
        (w : World e) (target : ManifestKey) (k : Bytes) (upload m : Manifest)
        → e.objects.get w.db.objects k ≡ some m
        → is_in_progress m.state ≡ false
        → e.objects.get w.db.objects (encode target) ≡ some upload
        → is_in_progress upload.state ≡ true
        → same bytes_order k (encode target) ≡ false
    settled-other w target k upload m row settled there current =
        elim (Bool-cases (same bytes_order k (encode target))) [
          | inr other ↦ other
          | inl own ↦
              let both : some m ≡ some upload =
                sym row
                ∙ ap (e.objects.get w.db.objects) (cmp_bytes_eq k (encode target) (ground arith))
                ∙ there in
              let one : m ≡ upload = ground arith in absurd (cc (settled, rw (← one) at current))
        ]

    -- `abort_multipart_upload` leaves every row that is not in progress as it is.
    pub abort-keeps :
        (w : World e) (bucket key upload_id k : Bytes) (m : Manifest)
        → e.objects.get w.db.objects k ≡ some m
        → is_in_progress m.state ≡ false
        → e.objects.get (abort_multipart_upload x e w bucket key upload_id).1.db.objects k ≡ some m
    unfolding abort_multipart_upload
    abort-keeps w bucket key upload_id k m row settled =
        elim (Result-cases (find_upload x e w.db bucket key upload_id)) [
          | inr (y, refused) ↦ rw refused row
          | inl (upload, found) ↦
              let target = key_of bucket key upload_id in
              let (there, current) = find_upload-stored w.db bucket key upload_id upload found in
              rw found (
                ap (λ objects. e.objects.get objects k)
                  (answered-rows (map_meta_err x.formats) (delete_row e w target)
                    (plain_response 204))
                ∙ delete_row-other e x w target k
                    (settled-other w target k upload m row settled there current)
                ∙ row)
        ]
