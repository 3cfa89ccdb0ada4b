-- ===== src/Storage/Actor/Scan/Stored.antt =====
-- What a range of the OBJECTS table holds, for a table whose rows stand under their own keys, and
-- the two handlers that look at a whole bucket.
use s3lite.Common.{
  ◌≡◌, ◌≢◌, ◌↔◌, refl, ap, inl, inr, true, false, some, List, [], ◌∷◌, ok, arith, Bool-cases, ◌∙◌,
}
use s3lite.Common.Order.{Bytes, cmp_bytes_eq, cmp_bytes_refl, bytes_order, same}
use s3lite.Common.OrdMap.{is_between}
use s3lite.Common.OrdMap.Members.{In, In-lookup, lookup-In, In-between, between-In}
use s3lite.Storage.Manifest.{Manifest, BucketConfig, encode}
use s3lite.Storage.Manifest.Key.{NulFree}
use s3lite.Storage.Engine.{Engine, Db}
use s3lite.Storage.Actor.Scan.{
  bucket_start, bucket_end, rows_of_bucket, handle_list_all_manifests_in_bucket,
}
use s3lite.Storage.Actor.Scan.Ranges.{bucket_range}
use s3lite.Storage.Actor.Buckets.{is_empty, handle_delete_bucket}
use s3lite.Storage.Actor.Ops.Keyed.{IsKeyed}

In-rows_of_bucket :
    (bucket k : Bytes) (m : Manifest) (rows : List (Bytes × Manifest))
    → In (k, m) rows
    → m.key.bucket ≡ bucket
    → In m (rows_of_bucket bucket rows)
unfolding rows_of_bucket
In-rows_of_bucket bucket k m [] i h = absurd i
In-rows_of_bucket bucket k m ((j, r) ∷ rows) i h =
    ground (arith, In-rows_of_bucket bucket k m rows, cmp_bytes_refl bucket)

pub rows_of_bucket-In :
    (bucket : Bytes) (m : Manifest) (rows : List (Bytes × Manifest))
    → In m (rows_of_bucket bucket rows)
    → (m.key.bucket ≡ bucket) × ((k : Bytes) × In (k, m) rows)
unfolding rows_of_bucket
rows_of_bucket-In bucket m [] i = absurd i
rows_of_bucket-In bucket m ((j, r) ∷ rows) i =
    elim (Bool-cases (same bytes_order r.key.bucket bucket)) [
      | inl own ↦ elim (rw (own, rows_of_bucket) at i) [
        | inl e ↦ (
          ap (λ (x : Manifest). x.key.bucket) e ∙ cmp_bytes_eq r.key.bucket bucket (ground arith),
          (j, inl (ap (λ (x : Manifest). (j, x)) e)),
        )
        | inr later ↦
            let (b, (k, found)) = rows_of_bucket-In bucket m rows later in (b, (k, inr found))
      ]
      | inr other ↦
          let (b, (k, found)) = rows_of_bucket-In bucket m rows (rw (other, rows_of_bucket) at i) in
          (b, (k, inr found))
    ]

In-not_empty : {A : Type 0} (x : A) (l : List A) → In x l → is_empty l ≡ false
In-not_empty x [] i = absurd i
In-not_empty x (y ∷ l) i = refl

not_empty_In : {A : Type 0} (l : List A) → is_empty l ≡ false → (x : A) × In x l
not_empty_In [] h = absurd (cc)
not_empty_In (y ∷ l) h = (y, inl refl)

module _ (e : Engine) (db : Db e) (keyed : IsKeyed e db.objects) where
  -- A stored manifest whose key lies in a range is found by the scan of the range.
  pub stored-In :
      (lo hi : Bytes) (m : Manifest)
      → e.objects.get db.objects (encode m.key) ≡ some m
      → is_between bytes_order lo hi (encode m.key) ≡ true
      → In (encode m.key, m) (e.objects.range db.objects lo hi)
  stored-In lo hi m row inside = rw e.objects.range_view (
      In-between bytes_order lo hi (encode m.key) m _
        (In-lookup bytes_order (encode m.key) m _ (rw e.objects.get_view at row)) inside)

  -- What the scan of a range finds is stored under its own key, which lies in the range.
  pub In-stored :
      (lo hi k : Bytes) (m : Manifest)
      → In (k, m) (e.objects.range db.objects lo hi)
      → (k ≡ encode m.key)
        × (e.objects.get db.objects (encode m.key) ≡ some m)
        × (is_between bytes_order lo hi (encode m.key) ≡ true)
        × NulFree m.key.bucket
        × NulFree m.key.key
  In-stored lo hi k m i =
      let inside = between-In bytes_order lo hi k m _ (rw e.objects.range_view at i) in
      let found = lookup-In bytes_order k m _ (e.objects.iter_IsSorted db.objects) inside.0 in
      let row : e.objects.get db.objects k ≡ some m = rw e.objects.get_view found in
      let own = rw row at (keyed k) in (own.0, rw own.0 at row, rw own.0 at inside.1, own.1, own.2)

  range-In :
      (bucket : Bytes) (m : Manifest)
      → NulFree bucket
      → e.objects.get db.objects (encode m.key) ≡ some m
      → m.key.bucket ≡ bucket
      → In (encode m.key, m) (e.objects.range db.objects (bucket_start bucket) (bucket_end bucket))
  range-In bucket m hb row b =
      let own = rw row at (keyed (encode m.key)) in
      stored-In (bucket_start bucket) (bucket_end bucket) m row
        (rw (bucket_range bucket m.key hb own.1) (ground (arith, b, cmp_bytes_refl bucket)))

  -- `list_all_manifests_in_bucket` lists exactly the stored manifests of the bucket, in any state.
  pub list_all_exact :
      (bucket : Bytes) (listed : List Manifest)
      → NulFree bucket
      → handle_list_all_manifests_in_bucket e db bucket ≡ ok listed
      → (m : Manifest)
      → In m listed ↔ ((e.objects.get db.objects (encode m.key) ≡ some m) × (m.key.bucket ≡ bucket))
  unfolding handle_list_all_manifests_in_bucket
  list_all_exact bucket listed hb h m =
      let rows = e.objects.range db.objects (bucket_start bucket) (bucket_end bucket) in
      let same_list : rows_of_bucket bucket rows ≡ listed = ground arith in
      rw (← same_list) (
        λ i.
            let (b, (k, found)) = rows_of_bucket-In bucket m rows i in
            ((In-stored (bucket_start bucket) (bucket_end bucket) k m found).1, b),
        λ s. In-rows_of_bucket bucket (encode m.key) m rows (range-In bucket m hb s.0 s.1) s.1,
      )

  -- `delete_bucket` of an existing bucket succeeds exactly when no manifest of any state is stored in
  -- the bucket.
  pub delete_bucket_exact :
      (name : Bytes) (cfg : BucketConfig)
      → NulFree name
      → e.buckets.get db.buckets name ≡ some cfg
      → ((handle_delete_bucket e db name).0 ≡ ok tt)
        ↔ ((m : Manifest) → e.objects.get db.objects (encode m.key) ≡ some m → m.key.bucket ≢ name)
  unfolding handle_delete_bucket
  delete_bucket_exact name cfg hn exists =
      let rows = e.objects.range db.objects (bucket_start name) (bucket_end name) in
      (
        λ h m row b.
            let full = In-not_empty _ rows (range-In name m hn row b) in
            cc (rw (exists, full) at h),
        λ none_there. elim (Bool-cases (is_empty rows)) [
          | inl free ↦ rw (exists, free)
          | inr full ↦
              let ((k, m), i) = not_empty_In rows full in
              let (_, row, inside, hb, _) = In-stored (bucket_start name) (bucket_end name) k m i in
              let named = rw (bucket_range name m.key hn hb) at inside in
              absurd (none_there m row (cmp_bytes_eq m.key.bucket name (ground arith)))
        ],
      )
