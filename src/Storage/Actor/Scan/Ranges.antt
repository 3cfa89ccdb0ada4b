-- ===== src/Storage/Actor/Scan/Ranges.antt =====
-- Which encoded keys each scanned range holds.
use s3lite.Common.{not, ◌&&◌, ◌≡◌, refl, [], ◌∷◌, ◌++◌, Ordering, arith}
use s3lite.Common.Order.{
  Bytes, cmp_bytes, cmp_bytes_eq, cmp_bytes_refl, cmp_bytes_gt, bytes_order, same, less, lt_cmp,
}
use s3lite.Common.OrdMap.{is_between}
use s3lite.Storage.Manifest.{ManifestKey, encode}
use s3lite.Storage.Manifest.Key.{NulFree, then_cmp, cmp_nul, cmp_one}
use s3lite.Storage.Actor.Scan.{
  bucket_start, bucket_end, key_start, key_end, initial_scan_start, after_key,
}

-- What ends in NUL against a text with no NUL: the names decide, and an equal name is above.
cmp_stop :
    (x y r : Bytes) → NulFree y → cmp_bytes (x ++ (0 ∷ r)) y ≡ then_cmp (cmp_bytes x y) Ordering.gt
unfolding cmp_bytes
cmp_stop [] [] r hy = refl
cmp_stop [] (b ∷ y) r hy = ground arith
cmp_stop (a ∷ x) [] r hy = refl
cmp_stop (a ∷ x) (b ∷ y) r hy = ground (arith, cmp_stop x y r hy.1)

-- A text that goes on is above the empty one.
cmp_rest : (x r : Bytes) → cmp_bytes (x ++ (0 ∷ r)) [] ≡ Ordering.gt
unfolding cmp_bytes
cmp_rest [] r = refl
cmp_rest (a ∷ x) r = refl

cmp_empty : (r : Bytes) → ¬ (cmp_bytes r [] ≡ Ordering.lt)
unfolding cmp_bytes
cmp_empty [] h = cc
cmp_empty (a ∷ r) h = cc

module _ (b : Bytes) (k : ManifestKey) (hb : NulFree b) (hk : NulFree k.bucket) where
  -- `bucket\0 .. bucket\1` holds exactly the keys of the bucket.
  pub bucket_range :
      is_between bytes_order (bucket_start b) (bucket_end b) (encode k)
      ≡ same bytes_order k.bucket b
  unfolding bucket_start bucket_end encode
  bucket_range = ground (
    arith,
    cmp_nul k.bucket b (k.key ++ (0 ∷ k.version_id)) [],
    cmp_one k.bucket b (k.key ++ (0 ∷ k.version_id)),
    cmp_rest k.key k.version_id,
  )

  -- `bucket\0key\0 .. bucket\0key\1` holds exactly the versions of the key.
  pub key_range :
      (key : Bytes)
      → NulFree key
      → NulFree k.key
      → is_between bytes_order (key_start b key) (key_end b key) (encode k)
        ≡ (same bytes_order k.bucket b && same bytes_order k.key key)
  unfolding key_start key_end encode
  key_range key hkey hk' = ground (
    arith,
    cmp_nul k.bucket b (k.key ++ (0 ∷ k.version_id)) (key ++ (0 ∷ [])),
    cmp_nul k.bucket b (k.key ++ (0 ∷ k.version_id)) (key ++ (1 ∷ [])),
    cmp_nul k.key key k.version_id [],
    cmp_one k.key key k.version_id,
    cmp_empty k.version_id,
  )

  -- The range from `after_key` to the end of the bucket holds exactly the keys above the given one.
  pub after_key_range :
      (key : Bytes)
      → NulFree key
      → NulFree k.key
      → is_between bytes_order (after_key b key) (bucket_end b) (encode k)
        ≡ (same bytes_order k.bucket b && less bytes_order key k.key)
  unfolding after_key bucket_end encode
  after_key_range key hkey hk' = ground (
    arith,
    cmp_nul k.bucket b (k.key ++ (0 ∷ k.version_id)) (key ++ (1 ∷ [])),
    cmp_one k.key key k.version_id,
    cmp_one k.bucket b (k.key ++ (0 ∷ k.version_id)),
    cmp_bytes_gt k.key key,
    cmp_bytes_gt key k.key,
    cmp_bytes_eq k.key key,
    cmp_bytes_eq key k.key,
    cmp_bytes_refl key,
    cmp_bytes_refl k.key,
    lt_cmp bytes_order k.key key,
  )

  -- The range from `initial_scan_start` holds exactly the bucket's keys that are not below the prefix.
  pub initial_range :
      (prefix : Bytes)
      → NulFree prefix
      → is_between bytes_order (initial_scan_start b prefix) (bucket_end b) (encode k)
        ≡ (same bytes_order k.bucket b && not (less bytes_order k.key prefix))
  unfolding initial_scan_start bucket_end encode
  initial_range prefix hp = ground (
    arith,
    cmp_nul k.bucket b (k.key ++ (0 ∷ k.version_id)) prefix,
    cmp_stop k.key prefix k.version_id,
    cmp_one k.bucket b (k.key ++ (0 ∷ k.version_id)),
  )
