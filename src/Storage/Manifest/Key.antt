-- ===== src/Storage/Manifest/Key.antt =====
-- `ManifestKey::encode` of src/storage/manifest.rs: the byte order of encoded keys, and that the
-- encoding loses nothing. Bucket names and object keys hold no NUL byte, as the source demands.
use s3lite.Common.{◌<◌, ◌≡◌, refl, ap, [], ◌∷◌, ◌++◌, Ordering, arith}
use s3lite.Common.Order.{Bytes, cmp_bytes, cmp_bytes_eq, cmp_bytes_refl}
use s3lite.Storage.Manifest.{ManifestKey, encode}

abbrev pub NulFree : Bytes → Type 0
NulFree [] = Unit
NulFree (b ∷ s) = (0 < b) × NulFree s

-- `Ordering::then`
abbrev pub then_cmp : Ordering → Ordering → Ordering
then_cmp Ordering.lt d = Ordering.lt
then_cmp Ordering.eq d = d
then_cmp Ordering.gt d = Ordering.gt

-- Before a NUL byte on both sides the names decide, and after equal names the rest does.
pub cmp_nul :
    (x y r s : Bytes)
    → NulFree x
    → NulFree y
    → cmp_bytes (x ++ (0 ∷ r)) (y ++ (0 ∷ s)) ≡ then_cmp (cmp_bytes x y) (cmp_bytes r s)
unfolding cmp_bytes
cmp_nul [] [] r s hx hy = refl
cmp_nul [] (b ∷ y) r s hx hy = ground arith
cmp_nul (a ∷ x) [] r s hx hy = ground arith
cmp_nul (a ∷ x) (b ∷ y) r s hx hy = ground (arith, cmp_nul x y r s hx.1 hy.1)

-- Against a final byte 1 in place of the separator, a name is above exactly the greater names.
pub cmp_one :
    (x y r : Bytes)
    → NulFree x
    → NulFree y
    → cmp_bytes (x ++ (0 ∷ r)) (y ++ (1 ∷ [])) ≡ then_cmp (cmp_bytes x y) Ordering.lt
unfolding cmp_bytes
cmp_one [] [] r hx hy = refl
cmp_one [] (b ∷ y) r hx hy = ground arith
cmp_one (a ∷ []) [] r hx hy = ground arith
cmp_one (a ∷ c ∷ x) [] r hx hy = ground arith
cmp_one (a ∷ x) (b ∷ y) r hx hy = ground (arith, cmp_one x y r hx.1 hy.1)

-- Encoded keys are ordered by bucket, then by object key, then by version id.
pub cmp-encode :
    (a b : ManifestKey)
    → NulFree a.bucket
    → NulFree b.bucket
    → NulFree a.key
    → NulFree b.key
    → cmp_bytes (encode a) (encode b)
      ≡ then_cmp
          (cmp_bytes a.bucket b.bucket)
          (then_cmp (cmp_bytes a.key b.key) (cmp_bytes a.version_id b.version_id))
unfolding encode
cmp-encode a b ha hb ka kb = ground (
  arith,
  cmp_nul a.bucket b.bucket (a.key ++ (0 ∷ a.version_id)) (b.key ++ (0 ∷ b.version_id)),
  cmp_nul a.key b.key a.version_id b.version_id,
)

-- Keys with the same encoding have the same bucket, object key and version id.
pub encode_injective :
    (a b : ManifestKey)
    → NulFree a.bucket
    → NulFree b.bucket
    → NulFree a.key
    → NulFree b.key
    → encode a ≡ encode b
    → (a.bucket ≡ b.bucket) × (a.key ≡ b.key) × (a.version_id ≡ b.version_id)
encode_injective a b ha hb ka kb h = ground (
  arith,
  cmp-encode a b,
  ap (cmp_bytes (encode a)) h,
  cmp_bytes_refl (encode a),
  cmp_bytes_eq a.bucket b.bucket,
  cmp_bytes_eq a.key b.key,
  cmp_bytes_eq a.version_id b.version_id,
)
