-- ===== src/S3/Addressing/Styles.antt =====
-- `extract` of src/s3/addressing.rs on the two addressing styles.
use s3lite.Common.{
  ℕ, ◌+◌, false, Option, none, some, ◌≡◌, refl, ap, inl, inr, [], ◌∷◌, ◌++◌, ok, arith, Bool-cases,
  Result-cases, Option-cases,
}
use s3lite.Common.Order.{Bytes, bytes_order, same, cmp_bytes_eq, cmp_bytes_refl}
use s3lite.Common.Text.{length}
use s3lite.S3.Text.{is_blank, has_byte}
use s3lite.S3.Addressing.{
  Addressing, rsplit_once, strip_port, strip_suffix, virtual_hosted_bucket, validate_bucket_name,
  non_empty, path_to_key, split_slash, path_style, extract, hosted_bucket, bucket_and_key,
  trim_slash, host_no_port,
}
use s3lite.S3.Addressing.Names.{has_byte-valid, is_blank-valid}

rsplit_once-no : (c : ℕ) (s : Bytes) → has_byte c s ≡ false → rsplit_once c s ≡ none
unfolding rsplit_once has_byte
rsplit_once-no c [] h = refl
rsplit_once-no c (b ∷ s) h = ground (arith, rsplit_once-no c s)

-- The last separator splits the text.
rsplit_once-at :
    (c : ℕ) (s t : Bytes) → has_byte c t ≡ false → rsplit_once c (s ++ c ∷ t) ≡ some (s, t)
unfolding rsplit_once
rsplit_once-at c [] t h = ground (arith, rsplit_once-no c t)
rsplit_once-at c (b ∷ s) t h = rw (rsplit_once-at c s t h) refl

length-append : (s t : Bytes) → length (s ++ t) ≡ length s + length t
length-append [] t = omega arith
length-append (b ∷ s) t = omega (arith, length-append s t)

-- A text is not its own suffix.
same-longer : (b : ℕ) (s t : Bytes) → same bytes_order (b ∷ s ++ t) t ≡ false
same-longer b s t = elim (Bool-cases (same bytes_order (b ∷ s ++ t) t)) [
  | inr h ↦ h
  | inl h ↦
      let e : b ∷ (s ++ t) ≡ t = cmp_bytes_eq (b ∷ s ++ t) t (ground arith) in
      absurd (omega (arith, length-append s t, ap length e))
]

strip_suffix-append : (s t : Bytes) → strip_suffix t (s ++ t) ≡ some s
unfolding strip_suffix
strip_suffix-append [] [] = refl
strip_suffix-append [] (c ∷ t) = ground (arith, cmp_bytes_refl (c ∷ t))
strip_suffix-append (b ∷ s) t = rw (same-longer b s t, strip_suffix-append s t) refl

split_slash-at : (s t : Bytes) → has_byte 0x2f s ≡ false → split_slash (s ++ 0x2f ∷ t) ≡ (s, some t)
unfolding split_slash has_byte
split_slash-at [] t h = refl
split_slash-at (b ∷ s) t h = ground (arith, split_slash-at s t)

-- A path `/bucket/key` with a valid bucket names the bucket and the key; the empty key is none.
pub path_style-pair :
    (bucket key : Bytes)
    → validate_bucket_name bucket ≡ ok tt
    → path_style (0x2f ∷ (bucket ++ 0x2f ∷ key))
      ≡ ok (record { bucket = some bucket; key = non_empty key })
unfolding path_style
path_style-pair [] key h = cc (is_blank-valid [] h)
path_style-pair (b ∷ s) key h =
    rw (split_slash-at (b ∷ s) key (has_byte-valid 0x2f (b ∷ s) refl h), h) refl

strip_port-at :
    (host port : Bytes)
    → is_blank host ≡ false
    → has_byte 0x3a port ≡ false
    → strip_port (host ++ 0x3a ∷ port) ≡ host
unfolding strip_port
strip_port-at host port h p = rw (strip_port, rsplit_once-at 0x3a host port p, h) refl

is_blank-append : (s t : Bytes) → is_blank s ≡ false → is_blank (s ++ t) ≡ false
is_blank-append [] t h = cc
is_blank-append (b ∷ s) t h = refl

hosted_bucket-at :
    (bucket endpoint port : Bytes)
    → validate_bucket_name bucket ≡ ok tt
    → is_blank endpoint ≡ false
    → has_byte 0x3a port ≡ false
    → hosted_bucket (strip_port ((bucket ++ 0x2e ∷ endpoint) ++ 0x3a ∷ port)) (some endpoint)
      ≡ some bucket
unfolding virtual_hosted_bucket
hosted_bucket-at bucket endpoint port h e p =
    let host =
      strip_port-at (bucket ++ 0x2e ∷ endpoint) port
        (is_blank-append bucket (0x2e ∷ endpoint) (is_blank-valid bucket h)) p in
    rw
      (
        host,
        e,
        virtual_hosted_bucket,
        strip_suffix-append bucket (0x2e ∷ endpoint),
        is_blank-valid bucket h,
        has_byte-valid 0x2e bucket refl h,
      )
      refl

-- A host `bucket.endpoint:port` with a valid bucket, and the path `/key`, name what the path
-- `/bucket/key` names on a server with no endpoint.
pub extract_agrees :
    (bucket key endpoint port : Bytes)
    → validate_bucket_name bucket ≡ ok tt
    → is_blank endpoint ≡ false
    → has_byte 0x3a port ≡ false
    → extract (some ((bucket ++ 0x2e ∷ endpoint) ++ 0x3a ∷ port)) (0x2f ∷ key) (some endpoint)
      ≡ extract none (0x2f ∷ (bucket ++ 0x2f ∷ key)) none
unfolding extract path_to_key
extract_agrees bucket key endpoint port h e p =
    let hosted : hosted_bucket (host_no_port (some ((bucket ++ 0x2e ∷ endpoint) ++ 0x3a ∷ port)))
          (some endpoint)
        ≡ some bucket =
      hosted_bucket-at bucket endpoint port h e p in
    rw (extract, hosted, h, path_style-pair bucket key h) refl

valid_pair :
    (pair : Bytes × Option Bytes) (a : Addressing) (bucket : Bytes)
    → bucket_and_key pair ≡ ok a
    → a.bucket ≡ some bucket
    → validate_bucket_name bucket ≡ ok tt
valid_pair (raw, key) a bucket h b = elim (Result-cases (validate_bucket_name raw)) [
  | inl (u, v) ↦ ground arith
  | inr (x, v) ↦ ground arith
]

valid_path :
    (path : Bytes) (a : Addressing) (bucket : Bytes)
    → path_style path ≡ ok a
    → a.bucket ≡ some bucket
    → validate_bucket_name bucket ≡ ok tt
unfolding path_style
valid_path path a bucket h b = elim (Bool-cases (is_blank (trim_slash path))) [
  | inl e ↦ ground arith
  | inr e ↦ valid_pair (split_slash (trim_slash path)) a bucket (rw e at h) b
]

-- Every bucket that a request addresses, in either style, has a valid name.
pub extract_valid :
    (host : Option Bytes) (path : Bytes) (endpoint : Option Bytes) (a : Addressing) (bucket : Bytes)
    → extract host path endpoint ≡ ok a
    → a.bucket ≡ some bucket
    → validate_bucket_name bucket ≡ ok tt
unfolding extract
extract_valid host path endpoint a bucket h b =
    elim (Option-cases (hosted_bucket (host_no_port host) endpoint)) [
      | inl none_hosted ↦ valid_path path a bucket (rw (extract, none_hosted) at h) b
      | inr (name, hosted) ↦ elim (Result-cases (validate_bucket_name name)) [
        | inl (u, v) ↦ ground arith
        | inr (x, v) ↦ ground arith
      ]
    ]
