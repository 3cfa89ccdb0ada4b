-- ===== src/S3/Checksum/Laws.antt =====
-- src/s3/checksum.rs: which checksums a request is let through with.
use s3lite.Common.{
  ◌≡◌, ◌⊎◌, refl, inl, inr, Option, none, some, List, [], ◌∷◌, ok, arith, chain_succeeds,
  Option-cases,
}
use s3lite.Common.Order.{Bytes}
use s3lite.Common.Text.{length}
use s3lite.Storage.Manifest.{ChecksumAlgorithm, AdditionalChecksum}
use s3lite.S3.World.{Headers, header, External}
use s3lite.S3.Checksum.{
  header_name_for, expected_len, algorithms, look_up, find_checksum, decode_checksum,
  parse_request_checksum,
}

module _ (x : External) where
  -- The text of the header of an algorithm.
  abbrev pub HasText : Headers → ChecksumAlgorithm → Bytes → Type 0
  HasText headers algo s =
      (v : Bytes) × (header (header_name_for algo) headers ≡ some v) × (x.to_str v ≡ some s)

  -- A header that is there is read, unless one was found before.
  look_up-text :
      (headers : Headers) (found : Option (ChecksumAlgorithm × Bytes)) (a : ChecksumAlgorithm)
      (next : Option (ChecksumAlgorithm × Bytes))
      → look_up x headers found a ≡ ok next
      → (next ≡ found) ⊎ ((s : Bytes) × (next ≡ some (a, s)) × HasText headers a s)
  look_up-text headers found a next h = elim (Option-cases (header (header_name_for a) headers)) [
    | inl gone ↦ inl (grind arith)
    | inr (v, there) ↦ elim (Option-cases (x.to_str v)) [
      | inl bad ↦ absurd (ground arith)
      | inr (s, read) ↦ inr (s, grind arith, (v, there, read))
    ]
  ]

  from_next :
      (headers : Headers) (found next : Option (ChecksumAlgorithm × Bytes))
      (a algo : ChecksumAlgorithm) (s : Bytes)
      → next ≡ some (algo, s)
      → (next ≡ found) ⊎ ((t : Bytes) × (next ≡ some (a, t)) × HasText headers a t)
      → (found ≡ some (algo, s)) ⊎ HasText headers algo s
  from_next headers found next a algo s e (inl same_found) = inl (cc)
  from_next headers found next a algo s e (inr (t, is, text)) =
      let one : a ≡ algo = ground arith in
      let two : t ≡ s = ground arith in inr (rw (← one, ← two) text)

  -- What the loop finds was found before, or is the text of the header of one algorithm.
  find_checksum-from :
      (headers : Headers) (found : Option (ChecksumAlgorithm × Bytes)) (l : List ChecksumAlgorithm)
      (algo : ChecksumAlgorithm) (s : Bytes)
      → find_checksum x headers found l ≡ ok (some (algo, s))
      → (found ≡ some (algo, s)) ⊎ HasText headers algo s
  unfolding find_checksum
  find_checksum-from headers found [] algo s h = inl (ground arith)
  find_checksum-from headers found (a ∷ l) algo s h =
      let (next, rest, first) = chain_succeeds _ _ (look_up x headers found a) h in
      elim (find_checksum-from headers next l algo s rest) [
        | inr there ↦ inr there
        | inl e ↦ from_next headers found next a algo s e (look_up-text headers found a next first)
      ]

  decode_checksum-decoded :
      (found : Option (ChecksumAlgorithm × Bytes)) (ac : AdditionalChecksum)
      → decode_checksum x found ≡ ok (some ac)
      → (s : Bytes) × (found ≡ some (ac.algorithm, s))
        × (x.base64_decode s ≡ some ac.value)
        × (length ac.value ≡ expected_len ac.algorithm)
  decode_checksum-decoded none ac h = absurd (ground arith)
  decode_checksum-decoded (some (algo, raw)) ac h = elim (Option-cases (x.base64_decode raw)) [
    | inl bad ↦ absurd (ground arith)
    | inr (value, good) ↦
        let size : length value ≡ expected_len algo = grind arith in
        let is : ac ≡ record { algorithm = algo; value = value } = grind arith in
        rw is (raw, refl, good, size)
  ]

  -- A checksum that `parse_request_checksum` returns is the decoded text of its algorithm's header, and
  -- has the algorithm's length.
  pub parse-decoded :
      (headers : Headers) (ac : AdditionalChecksum)
      → parse_request_checksum x headers ≡ ok (some ac)
      → (s : Bytes) × HasText headers ac.algorithm s
        × (x.base64_decode s ≡ some ac.value)
        × (length ac.value ≡ expected_len ac.algorithm)
  unfolding parse_request_checksum
  parse-decoded headers ac h =
      let (found, rest, first) = chain_succeeds _ _ (find_checksum x headers none algorithms) h in
      let (s, is, value, size) = decode_checksum-decoded found ac rest in
      let text : (none ≡ some (ac.algorithm, s)) ⊎ HasText headers ac.algorithm s =
        find_checksum-from headers none algorithms ac.algorithm s (cc (first, is)) in
      elim text [ inl impossible ↦ absurd (ground arith) | inr there ↦ (s, there, value, size) ]
