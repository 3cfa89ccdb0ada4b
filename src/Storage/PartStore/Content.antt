-- ===== src/Storage/PartStore/Content.antt =====
-- src/storage/parts.rs: every file is named by the hash of its content.
use s3lite.Common.{
  ◌+◌, ◌≡◌, refl, sym, ap, ◌∙◌, inl, inr, Option, none, some, List, [], ◌∷◌, ◌++◌, arith,
  Bool-cases, Option-cases, if◌then◌else◌,
}
use s3lite.Common.Order.{Bytes, bytes_order, same, cmp_bytes_eq}
use s3lite.Common.OrdMap.{lookup}
use s3lite.Common.OrdMap.Laws.{lookup-upsert}
use s3lite.Common.Text.{length}
use s3lite.Storage.Manifest.{Hash}
use s3lite.Storage.PartStore.{
  feed, concat, Digest, Files, is_file, WriteState, absorb, write_loop, initial, place,
  write_stream, open_read,
}

-- A reader gives the whole of its bytes in reads that are not empty.
abbrev pub NonEmpty : List Bytes → Type 0
NonEmpty [] = Unit
NonEmpty ([] ∷ chunks) = ⊥
NonEmpty ((b ∷ chunk) ∷ chunks) = NonEmpty chunks

abbrev pub RowContent : Digest → Hash → Option Bytes → Type 0
RowContent blake3 h none = Unit
RowContent blake3 h (some c) = blake3.digest c ≡ h

-- Every file has the content that its name says.
abbrev pub IsAddressed : Digest → Files → Type 0
IsAddressed blake3 files = (h : Hash) → RowContent blake3 h (open_read files h)

append_assoc : (a b c : Bytes) → (a ++ b) ++ c ≡ a ++ (b ++ c)
append_assoc [] b c = refl
append_assoc (x ∷ a) b c = ap (λ t. x ∷ t) (append_assoc a b c)

append_nil : (a : Bytes) → a ++ [] ≡ a
append_nil [] = refl
append_nil (x ∷ a) = ap (λ t. x ∷ t) (append_nil a)

length-append : (s t : Bytes) → length (s ++ t) ≡ length s + length t
length-append [] t = omega arith
length-append (b ∷ s) t = omega (arith, length-append s t)

-- The new file's name is taken.
held :
    (files : Files) (hash : Hash) (content : Bytes) (q : Hash) (c : Bytes)
    → lookup bytes_order hash files ≡ some c
    → lookup bytes_order q files ≡ (
        if is_file (lookup bytes_order q files)
        then lookup bytes_order q files
        else if same bytes_order q hash
        then some content
        else none)
held files hash content q c there = elim (Option-cases (lookup bytes_order q files)) [
  | inr (d, found) ↦ rw found refl
  | inl none_there ↦ elim (Bool-cases (same bytes_order q hash)) [
    | inr other ↦ rw (none_there, other) refl
    | inl own ↦ cc (
      there,
      none_there,
      ap (λ k. lookup bytes_order k files) (cmp_bytes_eq q hash (ground arith)),
    )
  ]
]

-- The new file's name is free.
fresh :
    (files : Files) (hash : Hash) (content : Bytes) (q : Hash)
    → lookup bytes_order hash files ≡ none
    → (if same bytes_order q hash then some content else lookup bytes_order q files) ≡ (
        if is_file (lookup bytes_order q files)
        then lookup bytes_order q files
        else if same bytes_order q hash
        then some content
        else none)
fresh files hash content q free = elim (Option-cases (lookup bytes_order q files)) [
  | inl none_there ↦ rw none_there refl
  | inr (d, found) ↦ elim (Bool-cases (same bytes_order q hash)) [
    | inr other ↦ rw (found, other) refl
    | inl own ↦
        cc (free, found, ap (λ k. lookup bytes_order k files) (cmp_bytes_eq q hash (ground arith)))
  ]
]

placed :
    (files : Files) (hash : Hash) (content : Bytes) (q : Hash)
    → lookup bytes_order q (place files hash content) ≡ (
        if is_file (lookup bytes_order q files)
        then lookup bytes_order q files
        else if same bytes_order q hash
        then some content
        else none)
placed files hash content q = elim (Option-cases (lookup bytes_order hash files)) [
  | inr (c, there) ↦ rw there (held files hash content q c there)
  | inl free ↦
      rw (free, lookup-upsert bytes_order hash q content files) (fresh files hash content q free)
]

module _ (blake3 md5_digest : Digest) where
  write_loop-tmp :
      (st : WriteState blake3 md5_digest) (chunks : List Bytes)
      → NonEmpty chunks
      → (write_loop blake3 md5_digest st chunks).tmp_file ≡ st.tmp_file ++ concat chunks
  unfolding write_loop
  write_loop-tmp st [] h = sym (append_nil st.tmp_file)
  write_loop-tmp st ([] ∷ chunks) h = absurd h
  write_loop-tmp st ((b ∷ chunk) ∷ chunks) h =
      write_loop-tmp (absorb blake3 md5_digest st (b ∷ chunk)) chunks h
      ∙ append_assoc st.tmp_file (b ∷ chunk) (concat chunks)

  write_loop-blake3 :
      (st : WriteState blake3 md5_digest) (chunks : List Bytes)
      → NonEmpty chunks
      → (write_loop blake3 md5_digest st chunks).blake3_state
        ≡ feed blake3.update st.blake3_state chunks
  unfolding write_loop
  write_loop-blake3 st [] h = refl
  write_loop-blake3 st ([] ∷ chunks) h = absurd h
  write_loop-blake3 st ((b ∷ chunk) ∷ chunks) h =
      write_loop-blake3 (absorb blake3 md5_digest st (b ∷ chunk)) chunks h

  write_loop-md5 :
      (st : WriteState blake3 md5_digest) (chunks : List Bytes)
      → NonEmpty chunks
      → (write_loop blake3 md5_digest st chunks).md5_state
        ≡ feed md5_digest.update st.md5_state chunks
  unfolding write_loop
  write_loop-md5 st [] h = refl
  write_loop-md5 st ([] ∷ chunks) h = absurd h
  write_loop-md5 st ((b ∷ chunk) ∷ chunks) h =
      write_loop-md5 (absorb blake3 md5_digest st (b ∷ chunk)) chunks h

  write_loop-size :
      (st : WriteState blake3 md5_digest) (chunks : List Bytes)
      → NonEmpty chunks
      → (write_loop blake3 md5_digest st chunks).size ≡ st.size + length (concat chunks)
  unfolding write_loop
  write_loop-size st [] h = omega arith
  write_loop-size st ([] ∷ chunks) h = absurd h
  write_loop-size st ((b ∷ chunk) ∷ chunks) h = omega (
    arith,
    write_loop-size (absorb blake3 md5_digest st (b ∷ chunk)) chunks h,
    length-append (b ∷ chunk) (concat chunks),
  )

  -- What `write_stream` returns for a reader's bytes: their BLAKE3 and MD5 digests and their number.
  pub write_stream-result :
      (files : Files) (chunks : List Bytes)
      → NonEmpty chunks
      → (write_stream blake3 md5_digest files chunks).0 ≡ record {
        hash = blake3.digest (concat chunks);
        md5 = md5_digest.digest (concat chunks);
        size = length (concat chunks);
      }
  unfolding write_stream
  write_stream-result files chunks h =
      rw
        (
          write_loop-blake3 (initial blake3 md5_digest) chunks h,
          write_loop-md5 (initial blake3 md5_digest) chunks h,
          write_loop-size (initial blake3 md5_digest) chunks h,
          blake3.finalize_feed chunks,
          md5_digest.finalize_feed chunks,
        )
        (ap
          (λ n. record {
            hash = blake3.digest (concat chunks);
            md5 = md5_digest.digest (concat chunks);
            size = n;
          })
          (omega arith))

  -- The files after `write_stream`: the file of the digest is there, and no other has changed.
  pub write_stream-files :
      (files : Files) (chunks : List Bytes) (q : Hash)
      → NonEmpty chunks
      → open_read (write_stream blake3 md5_digest files chunks).1 q ≡ (
          if is_file (open_read files q)
          then open_read files q
          else if same bytes_order q (blake3.digest (concat chunks))
          then some (concat chunks)
          else none)
  unfolding write_stream open_read
  write_stream-files files chunks q h =
      rw
        (
          write_loop-blake3 (initial blake3 md5_digest) chunks h,
          write_loop-tmp (initial blake3 md5_digest) chunks h,
          blake3.finalize_feed chunks,
        )
        (placed files (blake3.digest (concat chunks)) (concat chunks) q)

  -- Writing keeps the files named by their contents, whatever the reader gives.
  pub write_stream-IsAddressed :
      (files : Files) (chunks : List Bytes)
      → NonEmpty chunks
      → IsAddressed blake3 files
      → IsAddressed blake3 (write_stream blake3 md5_digest files chunks).1
  write_stream-IsAddressed files chunks ne a q = elim (Option-cases (open_read files q)) [
    | inr (c, there) ↦ rw (write_stream-files files chunks q ne, there) (rw there at (a q))
    | inl free ↦ elim (Bool-cases (same bytes_order q (blake3.digest (concat chunks)))) [
      | inr other ↦ rw (write_stream-files files chunks q ne, free, other) tt
      | inl own ↦
          rw (write_stream-files files chunks q ne, free, own)
            (sym (cmp_bytes_eq q (blake3.digest (concat chunks)) (ground arith)))
    ]
  ]
