-- ===== src/Storage/PartStore.antt =====
-- src/storage/parts.rs: the part files. The directory is a map from content hashes to contents, in hash
-- order; a path is `hex(hash)` in two levels of folders, so a hash has one path. Failures of the disk,
-- permissions and the name of the temporary file are not modelled.
pub mod Content
use s3lite.Common.{
  ℕ, ◌+◌, Bool, true, false, ◌≡◌, Option, none, some, List, [], ◌∷◌, ◌++◌, if◌then◌else◌,
}
use s3lite.Common.Order.{Bytes, bytes_order}
use s3lite.Common.OrdMap.{lookup, upsert, without}
use s3lite.Common.Text.{length}
use s3lite.Storage.Manifest.{Hash}

-- `for chunk in chunks { h.update(chunk) }`
abbrev pub feed : {S : Type 0} → (S → Bytes → S) → S → List Bytes → S
feed update s [] = s
feed update s (chunk ∷ chunks) = feed update (update s chunk) chunks

abbrev pub concat : List Bytes → Bytes
concat [] = []
concat (chunk ∷ chunks) = chunk ++ concat chunks

-- An incremental digest of another crate, with what its documentation says: the digest of the chunks
-- is that of the bytes.
pub record Digest : Type 1 where
  pub State : Type 0
  pub new : State
  pub update : State → Bytes → State
  pub finalize : State → Bytes
  pub digest : Bytes → Bytes
  pub finalize_feed :
      (chunks : List Bytes) → finalize (feed update new chunks) ≡ digest (concat chunks)

pub record PartWriteResult : Type 0 where
  pub hash : Hash
  pub md5 : Bytes
  pub size : ℕ

abbrev pub Files : Type 0
Files = List (Hash × Bytes)

-- `fs::metadata(&dest).await.is_ok()`
abbrev pub is_file : Option Bytes → Bool
is_file none = false
is_file (some content) = true

-- Drops the temporary file or renames it.
abbrev pub place : Files → Hash → Bytes → Files
place files hash content =
    if is_file (lookup bytes_order hash files) then files else upsert bytes_order hash content files

module _ (blake3 md5_digest : Digest) where
  -- The variables of the read loop: the temporary file, both hashers and the size.
  pub record WriteState : Type 0 where
    pub tmp_file : Bytes
    pub blake3_state : blake3.State
    pub md5_state : md5_digest.State
    pub size : ℕ

  -- One round of the read loop.
  abbrev pub absorb : WriteState → Bytes → WriteState
  absorb st chunk = record {
    tmp_file = st.tmp_file ++ chunk;
    blake3_state = blake3.update st.blake3_state chunk;
    md5_state = md5_digest.update st.md5_state chunk;
    size = st.size + length chunk;
  }

  -- The read loop, over what the reader returns: it ends at an empty read.
  unfoldable pub write_loop : WriteState → List Bytes → WriteState
  write_loop st [] = st
  write_loop st ([] ∷ chunks) = st
  write_loop st ((b ∷ chunk) ∷ chunks) = write_loop (absorb st (b ∷ chunk)) chunks

  abbrev pub initial : WriteState
  initial = record {
    tmp_file = [];
    blake3_state = blake3.new;
    md5_state = md5_digest.new;
    size = 0;
  }

  unfoldable pub write_stream : Files → List Bytes → PartWriteResult × Files
  write_stream files chunks =
      let st = write_loop initial chunks in
      let hash = blake3.finalize st.blake3_state in
      (
        record { hash = hash; md5 = md5_digest.finalize st.md5_state; size = st.size },
        place files hash st.tmp_file,
      )

-- `open_read`, with the whole content that a reader gets
unfoldable pub open_read : Files → Hash → Option Bytes
open_read files hash = lookup bytes_order hash files

unfoldable pub exists : Files → Hash → Bool
exists files hash = is_file (lookup bytes_order hash files)

unfoldable pub delete : Files → Hash → Files
delete files hash = without bytes_order hash files
