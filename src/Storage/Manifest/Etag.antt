-- ===== src/Storage/Manifest/Etag.antt =====
-- `Manifest::etag` of src/storage/manifest.rs, over an MD5 digest and a hexadecimal printer of other
-- crates.
use s3lite.Common.{ℕ, Option, none, some, List, [], ◌∷◌, ◌++◌}
use s3lite.Common.Order.{Bytes}
use s3lite.Common.Text.{bytes, length}
use s3lite.Storage.Manifest.{PartRef, UploadMode, single_put, multipart}
use s3lite.Storage.PartStore.{Digest}

-- `format!("\"{text}\"")`
abbrev pub quote : Bytes → Bytes
quote text = 0x22 ∷ (text ++ 0x22 ∷ [])

-- `hasher.update(part.md5)` for every part
unfoldable pub feed_parts : (d : Digest) → d.State → List PartRef → d.State
feed_parts d s [] = s
feed_parts d s (p ∷ parts) = feed_parts d (d.update s p.md5) parts

-- `none` where the index `self.parts[0]` panics; `decimal` prints a number.
unfoldable pub etag :
    Digest → (Bytes → Bytes) → (ℕ → Bytes) → UploadMode → List PartRef → Option Bytes
etag md5 hex decimal single_put [] = none
etag md5 hex decimal single_put (p ∷ parts) = some (quote (hex p.md5))
etag md5 hex decimal multipart parts = some (
    quote
      (hex (md5.finalize (feed_parts md5 md5.new parts)) ++ (bytes "-" ++ decimal (length parts))))
