-- ===== src/Storage/Actor/Samples.antt =====
-- The rows that the tests share.
use s3lite.Common.{ℕ, none, [], ◌∷◌, arith}
use s3lite.Common.OrdMap.{lookup}
use s3lite.Common.Text.{bytes}
use s3lite.Storage.Manifest.{Hash, PartRef, ManifestKey, committed, object, multipart, Manifest}
use s3lite.Storage.Engine.Sorted.{engine, empty}
use s3lite.Storage.Actor.Ops.Keyed.{IsKeyed, IsNamed}

abbrev pub seven : Hash
seven = 7 ∷ []

abbrev pub photo : ManifestKey
photo = record { bucket = bytes "pics"; key = bytes "a.jpg"; version_id = bytes "null" }

abbrev pub chunk : ℕ → Hash → PartRef
chunk n h = record { part_number = n; hash = h; md5 = []; size = 5 }

-- An object whose two parts have the same content.
abbrev pub photo_row : Manifest
photo_row = record {
  key = photo;
  state = committed;
  kind = object;
  upload_mode = multipart;
  parts = chunk 1 seven ∷ chunk 2 seven ∷ [];
  size = 10;
  content_type = none;
  user_metadata = [];
  tags = [];
  additional_checksum = none;
  storage_class = bytes "STANDARD";
  object_lock = none;
  created_at = 100;
  last_modified = 100;
  upload_id = none;
}

pub empty-IsKeyed : IsKeyed engine empty.objects
unfolding lookup
empty-IsKeyed k = tt

pub photo-IsNamed : IsNamed photo
photo-IsNamed = (omega arith, omega arith)
