-- ===== src/S3/Tests/Samples.antt =====
-- Functions of other crates, and a server, that the tests of the object operations share. The digest
-- of a text is the text.
use s3lite.Common.{◌≡◌, refl, sym, ap, ◌∙◌, true, none, some, List, [], ◌∷◌, ◌++◌, ok}
use s3lite.Common.Order.{Bytes}
use s3lite.Common.OrdMap.{lookup}
use s3lite.Common.Text.{bytes}
use s3lite.Storage.Manifest.{BucketConfig, new_bucket_config}
use s3lite.Storage.Engine.Sorted.{engine, empty}
use s3lite.Storage.PartStore.{feed, concat, Digest}
use s3lite.Storage.PartStore.Content.{NonEmpty}
use s3lite.Storage.Actor.Buckets.{handle_create_bucket}
use s3lite.Storage.Actor.Invariant.{IsConsistent}
use s3lite.Storage.Actor.Ops.Invariant.{initial-IsConsistent}
use s3lite.Storage.Actor.Ops.Keyed.{IsKeyed}
use s3lite.S3.Lock.{Formats}
use s3lite.S3.World.{External, World}
use s3lite.S3.Object.{Moment}
use s3lite.S3.Object.Intact.{IsIntact}

abbrev join : Bytes → Bytes → Bytes
join s t = s ++ t

append_assoc : (a b c : Bytes) → (a ++ b) ++ c ≡ a ++ (b ++ c)
append_assoc [] b c = refl
append_assoc (x ∷ a) b c = ap (λ t. x ∷ t) (append_assoc a b c)

append_nil : (a : Bytes) → a ++ [] ≡ a
append_nil [] = refl
append_nil (x ∷ a) = ap (λ t. x ∷ t) (append_nil a)

pub feed-join : (s : Bytes) (chunks : List Bytes) → feed join s chunks ≡ s ++ concat chunks
feed-join s [] = sym (append_nil s)
feed-join s (c ∷ chunks) = feed-join (s ++ c) chunks ∙ append_assoc s c (concat chunks)

abbrev plain_digest : Digest
plain_digest = record {
  State = Bytes;
  new = [];
  update = join;
  finalize = λ s. s;
  digest = λ s. s;
  finalize_feed = feed-join [];
}

abbrev pub one_by_one : Bytes → List Bytes
one_by_one [] = []
one_by_one (b ∷ s) = (b ∷ []) ∷ one_by_one s

pub one_by_one-all : (s : Bytes) → concat (one_by_one s) ≡ s
one_by_one-all [] = refl
one_by_one-all (b ∷ s) = ap (λ t. b ∷ t) (one_by_one-all s)

pub one_by_one-NonEmpty : (s : Bytes) → NonEmpty (one_by_one s)
one_by_one-NonEmpty [] = tt
one_by_one-NonEmpty (b ∷ s) = one_by_one-NonEmpty s

abbrev pub sample_formats : Formats
sample_formats = record {
  read_retention = λ body. ok (record { mode = bytes "COMPLIANCE"; retain_until_date = body });
  read_legal_hold = λ body. ok (record { status = body });
  read_lock_configuration = λ body. ok (record { object_lock_enabled = some body; rule = none });
  parse_date = λ s. some 300;
  format_date = λ t. some (t ∷ []);
  show_meta_error = λ y. bytes "failed";
}

abbrev pub crates : External
crates = record {
  formats = sample_formats;
  blake3 = plain_digest;
  md5 = plain_digest;
  hex = λ s. s;
  base64_decode = λ s. some s;
  base64_encode = λ s. s;
  crc32 = λ s. s;
  crc32c = λ s. s;
  sha1 = λ s. s;
  sha256 = λ s. s;
  to_str = λ v. some v;
  show_not_found = bytes "not found";
  is_header_name = λ s. true;
  is_header_value = λ s. true;
  write_error_xml = λ y. (bytes "error", true);
  from_utf8_lossy = λ s. s;
  format_imf = λ t. some (t ∷ []);
  parse_imf = λ s. none;
  reads = one_by_one;
  reads_all = one_by_one-all;
  reads_NonEmpty = one_by_one-NonEmpty;
}

abbrev pub pics : Bytes
pics = bytes "pics"

abbrev pub pics_bucket : BucketConfig
pics_bucket = new_bucket_config 90 (bytes "us-east-1")

-- A server with one bucket.
abbrev pub start : World engine
start = record {
  db = (handle_create_bucket engine empty pics pics_bucket).1;
  files = [];
  emitted = [];
}

abbrev pub moment : Moment
moment = record { uuid = bytes "5f"; lock_now = 100; now = 101; actor_now = 102 }

pub start-IsConsistent : IsConsistent engine start.db
unfolding handle_create_bucket lookup
start-IsConsistent = initial-IsConsistent engine start.db refl refl

pub start-IsIntact : IsIntact crates engine start
unfolding handle_create_bucket lookup
start-IsIntact = record { consistent = start-IsConsistent; rows = λ k. tt }

pub start-IsKeyed : IsKeyed engine start.db.objects
unfolding handle_create_bucket lookup
start-IsKeyed k = tt
