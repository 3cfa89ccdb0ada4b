-- ===== src/Storage/Actor/Listing/Page.antt =====
-- `handle_list_objects` of src/storage/db/actor.rs: the pages that it returns.
use s3lite.Common.{◌≤◌, true, ◌≡◌, none, some, List, [], ◌++◌, ◌∷◌, ok, arith, Option}
use s3lite.Common.Order.{Bytes, bytes_order, cmp_bytes_eq}
use s3lite.Common.OrdMap.{is_between}
use s3lite.Common.OrdMap.Members.{In}
use s3lite.Common.Text.{length, is_prefix}
use s3lite.Storage.Manifest.{ManifestKey, Manifest, encode}
use s3lite.Storage.Manifest.Key.{NulFree, cmp_nul, cmp_one}
use s3lite.Storage.Engine.{Engine, Db}
use s3lite.Storage.Actor.Ops.Keyed.{IsKeyed}
use s3lite.Storage.Actor.Scan.{
  bucket_end, initial_scan_start, after_key as after_key_bytes, after_prefix as after_prefix_bytes,
  is_committed,
}
use s3lite.Storage.Actor.Scan.Stored.{In-stored}
use s3lite.Storage.Actor.Listing.{
  ListCursor, after_key, after_prefix, ListObjectsRequest, object_item, ListObjectsPage, scan_start,
  latest_by_key, is_object, ListState, list_loop, handle_list_objects,
}
use s3lite.Storage.Actor.Listing.Items.{latest_by_key-from, list_loop-length, list_loop-from}

-- A range that starts behind `bucket\0` holds keys of the bucket alone.
in_bucket :
    (b r : Bytes) (k : ManifestKey)
    → NulFree b
    → NulFree k.bucket
    → is_between bytes_order (b ++ (0 ∷ r)) (bucket_end b) (encode k) ≡ true
    → k.bucket ≡ b
unfolding bucket_end encode
in_bucket b r k hb hk h = cmp_bytes_eq k.bucket b (
    ground (
      arith,
      cmp_nul k.bucket b (k.key ++ (0 ∷ k.version_id)) r,
      cmp_one k.bucket b (k.key ++ (0 ∷ k.version_id)),
    ))

scan-in_bucket :
    (b prefix : Bytes) (cursor : Option ListCursor) (k : ManifestKey)
    → NulFree b
    → NulFree k.bucket
    → is_between bytes_order (scan_start b prefix cursor) (bucket_end b) (encode k) ≡ true
    → k.bucket ≡ b
unfolding scan_start initial_scan_start after_key_bytes after_prefix_bytes
scan-in_bucket b prefix none k hb hk h = in_bucket b _ k hb hk h
scan-in_bucket b prefix (some (after_key q)) k hb hk h = in_bucket b _ k hb hk h
scan-in_bucket b prefix (some (after_prefix q)) k hb hk h = in_bucket b _ k hb hk h

abbrev pub start : ListState
start = record { items = []; skip_prefix = none }

-- What a listing shows of a row: a stored, committed object of the bucket whose key has the prefix.
pub record IsListed (e : Engine) (db : Db e) (req : ListObjectsRequest) (m : Manifest)
    : Type 0 where
  pub is_stored : e.objects.get db.objects (encode m.key) ≡ some m
  pub in_bucket : m.key.bucket ≡ req.bucket
  pub has_prefix : is_prefix req.prefix m.key.key ≡ true
  pub committed_now : is_committed m.state ≡ true
  pub no_tombstone : is_object m.kind ≡ true

module _ (e : Engine) (db : Db e) (req : ListObjectsRequest) (page : ListObjectsPage) where
  abbrev scanned : List (Bytes × Manifest)
  scanned =
      e.objects.range db.objects (scan_start req.bucket req.prefix req.cursor)
        (bucket_end req.bucket)

  scanned-IsListed :
      IsKeyed e db.objects
      → NulFree req.bucket
      → (j : Bytes) (r : Manifest) → In (j, r) scanned
      → is_committed r.state ≡ true
      → is_prefix req.prefix r.key.key ≡ true
      → is_object r.kind ≡ true
      → IsListed e db req r
  scanned-IsListed keyed hb j r found c p o =
      let (_, row, inside, hr, _) =
        In-stored e db keyed (scan_start req.bucket req.prefix req.cursor) (bucket_end req.bucket) j
          r found in
      record {
        is_stored = row;
        in_bucket = scan-in_bucket req.bucket req.prefix req.cursor r.key hb hr inside;
        has_prefix = p;
        committed_now = c;
        no_tombstone = o;
      }

  -- A page of `list_objects` has no more items than the request's limit.
  pub page-length : handle_list_objects e db req ≡ ok page → length page.items ≤ req.limit
  unfolding handle_list_objects
  page-length h =
      let loop : list_loop req start (latest_by_key req.prefix [] scanned) ≡ page = ground arith in
      rw (← loop) (list_loop-length req start (latest_by_key req.prefix [] scanned) (omega arith))

  -- Every object on a page of `list_objects` is stored and committed, in the request's bucket, under
  -- a key with the request's prefix, and no tombstone: if the rows stand under their own keys and
  -- the bucket name holds no NUL byte.
  pub page_objects :
      IsKeyed e db.objects
      → NulFree req.bucket
      → handle_list_objects e db req ≡ ok page
      → (m : Manifest) → In (object_item m) page.items
      → IsListed e db req m
  unfolding handle_list_objects
  page_objects keyed hb h m i =
      let loop : list_loop req start (latest_by_key req.prefix [] scanned) ≡ page = ground arith in
      list_loop-from req (IsListed e db req) start (latest_by_key req.prefix [] scanned)
        (latest_by_key-from (λ k r. is_object r.kind ≡ true → IsListed e db req r) req.prefix []
          scanned (scanned-IsListed keyed hb) (λ k r none_yet. absurd none_yet))
        (λ x none_yet. absurd none_yet) m (rw (← loop) at i)
