-- ===== src/Storage/Actor/Listing/Complete.antt =====
-- `handle_list_objects` of src/storage/db/actor.rs: the listing with no delimiter that fits one page.
use s3lite.Common.{
  ◌≤◌, true, false, ◌≡◌, refl, sym, ◌∙◌, Option, none, some, List, [], ◌∷◌, ok, arith,
}
use s3lite.Common.Order.{Bytes, bytes_order, less, cmp_bytes, cmp_bytes_eq, cmp_bytes_refl}
use s3lite.Common.OrdMap.{lookup}
use s3lite.Common.OrdMap.Members.{In, In-lookup, IsSorted-between}
use s3lite.Common.Text.{is_prefix}
use s3lite.Storage.Manifest.{Manifest, encode}
use s3lite.Storage.Manifest.Key.{NulFree}
use s3lite.Storage.Engine.{Engine, Db}
use s3lite.Storage.Actor.Ops.Keyed.{IsKeyed}
use s3lite.Storage.Actor.Scan.{bucket_end, initial_scan_start, is_committed}
use s3lite.Storage.Actor.Scan.Latest.{Covers}
use s3lite.Storage.Actor.Scan.Ranges.{initial_range}
use s3lite.Storage.Actor.Scan.Stored.{In-stored, stored-In}
use s3lite.Storage.Actor.Listing.{
  ListCursor, ListObjectsRequest, object_item, ListObjectsPage, scan_start, latest_by_key,
  is_object, list_loop, handle_list_objects,
}
use s3lite.Storage.Actor.Listing.Items.{latest_by_key-from}
use s3lite.Storage.Actor.Listing.Newest.{Inside, StopsRight, sorted-StopsRight, latest-Covers}
use s3lite.Storage.Actor.Listing.Page.{start}
use s3lite.Storage.Actor.Listing.Loop.{list_loop-all}

prefix_below : (p x : Bytes) → is_prefix p x ≡ true → less bytes_order x p ≡ false
unfolding cmp_bytes is_prefix
prefix_below [] [] h = refl
prefix_below [] (b ∷ x) h = refl
prefix_below (a ∷ p) [] h = cc
prefix_below (a ∷ p) (b ∷ x) h = ground (arith, prefix_below p x)

scan-first :
    (bucket prefix : Bytes) (cursor : Option ListCursor)
    → cursor ≡ none
    → scan_start bucket prefix cursor ≡ initial_scan_start bucket prefix
unfolding scan_start
scan-first bucket prefix cursor c = rw c refl

covered_by :
    (m : Manifest) (o : Option Manifest)
    → Covers m o
    → (l : Manifest) × (o ≡ some l) × (m.last_modified ≤ l.last_modified)
covered_by m none h = absurd h
covered_by m (some l) h = (l, refl, h)

module _ (e : Engine) (db : Db e) (keyed : IsKeyed e db.objects) (req : ListObjectsRequest) where
  -- The second row is a stored, committed row of the first one's bucket and key, and at least as new.
  abbrev pub IsNewest : Manifest → Manifest → Type 0
  IsNewest m l =
      (e.objects.get db.objects (encode l.key) ≡ some l)
      × (l.key.bucket ≡ m.key.bucket)
      × (l.key.key ≡ m.key.key)
      × (is_committed l.state ≡ true)
      × (m.last_modified ≤ l.last_modified)

  abbrev from_prefix : List (Bytes × Manifest)
  from_prefix =
      e.objects.range db.objects (initial_scan_start req.bucket req.prefix) (bucket_end req.bucket)

  module _ (hb : NulFree req.bucket) (hp : NulFree req.prefix) where
    scanned-Inside :
        (k : Bytes) (m : Manifest)
        → In (k, m) from_prefix
        → Inside req.bucket req.prefix k m × (e.objects.get db.objects (encode m.key) ≡ some m)
    scanned-Inside k m i =
        let (own, row, inside, mb, mk) =
          In-stored e db keyed (initial_scan_start req.bucket req.prefix) (bucket_end req.bucket) k
            m i in
        let named = rw (initial_range req.bucket m.key hb mb req.prefix hp) at inside in
        ((own, cmp_bytes_eq m.key.bucket req.bucket (ground arith), mb, mk, ground arith), row)

    from_prefix-StopsRight : StopsRight req.prefix from_prefix
    from_prefix-StopsRight =
        sorted-StopsRight req.bucket req.prefix from_prefix
          (rw e.objects.range_view
            (IsSorted-between bytes_order _ _ _ (e.objects.iter_IsSorted db.objects)))
          (λ k m i. (scanned-Inside k m i).0)

    -- What the map holds for a key, for a committed row of the bucket with the prefix.
    in_map :
        (m : Manifest)
        → e.objects.get db.objects (encode m.key) ≡ some m
        → m.key.bucket ≡ req.bucket
        → is_committed m.state ≡ true
        → is_prefix req.prefix m.key.key ≡ true
        → Covers m (lookup bytes_order m.key.key (latest_by_key req.prefix [] from_prefix))
    in_map m row b c p =
        let own = rw row at (keyed (encode m.key)) in
        latest-Covers req.prefix (encode m.key) m [] from_prefix from_prefix-StopsRight
          (stored-In e db keyed (initial_scan_start req.bucket req.prefix) (bucket_end req.bucket) m
            row
            (rw (initial_range req.bucket m.key hb own.1 req.prefix hp)
              (ground (arith, b, cmp_bytes_refl req.bucket, prefix_below req.prefix m.key.key p))))
          c p

    whole_loop :
        (page : ListObjectsPage)
        → handle_list_objects e db req ≡ ok page
        → list_loop req start (
            latest_by_key req.prefix [] (
              e.objects.range db.objects
                (scan_start req.bucket req.prefix req.cursor)
                (bucket_end req.bucket)))
          ≡ page
    unfolding handle_list_objects
    whole_loop page h = ground arith

    -- An entry of the map.
    abbrev Entry : Bytes → Manifest → Type 0
    Entry k r =
        (k ≡ r.key.key)
        × (e.objects.get db.objects (encode r.key) ≡ some r)
        × (r.key.bucket ≡ req.bucket)
        × (is_committed r.state ≡ true)

    map_rows :
        (k : Bytes) (r : Manifest) → In (k, r) (latest_by_key req.prefix [] from_prefix) → Entry k r
    map_rows =
        latest_by_key-from Entry req.prefix [] from_prefix
          (λ j r i cm p. let (inside, row) = scanned-Inside j r i in (refl, row, inside.1, cm))
          (λ k r none_yet. absurd none_yet)

    own_row :
        (m : Manifest)
        → m.key.bucket ≡ req.bucket
        → (l : Manifest) → Entry m.key.key l
        → m.last_modified ≤ l.last_modified
        → IsNewest m l
    own_row m b l (key, row, bucket, cm) newer = (row, bucket ∙ sym b, sym key, cm, newer)

    -- The first listing with a prefix and no delimiter, if it is not truncated, leaves no key out:
    -- for every committed row of the bucket whose key has the prefix, a stored and committed row of the
    -- same key that is at least as new is on the page, or is a tombstone.
    pub page_complete :
        (page : ListObjectsPage)
        → req.cursor ≡ none
        → req.delimiter ≡ none
        → handle_list_objects e db req ≡ ok page
        → page.truncated ≡ false
        → (m : Manifest) → e.objects.get db.objects (encode m.key) ≡ some m
        → m.key.bucket ≡ req.bucket
        → is_committed m.state ≡ true
        → is_prefix req.prefix m.key.key ≡ true
        → (l : Manifest) × IsNewest m l × (is_object l.kind ≡ true → In (object_item l) page.items)
    unfolding handle_list_objects
    page_complete page c d h t m row b cm p =
        let entries = latest_by_key req.prefix [] from_prefix in
        let loop : list_loop req start entries ≡ page =
          rw (scan-first req.bucket req.prefix req.cursor c) at (whole_loop page h) in
        let (l, found, newer) =
          covered_by m (lookup bytes_order m.key.key entries) (in_map m row b cm p) in
        let there = In-lookup bytes_order m.key.key l entries found in
        (
          l,
          own_row m b l (map_rows m.key.key l there) newer,
          λ o.
              rw (← loop)
                (list_loop-all req d start entries refl (rw (← loop) at t) m.key.key l there o),
        )
