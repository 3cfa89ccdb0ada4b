-- ===== src/Storage/Actor/Listing.antt =====
-- src/storage/db/actor.rs: `handle_list_objects`, with its request and page types of
-- src/storage/db/mod.rs.
pub mod Items
pub mod Page
pub mod Newest
pub mod Loop
pub mod Complete
use s3lite.Common.{
  ℕ, ◌+◌, leb, not, ◌&&◌, Bool, true, false, Option, none, some, List, [], ◌∷◌, ◌++◌, Result, ok,
  if◌then◌else◌,
}
use s3lite.Common.Order.{Bytes, bytes_order}
use s3lite.Common.OrdMap.{lookup, upsert}
use s3lite.Common.Text.{length, take, drop, is_prefix, find}
use s3lite.Storage.Manifest.{ManifestKind, object, tombstone, Manifest}
use s3lite.Storage.Errors.{MetaError}
use s3lite.Storage.Engine.{Engine, Db}
use s3lite.Storage.Actor.Scan.{
  bucket_end, initial_scan_start, after_key as after_key_bytes, after_prefix as after_prefix_bytes,
  is_committed, is_newer,
}

pub data ListCursor : Type 0 where
  after_key after_prefix : Bytes → ListCursor

pub record ListObjectsRequest : Type 0 where
  pub bucket : Bytes
  pub prefix : Bytes
  pub delimiter : Option Bytes
  pub cursor : Option ListCursor
  pub limit : ℕ

pub data ListItem : Type 0 where
  object_item : Manifest → ListItem
  common_prefix : Bytes → ListItem

pub record ListObjectsPage : Type 0 where
  pub items : List ListItem
  pub truncated : Bool
  pub next_cursor : Option ListCursor

-- `scan_start`
unfoldable pub scan_start : Bytes → Bytes → Option ListCursor → Bytes
scan_start bucket prefix none = initial_scan_start bucket prefix
scan_start bucket prefix (some (after_key k)) = after_key_bytes bucket k
scan_start bucket prefix (some (after_prefix p)) = after_prefix_bytes bucket p

-- The scan: the newest committed manifest of each key, up to the first key outside the prefix.
unfoldable pub latest_by_key :
    Bytes → List (Bytes × Manifest) → List (Bytes × Manifest) → List (Bytes × Manifest)
latest_by_key prefix latest [] = latest
latest_by_key prefix latest ((_, m) ∷ rows) =
    let next =
      latest_by_key prefix
        (if is_committed m.state && is_newer (lookup bytes_order m.key.key latest) m
          then upsert bytes_order m.key.key m latest
          else latest)
        rows in
    if is_committed m.state && not (is_prefix prefix m.key.key) then latest else next

-- `matches!(manifest.kind, ManifestKind::Object)`
abbrev pub is_object : ManifestKind → Bool
is_object object = true
is_object tombstone = false

-- The variables of the second loop.
pub record ListState : Type 0 where
  pub items : List ListItem
  pub skip_prefix : Option Bytes

-- What a round of the loop does: `continue` or go on with new variables, or `break` with a page.
pub data Round : Type 0 where
  next : ListState → Round
  stop : ListObjectsPage → Round

-- `items.last().map(..)`
unfoldable pub last_cursor : List ListItem → Option ListCursor
last_cursor [] = none
last_cursor (object_item m ∷ []) = some (after_key m.key.key)
last_cursor (common_prefix p ∷ []) = some (after_prefix p)
last_cursor (i ∷ j ∷ items) = last_cursor (j ∷ items)

abbrev pub is_skipped : Option Bytes → Bytes → Bool
is_skipped none key = false
is_skipped (some skip) key = is_prefix skip key

-- `after_prefix.find(delim)` of the key behind the request's prefix.
abbrev pub find_delimiter : ListObjectsRequest → Bytes → Option Bytes → Option Bytes
find_delimiter req key none = none
find_delimiter req key (some delim) = elim (find delim (drop (length req.prefix) key)) [
  | none ↦ none
  | some pos ↦ some (take (length req.prefix + pos + length delim) key)
]

-- The end of a round: a common prefix or the object itself.
abbrev pub push_item : ListState → Manifest → Option Bytes → Round
push_item st m none = next (record { items = st.items ++ object_item m ∷ []; skip_prefix = none })
push_item st m (some p) =
    next (record { items = st.items ++ common_prefix p ∷ []; skip_prefix = some p })

unfoldable pub list_round : ListObjectsRequest → ListState → Bytes → Manifest → Round
list_round req st key m =
    if not (is_object m.kind)
    then next st
    else if is_skipped st.skip_prefix key
    then next st
    else if leb req.limit (length st.items)
    then stop (record { items = st.items; truncated = true; next_cursor = last_cursor st.items })
    else push_item st m (find_delimiter req key req.delimiter)

unfoldable pub list_loop :
    ListObjectsRequest → ListState → List (Bytes × Manifest) → ListObjectsPage
list_loop req st [] = record { items = st.items; truncated = false; next_cursor = none }
list_loop req st ((key, m) ∷ rows) = elim (list_round req st key m) [
  | next st' ↦ list_loop req st' rows
  | stop page ↦ page
]

module _ (e : Engine) where
  -- `handle_list_objects`
  unfoldable pub handle_list_objects : Db e → ListObjectsRequest → Result MetaError ListObjectsPage
  handle_list_objects db req =
      let rows =
        e.objects.range db.objects (scan_start req.bucket req.prefix req.cursor)
          (bucket_end req.bucket) in
      ok (
        list_loop req (record { items = []; skip_prefix = none })
          (latest_by_key req.prefix [] rows))
