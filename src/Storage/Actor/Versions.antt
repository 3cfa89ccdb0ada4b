-- ===== src/Storage/Actor/Versions.antt =====
-- src/storage/db/actor.rs: `handle_list_object_versions`, with its page types of
-- src/storage/db/mod.rs.
use s3lite.Common.{
  ℕ, leb, not, ◌&&◌, Bool, true, false, Option, none, some, List, [], ◌∷◌, ◌++◌, Result, ok,
  if◌then◌else◌,
}
use s3lite.Common.Order.{Bytes, bytes_order}
use s3lite.Common.OrdMap.{lookup, upsert}
use s3lite.Common.Text.{length, is_prefix}
use s3lite.Storage.Manifest.{Manifest}
use s3lite.Storage.Errors.{MetaError}
use s3lite.Storage.Engine.{Engine, Db}
use s3lite.Storage.Actor.Scan.{bucket_end, is_committed}
use s3lite.Storage.Actor.Listing.{ListCursor, after_key, ListObjectsRequest, scan_start}

pub record ListObjectVersionEntry : Type 0 where
  pub manifest : Manifest
  pub is_latest : Bool

pub record ListObjectVersionsPage : Type 0 where
  pub entries : List ListObjectVersionEntry
  pub truncated : Bool
  pub next_cursor : Option ListCursor

-- `by_key.entry(..).or_default()`
abbrev pub or_default : Option (List Manifest) → List Manifest
or_default none = []
or_default (some versions) = versions

-- The scan: the committed manifests of each key, up to the first key outside the prefix.
unfoldable pub group_by_key :
    Bytes → List (Bytes × List Manifest) → List (Bytes × Manifest) → List (Bytes × List Manifest)
group_by_key prefix groups [] = groups
group_by_key prefix groups ((_, m) ∷ rows) =
    let versions = or_default (lookup bytes_order m.key.key groups) in
    let rest =
      group_by_key prefix
        (if is_committed m.state
          then upsert bytes_order m.key.key (versions ++ m ∷ []) groups
          else groups)
        rows in
    if is_committed m.state && not (is_prefix prefix m.key.key) then groups else rest

-- `sort_by(|a, b| b.last_modified.cmp(&a.last_modified))`, which is stable.
unfoldable pub insert_newest : Manifest → List Manifest → List Manifest
insert_newest m [] = m ∷ []
insert_newest m (r ∷ l) =
    let rest = r ∷ insert_newest m l in
    if leb r.last_modified m.last_modified then m ∷ r ∷ l else rest

unfoldable pub sort_newest : List Manifest → List Manifest
unfolding insert_newest
sort_newest [] = []
sort_newest (m ∷ l) = insert_newest m (sort_newest l)

-- `entries.last().map(..)`
unfoldable pub last_entry_cursor : List ListObjectVersionEntry → Option ListCursor
last_entry_cursor [] = none
last_entry_cursor (entry ∷ []) = some (after_key entry.manifest.key.key)
last_entry_cursor (a ∷ b ∷ entries) = last_entry_cursor (b ∷ entries)

-- The variables `entries`, `truncated` and `next_cursor` are the page so far.
unfoldable pub list_versions :
    ℕ → Bool → ListObjectVersionsPage → List Manifest → ListObjectVersionsPage
list_versions limit is_latest page [] = page
list_versions limit is_latest page (m ∷ versions) =
    let rest =
      list_versions limit false
        (record page {
          entries = page.entries ++ record { manifest = m; is_latest = is_latest } ∷ [];
        })
        versions in
    if leb limit (length page.entries)
    then record page { truncated = true; next_cursor = last_entry_cursor page.entries }
    else rest

unfoldable pub list_groups :
    ℕ → ListObjectVersionsPage → List (Bytes × List Manifest) → ListObjectVersionsPage
list_groups limit page [] = page
list_groups limit page ((_, versions) ∷ groups) =
    let page' = list_versions limit true page (sort_newest versions) in
    let rest = list_groups limit page' groups in if page'.truncated then page' else rest

module _ (e : Engine) where
  -- `handle_list_object_versions`
  unfoldable pub handle_list_object_versions :
      Db e → ListObjectsRequest → Result MetaError ListObjectVersionsPage
  handle_list_object_versions db req =
      let rows =
        e.objects.range db.objects (scan_start req.bucket req.prefix req.cursor)
          (bucket_end req.bucket) in
      ok (
        list_groups req.limit (record { entries = []; truncated = false; next_cursor = none })
          (group_by_key req.prefix [] rows))
