-- ===== src/Storage/Actor/Manifests.antt =====
-- src/storage/db/actor.rs: the handlers that write one manifest row. `now` is the value of
-- `OffsetDateTime::now_utc()`.
use s3lite.Common.{
  ℕ, ◌+◌, ◌^◌, ◌%◌, ◌==◌, leb, Option, none, some, List, [], ◌∷◌, ◌++◌, Result, ok, ◌>>=◌, ok_or,
  if◌then◌else◌,
}
use s3lite.Common.Order.{bytes_order, same}
use s3lite.Storage.Manifest.{
  Hash, PartRef, Time, ManifestKey, ManifestState, Manifest, ObjectLock, StringMap, DeletionEffect,
  encode,
}
use s3lite.Storage.Errors.{MetaError, manifest_not_found}
use s3lite.Storage.Engine.{Engine, Db}
use s3lite.Storage.Actor.Tx.{commit}
use s3lite.Storage.Actor.Parts.{dec_part_refcount, inc_part_refcount, inc_all, dec_all, push_freed}

-- The parts of the row that a write replaces: none where there is no row.
abbrev pub parts_of : Option Manifest → List PartRef
parts_of none = []
parts_of (some m) = m.parts

-- `m.parts.iter().position(|p| p.part_number == n)`, with the part that stands there.
unfoldable pub find_part : ℕ → List PartRef → Option PartRef
find_part n [] = none
find_part n (p ∷ l) = if p.part_number == n then some p else find_part n l

-- `m.parts.remove(old_idx)` at the first part with the number.
unfoldable pub remove_part : ℕ → List PartRef → List PartRef
remove_part n [] = []
remove_part n (p ∷ l) = let rest = p ∷ remove_part n l in if p.part_number == n then l else rest

-- `sort_by_key(|p| p.part_number)`, which is stable.
unfoldable pub insert_by_number : PartRef → List PartRef → List PartRef
insert_by_number p [] = p ∷ []
insert_by_number p (r ∷ l) =
    let rest = r ∷ insert_by_number p l in
    if leb p.part_number r.part_number then p ∷ r ∷ l else rest

unfoldable pub sort_by_number : List PartRef → List PartRef
unfolding insert_by_number
sort_by_number [] = []
sort_by_number (p ∷ l) = insert_by_number p (sort_by_number l)

-- `m.parts.iter().map(|p| p.size).sum()` in `u64`
unfoldable pub sum_sizes : List PartRef → ℕ
sum_sizes [] = 0
sum_sizes (p ∷ l) = (p.size + sum_sizes l) % 2 ^ 64

module _ (e : Engine) where
  -- The row, or the error that the handlers raise.
  abbrev pub load : Db e → ManifestKey → Result MetaError Manifest
  load db k = ok_or (e.objects.get db.objects (encode k)) (manifest_not_found k)

  -- `handle_put_manifest`
  unfoldable pub handle_put_manifest :
      Db e → Manifest → Time → Result MetaError DeletionEffect × Db e
  handle_put_manifest db manifest now = commit db (do
    let key_bytes = encode manifest.key
    let old = e.objects.get db.objects key_bytes
    parts ← inc_all e db.parts manifest.parts now
    let (freed, parts') = dec_all e [] parts (parts_of old)
    ok (
      record { freed_parts = freed },
      record db { objects = e.objects.insert db.objects key_bytes manifest; parts = parts' },
    ))

  -- `handle_get_manifest`
  unfoldable pub handle_get_manifest : Db e → ManifestKey → Result MetaError (Option Manifest)
  handle_get_manifest db key = ok (e.objects.get db.objects (encode key))

  -- `handle_delete_manifest`
  unfoldable pub handle_delete_manifest :
      Db e → ManifestKey → Result MetaError DeletionEffect × Db e
  handle_delete_manifest db key = commit db (do
    m ← load db key
    let (freed, parts') = dec_all e [] db.parts m.parts
    ok (
      record { freed_parts = freed },
      record db { objects = e.objects.remove db.objects (encode key); parts = parts' },
    ))

  -- Writes a row back under its key.
  abbrev pub store : Db e → ManifestKey → Manifest → Unit {0} × Db e
  store db key m = (tt, record db { objects = e.objects.insert db.objects (encode key) m })

  -- `handle_update_state`
  unfoldable pub handle_update_state :
      Db e → ManifestKey → ManifestState → Time → Result MetaError (Unit {0}) × Db e
  handle_update_state db key new_state now =
      commit db (do
        m ← load db key
        ok (store db key (record m { state = new_state; last_modified = now })))

  -- `handle_update_manifest_tags`
  unfoldable pub handle_update_manifest_tags :
      Db e → ManifestKey → StringMap → Result MetaError (Unit {0}) × Db e
  handle_update_manifest_tags db key tags =
      commit db (do m ← load db key; ok (store db key (record m { tags = tags })))

  -- `handle_update_manifest_lock`
  unfoldable pub handle_update_manifest_lock :
      Db e → ManifestKey → Option ObjectLock → Result MetaError (Unit {0}) × Db e
  handle_update_manifest_lock db key lock =
      commit db (do m ← load db key; ok (store db key (record m { object_lock = lock })))

  -- The first step of `handle_append_part`: the part that has the number goes. A part with the
  -- same content is not reported as free, since its count rises again at once.
  unfoldable pub release_old : e.PartTable → Option PartRef → PartRef → List Hash × e.PartTable
  release_old parts none part = ([], parts)
  release_old parts (some old) part =
      let (hash, parts') = dec_part_refcount e parts old.hash in
      ((if same bytes_order old.hash part.hash then [] else push_freed [] hash), parts')

  -- `handle_append_part`; `later` is the second reading of the clock.
  unfoldable pub handle_append_part :
      Db e → ManifestKey → PartRef → Time → Time → Result MetaError DeletionEffect × Db e
  handle_append_part db key part now later = commit db (do
    m ← load db key
    let (freed, parts) = release_old db.parts (find_part part.part_number m.parts) part
    parts' ← inc_part_refcount e parts part.hash part.size now
    let sorted = sort_by_number (remove_part part.part_number m.parts ++ part ∷ [])
    let m' = record m { parts = sorted; size = sum_sizes sorted; last_modified = later }
    ok (
      record { freed_parts = freed },
      record db { objects = e.objects.insert db.objects (encode key) m'; parts = parts' },
    ))
