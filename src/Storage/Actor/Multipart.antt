-- ===== src/Storage/Actor/Multipart.antt =====
-- src/storage/db/actor.rs: `handle_complete_multipart`, which turns an upload in progress into a
-- committed object in one transaction.
pub mod Collected
use s3lite.Common.{
  ◌==◌, Bool, true, false, ◌||◌, Option, none, some, List, [], ◌∷◌, ◌++◌, Result, ok, err, ◌>>=◌,
  if◌then◌else◌,
}
use s3lite.Common.Order.{bytes_order, same}
use s3lite.Storage.Manifest.{
  Hash, PartRef, Time, ManifestKey, ManifestState, in_progress, committed, aborted, PartEntry,
  Manifest, DeletionEffect, encode,
}
use s3lite.Storage.Errors.{MetaError, upload_not_in_progress}
use s3lite.Storage.Engine.{Engine, Db}
use s3lite.Storage.Actor.Tx.{commit}
use s3lite.Storage.Actor.Parts.{inc_all, dec_all}
use s3lite.Storage.Actor.Manifests.{parts_of, load}

-- `HashSet::contains`, on the elements of the set.
unfoldable pub contains : Hash → List Hash → Bool
contains q [] = false
contains q (h ∷ l) = same bytes_order q h || contains q l

-- `.map(|p| p.hash)`
unfoldable pub hashes : List PartRef → List Hash
hashes [] = []
hashes (p ∷ l) = p.hash ∷ hashes l

-- `matches!(m.state, ManifestState::InProgress)`
abbrev pub is_in_progress : ManifestState → Bool
is_in_progress in_progress = true
is_in_progress committed = false
is_in_progress aborted = false

-- `entry.refcount == 0` of the row, if there is one.
abbrev pub is_unreferenced : Option PartEntry → Bool
is_unreferenced none = false
is_unreferenced (some entry) = entry.refcount == 0

module _ (e : Engine) where
  -- One call of the closure `collect`; `seen` is its set `considered` and its list `freed`.
  unfoldable pub collect :
      e.PartTable → List Hash → List Hash × List Hash → Hash → List Hash × List Hash
  unfolding contains
  collect parts new_hashes (considered, freed) candidate =
      if contains candidate considered
      then (considered, freed)
      else if contains candidate new_hashes
      then (candidate ∷ considered, freed)
      else if is_unreferenced (e.parts.get parts candidate)
      then (candidate ∷ considered, freed ++ candidate ∷ [])
      else (candidate ∷ considered, freed)

  -- `for p in refs { collect(&parts, &p.hash)?; }`
  unfoldable pub collect_all :
      e.PartTable → List Hash → List Hash × List Hash → List PartRef → List Hash × List Hash
  collect_all parts new_hashes seen [] = seen
  collect_all parts new_hashes seen (p ∷ l) =
      collect_all parts new_hashes (collect parts new_hashes seen p.hash) l

  -- The reference counts and the rows after the checks have passed.
  unfoldable pub swap_manifests :
      Db e → ManifestKey → Manifest → Time → Manifest → Result MetaError (DeletionEffect × Db e)
  unfolding collect collect_all hashes
  swap_manifests db in_progress_key new_committed now upload = do
    let old = parts_of (e.objects.get db.objects (encode new_committed.key))
    let (_, parts1) = dec_all e [] db.parts upload.parts
    let (_, parts2) = dec_all e [] parts1 old
    parts3 ← inc_all e parts2 new_committed.parts now
    let new_hashes = hashes new_committed.parts
    let seen = collect_all parts3 new_hashes ([], []) upload.parts
    let (_, freed) = collect_all parts3 new_hashes seen old
    ok (
      record { freed_parts = freed },
      record db {
        objects =
            e.objects.remove (e.objects.insert db.objects (encode new_committed.key) new_committed)
              (encode in_progress_key);
        parts = parts3;
      },
    )

  -- `handle_complete_multipart`
  unfoldable pub handle_complete_multipart :
      Db e → ManifestKey → Manifest → Time → Result MetaError DeletionEffect × Db e
  unfolding swap_manifests
  handle_complete_multipart db in_progress_key new_committed now = commit db (do
    upload ← load e db in_progress_key
    if is_in_progress upload.state
        then swap_manifests db in_progress_key new_committed now upload
        else err (upload_not_in_progress in_progress_key))
