-- ===== src/S3/Collect.antt =====
-- The removal of parts that lost their last reference: `gc_freed_parts` of src/s3/object.rs,
-- src/s3/multipart.rs and src/s3/copy.rs, and `sweep_gc` of src/s3/maintenance.rs.
pub mod Kept
pub mod Swept
use s3lite.Common.{ℕ, ◌+◌, ◌%◌, ◌^◌, Bool, true, false, List, [], ◌∷◌, Result, ok, err}
use s3lite.Storage.Manifest.{Hash}
use s3lite.Storage.Errors.{MetaError}
use s3lite.Storage.Engine.{Engine, Db}
use s3lite.Storage.PartStore.{Files, delete}
use s3lite.Storage.Actor.Parts.{
  handle_mark_gc_pending, handle_remove_part, handle_list_orphan_parts,
}
use s3lite.S3.World.{World}

module _ (e : Engine) where
  abbrev after_mark : World e → Hash → Result MetaError Bool × Db e → World e
  after_mark w hash (ok true, db) = record w {
    db = (handle_remove_part e db hash).1;
    files = delete w.files hash;
  }
  after_mark w hash (ok false, db) = record w { db = db }
  after_mark w hash (err x, db) = record w { db = db }

  -- The three steps for one part: mark, unlink, drop the row. A part that may not be marked stays.
  unfoldable pub collect_part : World e → Hash → World e
  collect_part w hash = after_mark w hash (handle_mark_gc_pending e w.db hash)

  unfoldable pub gc_freed_parts : World e → List Hash → World e
  gc_freed_parts w [] = w
  gc_freed_parts w (hash ∷ freed) = gc_freed_parts (collect_part w hash) freed

  abbrev pub one_if_marked : Result MetaError Bool → ℕ
  one_if_marked (ok true) = 1
  one_if_marked (ok false) = 0
  one_if_marked (err x) = 0

  -- The loop of `sweep_gc`, with the number of parts removed.
  unfoldable pub sweep_parts : World e → ℕ → List Hash → ℕ × World e
  sweep_parts w removed [] = (removed, w)
  sweep_parts w removed (hash ∷ orphans) =
      sweep_parts (collect_part w hash)
        ((removed + one_if_marked (handle_mark_gc_pending e w.db hash).0) % 2 ^ 32) orphans

  abbrev pub sweep_listed : World e → Result MetaError (List Hash) → Result MetaError ℕ × World e
  sweep_listed w (err x) = (err x, w)
  sweep_listed w (ok orphans) = let (removed, w') = sweep_parts w 0 orphans in (ok removed, w')

  unfoldable pub sweep_gc : World e → Result MetaError ℕ × World e
  sweep_gc w = sweep_listed w (handle_list_orphan_parts e w.db)
