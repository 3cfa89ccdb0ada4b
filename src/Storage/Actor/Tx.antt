-- ===== src/Storage/Actor/Tx.antt =====
-- A write transaction of the actor's handlers in src/storage/db/actor.rs: the body works on a copy
-- of the database. `tx.commit()` makes the copy the database; a `?` before it drops the
-- transaction, and redb then discards every write of it.
use s3lite.Common.{Result, ok, err}
use s3lite.Storage.Errors.{MetaError}

module _ {D A : Type 0} where
  abbrev pub commit : D → Result MetaError (A × D) → Result MetaError A × D
  commit db (ok (a, db')) = (ok a, db')
  commit db (err e) = (err e, db)
