-- ===== src/Storage/Engine/Laws.antt =====
-- What follows from the laws of a table for a reader.
use s3lite.Common.{◌≡◌, none, some, if◌then◌else◌}
use s3lite.Common.Order.{Order, same}
use s3lite.Common.OrdMap.Laws.{lookup-upsert, lookup-without}
use s3lite.Storage.Engine.{Table}

module _ {T K V : Type 0} {o : Order K} (t : Table T V o) where
  pub get-insert :
      (db : T) (k q : K) (v : V)
      → t.get (t.insert db k v) q ≡ (if same o q k then some v else t.get db q)
  get-insert db k q v = rw (t.get_view, t.iter_insert, lookup-upsert, ← t.get_view db q)

  pub get-remove :
      (db : T) (k q : K) → t.get (t.remove db k) q ≡ (if same o q k then none else t.get db q)
  get-remove db k q = rw (t.get_view, t.iter_remove, lookup-without, ← t.get_view db q)
