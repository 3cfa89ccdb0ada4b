-- ===== src/Storage/Engine/Sorted.antt =====
-- A database whose tables are sorted lists: the laws of `Table` hold of it.
use s3lite.Common.{refl, List, []}
use s3lite.Common.Order.{Order, Bytes, bytes_order, nat_order}
use s3lite.Common.OrdMap.{lookup, upsert, without, between, IsSorted}
use s3lite.Common.OrdMap.Laws.{IsSorted-upsert, IsSorted-without}
use s3lite.Storage.Manifest.{BucketConfig, Manifest, PartEntry}
use s3lite.Storage.Engine.{Table, Engine, Db}

-- A list in order, with the proof of its order.
pub record SortedList {K : Type 0} (V : Type 0) (o : Order K) : Type 0 where
  pub entries : List (K × V)
  pub ordered : IsSorted o entries

module _ {K V : Type 0} (o : Order K) where
  abbrev pub sorted_table : Table (SortedList V o) V o
  sorted_table = record {
    get = λ t k. lookup o k t.entries;
    insert = λ t k v. record {
      entries = upsert o k v t.entries;
      ordered = IsSorted-upsert o k v t.entries t.ordered;
    };
    remove = λ t k. record {
      entries = without o k t.entries;
      ordered = IsSorted-without o k t.entries t.ordered;
    };
    iter = λ t. t.entries;
    range = λ t lo hi. between o lo hi t.entries;
    get_view = λ t k. refl;
    iter_insert = λ t k v. refl;
    iter_remove = λ t k. refl;
    range_view = λ t lo hi. refl;
    iter_IsSorted = λ t. t.ordered;
  }

abbrev pub engine : Engine
engine = record {
  BucketTable = SortedList BucketConfig bytes_order;
  ObjectTable = SortedList Manifest bytes_order;
  PartTable = SortedList PartEntry bytes_order;
  DlqTable = SortedList Bytes nat_order;
  buckets = sorted_table bytes_order;
  objects = sorted_table bytes_order;
  parts = sorted_table bytes_order;
  events_dlq = sorted_table nat_order;
}

-- The database that `bootstrap_tables` creates.
abbrev pub empty : Db engine
empty = record {
  buckets = record { entries = []; ordered = tt };
  objects = record { entries = []; ordered = tt };
  parts = record { entries = []; ordered = tt };
  events_dlq = record { entries = []; ordered = tt };
}
