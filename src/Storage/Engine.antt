-- ===== src/Storage/Engine.antt =====
-- The embedded database (the crate redb) as a parameter: what a table offers and, as laws, what
-- its documentation says. A table is an ordered map; `Sorted` shows that the laws can be met.
pub mod Sorted
pub mod Laws
use s3lite.Common.{ℕ, ◌≡◌, Option, List}
use s3lite.Common.Order.{Order, Bytes, bytes_order, nat_order}
use s3lite.Common.OrdMap.{lookup, upsert, without, between, IsSorted}
use s3lite.Storage.Manifest.{Hash, BucketConfig, Manifest, PartEntry}

pub record Table (T : Type 0) {K : Type 0} (V : Type 0) (o : Order K) : Type 0 where
  pub get : T → K → Option V
  pub insert : T → K → V → T
  pub remove : T → K → T
  -- all entries in ascending key order
  pub iter : T → List (K × V)
  -- the entries with `lo <= key < hi`, in ascending key order
  pub range : T → K → K → List (K × V)
  pub get_view : (t : T) (k : K) → get t k ≡ lookup o k (iter t)
  pub iter_insert : (t : T) (k : K) (v : V) → iter (insert t k v) ≡ upsert o k v (iter t)
  pub iter_remove : (t : T) (k : K) → iter (remove t k) ≡ without o k (iter t)
  pub range_view : (t : T) (lo hi : K) → range t lo hi ≡ between o lo hi (iter t)
  pub iter_IsSorted : (t : T) → IsSorted o (iter t)

-- src/storage/db/tables.rs: the tables that the actor uses, with rows kept decoded. (SERVER_META
-- is opened and never read or written.)
pub record Engine : Type 1 where
  pub BucketTable : Type 0
  pub ObjectTable : Type 0
  pub PartTable : Type 0
  pub DlqTable : Type 0
  pub buckets : Table BucketTable BucketConfig bytes_order
  pub objects : Table ObjectTable Manifest bytes_order
  pub parts : Table PartTable PartEntry bytes_order
  pub events_dlq : Table DlqTable Bytes nat_order

-- The contents of the database file.
pub record Db (e : Engine) : Type 0 where
  pub buckets : e.BucketTable
  pub objects : e.ObjectTable
  pub parts : e.PartTable
  pub events_dlq : e.DlqTable
