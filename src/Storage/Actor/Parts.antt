-- ===== src/Storage/Actor/Parts.antt =====
-- src/storage/db/actor.rs: the rows of the PARTS table, their reference counts, and the handlers of
-- the garbage collector's operations.
pub mod Counts
pub mod Freed
use Prim.Native.Nat.{min}
use s3lite.Common.{
  ℕ, zero, ◌+◌, ◌-◌, ◌^◌, ◌==◌, ltb, not, ◌&&◌, Bool, true, false, Option, none, some, List, [],
  ◌∷◌, ◌++◌, Result, ok, err, ◌>>=◌, ok_or, if◌then◌else◌,
}
use s3lite.Storage.Manifest.{Hash, PartRef, Time, PartState, live, gc_pending, PartEntry}
use s3lite.Storage.Errors.{MetaError, part_gc_pending, part_not_found}
use s3lite.Storage.Engine.{Engine, Db}
use s3lite.Storage.Actor.Tx.{commit}

-- `u32::MAX`
abbrev pub u32_max : ℕ
u32_max = 2 ^ 32 - 1

-- `u32::saturating_add`
abbrev pub saturating_add : ℕ → ℕ → ℕ
saturating_add a b = min (a + b) u32_max

-- `==` on `PartState`
abbrev pub is_gc_pending : PartState → Bool
is_gc_pending live = false
is_gc_pending gc_pending = true

-- The filter loops over the PARTS table: the keys of the rows that pass the test.
unfoldable pub part_keys : (PartEntry → Bool) → List (Hash × PartEntry) → List Hash
part_keys test [] = []
part_keys test ((hash, entry) ∷ rows) =
    let rest = part_keys test rows in if test entry then hash ∷ rest else rest

-- `if let Some(hash) = dec(..)? { freed.push(hash) }`
abbrev pub push_freed : List Hash → Option Hash → List Hash
push_freed freed none = freed
push_freed freed (some hash) = freed ++ hash ∷ []

module _ (e : Engine) where
  -- The row that `inc_part_refcount` writes.
  inc_entry : Option PartEntry → Hash → ℕ → Time → Result MetaError PartEntry
  inc_entry (some entry) hash size now =
      if is_gc_pending entry.state
      then err (part_gc_pending hash)
      else ok (record entry { refcount = saturating_add entry.refcount 1 })
  inc_entry none hash size now =
      ok (record { refcount = 1; size = size; state = live; created_at = now })

  unfoldable pub inc_part_refcount : e.PartTable → Hash → ℕ → Time → Result MetaError e.PartTable
  unfolding inc_entry
  inc_part_refcount parts hash size now = do
    entry ← inc_entry (e.parts.get parts hash) hash size now
    ok (e.parts.insert parts hash entry)

  dec_entry : e.PartTable → Hash → Option PartEntry → Option Hash × e.PartTable
  dec_entry parts hash none = (none, parts)
  dec_entry parts hash (some entry) =
      let count = if ltb 0 entry.refcount then entry.refcount - 1 else entry.refcount in
      (
        if count == 0 then some hash else none,
        e.parts.insert parts hash (record entry { refcount = count }),
      )

  -- The hash if its count is now 0, and the table after the write.
  unfoldable pub dec_part_refcount : e.PartTable → Hash → Option Hash × e.PartTable
  unfolding dec_entry
  dec_part_refcount parts hash = dec_entry parts hash (e.parts.get parts hash)

  -- `for p in refs { inc_part_refcount(&mut parts, &p.hash, p.size, now)?; }`
  unfoldable pub inc_all : e.PartTable → List PartRef → Time → Result MetaError e.PartTable
  inc_all parts [] now = ok parts
  inc_all parts (p ∷ refs) now = do
    parts' ← inc_part_refcount parts p.hash p.size now
    inc_all parts' refs now

  -- `for p in refs { if let Some(hash) = dec_part_refcount(..)? { freed.push(hash); } }`
  unfoldable pub dec_all : List Hash → e.PartTable → List PartRef → List Hash × e.PartTable
  dec_all freed parts [] = (freed, parts)
  dec_all freed parts (p ∷ refs) =
      let (hash, parts') = dec_part_refcount parts p.hash in
      dec_all (push_freed freed hash) parts' refs

  -- `handle_get_part`
  unfoldable pub handle_get_part : Db e → Hash → Result MetaError (Option PartEntry)
  handle_get_part db hash = ok (e.parts.get db.parts hash)

  mark_row : Db e → Hash → PartEntry → Bool × Db e
  mark_row db hash entry = if not (entry.refcount == 0) then (false, db) else (
    true,
    record db { parts = e.parts.insert db.parts hash (record entry { state = gc_pending }) },
  )

  -- `handle_mark_gc_pending`
  unfoldable pub handle_mark_gc_pending : Db e → Hash → Result MetaError Bool × Db e
  unfolding mark_row
  handle_mark_gc_pending db hash = commit db (do
    entry ← ok_or (e.parts.get db.parts hash) (part_not_found hash)
    ok (mark_row db hash entry))

  -- `handle_remove_part`
  unfoldable pub handle_remove_part : Db e → Hash → Result MetaError (Unit {0}) × Db e
  handle_remove_part db hash =
      commit db (ok (tt, record db { parts = e.parts.remove db.parts hash }))

  -- `handle_list_gc_pending`
  unfoldable pub handle_list_gc_pending : Db e → Result MetaError (List Hash)
  handle_list_gc_pending db = ok (part_keys (λ p. is_gc_pending p.state) (e.parts.iter db.parts))

  -- `handle_list_orphan_parts`
  unfoldable pub handle_list_orphan_parts : Db e → Result MetaError (List Hash)
  handle_list_orphan_parts db =
      ok (part_keys (λ p. p.refcount == 0 && not (is_gc_pending p.state)) (e.parts.iter db.parts))
