-- ===== src/Storage/Actor/Invariant.antt =====
-- The invariant of the metadata database in src/storage/db/actor.rs: the count of a part is the
-- number of references to it from all manifests, and a part handed to the garbage collector has
-- none. Here it is stated, with what the steps on the PARTS table keep of it.
pub mod Manifests
pub mod Multipart
pub mod Gc
use s3lite.Common.{
  ℕ, zero, ◌+◌, ◌≤◌, ◌≡◌, refl, Option, none, some, List, [], ◌∷◌, ok, chain_succeeds, arith,
}
use s3lite.Common.Order.{cmp_bytes_eq, bytes_order}
use s3lite.Common.OrdMap.{total, at}
use s3lite.Common.OrdMap.Totals.{total-upsert, total-without}
use s3lite.Storage.Manifest.{
  Hash, PartRef, Time, PartState, live, gc_pending, PartEntry, Manifest, encode,
}
use s3lite.Storage.Engine.{Engine, Db}
use s3lite.Storage.Engine.Laws.{get-insert, get-remove}
use s3lite.Storage.Actor.Parts.{
  push_freed, u32_max, inc_part_refcount, dec_part_refcount, inc_all, dec_all,
}
use s3lite.Storage.Actor.Parts.Counts.{refs, refcount}
use s3lite.Storage.Actor.Manifests.{parts_of}

-- How often a manifest refers to a part.
abbrev pub manifest_refs : Hash → Manifest → ℕ
manifest_refs q m = refs q m.parts

abbrev pub SafeRow : Option PartEntry → Type 0
SafeRow none = Unit
SafeRow (some entry) = entry.state ≡ gc_pending → entry.refcount ≡ 0

refs-parts_of : (q : Hash) (o : Option Manifest) → refs q (parts_of o) ≡ at (manifest_refs q) o
refs-parts_of q none = refl
refs-parts_of q (some m) = refl

module _ (e : Engine) where
  -- How often the manifests of the OBJECTS table refer to a part.
  abbrev pub references : e.ObjectTable → Hash → ℕ
  references objects q = total (manifest_refs q) (e.objects.iter objects)

  -- No part that awaits its removal has a reference.
  abbrev pub GcSafe : e.PartTable → Type 0
  GcSafe parts = (q : Hash) → SafeRow (e.parts.get parts q)

  pub record IsConsistent (db : Db e) : Type 0 where
    pub counted : (q : Hash) → refcount e db.parts q ≡ references db.objects q
    pub gc_safe : GcSafe db.parts

  -- References after a row is written.
  pub references-insert :
      (objects : e.ObjectTable) (k : Hash) (m : Manifest) (q : Hash)
      → references (e.objects.insert objects k m) q + refs q (parts_of (e.objects.get objects k))
        ≡ references objects q + refs q m.parts
  references-insert objects k m q =
      rw (refs-parts_of, e.objects.get_view, e.objects.iter_insert)
        (total-upsert bytes_order (manifest_refs q) k m _ (e.objects.iter_IsSorted objects))

  pub references-remove :
      (objects : e.ObjectTable) (k q : Hash)
      → references (e.objects.remove objects k) q + refs q (parts_of (e.objects.get objects k))
        ≡ references objects q
  references-remove objects k q =
      rw (refs-parts_of, e.objects.get_view, e.objects.iter_remove)
        (total-without bytes_order (manifest_refs q) k _ (e.objects.iter_IsSorted objects))

  pub inc-GcSafe :
      (parts : e.PartTable) (hash : Hash) (size : ℕ) (now : Time) {parts' : e.PartTable}
      → GcSafe parts
      → inc_part_refcount e parts hash size now ≡ ok parts'
      → GcSafe parts'
  unfolding inc_part_refcount
  inc-GcSafe parts hash size now {parts'} safe h q =
      grind (arith, get-insert e.parts, safe q, safe hash, cmp_bytes_eq q hash)

  pub dec-GcSafe :
      (parts : e.PartTable) (hash : Hash) → GcSafe parts → GcSafe (dec_part_refcount e parts hash).1
  unfolding dec_part_refcount
  dec-GcSafe parts hash safe q =
      grind (arith, get-insert e.parts, safe q, safe hash, cmp_bytes_eq q hash)

  pub inc_all-GcSafe :
      (parts : e.PartTable) (l : List PartRef) (now : Time) {parts' : e.PartTable}
      → GcSafe parts
      → inc_all e parts l now ≡ ok parts'
      → GcSafe parts'
  unfolding inc_all
  inc_all-GcSafe parts [] now {parts'} safe h q = ground (arith, safe q)
  inc_all-GcSafe parts (p ∷ l) now {parts'} safe h q =
      let (mid, rest, first) = chain_succeeds _ _ (inc_part_refcount e parts p.hash p.size now) h in
      inc_all-GcSafe mid l now (inc-GcSafe parts p.hash p.size now safe first) rest q

  pub dec_all-GcSafe :
      (freed : List Hash) (parts : e.PartTable) (l : List PartRef)
      → GcSafe parts
      → GcSafe (dec_all e freed parts l).1
  unfolding dec_all
  dec_all-GcSafe freed parts [] safe = safe
  dec_all-GcSafe freed parts (p ∷ l) safe =
      let first = dec_part_refcount e parts p.hash in
      dec_all-GcSafe (push_freed freed first.0) first.1 l (dec-GcSafe parts p.hash safe)
