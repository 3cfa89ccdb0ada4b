-- ===== src/S3/Collect/Kept.antt =====
-- The collector of src/s3: what it leaves alone.
use s3lite.Common.{
  ◌<◌, ◌==◌, ◌≡◌, refl, inl, inr, ◌∙◌, true, false, none, some, List, [], ◌∷◌, arith, Option-cases,
  Bool-cases,
}
use s3lite.Common.Order.{bytes_order, same_refl, cmp_bytes_eq}
use s3lite.Common.OrdMap.Laws.{lookup-without}
use s3lite.Storage.Manifest.{Hash, PartEntry}
use s3lite.Storage.Engine.{Engine}
use s3lite.Storage.Engine.Laws.{get-insert, get-remove}
use s3lite.Storage.PartStore.{open_read, delete}
use s3lite.Storage.Actor.Parts.{handle_mark_gc_pending, handle_remove_part}
use s3lite.Storage.Actor.Parts.Counts.{refcount}
use s3lite.Storage.Actor.Invariant.{IsConsistent}
use s3lite.Storage.Actor.Invariant.Gc.{mark-IsConsistent, remove-IsConsistent}
use s3lite.S3.World.{World}
use s3lite.S3.Collect.{collect_part, gc_freed_parts}

module _ (e : Engine) where
  -- The rows of objects and buckets, and the counts of the references, stay as they are.
  pub record IsKept (w w' : World e) : Type 0 where
    pub objects : w'.db.objects ≡ w.db.objects
    pub buckets : w'.db.buckets ≡ w.db.buckets
    pub counts : (q : Hash) → refcount e w'.db.parts q ≡ refcount e w.db.parts q
    pub contents :
        (q : Hash) → 0 < refcount e w.db.parts q → open_read w'.files q ≡ open_read w.files q
    pub consistent : IsConsistent e w.db → IsConsistent e w'.db

  pub IsKept-refl : (w : World e) → IsKept w w
  IsKept-refl w = record {
    objects = refl;
    buckets = refl;
    counts = λ q. refl;
    contents = λ q positive. refl;
    consistent = λ c. c;
  }

  pub IsKept-trans : (u v w : World e) → IsKept u v → IsKept v w → IsKept u w
  IsKept-trans u v w a b = record {
    objects = b.objects ∙ a.objects;
    buckets = b.buckets ∙ a.buckets;
    counts = λ q. b.counts q ∙ a.counts q;
    contents =
        λ q positive. b.contents q (omega (arith, a.counts q, positive)) ∙ a.contents q positive;
    consistent = λ c. b.consistent (a.consistent c);
  }

  -- The steps for a part that is marked.
  abbrev pub unlinked : World e → Hash → World e
  unlinked w h = record w {
    db = (handle_remove_part e (handle_mark_gc_pending e w.db h).1 h).1;
    files = delete w.files h;
  }

  unlinked-IsKept :
      (w : World e) (h : Hash) (entry : PartEntry)
      → e.parts.get w.db.parts h ≡ some entry
      → (entry.refcount == 0) ≡ true
      → IsKept w (unlinked w h)
  unfolding handle_mark_gc_pending handle_remove_part open_read delete
  unlinked-IsKept w h entry row free = record {
    objects = rw (row, free) refl;
    buckets = rw (row, free) refl;
    counts = λ q. grind (arith, get-insert e.parts, get-remove e.parts, cmp_bytes_eq q h);
    contents =
        λ q positive. grind (arith, lookup-without bytes_order h q w.files, cmp_bytes_eq q h);
    consistent = λ c.
        remove-IsConsistent e (handle_mark_gc_pending e w.db h).1 h (mark-IsConsistent e w.db h c)
          (rw (row, free, get-insert e.parts w.db.parts h h, same_refl bytes_order h) refl);
  }

  pub absent-kept :
      (w : World e) (h : Hash) → e.parts.get w.db.parts h ≡ none → collect_part e w h ≡ w
  unfolding collect_part handle_mark_gc_pending
  absent-kept w h absent = rw absent refl

  pub used-kept :
      (w : World e) (h : Hash) (entry : PartEntry)
      → e.parts.get w.db.parts h ≡ some entry
      → (entry.refcount == 0) ≡ false
      → collect_part e w h ≡ w
  unfolding collect_part handle_mark_gc_pending
  used-kept w h entry row used = rw (row, used) refl

  -- A part without a reference loses its file and its row.
  pub free-unlinked :
      (w : World e) (h : Hash) (entry : PartEntry)
      → e.parts.get w.db.parts h ≡ some entry
      → (entry.refcount == 0) ≡ true
      → collect_part e w h ≡ unlinked w h
  unfolding collect_part handle_mark_gc_pending
  free-unlinked w h entry row free = rw (row, free) refl

  pub collect_part-IsKept : (w : World e) (h : Hash) → IsKept w (collect_part e w h)
  collect_part-IsKept w h = elim (Option-cases (e.parts.get w.db.parts h)) [
    | inl absent ↦ rw (absent-kept w h absent) (IsKept-refl w)
    | inr (entry, row) ↦ elim (Bool-cases (entry.refcount == 0)) [
      | inr used ↦ rw (used-kept w h entry row used) (IsKept-refl w)
      | inl free ↦ rw (free-unlinked w h entry row free) (unlinked-IsKept w h entry row free)
    ]
  ]

  -- The collector keeps every row, every count and every file whose part is referenced.
  pub gc_freed_parts-IsKept :
      (w : World e) (freed : List Hash) → IsKept w (gc_freed_parts e w freed)
  unfolding gc_freed_parts
  gc_freed_parts-IsKept w [] = IsKept-refl w
  gc_freed_parts-IsKept w (h ∷ freed) =
      IsKept-trans w (collect_part e w h) _ (collect_part-IsKept w h)
        (gc_freed_parts-IsKept (collect_part e w h) freed)
