-- ===== src/S3/Object/Intact.antt =====
-- The invariant of the whole server: the counts of the database are right, and every manifest of an
-- object can be read back in its size.
use s3lite.Common.{
  ◌≤◌, ◌<◌, ◌≡◌, refl, ◌∙◌, inl, inr, Option, none, some, List, [], ◌∷◌, ◌++◌, ok, arith,
  Option-cases,
}
use s3lite.Common.Order.{Bytes, bytes_order, same_refl}
use s3lite.Common.Text.{length}
use s3lite.Storage.Manifest.{Hash, PartRef, Manifest, object}
use s3lite.Storage.Engine.{Engine}
use s3lite.Storage.PartStore.{Files, open_read}
use s3lite.Storage.Actor.Parts.Counts.{refs}
use s3lite.Storage.Actor.Invariant.{references, IsConsistent, references-remove}
use s3lite.S3.World.{External, World, etag_of}
use s3lite.S3.Collect.Kept.{IsKept}
use s3lite.S3.Object.Get.{read_parts}

module _ (x : External) where
  -- The parts of a manifest have files, whose contents have together the manifest's size; and the
  -- manifest has an ETag.
  pub record IsWhole (files : Files) (m : Manifest) : Type 0 where
    pub content : Bytes
    pub text : Bytes
    pub read : read_parts x files [] m.parts ≡ ok content
    pub sized : length content ≡ m.size
    pub tagged : etag_of x m ≡ some text

  abbrev pub RowWhole : Files → Option Manifest → Type 0
  RowWhole files none = Unit
  RowWhole files (some m) = m.kind ≡ object → IsWhole files m

  -- Parts that are read, are read from any files that hold the same contents for them.
  pub read_parts-moved :
      (files files' : Files) (buf : Bytes) (l : List PartRef) (out : Bytes)
      → ((q : Hash) (c : Bytes)
          → 0 < refs q l
          → open_read files q ≡ some c
          → open_read files' q ≡ some c)
      → read_parts x files buf l ≡ ok out
      → read_parts x files' buf l ≡ ok out
  unfolding read_parts
  read_parts-moved files files' buf [] out held h = h
  read_parts-moved files files' buf (p ∷ l) out held h =
      elim (Option-cases (open_read files p.hash)) [
        | inl gone ↦ absurd (ground arith)
        | inr (c, there) ↦ rw (held p.hash c (ground (arith, same_refl bytes_order p.hash)) there) (
            read_parts-moved files files' (buf ++ c) l out
              (λ q d positive found. held q d (omega (arith, positive)) found) (rw there at h))
      ]

  pub IsWhole-moved :
      (files files' : Files) (m : Manifest)
      → ((q : Hash) (c : Bytes)
          → 0 < refs q m.parts
          → open_read files q ≡ some c
          → open_read files' q ≡ some c)
      → IsWhole files m
      → IsWhole files' m
  IsWhole-moved files files' m held r = record {
    content = r.content;
    text = r.text;
    read = read_parts-moved files files' [] m.parts r.content held r.read;
    sized = r.sized;
    tagged = r.tagged;
  }

  -- A row stays whole in files that hold what the others hold.
  pub RowWhole-moved :
      (files files' : Files) (o : Option Manifest)
      → ((q : Hash) (c : Bytes) → open_read files q ≡ some c → open_read files' q ≡ some c)
      → RowWhole files o
      → RowWhole files' o
  RowWhole-moved files files' none held r = tt
  RowWhole-moved files files' (some m) held r =
      λ is_object. IsWhole-moved files files' m (λ q c positive found. held q c found) (r is_object)

  module _ (e : Engine) where
    pub record IsIntact (w : World e) : Type 0 where
      pub consistent : IsConsistent e w.db
      pub rows : (k : Bytes) → RowWhole w.files (e.objects.get w.db.objects k)

    -- A row's references are among those of the table.
    pub refs-references :
        (objects : e.ObjectTable) (k q : Hash) (m : Manifest)
        → e.objects.get objects k ≡ some m
        → refs q m.parts ≤ references e objects q
    refs-references objects k q m row = omega (arith, rw row at (references-remove e objects k q))

    row-moved :
        (w : World e) (files' : Files) (k : Bytes) (o : Option Manifest)
        → e.objects.get w.db.objects k ≡ o
        → ((q : Hash) (c : Bytes)
            → 0 < references e w.db.objects q
            → open_read w.files q ≡ some c
            → open_read files' q ≡ some c)
        → RowWhole w.files o
        → RowWhole files' o
    row-moved w files' k none row held r = tt
    row-moved w files' k (some m) row held r = λ is_object.
        IsWhole-moved w.files files' m
          (λ q c positive found.
            held q c (omega (arith, positive, refs-references w.db.objects k q m row)) found)
          (r is_object)

    -- A change that keeps rows, counts and the files of the referenced parts keeps the server intact.
    pub kept-IsIntact : (w w' : World e) → IsKept e w w' → IsIntact w → IsIntact w'
    kept-IsIntact w w' kept i = record {
      consistent = kept.consistent i.consistent;
      rows = λ k. rw kept.objects (
          row-moved w w'.files k (e.objects.get w.db.objects k) refl
            (λ q c positive found.
              kept.contents q (omega (arith, i.consistent.counted q, positive)) ∙ found)
            (i.rows k));
    }
