-- ===== src/S3/Object/Rows.antt =====
-- What the writing and the removal of a manifest row, with the collection after it, do to the server.
use s3lite.Common.{
  ◌+◌, ◌≤◌, ◌≡◌, ◌⊎◌, refl, inl, inr, Option, none, some, ok, err, Option-cases, Bool-cases,
  Result-cases, if◌then◌else◌,
}
use s3lite.Common.Order.{Bytes, bytes_order, same}
use s3lite.Storage.Manifest.{Hash, Time, ManifestKey, Manifest, encode}
use s3lite.Storage.Errors.{MetaError, manifest_not_found}
use s3lite.Storage.Engine.{Engine}
use s3lite.Storage.Engine.Laws.{get-insert, get-remove}
use s3lite.Storage.PartStore.{Files}
use s3lite.Storage.Actor.Parts.{u32_max, inc_all}
use s3lite.Storage.Actor.Parts.Counts.{refs}
use s3lite.Storage.Actor.Manifests.{handle_put_manifest, handle_delete_manifest}
use s3lite.Storage.Actor.Invariant.{references}
use s3lite.Storage.Actor.Invariant.Manifests.{put-IsConsistent, delete-IsConsistent}
use s3lite.S3.World.{External, World}
use s3lite.S3.Collect.Kept.{IsKept, gc_freed_parts-IsKept}
use s3lite.S3.Object.{put_row, delete_row}
use s3lite.S3.Object.Intact.{RowWhole, IsIntact, kept-IsIntact}

module _ (e : Engine) where
  -- `put_row` leaves the server as it is, or sets one row and then collects.
  pub record IsPut (w w' : World e) (m : Manifest) (now : Time) : Type 0 where
    pub after : World e
    pub files : after.files ≡ w.files
    pub buckets : after.db.buckets ≡ w.db.buckets
    pub database : after.db ≡ (handle_put_manifest e w.db m now).1
    pub objects : after.db.objects ≡ e.objects.insert w.db.objects (encode m.key) m
    pub kept : IsKept e after w'

  pub put_row-cases :
      (w : World e) (m : Manifest) (now : Time)
      → ((y : MetaError) × (put_row e w m now ≡ (err y, w)))
        ⊎ (((put_row e w m now).0 ≡ ok tt) × IsPut w (put_row e w m now).1 m now)
  unfolding put_row handle_put_manifest
  put_row-cases w m now = elim (Result-cases (inc_all e w.db.parts m.parts now)) [
    | inr (y, failed) ↦ inl (y, rw failed refl)
    | inl (parts, counted) ↦ inr (
      rw counted refl,
      rw counted (record {
        after = record w { db = (handle_put_manifest e w.db m now).1 };
        files = refl;
        buckets = rw counted refl;
        database = rw counted refl;
        objects = rw counted refl;
        kept = rw counted (gc_freed_parts-IsKept e _ _);
      }),
    )
  ]

  pub record IsRemoved (w w' : World e) (k : ManifestKey) : Type 0 where
    pub after : World e
    pub files : after.files ≡ w.files
    pub buckets : after.db.buckets ≡ w.db.buckets
    pub database : after.db ≡ (handle_delete_manifest e w.db k).1
    pub objects : after.db.objects ≡ e.objects.remove w.db.objects (encode k)
    pub kept : IsKept e after w'

  pub delete_row-cases :
      (w : World e) (k : ManifestKey)
      → (delete_row e w k ≡ (err (manifest_not_found k), w))
        ⊎ (((delete_row e w k).0 ≡ ok tt) × IsRemoved w (delete_row e w k).1 k)
  unfolding delete_row handle_delete_manifest
  delete_row-cases w k = elim (Option-cases (e.objects.get w.db.objects (encode k))) [
    | inl gone ↦ inl (rw gone refl)
    | inr (m, row) ↦ inr (
      rw row refl,
      rw row (record {
        after = record w { db = (handle_delete_manifest e w.db k).1 };
        files = refl;
        buckets = rw row refl;
        database = rw row refl;
        objects = rw row refl;
        kept = rw row (gc_freed_parts-IsKept e _ _);
      }),
    )
  ]

module _ (x : External) (e : Engine) where
  put-rows :
      (w : World e) (m : Manifest) (k : Bytes) (o o' : Option Manifest)
      → o' ≡ (if same bytes_order k (encode m.key) then some m else o)
      → RowWhole x w.files (some m)
      → RowWhole x w.files o
      → RowWhole x w.files o'
  put-rows w m k o o' e' new old = elim (Bool-cases (same bytes_order k (encode m.key))) [
    | inl own ↦ rw (e', own) new
    | inr other ↦ rw (e', other) old
  ]

  -- Writing a row whose parts are there keeps the server intact.
  pub put_row-IsIntact :
      (w : World e) (m : Manifest) (now : Time)
      → IsIntact x e w
      → ((q : Hash) → references e w.db.objects q + refs q m.parts ≤ u32_max)
      → RowWhole x w.files (some m)
      → IsIntact x e (put_row e w m now).1
  put_row-IsIntact w m now i room new = elim (put_row-cases e w m now) [
    | inl (y, failed) ↦ rw failed i
    | inr (done, put) ↦ kept-IsIntact x e put.after _ put.kept (record {
      consistent = rw put.database (put-IsConsistent e w.db m now i.consistent room);
      rows = λ k.
          rw (put.files, put.objects)
            (put-rows w m k (e.objects.get w.db.objects k) _
              (get-insert e.objects w.db.objects (encode m.key) k m) new (i.rows k));
    })
  ]

  removed-rows :
      (files : Files) (k k' : Bytes) (o o' : Option Manifest)
      → o' ≡ (if same bytes_order k k' then none else o)
      → RowWhole x files o
      → RowWhole x files o'
  removed-rows files k k' o o' e' old = elim (Bool-cases (same bytes_order k k')) [
    | inl own ↦ rw (e', own) tt
    | inr other ↦ rw (e', other) old
  ]

  -- Removing a row keeps the server intact.
  pub delete_row-IsIntact :
      (w : World e) (k : ManifestKey) → IsIntact x e w → IsIntact x e (delete_row e w k).1
  delete_row-IsIntact w k i = elim (delete_row-cases e w k) [
    | inl failed ↦ rw failed i
    | inr (done, gone) ↦ kept-IsIntact x e gone.after _ gone.kept (record {
      consistent = rw gone.database (delete-IsConsistent e w.db k i.consistent);
      rows = λ q.
          rw (gone.files, gone.objects)
            (removed-rows w.files q (encode k) (e.objects.get w.db.objects q) _
              (get-remove e.objects w.db.objects (encode k) q) (i.rows q));
    })
  ]
