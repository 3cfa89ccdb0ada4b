-- ===== src/Storage/Actor/Invariant/Multipart.antt =====
-- The handlers of multipart uploads keep the invariant of the database.
use s3lite.Common.{
  ℕ, ◌+◌, ◌-◌, ◌≤◌, ◌<◌, ◌≡◌, ◌≢◌, refl, sym, ap, inl, inr, Option, none, some, List, [], ◌∷◌, ◌++◌,
  ok, Result-cases, arith, Option-cases, Bool-cases,
}
use s3lite.Common.Order.{cmp_bytes_eq}
use s3lite.Storage.Manifest.{Hash, PartRef, Time, ManifestKey, Manifest, encode}
use s3lite.Storage.Engine.{Engine, Db}
use s3lite.Storage.Engine.Laws.{get-insert, get-remove}
use s3lite.Storage.Actor.Parts.{u32_max, inc_all, dec_all, inc_part_refcount}
use s3lite.Storage.Actor.Parts.Counts.{
  refs, refcount, inc_refcount, dec_refcount, inc_all_refcount, dec_all_refcount,
}
use s3lite.Storage.Actor.Manifests.{
  parts_of, find_part, remove_part, insert_by_number, sort_by_number, release_old,
  handle_append_part,
}
use s3lite.Storage.Actor.Multipart.{is_in_progress, handle_complete_multipart}
use s3lite.Storage.Actor.Invariant.{
  GcSafe, references, IsConsistent, references-insert, references-remove, inc-GcSafe, dec-GcSafe,
  inc_all-GcSafe, dec_all-GcSafe,
}

refs-append : (q : Hash) (l r : List PartRef) → refs q (l ++ r) ≡ refs q l + refs q r
refs-append q [] r = omega arith
refs-append q (p ∷ l) r = omega (arith, refs-append q l r)

refs-insert_by_number :
    (q : Hash) (p : PartRef) (l : List PartRef) → refs q (insert_by_number p l) ≡ refs q (p ∷ l)
unfolding insert_by_number
refs-insert_by_number q p [] = refl
refs-insert_by_number q p (r ∷ l) = ground (arith, refs-insert_by_number q p l)

refs-sort_by_number : (q : Hash) (l : List PartRef) → refs q (sort_by_number l) ≡ refs q l
unfolding sort_by_number
refs-sort_by_number q [] = refl
refs-sort_by_number q (p ∷ l) =
    omega (arith, refs-insert_by_number q p (sort_by_number l), refs-sort_by_number q l)

-- The references of the part that a number finds.
abbrev found_refs : Hash → Option PartRef → ℕ
found_refs q none = 0
found_refs q (some p) = refs q (p ∷ [])

refs-remove_part :
    (q : Hash) (n : ℕ) (l : List PartRef)
    → refs q (remove_part n l) + found_refs q (find_part n l) ≡ refs q l
unfolding remove_part find_part
refs-remove_part q n [] = omega arith
refs-remove_part q n (p ∷ l) = ground (arith, refs-remove_part q n l)

module _ (e : Engine) where
  release_refcount :
      (parts : e.PartTable) (o : Option PartRef) (part : PartRef) (q : Hash)
      → refcount e (release_old e parts o part).1 q ≡ refcount e parts q - found_refs q o
  unfolding release_old
  release_refcount parts none part q = omega arith
  release_refcount parts (some old) part q = omega (arith, dec_refcount e parts old.hash q)

  release-GcSafe :
      (parts : e.PartTable) (o : Option PartRef) (part : PartRef)
      → GcSafe e parts
      → GcSafe e (release_old e parts o part).1
  unfolding release_old
  release-GcSafe parts none part safe = safe
  release-GcSafe parts (some old) part safe = dec-GcSafe e parts old.hash safe

  -- What a manifest refers to is counted in the table.
  refs-le-references :
      (objects : e.ObjectTable) (k : Hash) (m : Manifest) (q : Hash)
      → e.objects.get objects k ≡ some m
      → refs q m.parts ≤ references e objects q
  refs-le-references objects k m q h =
      omega (
        arith,
        references-remove e objects k q,
        ap (λ (o : Option Manifest). refs q (parts_of o)) h,
      )

  module _ (db : Db e) (k : ManifestKey) (part : PartRef) (now : Time) (c : IsConsistent e db)
      (room : references e db.objects part.hash < u32_max) (m : Manifest)
      (h : e.objects.get db.objects (encode k) ≡ some m) where
    append_counted :
        (parts' : e.PartTable) (m' : Manifest)
        → m'.parts ≡ sort_by_number (remove_part part.part_number m.parts ++ part ∷ [])
        → inc_part_refcount e
            (release_old e db.parts (find_part part.part_number m.parts) part).1
            part.hash
            part.size
            now
          ≡ ok parts'
        → (q : Hash)
        → refcount e parts' q ≡ references e (e.objects.insert db.objects (encode k) m') q
    append_counted parts' m' sorted g q =
        let n = part.part_number in
        let old = find_part n m.parts in
        let released = λ (r : Hash). release_refcount db.parts old part r in
        let fits : refcount e (release_old e db.parts old part).1 part.hash < u32_max =
          omega (arith, released part.hash, c.counted part.hash) in
        omega (
          arith,
          inc_refcount e _ part.hash part.size now fits g q,
          released q,
          c.counted q,
          references-insert e db.objects (encode k) m' q,
          ap (λ (o : Option Manifest). refs q (parts_of o)) h,
          ap (refs q) sorted,
          refs-sort_by_number q (remove_part n m.parts ++ part ∷ []),
          refs-append q (remove_part n m.parts) (part ∷ []),
          refs-remove_part q n m.parts,
          refs-le-references db.objects (encode k) m q h,
        )

  -- `append_part` keeps the invariant, whether it succeeds or fails, as long as the part has fewer
  -- than `u32::MAX` references.
  pub append-IsConsistent :
      (db : Db e) (k : ManifestKey) (part : PartRef) (now later : Time)
      → IsConsistent e db
      → references e db.objects part.hash < u32_max
      → IsConsistent e (handle_append_part e db k part now later).1
  unfolding handle_append_part
  append-IsConsistent db k part now later c room =
      elim (Option-cases (e.objects.get db.objects (encode k))) [
        | inl h ↦ rw h c
        | inr (m, h) ↦
            let old = find_part part.part_number m.parts in
            let parts = (release_old e db.parts old part).1 in
            elim (Result-cases (inc_part_refcount e parts part.hash part.size now)) [
              | inl (parts', g) ↦
                  rw (h, g)
                    (record {
                      counted = append_counted db k part now c room m h parts' _ refl g;
                      gc_safe =
                          inc-GcSafe e parts part.hash part.size now
                            (release-GcSafe db.parts old part c.gc_safe) g;
                    })
              | inr (x, g) ↦ rw (h, g) c
            ]
      ]

  -- A row that a write or a removal at another key leaves alone.
  get-insert_ne :
      (objects : e.ObjectTable) (k j : Hash) (m : Manifest)
      → j ≢ k
      → e.objects.get (e.objects.insert objects k m) j ≡ e.objects.get objects j
  get-insert_ne objects k j m ne =
      grind (arith, get-insert e.objects objects k j m, cmp_bytes_eq j k)

  get-remove_ne :
      (objects : e.ObjectTable) (k j : Hash)
      → j ≢ k
      → e.objects.get (e.objects.remove objects k) j ≡ e.objects.get objects j
  get-remove_ne objects k j ne = grind (arith, get-remove e.objects objects k j, cmp_bytes_eq j k)

  module _ (objects : e.ObjectTable) (from to : Hash) (upload : Manifest) (ne : from ≢ to)
      (h : e.objects.get objects from ≡ some upload) where
    -- The references from two rows are among those from all rows.
    pub two_rows :
        (q : Hash)
        → refs q upload.parts + refs q (parts_of (e.objects.get objects to))
          ≤ references e objects q
    two_rows q = omega (
      arith,
      references-remove e objects from q,
      references-remove e (e.objects.remove objects from) to q,
      ap (λ (o : Option Manifest). refs q (parts_of o)) h,
      ap (λ (o : Option Manifest). refs q (parts_of o))
          (get-remove_ne objects from to (λ p. ne (sym p))),
    )

    -- References after the upload's row gave way to the committed row.
    pub swapped :
        (m : Manifest) (q : Hash)
        → references e (e.objects.remove (e.objects.insert objects to m) from) q
            + refs q upload.parts
            + refs q (parts_of (e.objects.get objects to))
          ≡ references e objects q + refs q m.parts
    swapped m q = omega (
      arith,
      references-insert e objects to m q,
      references-remove e (e.objects.insert objects to m) from q,
      ap (λ (o : Option Manifest). refs q (parts_of o)) h,
      ap (λ (o : Option Manifest). refs q (parts_of o)) (get-insert_ne objects to from m ne),
    )

  -- `complete_multipart_upload` keeps the invariant, whether it succeeds or fails, if the committed
  -- row has another key than the upload's and no part gets more than `u32::MAX` references.
  pub complete-IsConsistent :
      (db : Db e) (k : ManifestKey) (m : Manifest) (now : Time)
      → IsConsistent e db
      → encode k ≢ encode m.key
      → ((q : Hash) → references e db.objects q + refs q m.parts ≤ u32_max)
      → IsConsistent e (handle_complete_multipart e db k m now).1
  unfolding handle_complete_multipart
  complete-IsConsistent db k m now c ne room =
      elim (Option-cases (e.objects.get db.objects (encode k))) [
        | inl h ↦ rw h c
        | inr (up, h) ↦ elim (Bool-cases (is_in_progress up.state)) [
          | inr done ↦ rw (h, done) c
          | inl open_upload ↦
              let old = parts_of (e.objects.get db.objects (encode m.key)) in
              let parts1 = (dec_all e [] db.parts up.parts).1 in
              let parts2 = (dec_all e [] parts1 old).1 in
              let low = λ (r : Hash). dec_all_refcount e [] parts1 old r in
              let top = λ (r : Hash). dec_all_refcount e [] db.parts up.parts r in
              elim (Result-cases (inc_all e parts2 m.parts now)) [
                | inl (parts3, g) ↦
                    rw (h, open_upload, g)
                      (record {
                        counted = λ q. omega (
                          arith,
                          inc_all_refcount e parts2 m.parts now
                              (λ r. omega (arith, low r, top r, c.counted r, room r)) g q,
                          low q,
                          top q,
                          c.counted q,
                          two_rows db.objects (encode k) (encode m.key) up ne h q,
                          swapped db.objects (encode k) (encode m.key) up ne h m q,
                        );
                        gc_safe =
                            inc_all-GcSafe e parts2 m.parts now
                              (dec_all-GcSafe e [] parts1 old
                                (dec_all-GcSafe e [] db.parts up.parts c.gc_safe))
                              g;
                      })
                | inr (x, g) ↦ rw (h, open_upload, g) c
              ]
        ]
      ]
