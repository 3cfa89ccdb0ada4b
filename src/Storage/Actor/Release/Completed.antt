-- ===== src/Storage/Actor/Release/Completed.antt =====
-- What `handle_complete_multipart` of src/storage/db/actor.rs reports as freed.
use s3lite.Common.{
  ℕ, ◌+◌, ◌≤◌, ◌<◌, ◌≡◌, ◌≢◌, ◌⊎◌, ◌↔◌, refl, ap, inl, inr, true, Option, none, some, List, [], ok,
  Bool-cases, Result-cases, arith,
}
use s3lite.Common.OrdMap.Members.{In}
use s3lite.Storage.Manifest.{
  Hash, PartRef, Time, ManifestKey, Manifest, PartEntry, DeletionEffect, encode,
}
use s3lite.Storage.Engine.{Engine, Db}
use s3lite.Storage.Actor.Parts.{u32_max, inc_all, dec_all}
use s3lite.Storage.Actor.Parts.Counts.{refs, refcount, count_of}
use s3lite.Storage.Actor.Manifests.{parts_of}
use s3lite.Storage.Actor.Multipart.{
  contains, hashes, is_in_progress, is_unreferenced, collect_all, handle_complete_multipart,
}
use s3lite.Storage.Actor.Multipart.Collected.{
  contains-hashes, Exact, collect_all-Exact, collect_all-considered, inc_all-none, dec_all-none,
}
use s3lite.Storage.Actor.Invariant.{references, IsConsistent}
use s3lite.Storage.Actor.Invariant.Multipart.{complete-IsConsistent, two_rows, swapped}

unreferenced_count : (o : Option PartEntry) → is_unreferenced o ≡ true → count_of o ≡ 0
unreferenced_count none h = cc
unreferenced_count (some entry) h = ground arith

count_unreferenced : (o : Option PartEntry) → o ≢ none → count_of o ≡ 0 → is_unreferenced o ≡ true
count_unreferenced none present h = absurd (present refl)
count_unreferenced (some entry) present h = ground arith

-- The hashes that two rounds of `collect` report, over a table that counts `left` references to `q`.
collected_exact :
    (e : Engine) (parts : e.PartTable) (new up old : List PartRef) (q : Hash) (left : ℕ)
    → refcount e parts q ≡ left
    → refs q new ≤ left
    → ((0 < refs q up) ⊎ (0 < refs q old) → e.parts.get parts q ≢ none)
    → In q (collect_all e parts (hashes new) (collect_all e parts (hashes new) ([], []) up) old).1
      ↔ (((0 < refs q up) ⊎ (0 < refs q old)) × (left ≡ 0))
collected_exact e parts new up old q left counted covered present =
    let first = collect_all e parts (hashes new) ([], []) up in
    let none_yet : Exact e parts (hashes new) ([], []) = λ r. ground arith in
    let exact =
      collect_all-Exact e parts (hashes new) first old
        (collect_all-Exact e parts (hashes new) ([], []) up none_yet) q in
    let of_up = collect_all-considered e parts (hashes new) ([], []) up q in
    let of_old = collect_all-considered e parts (hashes new) first old q in
    (
      λ i.
          let (considered, _, unref) = exact.0 i in
          (
            ground (arith, of_up, of_old, considered),
            omega (arith, unreferenced_count (e.parts.get parts q) unref, counted),
          ),
      λ (candidate, zero). exact.1 (
        ground (arith, of_up, of_old, candidate),
        elim (Bool-cases (contains q (hashes new))) [
          | inr out ↦ out
          | inl within ↦ absurd (omega (arith, contains-hashes q new within))
        ],
        count_unreferenced (e.parts.get parts q) (present candidate) (omega arith),
      ),
    )

-- The same of the list that the handler reports.
reported_exact :
    (e : Engine) (parts : e.PartTable) (new up old : List PartRef) (q : Hash) (left : ℕ)
    (reported : List Hash)
    → refcount e parts q ≡ left
    → refs q new ≤ left
    → ((0 < refs q up) ⊎ (0 < refs q old) → e.parts.get parts q ≢ none)
    → (collect_all e parts (hashes new) (collect_all e parts (hashes new) ([], []) up) old).1
      ≡ reported
    → In q reported ↔ (((0 < refs q up) ⊎ (0 < refs q old)) × (left ≡ 0))
reported_exact e parts new up old q left reported counted covered present same_list =
    rw (← same_list) (collected_exact e parts new up old q left counted covered present)

module _ (e : Engine) where
  -- A successful `complete_multipart_upload` on a consistent database, under the conditions that keep
  -- it consistent, reports as freed exactly the parts of the upload and of the object that it replaces
  -- to which no stored manifest refers any more.
  pub complete-freed :
      (db : Db e) (k : ManifestKey) (m up : Manifest) (now : Time) {eff : DeletionEffect}
      → IsConsistent e db
      → encode k ≢ encode m.key
      → ((q : Hash) → references e db.objects q + refs q m.parts ≤ u32_max)
      → e.objects.get db.objects (encode k) ≡ some up
      → (handle_complete_multipart e db k m now).0 ≡ ok eff
      → (q : Hash)
      → In q eff.freed_parts ↔ (
          ((0 < refs q up.parts)
            ⊎ (0 < refs q (parts_of (e.objects.get db.objects (encode m.key)))))
          × (references e (handle_complete_multipart e db k m now).1.objects q ≡ 0))
  unfolding handle_complete_multipart
  complete-freed db k m up now {eff} c ne room row h q =
      let old = parts_of (e.objects.get db.objects (encode m.key)) in
      let parts1 = (dec_all e [] db.parts up.parts).1 in
      let parts2 = (dec_all e [] parts1 old).1 in
      elim (Bool-cases (is_in_progress up.state)) [
        | inr done ↦ absurd (cc (rw (row, done) at h))
        | inl open_upload ↦ elim (Result-cases (inc_all e parts2 m.parts now)) [
          | inr (x, g) ↦ absurd (cc (rw (row, open_upload, g) at h))
          | inl (parts3, g) ↦
              let after =
                rw (row, open_upload, g) at
                  ((complete-IsConsistent e db k m now c ne room).counted q) in
              let reported = rw (row, open_upload, g) at h in
              let held = two_rows e db.objects (encode k) (encode m.key) up ne row q in
              let moved = swapped e db.objects (encode k) (encode m.key) up ne row m q in
              rw (row, open_upload, g)
                (reported_exact e parts3 m.parts up.parts old q _ eff.freed_parts after
                  (omega (arith, held, moved))
                  (λ candidate gone.
                    let never = dec_all-none e [] db.parts up.parts q (
                      dec_all-none e [] parts1 old q
                        (inc_all-none e parts2 m.parts now q g gone)) in
                    omega (arith, candidate, held, c.counted q, ap count_of never))
                  (ground arith))
        ]
      ]
