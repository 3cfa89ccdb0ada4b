-- ===== src/S3/Lock/Extend.antt =====
-- src/s3/lock.rs: what the handlers of object locks keep of the locks that are set.
use s3lite.Common.{
  ◌≤◌, Bool, true, false, Option, none, some, ◌≡◌, refl, ap, ◌∙◌, inl, inr, List, ok,
  chain_succeeds, arith, Bool-cases, Option-cases, Result-cases, if◌then◌else◌,
}
use s3lite.Common.Order.{Bytes, bytes_order, same, cmp_bytes_eq}
use s3lite.Storage.Manifest.{
  Time, Retention, ObjectLock, forbids_delete, ManifestKey, Manifest, encode,
}
use s3lite.Storage.Engine.{Engine, Db}
use s3lite.Storage.Engine.Laws.{get-insert}
use s3lite.Storage.Actor.Manifests.{handle_get_manifest, handle_update_manifest_lock}
use s3lite.Storage.Actor.Scan.Latest.{latest_stored}
use s3lite.Storage.Actor.Ops.{Message, run}
use s3lite.Storage.Actor.Ops.Keyed.{IsKeyed}
use s3lite.S3.Lock.{Formats, held, retention_of, shortens}
use s3lite.S3.Lock.Objects.{
  find_version, require_object_with_version, requested_retention, retention_plan, write_lock,
  put_object_retention,
}

-- The second retention lasts at least as long as the first.
abbrev pub LongEnough : Option Retention → Option Retention → Type 0
LongEnough none later = Unit
LongEnough (some r) none = ⊥
LongEnough (some r) (some r') = r.retain_until ≤ r'.retain_until

-- The second row has a retention at least as long as the first one's, and the same legal hold.
abbrev pub RowKept : Option Manifest → Option Manifest → Type 0
RowKept none row = Unit
RowKept (some m) none = ⊥
RowKept (some m) (some m') =
    LongEnough (retention_of m.object_lock) (retention_of m'.object_lock)
    × (held m'.object_lock ≡ held m.object_lock)

LongEnough-refl : (r : Option Retention) → LongEnough r r
LongEnough-refl none = tt
LongEnough-refl (some r) = omega arith

RowKept-refl : (row : Option Manifest) → RowKept row row
RowKept-refl none = tt
RowKept-refl (some m) = (LongEnough-refl (retention_of m.object_lock), refl)

not_shorter :
    (old : Option Retention) (r : Retention)
    → shortens old r.retain_until ≡ false
    → LongEnough old (some r)
not_shorter none r h = tt
not_shorter (some o) r h = ground arith

-- A lock with a retention at least as long and the same hold forbids at least as much.
outlasts :
    (old new : Option Retention) (hold : Bool) (now : Time)
    → LongEnough old new
    → forbids_delete (record { retention = old; legal_hold = hold }) now ≡ true
    → forbids_delete (record { retention = new; legal_hold = hold }) now ≡ true
unfolding forbids_delete
outlasts old new true now long h = refl
outlasts none new false now long h = cc
outlasts (some r) none false now long h = absurd long
outlasts (some r) (some r') false now long h = ground arith

no_lock :
    (old : Option Retention) (hold : Bool) (now : Time)
    → LongEnough old none
    → false ≡ hold
    → ¬ (forbids_delete (record { retention = old; legal_hold = hold }) now ≡ true)
unfolding forbids_delete
no_lock old true now long e h = cc
no_lock none false now long e h = cc
no_lock (some r) false now long e h = long

kept_forbids :
    (new : Option ObjectLock) (lock : ObjectLock) (now : Time)
    → LongEnough lock.retention (retention_of new)
    → held new ≡ lock.legal_hold
    → forbids_delete lock now ≡ true
    → (lock' : ObjectLock) × (new ≡ some lock') × (forbids_delete lock' now ≡ true)
kept_forbids none lock now long hold forbids =
    absurd (no_lock lock.retention lock.legal_hold now long hold forbids)
kept_forbids (some lock') lock now long hold forbids = (
  lock',
  refl,
  rw hold (outlasts lock.retention lock'.retention lock.legal_hold now long forbids),
)

module _ (e : Engine) (f : Formats) (db : Db e) (keyed : IsKeyed e db.objects) where
  find_version-stored :
      (bucket key : Bytes) (version_id : Option Bytes) (m : Manifest)
      → find_version e f db bucket key version_id ≡ ok (some m)
      → e.objects.get db.objects (encode m.key) ≡ some m
  unfolding find_version handle_get_manifest
  find_version-stored bucket key none m h = (latest_stored e db keyed bucket key m h).1
  find_version-stored bucket key (some v) m h =
      let k : ManifestKey = record { bucket = bucket; key = key; version_id = v } in
      let row : e.objects.get db.objects (encode k) ≡ some m = ground arith in
      let own = rw row at (keyed (encode k)) in rw own.0 at row

  pub require-stored :
      (bucket key : Bytes) (version_id : Option Bytes) (m : Manifest)
      → require_object_with_version e f db bucket key version_id ≡ ok m
      → e.objects.get db.objects (encode m.key) ≡ some m
  unfolding require_object_with_version
  require-stored bucket key version_id m h =
      elim (Result-cases (find_version e f db bucket key version_id)) [
        | inr (x, g) ↦ ground arith
        | inl (none, g) ↦ ground arith
        | inl (some m', g) ↦ find_version-stored bucket key version_id m (ground arith)
      ]

  retention_plan-fits :
      (bucket key : Bytes) (version_id : Option Bytes) (body : Bytes) (k : ManifestKey)
      (lock : ObjectLock)
      → retention_plan e f db bucket key version_id body ≡ ok (k, lock)
      → (m : Manifest) × (e.objects.get db.objects (encode k) ≡ some m)
        × LongEnough (retention_of m.object_lock) lock.retention
        × (lock.legal_hold ≡ held m.object_lock)
  unfolding retention_plan
  retention_plan-fits bucket key version_id body k lock h =
      let (r, rest, asked) = chain_succeeds _ _ (requested_retention e f bucket key body) h in
      let (m, last, found) =
        chain_succeeds _ _ (require_object_with_version e f db bucket key version_id) rest in
      elim (Bool-cases (shortens (retention_of m.object_lock) r.retain_until)) [
        | inl short ↦ ground arith
        | inr long ↦
            let given : (m.key ≡ k)
                × (lock.retention ≡ some r)
                × (lock.legal_hold ≡ held m.object_lock) =
              ground arith in
            (
              m,
              rw (← given.0) (require-stored bucket key version_id m found),
              rw given.1 (not_shorter (retention_of m.object_lock) r long),
              given.2,
            )
      ]

  -- The rows after the write of a plan.
  pub write-row :
      (between : List Message) (k : ManifestKey) (lock : ObjectLock) (m : Manifest)
      → ((q : Bytes) → e.objects.get (run e db between).objects q ≡ e.objects.get db.objects q)
      → e.objects.get db.objects (encode k) ≡ some m
      → (q : Bytes)
      → e.objects.get (write_lock e f db between (ok (k, lock))).1.objects q ≡ (
          if same bytes_order q (encode k)
          then some (record m { object_lock = some lock })
          else e.objects.get db.objects q)
  unfolding write_lock handle_update_manifest_lock
  write-row between k lock m same_rows row q =
      let now_row : e.objects.get (run e db between).objects (encode k) ≡ some m =
        same_rows (encode k) ∙ row in
      rw (now_row, get-insert e.objects _ (encode k) q _, same_rows q) refl

  -- The row that stands where the lock is written.
  pub row_at :
      (k : ManifestKey) (m : Manifest) (q : Bytes)
      → e.objects.get db.objects (encode k) ≡ some m
      → same bytes_order q (encode k) ≡ true
      → e.objects.get db.objects q ≡ some m
  row_at k m q row own =
      ap (e.objects.get db.objects) (cmp_bytes_eq q (encode k) (ground arith)) ∙ row

  -- The write of a lock that keeps the row's own.
  write-RowKept :
      (between : List Message) (k : ManifestKey) (lock : ObjectLock) (m : Manifest)
      → ((q : Bytes) → e.objects.get (run e db between).objects q ≡ e.objects.get db.objects q)
      → e.objects.get db.objects (encode k) ≡ some m
      → LongEnough (retention_of m.object_lock) lock.retention
      → lock.legal_hold ≡ held m.object_lock
      → (q : Bytes)
      → RowKept
          (e.objects.get db.objects q)
          (e.objects.get (write_lock e f db between (ok (k, lock))).1.objects q)
  write-RowKept between k lock m same_rows row long hold q =
      rw (write-row between k lock m same_rows row q)
        (elim (Bool-cases (same bytes_order q (encode k))) [
          | inl own ↦ rw (own, row_at k m q row own) (long, hold)
          | inr other ↦ rw other (RowKept-refl (e.objects.get db.objects q))
        ])

  -- `put_object_retention` never shortens a retention and never changes a legal hold, of any row:
  -- if no message that comes between its read and its write changes a row.
  pub retention_never_shortened :
      (between : List Message) (bucket key : Bytes) (version_id : Option Bytes) (body : Bytes)
      → ((q : Bytes) → e.objects.get (run e db between).objects q ≡ e.objects.get db.objects q)
      → (q : Bytes)
      → RowKept (e.objects.get db.objects q) (
          e.objects.get
            (put_object_retention e f db between bucket key version_id body).1.objects
            q)
  unfolding put_object_retention write_lock
  retention_never_shortened between bucket key version_id body same_rows q =
      elim (Result-cases (retention_plan e f db bucket key version_id body)) [
        | inr (x, g) ↦ rw g (RowKept-refl (e.objects.get db.objects q))
        | inl ((k, lock), g) ↦
            let (m, row, long, hold) = retention_plan-fits bucket key version_id body k lock g in
            rw g (write-RowKept between k lock m same_rows row long hold q)
      ]

  -- Under the same condition, an object version that may not be deleted at a time may not be deleted
  -- at that time after `put_object_retention` either.
  pub retention-still_forbids :
      (between : List Message) (bucket key : Bytes) (version_id : Option Bytes) (body : Bytes)
      → ((q : Bytes) → e.objects.get (run e db between).objects q ≡ e.objects.get db.objects q)
      → (q : Bytes) (m : Manifest) (lock : ObjectLock) (now : Time)
      → e.objects.get db.objects q ≡ some m
      → m.object_lock ≡ some lock
      → forbids_delete lock now ≡ true
      → (m' : Manifest) × (lock' : ObjectLock) × (e.objects.get
            (put_object_retention e f db between bucket key version_id body).1.objects
            q
          ≡ some m')
        × (m'.object_lock ≡ some lock')
        × (forbids_delete lock' now ≡ true)
  retention-still_forbids between bucket key version_id body same_rows q m lock now row own
        forbids =
      let kept =
        rw row at (retention_never_shortened between bucket key version_id body same_rows q) in
      let after = (put_object_retention e f db between bucket key version_id body).1 in
      elim (Option-cases (e.objects.get after.objects q)) [
        | inl gone ↦ absurd (rw gone at kept)
        | inr (m', there) ↦
            let (long, hold) = rw there at kept in
            let (lock', has, still) =
              kept_forbids m'.object_lock lock now (rw own at long) (rw own at hold) forbids in
            (m', lock', there, has, still)
      ]
