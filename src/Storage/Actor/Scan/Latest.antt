-- ===== src/Storage/Actor/Scan/Latest.antt =====
-- `handle_get_latest_version` of src/storage/db/actor.rs returns the newest committed version of
-- exactly the key that is asked for.
use s3lite.Common.{
  ◌≤◌, ◌≡◌, refl, ap, ◌⊎◌, inl, inr, ◌&&◌, Bool, true, Option, none, some, List, [], ◌∷◌, Result,
  ok, arith,
}
use s3lite.Common.Order.{Bytes, cmp_bytes_eq, cmp_bytes_refl, bytes_order, same}
use s3lite.Common.OrdMap.{is_between}
use s3lite.Common.OrdMap.Members.{In, In-lookup, lookup-In, In-between, between-In}
use s3lite.Storage.Manifest.{committed, Manifest, encode}
use s3lite.Storage.Manifest.Key.{NulFree}
use s3lite.Storage.Errors.{MetaError}
use s3lite.Storage.Engine.{Engine, Db}
use s3lite.Storage.Actor.Scan
use s3lite.Storage.Actor.Scan.{
  is_newer, pick_step, key_start, key_end, pick_latest, handle_get_latest_version,
}
use s3lite.Storage.Actor.Scan.Ranges.{key_range}
use s3lite.Storage.Actor.Ops.Keyed.{IsKeyed}

-- A committed version of the key.
pub record IsVersion (bucket key : Bytes) (m : Manifest) : Type 0 where
  pub in_bucket : m.key.bucket ≡ bucket
  pub at_key : m.key.key ≡ key
  pub is_committed : m.state ≡ committed

-- A row that the loop does not pass over.
abbrev counts : Bytes → Bytes → Manifest → Bool
counts bucket key m =
    Scan.is_committed m.state
    && same bytes_order m.key.bucket bucket
    && same bytes_order m.key.key key

IsVersion-counts :
    (bucket key : Bytes) (m : Manifest) → IsVersion bucket key m → counts bucket key m ≡ true
IsVersion-counts bucket key m v =
    ground (arith, v.in_bucket, v.at_key, v.is_committed, cmp_bytes_refl bucket, cmp_bytes_refl key)

counts-IsVersion :
    (bucket key : Bytes) (m : Manifest) → counts bucket key m ≡ true → IsVersion bucket key m
counts-IsVersion bucket key m h = record {
  in_bucket = cmp_bytes_eq m.key.bucket bucket (ground arith);
  at_key = cmp_bytes_eq m.key.key key (ground arith);
  is_committed = ground arith;
}

-- The candidate is at least as new.
abbrev pub Covers : Manifest → Option Manifest → Type 0
Covers m none = ⊥
Covers m (some l) = m.last_modified ≤ l.last_modified

covered :
    (m : Manifest) (o : Option Manifest)
    → Covers m o
    → (l : Manifest) × (◌≡◌ {A = Result MetaError (Option Manifest)} (ok o) (ok (some l)))
      × (m.last_modified ≤ l.last_modified)
covered m none h = absurd h
covered m (some l) h = (l, refl, h)

module _ (bucket key : Bytes) where
  step-Covers_mono :
      (m : Manifest) (acc : Option Manifest) (r : Manifest)
      → Covers m acc
      → Covers m (pick_step bucket key acc r)
  unfolding pick_step
  step-Covers_mono m acc r h = ground arith

  step-Covers :
      (m : Manifest) (acc : Option Manifest) (r : Manifest)
      → m ≡ r
      → counts bucket key m ≡ true
      → Covers m (pick_step bucket key acc r)
  unfolding pick_step
  step-Covers m acc r e h = ground arith

  step_origin :
      (l : Manifest) (acc : Option Manifest) (r : Manifest)
      → pick_step bucket key acc r ≡ some l
      → (acc ≡ some l) ⊎ ((l ≡ r) × (counts bucket key l ≡ true))
  unfolding pick_step
  step_origin l acc r h = ground arith

  pick-Covers_mono :
      (m : Manifest) (acc : Option Manifest) (rows : List (Bytes × Manifest))
      → Covers m acc
      → Covers m (pick_latest bucket key acc rows)
  unfolding pick_latest
  pick-Covers_mono m acc [] h = h
  pick-Covers_mono m acc ((k, r) ∷ rows) h =
      pick-Covers_mono m (pick_step bucket key acc r) rows (step-Covers_mono m acc r h)

  pick-Covers :
      (m : Manifest) (k : Bytes) (acc : Option Manifest) (rows : List (Bytes × Manifest))
      → In (k, m) rows
      → counts bucket key m ≡ true
      → Covers m (pick_latest bucket key acc rows)
  unfolding pick_latest
  pick-Covers m k acc [] i h = absurd i
  pick-Covers m k acc ((j, r) ∷ rows) i h = elim i [
    | inl e ↦
        pick-Covers_mono m (pick_step bucket key acc r) rows
          (step-Covers m acc r (ap (λ (p : Bytes × Manifest). p.1) e) h)
    | inr later ↦ pick-Covers m k (pick_step bucket key acc r) rows later h
  ]

  pick_origin :
      (l : Manifest) (acc : Option Manifest) (rows : List (Bytes × Manifest))
      → pick_latest bucket key acc rows ≡ some l
      → (acc ≡ some l) ⊎ ((k : Bytes) × In (k, l) rows × (counts bucket key l ≡ true))
  unfolding pick_latest
  pick_origin l acc [] h = inl h
  pick_origin l acc ((j, r) ∷ rows) h = elim (pick_origin l (pick_step bucket key acc r) rows h) [
    | inl e ↦ elim (step_origin l acc r e) [
      | inl old ↦ inl old
      | inr (same_row, c) ↦ inr (j, inl (ap (λ (x : Manifest). (j, x)) same_row), c)
    ]
    | inr (k, i, c) ↦ inr (k, inr i, c)
  ]

module _ (e : Engine) (db : Db e) (keyed : IsKeyed e db.objects) (bucket key : Bytes) where
  -- What `get_latest_version` returns is a stored, committed version of the key.
  pub latest_stored :
      (l : Manifest)
      → handle_get_latest_version e db bucket key ≡ ok (some l)
      → IsVersion bucket key l × (e.objects.get db.objects (encode l.key) ≡ some l)
  unfolding handle_get_latest_version
  latest_stored l h =
      let rows = e.objects.range db.objects (key_start bucket key) (key_end bucket key) in
      elim (pick_origin bucket key l none rows (ground arith)) [
        | inl e ↦ absurd (cc)
        | inr (k, i, c) ↦
            let view = rw e.objects.range_view at i in
            let inside =
              between-In bytes_order (key_start bucket key) (key_end bucket key) k l _ view in
            let found = lookup-In bytes_order k l _ (e.objects.iter_IsSorted db.objects) inside.0 in
            let row : e.objects.get db.objects k ≡ some l = rw e.objects.get_view found in
            let own = rw row at (keyed k) in (counts-IsVersion bucket key l c, rw own.0 at row)
      ]

  -- Whenever a committed version of the key is stored, `get_latest_version` returns a version, and
  -- one that is at least as new. Bucket and key hold no NUL byte.
  pub latest_newest :
      NulFree bucket
      → NulFree key
      → (m : Manifest) → e.objects.get db.objects (encode m.key) ≡ some m
      → IsVersion bucket key m
      → (l : Manifest) × (handle_get_latest_version e db bucket key ≡ ok (some l))
        × (m.last_modified ≤ l.last_modified)
  unfolding handle_get_latest_version
  latest_newest hb hk m row v =
      let rows = e.objects.range db.objects (key_start bucket key) (key_end bucket key) in
      let own = rw row at (keyed (encode m.key)) in
      let inside : is_between bytes_order (key_start bucket key) (key_end bucket key) (encode m.key)
          ≡ true =
        rw (key_range bucket m.key hb own.1 key hk own.2)
          (ground (arith, v.in_bucket, v.at_key, cmp_bytes_refl bucket, cmp_bytes_refl key)) in
      let listed = In-lookup bytes_order (encode m.key) m _ (rw e.objects.get_view at row) in
      let i : In (encode m.key, m) rows = rw e.objects.range_view (
        In-between bytes_order (key_start bucket key) (key_end bucket key) (encode m.key) m _ listed
          inside) in
      covered m _
        (pick-Covers bucket key m (encode m.key) none rows i (IsVersion-counts bucket key m v))
