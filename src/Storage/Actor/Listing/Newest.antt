-- ===== src/Storage/Actor/Listing/Newest.antt =====
-- `handle_list_objects` of src/storage/db/actor.rs: that no key is left out.
use s3lite.Common.{
  ◌≤◌, not, ◌&&◌, true, false, ◌≡◌, ◌⊎◌, ◌∙◌, sym, refl, ap, inl, inr, Option, none, some, List, [],
  ◌∷◌, Ordering, arith, Bool-cases,
}
use s3lite.Common.Order.{
  Bytes, bytes_order, same, same_refl, cmp_bytes, cmp_bytes_eq, cmp_bytes_refl,
}
use s3lite.Common.OrdMap.{lookup, IsSorted}
use s3lite.Common.OrdMap.Laws.{lookup-upsert}
use s3lite.Common.OrdMap.Members.{In, Above-In}
use s3lite.Common.Text.{is_prefix}
use s3lite.Storage.Manifest.{Manifest, encode}
use s3lite.Storage.Manifest.Key.{NulFree, then_cmp, cmp-encode}
use s3lite.Storage.Actor.Scan.{is_committed, is_newer}
use s3lite.Storage.Actor.Scan.Latest.{Covers}
use s3lite.Storage.Actor.Listing.{latest_by_key}
use s3lite.Storage.Actor.Listing.Items.{taken}

-- Past a text that is at or above the prefix and does not start with it, no text does.
stays_outside :
    (p x y : Bytes)
    → ¬ (cmp_bytes x p ≡ Ordering.lt)
    → is_prefix p x ≡ false
    → cmp_bytes x y ≡ Ordering.lt
    → is_prefix p y ≡ false
unfolding cmp_bytes is_prefix
stays_outside [] x y h o l = cc
stays_outside (a ∷ p) [] y h o l = absurd (h refl)
stays_outside (a ∷ p) (b ∷ x) [] h o l = refl
stays_outside (a ∷ p) (b ∷ x) (c ∷ y) h o l = ground (arith, stays_outside p x y)

-- Behind a committed row outside the prefix, every row is outside.
abbrev pub StopsRight : Bytes → List (Bytes × Manifest) → Type 0
StopsRight prefix [] = Unit
StopsRight prefix ((j, r) ∷ rows) =
    ((is_committed r.state && not (is_prefix prefix r.key.key)) ≡ true
      → (k : Bytes) (m : Manifest) → In (k, m) rows
      → is_prefix prefix m.key.key ≡ false)
    × StopsRight prefix rows

-- A row of the bucket under its own key that is not below the prefix.
abbrev pub Inside : Bytes → Bytes → Bytes → Manifest → Type 0
Inside bucket prefix k m =
    (k ≡ encode m.key)
    × (m.key.bucket ≡ bucket)
    × NulFree m.key.bucket
    × NulFree m.key.key
    × ¬ (cmp_bytes m.key.key prefix ≡ Ordering.lt)

key_order : (c d : Ordering) → then_cmp c d ≡ Ordering.lt → (c ≡ Ordering.lt) ⊎ (c ≡ Ordering.eq)
key_order Ordering.lt d h = inl refl
key_order Ordering.eq d h = inr refl
key_order Ordering.gt d h = cc

-- The step of the order: what stands behind a row outside the prefix is outside.
outside_after :
    (bucket prefix j k : Bytes) (r m : Manifest)
    → Inside bucket prefix j r
    → Inside bucket prefix k m
    → cmp_bytes j k ≡ Ordering.lt
    → is_prefix prefix r.key.key ≡ false
    → is_prefix prefix m.key.key ≡ false
outside_after bucket prefix j k r m (jr, rb, rn, rk, rp) (km, mb, mn, mk, mp) before o =
    let order = sym (cmp-encode r.key m.key rn mn rk mk) ∙ (rw (jr, km) at before) in
    let buckets : cmp_bytes r.key.bucket m.key.bucket ≡ Ordering.eq =
      rw (rb, mb) (cmp_bytes_refl bucket) in
    elim (key_order (cmp_bytes r.key.key m.key.key) _ (rw buckets at order)) [
      | inl below ↦ stays_outside prefix r.key.key m.key.key rp o below
      | inr level ↦ rw (← cmp_bytes_eq r.key.key m.key.key level) o
    ]

pub sorted-StopsRight :
    (bucket prefix : Bytes) (rows : List (Bytes × Manifest))
    → IsSorted bytes_order rows
    → ((k : Bytes) (m : Manifest) → In (k, m) rows → Inside bucket prefix k m)
    → StopsRight prefix rows
sorted-StopsRight bucket prefix [] s fits = tt
sorted-StopsRight bucket prefix ((j, r) ∷ rows) s fits = (
  λ o k m i.
      outside_after bucket prefix j k r m (fits j r (inl refl)) (fits k m (inr i))
        (Above-In bytes_order j k m rows s.0 i) (ground arith),
  sorted-StopsRight bucket prefix rows s.1 (λ k m i. fits k m (inr i)),
)

newer-Covers :
    (m r : Manifest) (o : Option Manifest)
    → Covers m o
    → is_newer o r ≡ true
    → m.last_modified ≤ r.last_modified
newer-Covers m r none h n = absurd h
newer-Covers m r (some l) h n = ground arith

not_newer-Covers : (m : Manifest) (o : Option Manifest) → is_newer o m ≡ false → Covers m o
not_newer-Covers m none n = cc
not_newer-Covers m (some l) n = ground arith

taken-Covers_mono :
    (key : Bytes) (m : Manifest) (latest : List (Bytes × Manifest)) (r : Manifest)
    → Covers m (lookup bytes_order key latest)
    → Covers m (lookup bytes_order key (taken latest r))
taken-Covers_mono key m latest r h =
    elim (Bool-cases (is_committed r.state && is_newer (lookup bytes_order r.key.key latest) r)) [
      | inr skip ↦ rw skip h
      | inl take ↦
          rw (take, lookup-upsert bytes_order r.key.key key r latest)
            (elim (Bool-cases (same bytes_order key r.key.key)) [
              | inr other ↦ rw other h
              | inl own ↦
                  let at_own = cmp_bytes_eq key r.key.key (ground arith) in
                  rw own (
                    newer-Covers m r (lookup bytes_order r.key.key latest) (rw at_own at h)
                      (ground arith))
            ])
    ]

taken-Covers :
    (latest : List (Bytes × Manifest)) (m : Manifest)
    → is_committed m.state ≡ true
    → Covers m (lookup bytes_order m.key.key (taken latest m))
taken-Covers latest m c = elim (Bool-cases (is_newer (lookup bytes_order m.key.key latest) m)) [
  | inr skip ↦ rw (c, skip) (not_newer-Covers m (lookup bytes_order m.key.key latest) skip)
  | inl take ↦
      rw
        (
          c,
          take,
          lookup-upsert bytes_order m.key.key m.key.key m latest,
          same_refl bytes_order m.key.key,
        )
        (omega arith)
]

module _ (prefix : Bytes) where
  latest-Covers_mono :
      (key : Bytes) (m : Manifest) (latest rows : List (Bytes × Manifest))
      → Covers m (lookup bytes_order key latest)
      → Covers m (lookup bytes_order key (latest_by_key prefix latest rows))
  unfolding latest_by_key
  latest-Covers_mono key m latest [] h = h
  latest-Covers_mono key m latest ((j, r) ∷ rows) h =
      elim (Bool-cases (is_committed r.state && not (is_prefix prefix r.key.key))) [
        | inl outside ↦ rw outside h
        | inr inside ↦
            rw inside
              (latest-Covers_mono key m (taken latest r) rows (taken-Covers_mono key m latest r h))
      ]

  -- The map has for the key of every committed row with the prefix a manifest at least as new.
  pub latest-Covers :
      (k : Bytes) (m : Manifest) (latest rows : List (Bytes × Manifest))
      → StopsRight prefix rows
      → In (k, m) rows
      → is_committed m.state ≡ true
      → is_prefix prefix m.key.key ≡ true
      → Covers m (lookup bytes_order m.key.key (latest_by_key prefix latest rows))
  unfolding latest_by_key
  latest-Covers k m latest [] right i c p = absurd i
  latest-Covers k m latest ((j, r) ∷ rows) right i c p = elim i [
    | inl here ↦
        let m_r = ap (λ (x : Bytes × Manifest). x.1) here in
        let go_on : (is_committed r.state && not (is_prefix prefix r.key.key)) ≡ false =
          rw (← m_r, c, p) refl in
        rw (go_on, ← m_r)
          (latest-Covers_mono m.key.key m (taken latest m) rows (taken-Covers latest m c))
    | inr later ↦ elim (Bool-cases (is_committed r.state && not (is_prefix prefix r.key.key))) [
      | inl outside ↦ cc (sym p ∙ right.0 outside k m later)
      | inr inside ↦ rw inside (latest-Covers k m (taken latest r) rows right.1 later c p)
    ]
  ]
