-- ===== src/S3/Maintenance/Rows.antt =====
-- src/s3/maintenance.rs: the manifests that the sweep groups and sorts are those that it listed.
use s3lite.Common.{refl, inl, inr, leb, List, [], ◌∷◌, ◌++◌, Bool-cases}
use Prim.Native.Nat.{Ordering}
use s3lite.Common.Order.{Bytes, bytes_order, same, cmp_bytes}
use s3lite.Common.OrdMap.{lookup, upsert}
use s3lite.Common.OrdMap.Members.{In}
use s3lite.Storage.Manifest.{Manifest, VersioningState, BucketConfig}
use s3lite.Storage.Actor.Versions.{or_default, insert_newest, sort_newest}
use s3lite.S3.Maintenance.{by_key}

module _ (Q : Manifest → Type 0) where
  abbrev pub All : List Manifest → Type 0
  All [] = Unit
  All (m ∷ l) = Q m × All l

  abbrev pub AllGroups : List (Bytes × List Manifest) → Type 0
  AllGroups [] = Unit
  AllGroups ((k, l) ∷ groups) = All l × AllGroups groups

  pub In-All : (l : List Manifest) → ((m : Manifest) → In m l → Q m) → All l
  In-All [] h = tt
  In-All (m ∷ l) h = (h m (inl refl), In-All l (λ r i. h r (inr i)))

  append-All : (l : List Manifest) (m : Manifest) → All l → Q m → All (l ++ m ∷ [])
  append-All [] m a q = (q, tt)
  append-All (r ∷ l) m a q = (a.0, append-All l m a.1 q)

  lookup-All :
      (k : Bytes) (groups : List (Bytes × List Manifest))
      → AllGroups groups
      → All (or_default (lookup bytes_order k groups))
  unfolding lookup
  lookup-All k [] a = tt
  lookup-All k ((j, l) ∷ groups) a = elim (Bool-cases (same bytes_order k j)) [
    | inl own ↦ rw own a.0
    | inr other ↦ rw other (lookup-All k groups a.1)
  ]

  upsert-All :
      (k : Bytes) (l : List Manifest) (groups : List (Bytes × List Manifest))
      → All l
      → AllGroups groups
      → AllGroups (upsert bytes_order k l groups)
  unfolding upsert
  upsert-All k l [] new a = (new, tt)
  upsert-All k l ((j, r) ∷ groups) new a =
      elim (cmp_bytes k j)
        as (λ c. AllGroups (elim c [
          | Ordering.lt ↦ (k, l) ∷ (j, r) ∷ groups
          | Ordering.eq ↦ (k, l) ∷ groups
          | Ordering.gt ↦ (j, r) ∷ upsert bytes_order k l groups
        ])) [
          | Ordering.lt ↦ (new, a)
          | Ordering.eq ↦ (new, a.1)
          | Ordering.gt ↦ (a.0, upsert-All k l groups new a.1)
        ]

  pub by_key-All :
      (groups : List (Bytes × List Manifest)) (manifests : List Manifest)
      → AllGroups groups
      → All manifests
      → AllGroups (by_key groups manifests)
  unfolding by_key
  by_key-All groups [] a h = a
  by_key-All groups (m ∷ manifests) a h =
      by_key-All
        (upsert bytes_order m.key.key (or_default (lookup bytes_order m.key.key groups) ++ m ∷ [])
          groups)
        manifests
        (upsert-All m.key.key _ groups (append-All _ m (lookup-All m.key.key groups a) h.0) a) h.1

  insert_newest-All : (m : Manifest) (l : List Manifest) → Q m → All l → All (insert_newest m l)
  unfolding insert_newest
  insert_newest-All m [] q a = (q, tt)
  insert_newest-All m (r ∷ l) q a = elim (Bool-cases (leb r.last_modified m.last_modified)) [
    | inl first ↦ rw first (q, a)
    | inr later ↦ rw later (a.0, insert_newest-All m l q a.1)
  ]

  pub sort_newest-All : (l : List Manifest) → All l → All (sort_newest l)
  unfolding sort_newest
  sort_newest-All [] a = tt
  sort_newest-All (m ∷ l) a = insert_newest-All m (sort_newest l) a.0 (sort_newest-All l a.1)

-- A property of every bucket's name and versioning state.
abbrev pub AllWrite : (Bytes → VersioningState → Type 0) → List (Bytes × BucketConfig) → Type 0
AllWrite Writes [] = Unit
AllWrite Writes ((bucket, cfg) ∷ buckets) = Writes bucket cfg.versioning × AllWrite Writes buckets

pub In-AllWrite :
    (Writes : Bytes → VersioningState → Type 0) (l : List (Bytes × BucketConfig))
    → ((bucket : Bytes) (cfg : BucketConfig) → In (bucket, cfg) l → Writes bucket cfg.versioning)
    → AllWrite Writes l
In-AllWrite Writes [] h = tt
In-AllWrite Writes ((bucket, cfg) ∷ buckets) h =
    (h bucket cfg (inl refl), In-AllWrite Writes buckets (λ b c i. h b c (inr i)))
