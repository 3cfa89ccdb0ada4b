-- ===== src/Common/OrdMap/Laws.antt =====
-- Reading an ordered map after a write, and the order that the writes keep.
use s3lite.Common.Tests.{if◌then◌else◌}
use Prim.Native.Nat.{Ordering}
use mathlib.Core.Path.{◌≡◌, refl}
use mathlib.Core.Option.{none, some}
use mathlib.Core.List.{List, [], ◌∷◌}
use native.Mathlib.Omega.{arith}
use s3lite.Common.Order.{Order, same}
use s3lite.Common.OrdMap.{lookup, upsert, without, Above, IsSorted}

module _ {ℓ} {K : Type 0} {V : Type ℓ} (o : Order K) where
  pub lookup-upsert :
      (k q : K) (v : V) (l : List (K × V))
      → lookup o q (upsert o k v l) ≡ (if same o q k then some v else lookup o q l)
  unfolding lookup upsert
  lookup-upsert k q v [] = refl
  lookup-upsert k q v ((j, w) ∷ l) = ground (
    arith,
    o.cmp_eq k j,
    o.cmp_eq q j,
    o.cmp_eq q k,
    o.cmp_refl k,
    o.cmp_refl q,
    lookup-upsert k q v l,
  )

  pub lookup-without :
      (k q : K) (l : List (K × V))
      → lookup o q (without o k l) ≡ (if same o q k then none else lookup o q l)
  unfolding lookup without
  lookup-without k q [] = ground arith
  lookup-without k q ((j, w) ∷ l) = ground (
    arith,
    o.cmp_eq k j,
    o.cmp_eq q j,
    o.cmp_eq q k,
    o.cmp_refl k,
    o.cmp_refl q,
    lookup-without k q l,
  )

  -- A key below all keys of a list is not in it.
  pub lookup-Above : (k : K) (l : List (K × V)) → Above o k l → lookup o k l ≡ none
  unfolding lookup
  lookup-Above k [] h = refl
  lookup-Above k ((j, w) ∷ l) h = ground (arith, lookup-Above k l)

  pub Above-trans :
      (k j : K) (l : List (K × V)) → o.cmp k j ≡ Ordering.lt → Above o j l → Above o k l
  Above-trans k j [] h a = tt
  Above-trans k j ((i, w) ∷ l) h a = (o.cmp_trans k j i h a.0, Above-trans k j l h a.1)

  Above-upsert :
      (b k : K) (v : V) (l : List (K × V))
      → o.cmp b k ≡ Ordering.lt
      → Above o b l
      → Above o b (upsert o k v l)
  unfolding upsert
  Above-upsert b k v [] h a = (h, tt)
  Above-upsert b k v ((j, w) ∷ l) h a = ground (arith, Above-upsert b k v l)

  pub IsSorted-upsert :
      (k : K) (v : V) (l : List (K × V)) → IsSorted o l → IsSorted o (upsert o k v l)
  unfolding upsert
  IsSorted-upsert k v [] s = (tt, tt)
  IsSorted-upsert k v ((j, w) ∷ l) s = ground (
    arith,
    o.cmp_eq k j,
    o.cmp_gt k j,
    Above-trans k j l,
    Above-upsert j k v l,
    IsSorted-upsert k v l,
  )

  Above-without : (b k : K) (l : List (K × V)) → Above o b l → Above o b (without o k l)
  unfolding without
  Above-without b k [] a = tt
  Above-without b k ((j, w) ∷ l) a = ground (arith, Above-without b k l)

  pub IsSorted-without : (k : K) (l : List (K × V)) → IsSorted o l → IsSorted o (without o k l)
  unfolding without
  IsSorted-without k [] s = tt
  IsSorted-without k ((j, w) ∷ l) s = ground (arith, Above-without j k l, IsSorted-without k l)
