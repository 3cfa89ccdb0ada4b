-- ===== src/Common/OrdMap/Totals.antt =====
-- How a sum over the values of an ordered map changes by a write.
use Prim.Native.Nat.{ℕ, ◌+◌}
use mathlib.Core.Path.{◌≡◌}
use mathlib.Core.Option.{none}
use mathlib.Core.List.{List, [], ◌∷◌}
use native.Mathlib.Omega.{arith}
use s3lite.Common.Order.{Order}
use s3lite.Common.OrdMap.{lookup, upsert, without, IsSorted, total, at}
use s3lite.Common.OrdMap.Laws.{lookup-Above, Above-trans}

module _ {ℓ} {K : Type 0} {V : Type ℓ} (o : Order K) (f : V → ℕ) where
  pub total-upsert :
      (k : K) (v : V) (l : List (K × V))
      → IsSorted o l
      → total f (upsert o k v l) + at f (lookup o k l) ≡ total f l + f v
  unfolding lookup upsert
  total-upsert k v [] s = omega arith
  total-upsert k v ((j, w) ∷ l) s =
      ground (arith, total-upsert k v l s.1, lookup-Above o k l, Above-trans o k j l)

  pub total-without_absent :
      (k : K) (l : List (K × V)) → lookup o k l ≡ none → total f (without o k l) ≡ total f l
  unfolding lookup without
  total-without_absent k [] h = omega arith
  total-without_absent k ((j, w) ∷ l) h = ground (arith, total-without_absent k l)

  pub total-without :
      (k : K) (l : List (K × V))
      → IsSorted o l
      → total f (without o k l) + at f (lookup o k l) ≡ total f l
  unfolding lookup without
  total-without k [] s = omega arith
  total-without k ((j, w) ∷ l) s = ground (
    arith,
    o.cmp_eq k j,
    lookup-Above o k l,
    lookup-Above o j l s.0,
    total-without_absent k l,
    total-without k l s.1,
  )
