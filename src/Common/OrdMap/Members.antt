-- ===== src/Common/OrdMap/Members.antt =====
-- Membership in a list of entries: what a lookup and a range of an ordered map hold.
use Prim.Native.Nat.{Ordering}
use mathlib.Core.Path.{◌≡◌, refl}
use mathlib.Core.Logic.{◌⊎◌, inl, inr}
use mathlib.Core.Bool.{true}
use mathlib.Core.Option.{some}
use mathlib.Core.List.{List, [], ◌∷◌, ◌++◌}
use native.Mathlib.Omega.{arith}
use s3lite.Common.Order.{Order}
use s3lite.Common.OrdMap.{lookup, upsert, between, is_between, Above, IsSorted}

-- `x` is an element of the list. It computes to a sum that the tactics take apart.
abbrev pub In : {A : Type 0} → A → List A → Type 0
In x [] = ⊥
In x (y ∷ l) = (x ≡ y) ⊎ In x l

module _ {K : Type 0} {V : Type 0} (o : Order K) where
  pub In-lookup : (k : K) (v : V) (l : List (K × V)) → lookup o k l ≡ some v → In (k, v) l
  unfolding lookup
  In-lookup k v [] h = cc
  In-lookup k v ((j, w) ∷ l) h = ground (arith, o.cmp_eq k j, In-lookup k v l)

  pub Above-In :
      (b k : K) (v : V) (l : List (K × V)) → Above o b l → In (k, v) l → o.cmp b k ≡ Ordering.lt
  Above-In b k v ((j, w) ∷ l) a h = ground (arith, Above-In b k v l a.1)
  Above-In b k v [] a h = absurd h

  pub lookup-In :
      (k : K) (v : V) (l : List (K × V)) → IsSorted o l → In (k, v) l → lookup o k l ≡ some v
  unfolding lookup
  lookup-In k v [] s h = absurd h
  lookup-In k v ((j, w) ∷ l) s h =
      ground (arith, o.cmp_eq k j, o.cmp_refl k, Above-In j k v l s.0, lookup-In k v l s.1)

  pub In-between :
      (lo hi k : K) (v : V) (l : List (K × V))
      → In (k, v) l
      → is_between o lo hi k ≡ true
      → In (k, v) (between o lo hi l)
  unfolding between
  In-between lo hi k v [] h b = absurd h
  In-between lo hi k v ((j, w) ∷ l) h b = ground (arith, In-between lo hi k v l)

  pub between-In :
      (lo hi k : K) (v : V) (l : List (K × V))
      → In (k, v) (between o lo hi l)
      → In (k, v) l × (is_between o lo hi k ≡ true)
  unfolding between
  between-In lo hi k v [] h = absurd h
  between-In lo hi k v ((j, w) ∷ l) h = ground (arith, between-In lo hi k v l)

  -- What an insertion leaves in the map was there, or is the new entry.
  pub In-upsert :
      (k q : K) (v w : V) (l : List (K × V))
      → In (q, w) (upsert o k v l)
      → ((q ≡ k) × (w ≡ v)) ⊎ In (q, w) l
  unfolding upsert
  In-upsert k q v w [] h = ground arith
  In-upsert k q v w ((j, u) ∷ l) h = ground (arith, In-upsert k q v w l)

  Above-between : (b lo hi : K) (l : List (K × V)) → Above o b l → Above o b (between o lo hi l)
  unfolding between
  Above-between b lo hi [] h = tt
  Above-between b lo hi ((j, u) ∷ l) h = ground (arith, Above-between b lo hi l)

  -- A range of a sorted map is sorted.
  pub IsSorted-between :
      (lo hi : K) (l : List (K × V)) → IsSorted o l → IsSorted o (between o lo hi l)
  unfolding between
  IsSorted-between lo hi [] h = tt
  IsSorted-between lo hi ((j, u) ∷ l) h =
      ground (arith, IsSorted-between lo hi l, Above-between j lo hi l)

-- An element of a list with one more at the end.
pub In-snoc : {A : Type 0} (x y : A) (l : List A) → In x (l ++ y ∷ []) → In x l ⊎ (x ≡ y)
In-snoc x y [] h = ground arith
In-snoc x y (z ∷ l) h = ground (arith, In-snoc x y l)

pub snoc-In : {A : Type 0} (x y : A) (l : List A) → In x l → In x (l ++ y ∷ [])
snoc-In x y [] h = absurd h
snoc-In x y (z ∷ l) h = ground (arith, snoc-In x y l)

pub last-In : {A : Type 0} (y : A) (l : List A) → In y (l ++ y ∷ [])
last-In y [] = inl refl
last-In y (z ∷ l) = inr (last-In y l)
