-- ===== src/Common/OrdMap.antt =====
-- Ordered maps as association lists in ascending key order: Rust's `BTreeMap`, and the view of a
-- database table that `Storage.Engine` states its laws by.
use Prim.Native.Nat.{ℕ, ◌+◌, Ordering}
use mathlib.Core.Path.{◌≡◌}
use mathlib.Core.Bool.{Bool, not, ◌&&◌}
use mathlib.Core.Option.{Option, none, some}
use mathlib.Core.List.{List, [], ◌∷◌}
use s3lite.Common.Tests.{if◌then◌else◌}
use s3lite.Common.Order.{Order, same, less}
pub mod Laws
pub mod Totals
pub mod Members

-- `lo <= k && k < hi`
abbrev pub is_between : {K : Type 0} → Order K → K → K → K → Bool
is_between o lo hi k = not (less o k lo) && less o k hi

module _ {ℓ} {K : Type 0} {V : Type ℓ} (o : Order K) where
  -- `BTreeMap::get`
  unfoldable pub lookup : K → List (K × V) → Option V
  lookup k [] = none
  lookup k ((j, v) ∷ l) = if same o k j then some v else lookup k l

  -- `BTreeMap::insert`
  unfoldable pub upsert : K → V → List (K × V) → List (K × V)
  upsert k v [] = (k, v) ∷ []
  upsert k v ((j, w) ∷ l) =
      let rest = (j, w) ∷ upsert k v l in
      elim (o.cmp k j) [
        | Ordering.lt ↦ (k, v) ∷ (j, w) ∷ l
        | Ordering.eq ↦ (k, v) ∷ l
        | Ordering.gt ↦ rest
      ]

  -- `BTreeMap::remove`
  unfoldable pub without : K → List (K × V) → List (K × V)
  without k [] = []
  without k ((j, v) ∷ l) = let rest = without k l in if same o k j then rest else (j, v) ∷ rest

  -- `range(lo..hi)`
  unfoldable pub between : K → K → List (K × V) → List (K × V)
  between lo hi [] = []
  between lo hi ((k, v) ∷ l) =
      let rest = between lo hi l in if is_between o lo hi k then (k, v) ∷ rest else rest

  -- Every key of the list lies above `k`.
  abbrev pub Above : K → List (K × V) → Type 0
  Above k [] = Unit
  Above k ((j, v) ∷ l) = (o.cmp k j ≡ Ordering.lt) × Above k l

  abbrev pub IsSorted : List (K × V) → Type 0
  IsSorted [] = Unit
  IsSorted ((k, v) ∷ l) = Above k l × IsSorted l

module _ {ℓ} {K : Type 0} {V : Type ℓ} where
  -- The sum of a measure over the values.
  abbrev pub total : (V → ℕ) → List (K × V) → ℕ
  total f [] = 0
  total f ((k, v) ∷ l) = f v + total f l

-- The measure of the value that a key has, if it has one.
abbrev pub at {ℓ} : {V : Type ℓ} → (V → ℕ) → Option V → ℕ
at f none = 0
at f (some v) = f v
