-- ===== src/S3/Tagging/Last.antt =====
-- src/s3/tagging.rs: which tags of a document stay when they are collected into a map, and the order
-- in which a map is listed.
use s3lite.Common.{◌≡◌, ◌≢◌, ◌⊎◌, ◌↔◌, inl, inr, some, List, [], ◌∷◌, arith}
use Prim.Native.Nat.{Ordering}
use s3lite.Common.Order.{Bytes, bytes_order, cmp_bytes, cmp_bytes_eq, cmp_bytes_refl}
use s3lite.Common.OrdMap.{lookup, upsert, Above, IsSorted}
use s3lite.Common.OrdMap.Laws.{lookup-upsert, IsSorted-upsert}
use s3lite.Common.OrdMap.Members.{In, In-lookup, lookup-In}
use s3lite.Storage.Manifest.{StringMap}
use s3lite.S3.Tagging.{Tag, tag_list, collect_tags}

-- No tag of the list has the key.
abbrev pub Lacks : Bytes → List Tag → Type 0
Lacks k [] = Unit
Lacks k (t ∷ tags) = (t.key ≢ k) × Lacks k tags

-- A tag of the list has the key and the value, and no tag behind it has the key.
abbrev pub IsLast : Bytes → Bytes → List Tag → Type 0
IsLast k v [] = ⊥
IsLast k v (t ∷ tags) = ((t.key ≡ k) × (t.value ≡ v) × Lacks k tags) ⊎ IsLast k v tags

-- A tag of the list has the key and the value.
abbrev pub HasTag : Bytes → Bytes → List Tag → Type 0
HasTag k v [] = ⊥
HasTag k v (t ∷ tags) = ((t.key ≡ k) × (t.value ≡ v)) ⊎ HasTag k v tags

abbrev pub KeysAbove : Bytes → List Tag → Type 0
KeysAbove k [] = Unit
KeysAbove k (t ∷ tags) = (cmp_bytes k t.key ≡ Ordering.lt) × KeysAbove k tags

-- The keys ascend strictly, in the order of their bytes.
abbrev pub InKeyOrder : List Tag → Type 0
InKeyOrder [] = Unit
InKeyOrder (t ∷ tags) = KeysAbove t.key tags × InKeyOrder tags

HasTag-In : (k v : Bytes) (m : StringMap) → HasTag k v (tag_list m) → In (k, v) m
unfolding tag_list
HasTag-In k v [] h = absurd h
HasTag-In k v ((j, w) ∷ m) h = ground (arith, HasTag-In k v m)

In-HasTag : (k v : Bytes) (m : StringMap) → In (k, v) m → HasTag k v (tag_list m)
unfolding tag_list
In-HasTag k v [] h = absurd h
In-HasTag k v ((j, w) ∷ m) h = ground (arith, In-HasTag k v m)

KeysAbove-list : (k : Bytes) (m : StringMap) → Above bytes_order k m → KeysAbove k (tag_list m)
unfolding tag_list
KeysAbove-list k [] a = tt
KeysAbove-list k ((j, w) ∷ m) a = (a.0, KeysAbove-list k m a.1)

InKeyOrder-list : (m : StringMap) → IsSorted bytes_order m → InKeyOrder (tag_list m)
unfolding tag_list
InKeyOrder-list [] s = tt
InKeyOrder-list ((j, w) ∷ m) s = (KeysAbove-list j m s.0, InKeyOrder-list m s.1)

collect_tags-IsSorted :
    (out : StringMap) (tags : List Tag)
    → IsSorted bytes_order out
    → IsSorted bytes_order (collect_tags out tags)
unfolding collect_tags
collect_tags-IsSorted out [] s = s
collect_tags-IsSorted out (t ∷ tags) s =
    collect_tags-IsSorted (upsert bytes_order t.key t.value out) tags
      (IsSorted-upsert bytes_order t.key t.value out s)

-- What the map has for a key is the last value of the list, or what it had if the list lacks the key.
collected-IsLast :
    (k v : Bytes) (out : StringMap) (tags : List Tag)
    → lookup bytes_order k (collect_tags out tags) ≡ some v
    → IsLast k v tags ⊎ (Lacks k tags × (lookup bytes_order k out ≡ some v))
unfolding collect_tags
collected-IsLast k v out [] h = inr (tt, h)
collected-IsLast k v out (t ∷ tags) h = ground (
  arith,
  lookup-upsert bytes_order t.key k t.value out,
  cmp_bytes_eq k t.key,
  cmp_bytes_refl k,
  collected-IsLast k v (upsert bytes_order t.key t.value out) tags h,
)

IsLast-collected :
    (k v : Bytes) (out : StringMap) (tags : List Tag)
    → IsLast k v tags ⊎ (Lacks k tags × (lookup bytes_order k out ≡ some v))
    → lookup bytes_order k (collect_tags out tags) ≡ some v
unfolding collect_tags
IsLast-collected k v out [] h = ground arith
IsLast-collected k v out (t ∷ tags) h =
    IsLast-collected k v (upsert bytes_order t.key t.value out) tags (
      ground (
        arith,
        lookup-upsert bytes_order t.key k t.value out,
        cmp_bytes_eq k t.key,
        cmp_bytes_refl k,
        h,
      ))

nothing-collected :
    (k v : Bytes) (tags : List Tag)
    → (lookup bytes_order k (collect_tags [] tags) ≡ some v) ↔ IsLast k v tags
unfolding lookup
nothing-collected k v tags =
    (λ h. ground (arith, collected-IsLast k v [] tags h), λ h. IsLast-collected k v [] tags (inl h))

-- The tags that are listed for the map of a document: the last value of each of its keys.
pub listed_exact :
    (k v : Bytes) (tags : List Tag) → HasTag k v (tag_list (collect_tags [] tags)) ↔ IsLast k v tags
listed_exact k v tags =
    let m = collect_tags [] tags in
    (
      λ h.
          (nothing-collected k v tags).0
            (lookup-In bytes_order k v m (collect_tags-IsSorted [] tags tt) (HasTag-In k v m h)),
      λ h. In-HasTag k v m (In-lookup bytes_order k v m ((nothing-collected k v tags).1 h)),
    )

pub listed-InKeyOrder : (tags : List Tag) → InKeyOrder (tag_list (collect_tags [] tags))
listed-InKeyOrder tags = InKeyOrder-list (collect_tags [] tags) (collect_tags-IsSorted [] tags tt)
