-- ===== src/Storage/Actor/Parts/Freed.antt =====
-- Which parts a release reports as free: exactly those whose count reaches 0.
use native.Mathlib.Decide.{dec_le}
use s3lite.Common.{◌<◌, ◌≡◌, ◌⊎◌, inl, inr, Option, none, some, List, [], ◌∷◌, ◌++◌, arith}
use s3lite.Common.Order.{cmp_bytes_eq, bytes_order, same_refl}
use s3lite.Common.OrdMap.Members.{In}
use s3lite.Storage.Manifest.{Hash, PartRef}
use s3lite.Storage.Engine.{Engine}
use s3lite.Storage.Engine.Laws.{get-insert}
use s3lite.Storage.Actor.Parts.{push_freed, dec_part_refcount, dec_all}
use s3lite.Storage.Actor.Parts.Counts.{refs, refcount, dec_all_refcount}

pub In-push : (q h : Hash) (l : List Hash) → In q (l ++ h ∷ []) → In q l ⊎ (q ≡ h)
In-push q h [] i = ground arith
In-push q h (x ∷ l) i = ground (arith, In-push q h l)

pub push-In : (q h : Hash) (l : List Hash) → In q l ⊎ (q ≡ h) → In q (l ++ h ∷ [])
push-In q h [] i = ground arith
push-In q h (x ∷ l) i = ground (arith, push-In q h l)

push_freed_keeps :
    (o : Option Hash) (freed : List Hash) (q : Hash) → In q freed → In q (push_freed freed o)
push_freed_keeps none freed q i = i
push_freed_keeps (some h) freed q i = push-In q h freed (inl i)

push_freed_sound :
    (o : Option Hash) (freed : List Hash) (q : Hash)
    → In q (push_freed freed o)
    → In q freed ⊎ (o ≡ some q)
push_freed_sound none freed q i = inl i
push_freed_sound (some h) freed q i = ground (arith, In-push q h freed i)

push_freed_hit :
    (o : Option Hash) (freed : List Hash) (q : Hash) → o ≡ some q → In q (push_freed freed o)
push_freed_hit none freed q h = cc
push_freed_hit (some h) freed q e = push-In q h freed (inr (ground arith))

module _ (e : Engine) where
  -- What one decrement reports is the hash, with count 0 after it.
  pub dec_reports :
      (parts : e.PartTable) (hash q : Hash)
      → (dec_part_refcount e parts hash).0 ≡ some q
      → (q ≡ hash) × (refcount e (dec_part_refcount e parts hash).1 q ≡ 0)
  unfolding dec_part_refcount
  dec_reports parts hash q h =
      grind (arith, get-insert e.parts, cmp_bytes_eq q hash, same_refl bytes_order q)

  -- A count that falls to 0 is reported.
  pub dec_reported :
      (parts : e.PartTable) (hash q : Hash)
      → 0 < refcount e parts q
      → refcount e (dec_part_refcount e parts hash).1 q ≡ 0
      → (q ≡ hash) × ((dec_part_refcount e parts hash).0 ≡ some q)
  unfolding dec_part_refcount
  dec_reported parts hash q pos h =
      grind (arith, get-insert e.parts, cmp_bytes_eq q hash, same_refl bytes_order q)

  -- What was reported stays reported.
  pub dec_all_keeps :
      (freed : List Hash) (parts : e.PartTable) (l : List PartRef) (q : Hash)
      → In q freed
      → In q (dec_all e freed parts l).0
  unfolding dec_all
  dec_all_keeps freed parts [] q i = i
  dec_all_keeps freed parts (p ∷ l) q i =
      let first = dec_part_refcount e parts p.hash in
      dec_all_keeps (push_freed freed first.0) first.1 l q (push_freed_keeps first.0 freed q i)

  -- Every hash that a release reports has count 0 after it.
  pub freed_sound :
      (freed : List Hash) (parts : e.PartTable) (l : List PartRef) (q : Hash)
      → In q (dec_all e freed parts l).0
      → In q freed ⊎ (refcount e (dec_all e freed parts l).1 q ≡ 0)
  unfolding dec_all
  freed_sound freed parts [] q i = inl i
  freed_sound freed parts (p ∷ l) q i =
      let first = dec_part_refcount e parts p.hash in
      let last = dec_all_refcount e (push_freed freed first.0) first.1 l q in
      elim (freed_sound (push_freed freed first.0) first.1 l q i) [
        | inl early ↦ elim (push_freed_sound first.0 freed q early) [
          | inl old ↦ inl old
          | inr new ↦ inr (omega (arith, last, (dec_reports parts p.hash q new).1))
        ]
        | inr done ↦ inr done
      ]

  -- Every hash whose count falls to 0 in a release is reported.
  pub freed_complete :
      (freed : List Hash) (parts : e.PartTable) (l : List PartRef) (q : Hash)
      → 0 < refcount e parts q
      → refcount e (dec_all e freed parts l).1 q ≡ 0
      → In q (dec_all e freed parts l).0
  unfolding dec_all
  freed_complete freed parts [] q pos h = absurd (omega arith)
  freed_complete freed parts (p ∷ l) q pos h =
      let first = dec_part_refcount e parts p.hash in
      elim (dec_le (refcount e first.1 q) 0) [
        | yes z ↦
            let (_, r) = dec_reported parts p.hash q pos (omega arith) in
            dec_all_keeps (push_freed freed first.0) first.1 l q (push_freed_hit first.0 freed q r)
        | no z ↦ freed_complete (push_freed freed first.0) first.1 l q (omega arith) h
      ]

  -- Only a hash that the release refers to is reported.
  pub freed_refs :
      (freed : List Hash) (parts : e.PartTable) (l : List PartRef) (q : Hash)
      → In q (dec_all e freed parts l).0
      → In q freed ⊎ (0 < refs q l)
  unfolding dec_all
  freed_refs freed parts [] q i = inl i
  freed_refs freed parts (p ∷ l) q i =
      let first = dec_part_refcount e parts p.hash in
      elim (freed_refs (push_freed freed first.0) first.1 l q i) [
        | inl early ↦ elim (push_freed_sound first.0 freed q early) [
          | inl old ↦ inl old
          | inr new ↦
              let here = (dec_reports parts p.hash q new).0 in
              inr (ground (arith, here, same_refl bytes_order q))
        ]
        | inr later ↦ inr (omega (arith, later))
      ]
