-- ===== src/Storage/Actor/Parts/Counts.antt =====
-- What the reference count of each part becomes.
use s3lite.Common.{
  ℕ, ◌+◌, ◌-◌, ◌≤◌, ◌<◌, ◌≡◌, Option, none, some, List, [], ◌∷◌, ok, chain_succeeds, arith,
  if◌then◌else◌,
}
use s3lite.Common.Order.{cmp_bytes_eq, bytes_order, same, same_refl}
use s3lite.Storage.Manifest.{Hash, PartRef, Time, PartEntry}
use s3lite.Storage.Engine.{Engine}
use s3lite.Storage.Engine.Laws.{get-insert}
use s3lite.Storage.Actor.Parts.{
  push_freed, u32_max, inc_part_refcount, dec_part_refcount, inc_all, dec_all,
}

-- The count of a row, 0 where there is none.
abbrev pub count_of : Option PartEntry → ℕ
count_of none = 0
count_of (some entry) = entry.refcount

-- How often a list of parts refers to a hash.
abbrev pub refs : Hash → List PartRef → ℕ
refs q [] = 0
refs q (p ∷ l) = (if same bytes_order q p.hash then 1 else 0) + refs q l

module _ (e : Engine) where
  abbrev pub refcount : e.PartTable → Hash → ℕ
  refcount parts q = count_of (e.parts.get parts q)

  pub inc_refcount :
      (parts : e.PartTable) (hash : Hash) (size : ℕ) (now : Time) {parts' : e.PartTable}
      → refcount parts hash < u32_max
      → inc_part_refcount e parts hash size now ≡ ok parts'
      → (q : Hash)
      → refcount parts' q ≡ refcount parts q + (if same bytes_order q hash then 1 else 0)
  unfolding inc_part_refcount
  inc_refcount parts hash size now {parts'} room h q =
      grind (arith, get-insert e.parts, cmp_bytes_eq q hash)

  pub dec_refcount :
      (parts : e.PartTable) (hash q : Hash)
      → refcount (dec_part_refcount e parts hash).1 q
        ≡ refcount parts q - (if same bytes_order q hash then 1 else 0)
  unfolding dec_part_refcount
  dec_refcount parts hash q = grind (arith, get-insert e.parts, cmp_bytes_eq q hash)

  -- After `inc_all` every count has grown by the number of references to it, if no count can
  -- reach the limit of `u32`.
  pub inc_all_refcount :
      (parts : e.PartTable) (l : List PartRef) (now : Time) {parts' : e.PartTable}
      → ((q : Hash) → refcount parts q + refs q l ≤ u32_max)
      → inc_all e parts l now ≡ ok parts'
      → (q : Hash) → refcount parts' q ≡ refcount parts q + refs q l
  unfolding inc_all
  inc_all_refcount parts [] now {parts'} room h q = ground arith
  inc_all_refcount parts (p ∷ l) now {parts'} room h q =
      let (mid, rest, first) = chain_succeeds _ _ (inc_part_refcount e parts p.hash p.size now) h in
      let step =
        inc_refcount parts p.hash p.size now
          (ground (arith, room p.hash, same_refl bytes_order p.hash)) first in
      let last = inc_all_refcount mid l now (λ r. ground (arith, step r, room r)) rest q in
      ground (arith, step q, last)

  -- After `dec_all` every count has fallen by the number of references to it, and stops at 0.
  pub dec_all_refcount :
      (freed : List Hash) (parts : e.PartTable) (l : List PartRef) (q : Hash)
      → refcount (dec_all e freed parts l).1 q ≡ refcount parts q - refs q l
  unfolding dec_all
  dec_all_refcount freed parts [] q = omega arith
  dec_all_refcount freed parts (p ∷ l) q =
      let first = dec_part_refcount e parts p.hash in
      let last = dec_all_refcount (push_freed freed first.0) first.1 l q in
      omega (arith, last, dec_refcount parts p.hash q)
