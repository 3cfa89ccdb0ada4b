-- ===== src/Storage/Actor/Multipart/Collected.antt =====
-- The closure `collect` of `handle_complete_multipart` in src/storage/db/actor.rs: what its calls leave
-- in the set of considered hashes and in the list of freed ones.
use s3lite.Common.{
  ◌<◌, ◌≡◌, ◌⊎◌, ◌↔◌, true, false, none, List, [], ◌∷◌, ok, arith, chain_succeeds, ℕ,
}
use s3lite.Common.Order.{bytes_order, same_refl, cmp_bytes_eq}
use s3lite.Common.OrdMap.Members.{In}
use s3lite.Storage.Manifest.{Hash, PartRef, Time}
use s3lite.Storage.Engine.{Engine}
use s3lite.Storage.Engine.Laws.{get-insert}
use s3lite.Storage.Actor.Parts.{push_freed, inc_part_refcount, dec_part_refcount, inc_all, dec_all}
use s3lite.Storage.Actor.Parts.Counts.{refs}
use s3lite.Storage.Actor.Parts.Freed.{In-push, push-In}
use s3lite.Storage.Actor.Multipart.{contains, hashes, is_unreferenced, collect, collect_all}

pub contains_iff : (q : Hash) (l : List Hash) → (contains q l ≡ true) ↔ In q l
unfolding contains
contains_iff q [] = ground arith
contains_iff q (h ∷ l) = ground (arith, contains_iff q l, cmp_bytes_eq q h, same_refl bytes_order q)

pub contains-hashes : (q : Hash) (l : List PartRef) → contains q (hashes l) ≡ true → 0 < refs q l
unfolding contains hashes
contains-hashes q [] h = cc
contains-hashes q (p ∷ l) h = ground (arith, contains-hashes q l)

module _ (e : Engine) (parts : e.PartTable) (new_hashes : List Hash) where
  -- The freed hashes are the considered ones that are not new and have count 0.
  abbrev pub Exact : List Hash × List Hash → Type 0
  Exact seen =
      (q : Hash)
      → In q seen.1 ↔ (
          In q seen.0
          × (contains q new_hashes ≡ false)
          × (is_unreferenced (e.parts.get parts q) ≡ true))

  collect-Exact :
      (seen : List Hash × List Hash) (h : Hash)
      → Exact seen
      → Exact (collect e parts new_hashes seen h)
  unfolding collect
  collect-Exact (considered, freed) h exact q =
      grind (arith, exact q, contains_iff h considered, In-push q h freed, push-In q h freed)

  collect-considered :
      (seen : List Hash × List Hash) (h q : Hash)
      → In q (collect e parts new_hashes seen h).0 ↔ (In q seen.0 ⊎ (q ≡ h))
  unfolding collect
  collect-considered (considered, freed) h q =
      ground (arith, contains_iff q considered, contains_iff h considered)

  pub collect_all-Exact :
      (seen : List Hash × List Hash) (l : List PartRef)
      → Exact seen
      → Exact (collect_all e parts new_hashes seen l)
  unfolding collect_all
  collect_all-Exact seen [] exact = exact
  collect_all-Exact seen (p ∷ l) exact =
      collect_all-Exact (collect e parts new_hashes seen p.hash) l (collect-Exact seen p.hash exact)

  pub collect_all-considered :
      (seen : List Hash × List Hash) (l : List PartRef) (q : Hash)
      → In q (collect_all e parts new_hashes seen l).0 ↔ (In q seen.0 ⊎ (0 < refs q l))
  unfolding collect_all
  collect_all-considered seen [] q = ground arith
  collect_all-considered seen (p ∷ l) q = ground (
    arith,
    collect_all-considered (collect e parts new_hashes seen p.hash) l q,
    collect-considered seen p.hash q,
    cmp_bytes_eq q p.hash,
    same_refl bytes_order q,
  )

-- A row of the PARTS table stays: where there is none afterwards, there was none.
module _ (e : Engine) where
  inc-none :
      (parts : e.PartTable) (hash : Hash) (size : ℕ) (now : Time) {parts' : e.PartTable} (q : Hash)
      → inc_part_refcount e parts hash size now ≡ ok parts'
      → e.parts.get parts' q ≡ none
      → e.parts.get parts q ≡ none
  unfolding inc_part_refcount
  inc-none parts hash size now {parts'} q h n =
      grind (arith, get-insert e.parts, cmp_bytes_eq q hash)

  dec-none :
      (parts : e.PartTable) (hash q : Hash)
      → e.parts.get (dec_part_refcount e parts hash).1 q ≡ none
      → e.parts.get parts q ≡ none
  unfolding dec_part_refcount
  dec-none parts hash q n = grind (arith, get-insert e.parts, cmp_bytes_eq q hash)

  pub inc_all-none :
      (parts : e.PartTable) (l : List PartRef) (now : Time) {parts' : e.PartTable} (q : Hash)
      → inc_all e parts l now ≡ ok parts'
      → e.parts.get parts' q ≡ none
      → e.parts.get parts q ≡ none
  unfolding inc_all
  inc_all-none parts [] now {parts'} q h n = ground arith
  inc_all-none parts (p ∷ l) now {parts'} q h n =
      let (mid, later, first) =
        chain_succeeds _ _ (inc_part_refcount e parts p.hash p.size now) h in
      inc-none parts p.hash p.size now q first (inc_all-none mid l now q later n)

  pub dec_all-none :
      (freed : List Hash) (parts : e.PartTable) (l : List PartRef) (q : Hash)
      → e.parts.get (dec_all e freed parts l).1 q ≡ none
      → e.parts.get parts q ≡ none
  unfolding dec_all
  dec_all-none freed parts [] q n = n
  dec_all-none freed parts (p ∷ l) q n =
      let first = dec_part_refcount e parts p.hash in
      dec-none parts p.hash q (dec_all-none (push_freed freed first.0) first.1 l q n)
