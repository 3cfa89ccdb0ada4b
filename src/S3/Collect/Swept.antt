-- ===== src/S3/Collect/Swept.antt =====
-- src/s3/maintenance.rs: what `sweep_gc` removes, and what it leaves.
use s3lite.Common.{
  ℕ, ◌==◌, not, ◌&&◌, ◌≡◌, ◌⊎◌, Bool, refl, ap, inl, inr, ◌∙◌, true, false, none, some, List, [],
  ◌∷◌, ok, arith, Option-cases, Bool-cases, if◌then◌else◌,
}
use s3lite.Common.Order.{bytes_order, same, same_refl}
use s3lite.Common.OrdMap.Members.{In, lookup-In}
use s3lite.Common.OrdMap.Laws.{lookup-without}
use s3lite.Storage.Manifest.{Hash, PartEntry}
use s3lite.Storage.Engine.{Engine, Db}
use s3lite.Storage.Engine.Laws.{get-insert, get-remove}
use s3lite.Storage.PartStore.{open_read, delete}
use s3lite.Storage.Actor.Parts.{
  part_keys, is_gc_pending, handle_mark_gc_pending, handle_remove_part, handle_list_orphan_parts,
}
use s3lite.S3.World.{External, World}
use s3lite.S3.Collect.{collect_part, sweep_parts, sweep_gc}
use s3lite.S3.Collect.Kept.{
  IsKept, IsKept-refl, IsKept-trans, collect_part-IsKept, absent-kept, used-kept, unlinked,
  free-unlinked,
}
use s3lite.S3.Object.Intact.{IsIntact, kept-IsIntact}

module _ (e : Engine) where
  sweep_parts-IsKept :
      (w : World e) (removed : ℕ) (orphans : List Hash)
      → IsKept e w (sweep_parts e w removed orphans).1
  unfolding sweep_parts
  sweep_parts-IsKept w removed [] = IsKept-refl e w
  sweep_parts-IsKept w removed (h ∷ orphans) =
      IsKept-trans e w (collect_part e w h) _ (collect_part-IsKept e w h)
        (sweep_parts-IsKept (collect_part e w h) _ orphans)

  -- A part whose row and file are gone.
  abbrev pub IsGone : World e → Hash → Type 0
  IsGone w q = (e.parts.get w.db.parts q ≡ none) × (open_read w.files q ≡ none)

  -- A part that has a row without references.
  abbrev pub IsOrphan : World e → Hash → Type 0
  IsOrphan w q =
      (entry : PartEntry) × (e.parts.get w.db.parts q ≡ some entry) × (entry.refcount ≡ 0)

  mark-other :
      (db : Db e) (h q : Hash)
      → same bytes_order q h ≡ false
      → e.parts.get (handle_mark_gc_pending e db h).1.parts q ≡ e.parts.get db.parts q
  unfolding handle_mark_gc_pending
  mark-other db h q other = elim (Option-cases (e.parts.get db.parts h)) [
    | inl absent ↦ rw absent refl
    | inr (entry, row) ↦ elim (Bool-cases (entry.refcount == 0)) [
      | inr used ↦ rw (row, used) refl
      | inl free ↦ rw (row, free, get-insert e.parts db.parts h q _, other) refl
    ]
  ]

  unlinked-row :
      (w : World e) (h q : Hash)
      → e.parts.get (unlinked e w h).db.parts q
        ≡ (if same bytes_order q h then none else e.parts.get w.db.parts q)
  unfolding handle_remove_part
  unlinked-row w h q = elim (Bool-cases (same bytes_order q h)) [
    | inl own ↦ get-remove e.parts (handle_mark_gc_pending e w.db h).1.parts h q ∙ rw own refl
    | inr other ↦
        get-remove e.parts (handle_mark_gc_pending e w.db h).1.parts h q
        ∙ rw (other, mark-other w.db h q other) refl
  ]

  unlinked-file :
      (w : World e) (h q : Hash)
      → open_read (unlinked e w h).files q
        ≡ (if same bytes_order q h then none else open_read w.files q)
  unfolding open_read delete
  unlinked-file w h q = lookup-without bytes_order h q w.files

  unlinked-own :
      (w : World e) (h q : Hash) → same bytes_order q h ≡ true → IsGone (unlinked e w h) q
  unlinked-own w h q own = (unlinked-row w h q ∙ rw own refl, unlinked-file w h q ∙ rw own refl)

  unlinked-IsGone : (w : World e) (h q : Hash) → IsGone w q → IsGone (unlinked e w h) q
  unlinked-IsGone w h q gone = elim (Bool-cases (same bytes_order q h)) [
    | inl own ↦ unlinked-own w h q own
    | inr other ↦ (
      unlinked-row w h q ∙ rw (other, gone.0) refl,
      unlinked-file w h q ∙ rw (other, gone.1) refl,
    )
  ]

  unlinked-IsOrphan :
      (w : World e) (h q : Hash)
      → same bytes_order q h ≡ false
      → IsOrphan w q
      → IsOrphan (unlinked e w h) q
  unlinked-IsOrphan w h q other (entry, row, free) =
      (entry, unlinked-row w h q ∙ rw (other, row) refl, free)

  orphan-IsGone : (w : World e) (h : Hash) → IsOrphan w h → IsGone (collect_part e w h) h
  orphan-IsGone w h (entry, row, free) =
      rw (free-unlinked e w h entry row (ground arith))
        (unlinked-own w h h (same_refl bytes_order h))

  -- What one step leaves of another part that the sweep is to remove.
  abbrev pub IsDue : World e → Hash → Type 0
  IsDue w q = IsGone w q ⊎ IsOrphan w q

  unlinked-IsDue : (w : World e) (h q : Hash) → IsDue w q → IsDue (unlinked e w h) q
  unlinked-IsDue w h q (inl gone) = inl (unlinked-IsGone w h q gone)
  unlinked-IsDue w h q (inr orphan) = elim (Bool-cases (same bytes_order q h)) [
    | inl own ↦ inl (unlinked-own w h q own)
    | inr other ↦ inr (unlinked-IsOrphan w h q other orphan)
  ]

  collect_part-IsDue : (w : World e) (h q : Hash) → IsDue w q → IsDue (collect_part e w h) q
  collect_part-IsDue w h q due = elim (Option-cases (e.parts.get w.db.parts h)) [
    | inl absent ↦ rw (absent-kept e w h absent) due
    | inr (entry, row) ↦ elim (Bool-cases (entry.refcount == 0)) [
      | inr used ↦ rw (used-kept e w h entry row used) due
      | inl free ↦ rw (free-unlinked e w h entry row free) (unlinked-IsDue w h q due)
    ]
  ]

  due-IsGone : (w : World e) (h : Hash) → IsDue w h → IsGone (collect_part e w h) h
  due-IsGone w h (inl gone) = rw (absent-kept e w h gone.0) gone
  due-IsGone w h (inr orphan) = orphan-IsGone w h orphan

  collect_part-IsGone : (w : World e) (h q : Hash) → IsGone w q → IsGone (collect_part e w h) q
  collect_part-IsGone w h q gone = elim (Option-cases (e.parts.get w.db.parts h)) [
    | inl absent ↦ rw (absent-kept e w h absent) gone
    | inr (entry, row) ↦ elim (Bool-cases (entry.refcount == 0)) [
      | inr used ↦ rw (used-kept e w h entry row used) gone
      | inl free ↦ rw (free-unlinked e w h entry row free) (unlinked-IsGone w h q gone)
    ]
  ]

  sweep_parts-IsGone :
      (w : World e) (removed : ℕ) (l : List Hash) (q : Hash)
      → IsGone w q
      → IsGone (sweep_parts e w removed l).1 q
  unfolding sweep_parts
  sweep_parts-IsGone w removed [] q gone = gone
  sweep_parts-IsGone w removed (h ∷ l) q gone =
      sweep_parts-IsGone (collect_part e w h) _ l q (collect_part-IsGone w h q gone)

  sweep_parts-IsDue :
      (w : World e) (removed : ℕ) (l : List Hash) (q : Hash)
      → In q l
      → IsDue w q
      → IsGone (sweep_parts e w removed l).1 q
  unfolding sweep_parts
  sweep_parts-IsDue w removed [] q i due = absurd i
  sweep_parts-IsDue w removed (h ∷ l) q (inl own) due =
      sweep_parts-IsGone (collect_part e w h) _ l q (rw own (due-IsGone w h (rw own at due)))
  sweep_parts-IsDue w removed (h ∷ l) q (inr i) due =
      sweep_parts-IsDue (collect_part e w h) _ l q i (collect_part-IsDue w h q due)

  part_keys-In :
      (test : PartEntry → Bool) (rows : List (Hash × PartEntry)) (q : Hash)
      → In q (part_keys test rows)
      → (entry : PartEntry) × In (q, entry) rows × (test entry ≡ true)
  unfolding part_keys
  part_keys-In test [] q i = absurd i
  part_keys-In test ((h, entry) ∷ rows) q i = elim (Bool-cases (test entry)) [
    | inr fails ↦
        let (found, there, passed) = part_keys-In test rows q (rw fails at i) in
        (found, inr there, passed)
    | inl passes ↦ elim (rw passes at i) [
      | inl own ↦ (entry, inl (ap (λ k. (k, entry)) own), passes)
      | inr later ↦
          let (found, there, passed) = part_keys-In test rows q later in (found, inr there, passed)
    ]
  ]

  -- Every part that `sweep_gc` lists, a row without references that is not marked, has afterwards neither
  -- a row nor a file.
  pub sweep_gc-IsGone :
      (w : World e) (orphans : List Hash) (q : Hash)
      → handle_list_orphan_parts e w.db ≡ ok orphans
      → In q orphans
      → IsGone (sweep_gc e w).1 q
  unfolding sweep_gc handle_list_orphan_parts
  sweep_gc-IsGone w orphans q h i =
      let test = λ (p : PartEntry). p.refcount == 0 && not (is_gc_pending p.state) in
      let listed : part_keys test (e.parts.iter w.db.parts) ≡ orphans = ground arith in
      let (entry, there, passed) = part_keys-In test (e.parts.iter w.db.parts) q (rw listed i) in
      let row : e.parts.get w.db.parts q ≡ some entry =
        e.parts.get_view w.db.parts q
        ∙ lookup-In bytes_order q entry _ (e.parts.iter_IsSorted w.db.parts) there in
      sweep_parts-IsDue w 0 _ q (rw listed i) (inr (entry, row, ground arith))

  -- `sweep_gc` keeps the server intact, every manifest and every part with a reference included.
  pub sweep_gc-IsIntact :
      (x : External) (w : World e)
      → IsIntact x e w
      → IsIntact x e (sweep_gc e w).1 × IsKept e w (sweep_gc e w).1
  unfolding sweep_gc handle_list_orphan_parts
  sweep_gc-IsIntact x w i =
      let kept = sweep_parts-IsKept w 0 _ in (kept-IsIntact x e w _ kept i, kept)
