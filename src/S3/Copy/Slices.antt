-- ===== src/S3/Copy/Slices.antt =====
-- src/s3/copy.rs: `read_source_range` reads the range out of the object's content.
use s3lite.Common.{
  ℕ, zero, suc, ◌+◌, ◌-◌, ◌^◌, ◌%◌, ◌≤◌, ◌<◌, ◌≡◌, ltb, leb, ◌||◌, ◌&&◌, refl, sym, ap, ◌∙◌, inl,
  inr, true, some, List, [], ◌∷◌, ◌++◌, ok, arith, Bool-cases,
}
use s3lite.Common.Order.{Bytes}
use s3lite.Common.Text.{length, take, drop}
use s3lite.Storage.Manifest.{PartRef, Manifest}
use s3lite.Storage.PartStore.{Files, open_read}
use s3lite.S3.World.{External}
use s3lite.S3.Copy.{
  local_start, local_end, part_end_of, read_slice, read_source_parts, read_source_range,
}

-- The bytes from the first index up to the second, as many of them as there are.
abbrev pub segment : ℕ → ℕ → Bytes → Bytes
segment from to s = drop from (take to s)

length-append : (s t : Bytes) → length (s ++ t) ≡ length s + length t
length-append [] t = omega arith
length-append (b ∷ s) t = omega (arith, length-append s t)

drop-nil : (n : ℕ) → drop {A = ℕ} n [] ≡ []
drop-nil zero = refl
drop-nil (suc n) = refl

take-nil : (n : ℕ) → take {A = ℕ} n [] ≡ []
take-nil zero = refl
take-nil (suc n) = refl

segment-nil : (from to : ℕ) → segment from to [] ≡ []
segment-nil from to = rw (take-nil to, drop-nil from) refl

segment-0 : (from : ℕ) (s : Bytes) → segment from 0 s ≡ []
segment-0 from s = drop-nil from

-- The indices in the text behind `n + 1` bytes.
behind :
    (from to n : ℕ) (t : Bytes)
    → segment (from - n) (to - n) t ≡ segment (suc from - suc n) (suc to - suc n) t
behind from to n t =
    let one : suc from - suc n ≡ from - n = omega arith in
    let two : suc to - suc n ≡ to - n = omega arith in rw (one, two) refl

segment-append :
    (from to : ℕ) (s t : Bytes)
    → segment from to (s ++ t) ≡ segment from to s ++ segment (from - length s) (to - length s) t
segment-append from to [] t =
    let one : from - 0 ≡ from = omega arith in
    let two : to - 0 ≡ to = omega arith in rw (segment-nil from to, one, two) refl
segment-append from zero (b ∷ s) t =
    let none_left : 0 - suc (length s) ≡ 0 = omega arith in
    rw (none_left, segment-0 (from - suc (length s)) t, drop-nil from) refl
segment-append zero (suc to) (b ∷ s) t =
    let one : 0 - suc (length s) ≡ 0 - length s = omega arith in
    let two : suc to - suc (length s) ≡ to - length s = omega arith in
    rw (one, two) (ap (λ r. b ∷ r) (segment-append zero to s t))
segment-append (suc from) (suc to) (b ∷ s) t =
    segment-append from to s t ∙ ap (λ r. segment from to s ++ r) (behind from to (length s) t)

segment-past : (from to : ℕ) (s : Bytes) → length s ≤ from → segment from to s ≡ []
segment-past from to [] h = segment-nil from to
segment-past from zero (b ∷ s) h = drop-nil from
segment-past zero (suc to) (b ∷ s) h = absurd (omega (arith, h))
segment-past (suc from) (suc to) (b ∷ s) h = segment-past from to s (omega (arith, h))

take-all : (to : ℕ) (s : Bytes) → length s ≤ to → take to s ≡ s
take-all to [] h = take-nil to
take-all zero (b ∷ s) h = absurd (omega (arith, h))
take-all (suc to) (b ∷ s) h = ap (λ r. b ∷ r) (take-all to s (omega (arith, h)))

append_nil : (a : Bytes) → a ++ [] ≡ a
append_nil [] = refl
append_nil (x ∷ a) = ap (λ t. x ∷ t) (append_nil a)

append_assoc : (a b c : Bytes) → (a ++ b) ++ c ≡ a ++ (b ++ c)
append_assoc [] b c = refl
append_assoc (x ∷ a) b c = ap (λ t. x ∷ t) (append_assoc a b c)

module _ (x : External) where
  -- The part files hold these contents, of the sizes of the parts and not empty.
  abbrev pub AreFiles : Files → List PartRef → Bytes → Type 0
  AreFiles files [] content = content ≡ []
  AreFiles files (p ∷ parts) content =
      (piece rest : Bytes) × (open_read files p.hash ≡ some piece)
      × (length piece ≡ p.size)
      × (0 < p.size)
      × (content ≡ piece ++ rest)
      × AreFiles files parts rest

  -- A part that the loop does not skip gives its segment of the range.
  read_slice-segment :
      (piece : Bytes) (cursor size start end : ℕ)
      → length piece ≡ size
      → 0 < size
      → start ≤ end
      → start < cursor + size
      → cursor ≤ end
      → read_slice x
          (some piece)
          (local_start cursor start)
          (local_end cursor (cursor + size - 1) size end)
        ≡ ok (segment (start - cursor) (end + 1 - cursor) piece)
  read_slice-segment piece cursor size start end sized positive order low high =
      let from : local_start cursor start ≡ start - cursor = ground arith in
      elim (Bool-cases (ltb end (cursor + size - 1))) [
        | inl cut ↦
            let to : end - cursor + 1 ≡ end + 1 - cursor = omega (arith, high) in
            let inside : (leb (start - cursor) (end + 1 - cursor)
                  && leb (end + 1 - cursor) (length piece))
                ≡ true =
              ground arith in
            rw (from, cut, to, inside) refl
        | inr whole ↦
            let inside : (leb (start - cursor) size && leb size (length piece)) ≡ true =
              ground arith in
            let all : take (end + 1 - cursor) piece ≡ piece =
              take-all (end + 1 - cursor) piece (ground arith) in
            let own : take size piece ≡ piece = take-all size piece (omega (arith, sized)) in
            rw (from, whole, inside, all, own) refl
      ]

  -- A part that the loop skips has nothing of the range.
  skipped-segment :
      (piece : Bytes) (cursor size start end : ℕ)
      → length piece ≡ size
      → 0 < size
      → (ltb (cursor + size - 1) start || ltb end cursor) ≡ true
      → segment (start - cursor) (end + 1 - cursor) piece ≡ []
  skipped-segment piece cursor size start end sized positive skip =
      elim (Bool-cases (ltb (cursor + size - 1) start)) [
        | inl below ↦ segment-past (start - cursor) (end + 1 - cursor) piece (ground arith)
        | inr not_below ↦
            let none_left : end + 1 - cursor ≡ 0 = ground arith in
            rw none_left (segment-0 (start - cursor) piece)
      ]

  -- The segment of a part and of those behind it.
  split-segment :
      (piece rest content : Bytes) (cursor size start end : ℕ)
      → content ≡ piece ++ rest
      → length piece ≡ size
      → segment (start - cursor) (end + 1 - cursor) content
        ≡ segment (start - cursor) (end + 1 - cursor) piece
          ++ segment (start - (cursor + size)) (end + 1 - (cursor + size)) rest
  split-segment piece rest content cursor size start end whole sized =
      let one : start - cursor - length piece ≡ start - (cursor + size) = omega (arith, sized) in
      let two : end + 1 - cursor - length piece ≡ end + 1 - (cursor + size) =
        omega (arith, sized) in
      rw whole (rw (one, two) at (segment-append (start - cursor) (end + 1 - cursor) piece rest))

  -- The loop from a part on.
  read_source_parts-segment :
      (files : Files) (start end cursor : ℕ) (out : Bytes) (parts : List PartRef) (content : Bytes)
      → AreFiles files parts content
      → start ≤ end
      → cursor + length content < 2 ^ 64
      → read_source_parts x files start end cursor out parts
        ≡ ok (out ++ segment (start - cursor) (end + 1 - cursor) content)
  unfolding read_source_parts
  read_source_parts-segment files start end cursor out [] content f order room =
      rw (f, segment-nil (start - cursor) (end + 1 - cursor)) (sym (ap ok (append_nil out)))
  read_source_parts-segment files start end cursor out (p ∷ parts) content
        (piece, rest, found, sized, positive, whole, others) order room =
      let total : length content ≡ length piece + length rest =
        ap length whole ∙ length-append piece rest in
      let part_end : part_end_of cursor p.size ≡ cursor + p.size - 1 =
        omega (arith, total, sized, positive, room) in
      let next : (cursor + p.size) % 2 ^ 64 ≡ cursor + p.size = omega (arith, total, sized, room) in
      let later : cursor + p.size + length rest < 2 ^ 64 = omega (arith, total, sized, room) in
      let both = split-segment piece rest content cursor p.size start end whole sized in
      elim (Bool-cases (ltb (cursor + p.size - 1) start || ltb end cursor)) [
        | inl skip ↦
            rw
              (
                part_end,
                next,
                skip,
                both,
                skipped-segment piece cursor p.size start end sized positive skip,
              )
              (read_source_parts-segment files start end (cursor + p.size) out parts rest others
                order later)
        | inr reads ↦
            rw
              (
                part_end,
                next,
                reads,
                found,
                read_slice-segment piece cursor p.size start end sized positive order (ground arith)
                    (ground arith),
                both,
                ← append_assoc out (segment (start - cursor) (end + 1 - cursor) piece)
                    (segment (start - (cursor + p.size)) (end + 1 - (cursor + p.size)) rest),
              )
              (read_source_parts-segment files start end (cursor + p.size)
                (out ++ segment (start - cursor) (end + 1 - cursor) piece) parts rest others order
                later)
      ]

  -- `read_source_range` returns the bytes of the object's content from the first index to the last, if
  -- every part has a file of its size, no part is empty, and the content is shorter than 2^64 bytes.
  pub read_source_range-segment :
      (files : Files) (m : Manifest) (start end : ℕ) (content : Bytes)
      → AreFiles files m.parts content
      → start ≤ end
      → length content < 2 ^ 64
      → read_source_range x files m start end ≡ ok (segment start (end + 1) content)
  unfolding read_source_range
  read_source_range-segment files m start end content f order room =
      let one : start - 0 ≡ start = omega arith in
      let two : end + 1 - 0 ≡ end + 1 = omega arith in
      rw (one, two) at
        (read_source_parts-segment files start end 0 [] m.parts content f order
          (omega (arith, room)))
