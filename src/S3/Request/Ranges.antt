-- ===== src/S3/Request/Ranges.antt =====
-- src/s3/object.rs: the ranges that `parse_range_header` lets through.
use s3lite.Common.{
  ℕ, ◌-◌, ◌≤◌, ◌<◌, ◌≡◌, inl, inr, Option, none, some, Result, ok, ok_or, arith, chain_succeeds,
  Option-cases, Bool-cases,
}
use s3lite.Common.Order.{Bytes}
use s3lite.Common.Text.{bytes}
use s3lite.S3.Error.{S3Error}
use s3lite.S3.Text.{has_byte, split_once, strip_prefix, parse_u64}
use s3lite.S3.World.{Headers, header, External}
use s3lite.S3.Request.{
  both_bounds, from_bound, suffix_bound, bounds, within_object, parse_range_header, parse_range,
}

-- The second bound is at most the last index.
abbrev AtMost : ℕ → Result S3Error (Option (ℕ × ℕ)) → Type 0
AtMost last r = (start end : ℕ) → r ≡ ok (some (start, end)) → end ≤ last

both_bounds-AtMost : (last : ℕ) (a b : Bytes) → AtMost last (both_bounds last a b)
both_bounds-AtMost last a b start end h =
    let (s, rest, first) = chain_succeeds _ _ (ok_or (parse_u64 a) _) h in
    let (e, rest', second) = chain_succeeds _ _ (ok_or (parse_u64 b) _) rest in ground arith

from_bound-AtMost : (last : ℕ) (a : Bytes) → AtMost last (from_bound last a)
from_bound-AtMost last a start end h =
    let (s, rest, first) = chain_succeeds _ _ (ok_or (parse_u64 a) _) h in ground arith

suffix_bound-AtMost : (size last : ℕ) (b : Bytes) → AtMost last (suffix_bound size last b)
suffix_bound-AtMost size last b start end h =
    let (s, rest, first) = chain_succeeds _ _ (ok_or (parse_u64 b) _) h in ground arith

bounds-AtMost : (size last : ℕ) (a b : Bytes) → AtMost last (bounds size last a b)
bounds-AtMost size last a b start end h = grind (
  arith,
  both_bounds-AtMost last a b start end,
  from_bound-AtMost last a start end,
  suffix_bound-AtMost size last b start end,
)

within_object-bounds :
    (size : ℕ) (o : Option (ℕ × ℕ)) (start end : ℕ)
    → within_object size o ≡ some (start, end)
    → (o ≡ some (start, end)) × (start ≤ end) × (0 < size)
within_object-bounds size none start end h = absurd (ground arith)
within_object-bounds size (some (s, e)) start end h = (ground arith, ground arith, ground arith)

parse_range-bounds :
    (size : ℕ) (v : Bytes) (start end : ℕ)
    → parse_range size v ≡ ok (some (start, end))
    → (start ≤ end) × (end < size)
parse_range-bounds size v start end h =
    let (spec, rest, first) = chain_succeeds _ _ (ok_or (strip_prefix (bytes "bytes=") v) _) h in
    elim (Bool-cases (has_byte 0x2c spec)) [
      | inl comma ↦ absurd (ground arith)
      | inr one ↦
          let (pair, rest2, second) =
            chain_succeeds _ _ (ok_or (split_once 0x2d spec) _) (rw one at rest) in
          let (range, rest3, third) =
            chain_succeeds _ _ (bounds size (size - 1) pair.0 pair.1) rest2 in
          let (given, order, positive) = within_object-bounds size range start end (ground arith) in
          let last = bounds-AtMost size (size - 1) pair.0 pair.1 start end (cc (third, given)) in
          (order, omega arith)
    ]

-- A range that `parse_range_header` accepts lies in the object: its first index is not behind its
-- last, which is an index of the object.
pub parse_range_header-bounds :
    (x : External) (headers : Headers) (size start end : ℕ)
    → parse_range_header x headers size ≡ ok (some (start, end))
    → (start ≤ end) × (end < size)
unfolding parse_range_header
parse_range_header-bounds x headers size start end h =
    elim (Option-cases (header (bytes "range") headers)) [
      | inl gone ↦ absurd (grind arith)
      | inr (v, there) ↦
          let (s, rest, first) = chain_succeeds _ _ (ok_or (x.to_str v) _) (rw there at h) in
          parse_range-bounds size s start end rest
    ]
