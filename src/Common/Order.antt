-- ===== src/Common/Order.antt =====
-- Total orders given by a three-way comparison (Rust's `Ord::cmp`), and the order of byte strings.
use Prim.Native.Nat.{ℕ, compare, Ordering}
use mathlib.Core.Path.{◌≡◌, refl}
use mathlib.Core.Logic.{◌↔◌}
use mathlib.Core.Bool.{Bool, true, false}
use mathlib.Core.List.{List, [], ◌∷◌}
use native.Mathlib.Omega.{arith}

pub record Order (K : Type 0) : Type 0 where
  pub cmp : K → K → Ordering
  pub cmp_eq : (a b : K) → cmp a b ≡ Ordering.eq → a ≡ b
  pub cmp_refl : (a : K) → cmp a a ≡ Ordering.eq
  pub cmp_trans :
      (a b c : K) → cmp a b ≡ Ordering.lt → cmp b c ≡ Ordering.lt → cmp a c ≡ Ordering.lt
  pub cmp_gt : (a b : K) → cmp a b ≡ Ordering.gt → cmp b a ≡ Ordering.lt

-- The bytes of a `String` or `Vec<u8>`.
abbrev pub Bytes : Type 0
Bytes = List ℕ

unfoldable pub cmp_bytes : Bytes → Bytes → Ordering
cmp_bytes [] [] = Ordering.eq
cmp_bytes [] (b ∷ bs) = Ordering.lt
cmp_bytes (a ∷ x) [] = Ordering.gt
cmp_bytes (a ∷ x) (b ∷ y) =
    let rest = cmp_bytes x y in
    elim (compare a b) [
      | Ordering.lt ↦ Ordering.lt
      | Ordering.eq ↦ rest
      | Ordering.gt ↦ Ordering.gt
    ]

pub cmp_bytes_eq : (x y : Bytes) → cmp_bytes x y ≡ Ordering.eq → x ≡ y
unfolding cmp_bytes
cmp_bytes_eq [] [] h = refl
cmp_bytes_eq [] (b ∷ y) h = cc
cmp_bytes_eq (a ∷ x) [] h = cc
cmp_bytes_eq (a ∷ x) (b ∷ y) h = ground (arith, cmp_bytes_eq x y)

pub cmp_bytes_refl : (x : Bytes) → cmp_bytes x x ≡ Ordering.eq
unfolding cmp_bytes
cmp_bytes_refl [] = refl
cmp_bytes_refl (a ∷ x) = ground (arith, cmp_bytes_refl x)

pub cmp_bytes_trans :
    (x y z : Bytes)
    → cmp_bytes x y ≡ Ordering.lt
    → cmp_bytes y z ≡ Ordering.lt
    → cmp_bytes x z ≡ Ordering.lt
unfolding cmp_bytes
cmp_bytes_trans [] (b ∷ y) (c ∷ z) h k = refl
cmp_bytes_trans (a ∷ x) (b ∷ y) (c ∷ z) h k = ground (arith, cmp_bytes_trans x y z)
cmp_bytes_trans x y z h k = cc

pub cmp_bytes_gt : (x y : Bytes) → cmp_bytes x y ≡ Ordering.gt → cmp_bytes y x ≡ Ordering.lt
unfolding cmp_bytes
cmp_bytes_gt (a ∷ x) [] h = refl
cmp_bytes_gt (a ∷ x) (b ∷ y) h = ground (arith, cmp_bytes_gt x y)
cmp_bytes_gt [] [] h = cc
cmp_bytes_gt [] (b ∷ y) h = cc

abbrev pub bytes_order : Order Bytes
bytes_order = record {
  cmp = cmp_bytes;
  cmp_eq = cmp_bytes_eq;
  cmp_refl = cmp_bytes_refl;
  cmp_trans = cmp_bytes_trans;
  cmp_gt = cmp_bytes_gt;
}

pub compare_eq : (a b : ℕ) → compare a b ≡ Ordering.eq → a ≡ b
compare_eq a b h = ground arith

pub compare_refl : (a : ℕ) → compare a a ≡ Ordering.eq
compare_refl a = ground arith

pub compare_trans :
    (a b c : ℕ) → compare a b ≡ Ordering.lt → compare b c ≡ Ordering.lt → compare a c ≡ Ordering.lt
compare_trans a b c h k = ground arith

pub compare_gt : (a b : ℕ) → compare a b ≡ Ordering.gt → compare b a ≡ Ordering.lt
compare_gt a b h = ground arith

abbrev pub nat_order : Order ℕ
nat_order = record {
  cmp = compare;
  cmp_eq = compare_eq;
  cmp_refl = compare_refl;
  cmp_trans = compare_trans;
  cmp_gt = compare_gt;
}

module _ {K : Type 0} (o : Order K) where
  -- `a == b` and `a < b` as Rust derives them from `cmp`.
  abbrev pub same : K → K → Bool
  same a b = elim (o.cmp a b) [ Ordering.eq ↦ true | _ ↦ false ]

  abbrev pub less : K → K → Bool
  less a b = elim (o.cmp a b) [ Ordering.lt ↦ true | _ ↦ false ]

  pub same_refl : (a : K) → same a a ≡ true
  same_refl a = rw (o.cmp_refl a, same)

  pub same_iff : (a b : K) → (same a b ≡ true) ↔ (a ≡ b)
  same_iff a b = (λ h. o.cmp_eq a b (ground arith), λ e. rw e (same_refl b))

  -- What is below another key is not that key, and is not above it.
  pub lt_cmp : (a b : K) → o.cmp a b ≡ Ordering.lt → o.cmp b a ≡ Ordering.gt
  lt_cmp a b h = go (o.cmp b a) refl
    where
      go : (c : Ordering) → o.cmp b a ≡ c → o.cmp b a ≡ Ordering.gt
      go Ordering.lt e = absurd (cc (o.cmp_trans a b a h e, o.cmp_refl a))
      go Ordering.eq e = absurd (cc (o.cmp_eq b a e, o.cmp_refl a))
      go Ordering.gt e = e
