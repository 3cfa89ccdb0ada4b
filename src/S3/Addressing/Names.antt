-- ===== src/S3/Addressing/Names.antt =====
-- `validate_bucket_name` of src/s3/addressing.rs against a description of the names it allows.
use s3lite.Common.{
  ℕ, ◌+◌, ◌≤◌, ◌==◌, ◌||◌, Bool, true, false, ◌≡◌, ◌↔◌, ◌⊎◌, refl, ap, inl, List, [], ◌∷◌, ◌++◌, ok,
  arith,
}
use s3lite.Common.Order.{Bytes}
use s3lite.Common.Text.{length}
use s3lite.Storage.Manifest.Key.{NulFree}
use s3lite.S3.Text.{is_blank, has_byte, all_bytes, cons_first, split}
use s3lite.S3.Addressing.{is_alnum, last_byte, is_ipv4_like, validate_bucket_name}

abbrev pub is_allowed : ℕ → Bool
is_allowed b = is_alnum b || b == 0x2d

length-cons_first :
    (b : ℕ) (parts : List Bytes) → length parts ≡ 1 → length (cons_first b parts) ≡ 1
length-cons_first b [] h = ground arith
length-cons_first b (part ∷ parts) h = h

length-split : (s : Bytes) → all_bytes is_allowed s ≡ true → length (split 0x2e s) ≡ 1
unfolding split all_bytes
length-split [] h = refl
length-split (b ∷ s) h = ground (arith, length-split s, length-cons_first b (split 0x2e s))

-- No name of allowed bytes looks like an IPv4 address, so that last test rejects nothing.
pub is_ipv4_like-allowed : (s : Bytes) → all_bytes is_allowed s ≡ true → is_ipv4_like s ≡ false
unfolding is_ipv4_like
is_ipv4_like-allowed s h = rw (length-split s h) refl

-- A lowercase letter or a digit.
abbrev pub IsAlnum : ℕ → Type 0
IsAlnum b = ((0x61 ≤ b) × (b ≤ 0x7a)) ⊎ ((0x30 ≤ b) × (b ≤ 0x39))

-- Lowercase letters, digits and hyphens alone.
abbrev pub AllAllowed : Bytes → Type 0
AllAllowed [] = Unit
AllAllowed (b ∷ s) = (IsAlnum b ⊎ (b ≡ 0x2d)) × AllAllowed s

-- The names that S3 allows here: a letter or digit at each end, 1 to 61 allowed bytes between.
abbrev pub IsBucketName : Bytes → Type 0
IsBucketName name =
    (first : ℕ) × (middle : Bytes) × (last : ℕ) × (name ≡ first ∷ (middle ++ last ∷ []))
    × IsAlnum first
    × IsAlnum last
    × AllAllowed middle
    × (1 ≤ length middle)
    × (length middle ≤ 61)

IsAlnum-iff : (b : ℕ) → (is_alnum b ≡ true) ↔ IsAlnum b
IsAlnum-iff b = ground arith

length-snoc : (s : Bytes) (z : ℕ) → length (s ++ z ∷ []) ≡ length s + 1
length-snoc [] z = refl
length-snoc (b ∷ s) z = omega (arith, length-snoc s z)

last_byte-snoc : (a : ℕ) (s : Bytes) (z : ℕ) → last_byte a (s ++ z ∷ []) ≡ z
unfolding last_byte
last_byte-snoc a [] z = refl
last_byte-snoc a (b ∷ s) z = last_byte-snoc b s z

-- A text of two bytes or more is its start and its last byte.
unsnoc : (a b : ℕ) (s : Bytes) → (middle : Bytes) × (b ∷ s ≡ middle ++ last_byte a (b ∷ s) ∷ [])
unfolding last_byte
unsnoc a b [] = ([], refl)
unsnoc a b (c ∷ s) = let (middle, h) = unsnoc b c s in (b ∷ middle, ap (λ t. b ∷ t) h)

allowed-snoc :
    (s : Bytes) (z : ℕ)
    → (all_bytes is_allowed (s ++ z ∷ []) ≡ true) ↔ (AllAllowed s × (is_allowed z ≡ true))
unfolding all_bytes
allowed-snoc [] z = ground arith
allowed-snoc (b ∷ s) z = ground (arith, allowed-snoc s z, IsAlnum-iff b)

-- The tests on a name of two bytes or more.
tests :
    (a z : ℕ) (middle : Bytes)
    → (validate_bucket_name (a ∷ (middle ++ z ∷ [])) ≡ ok tt)
      ↔ (IsAlnum a × IsAlnum z × AllAllowed middle × (1 ≤ length middle) × (length middle ≤ 61))
unfolding validate_bucket_name all_bytes
tests a z middle = ground (
  arith,
  IsAlnum-iff a,
  IsAlnum-iff z,
  length-snoc middle z,
  last_byte-snoc a middle z,
  allowed-snoc middle z,
  is_ipv4_like-allowed (a ∷ (middle ++ z ∷ [])),
)

name_of : (name : Bytes) → validate_bucket_name name ≡ ok tt → IsBucketName name
unfolding validate_bucket_name
name_of [] h = cc
name_of (a ∷ []) h = cc
name_of (a ∷ b ∷ s) h =
    let (middle, e) = unsnoc a b s in
    let (fa, fz, fm, low, high) = (tests a (last_byte a (b ∷ s)) middle).0 (rw (← e) h) in
    (a, middle, last_byte a (b ∷ s), ap (λ t. a ∷ t) e, fa, fz, fm, low, high)

-- A name passes exactly when it is an allowed name: 3 to 63 lowercase letters, digits and hyphens
-- with a letter or a digit at both ends.
pub validate_bucket_name_exact :
    (name : Bytes) → (validate_bucket_name name ≡ ok tt) ↔ IsBucketName name
validate_bucket_name_exact name = (
  name_of name,
  λ (a, middle, z, h, fa, fz, fm, low, high). rw h ((tests a z middle).1 (fa, fz, fm, low, high)),
)

snoc-AllAllowed : (s : Bytes) (z : ℕ) → AllAllowed s → IsAlnum z → AllAllowed (s ++ z ∷ [])
snoc-AllAllowed [] z h p = (inl p, tt)
snoc-AllAllowed (b ∷ s) z h p = (h.0, snoc-AllAllowed s z h.1 p)

valid-AllAllowed : (name : Bytes) → validate_bucket_name name ≡ ok tt → AllAllowed name
valid-AllAllowed name h =
    let (a, middle, z, e, fa, fz, fm, _, _) = (validate_bucket_name_exact name).0 h in
    rw e (inl fa, snoc-AllAllowed middle z fm fz)

allowed-NulFree : (s : Bytes) → AllAllowed s → NulFree s
allowed-NulFree [] h = tt
allowed-NulFree (b ∷ s) h = (omega (arith, h.0), allowed-NulFree s h.1)

-- A valid bucket name holds no NUL byte: what the order of the encoded keys asks for.
pub valid-NulFree : (name : Bytes) → validate_bucket_name name ≡ ok tt → NulFree name
valid-NulFree name h = allowed-NulFree name (valid-AllAllowed name h)

has_byte-allowed : (c : ℕ) (s : Bytes) → is_allowed c ≡ false → AllAllowed s → has_byte c s ≡ false
unfolding has_byte
has_byte-allowed c [] o h = refl
has_byte-allowed c (b ∷ s) o h = ground (arith, has_byte-allowed c s)

-- A valid bucket name holds no byte but the allowed ones, so no dot, slash or colon.
pub has_byte-valid :
    (c : ℕ) (name : Bytes)
    → is_allowed c ≡ false
    → validate_bucket_name name ≡ ok tt
    → has_byte c name ≡ false
has_byte-valid c name o h = has_byte-allowed c name o (valid-AllAllowed name h)

pub is_blank-valid : (name : Bytes) → validate_bucket_name name ≡ ok tt → is_blank name ≡ false
unfolding validate_bucket_name
is_blank-valid [] h = cc
is_blank-valid (b ∷ s) h = refl
