-- ===== src/S3/Text.antt =====
-- Rust's operations on `str` that the S3 layer uses, on the bytes of a text.
use s3lite.Common.{
  ℕ, suc, ◌+◌, ◌*◌, ◌/◌, ◌%◌, ◌-◌, ◌^◌, leb, ltb, ◌==◌, ◌&&◌, ◌||◌, Bool, true, false, Option, none,
  some, List, [], ◌∷◌, ◌++◌, if◌then◌else◌, zero,
}
use s3lite.Common.Order.{Bytes, bytes_order, same}
use s3lite.Common.Text.{is_prefix, drop, length}

-- `is_empty` of a text
abbrev pub is_blank : Bytes → Bool
is_blank [] = true
is_blank (b ∷ s) = false

-- `s.contains(c)` of one byte
unfoldable pub has_byte : ℕ → Bytes → Bool
has_byte c [] = false
has_byte c (b ∷ s) = b == c || has_byte c s

unfoldable pub all_bytes : (ℕ → Bool) → Bytes → Bool
all_bytes test [] = true
all_bytes test (b ∷ s) = test b && all_bytes test s

abbrev pub cons_first : ℕ → List Bytes → List Bytes
cons_first b [] = (b ∷ []) ∷ []
cons_first b (part ∷ parts) = (b ∷ part) ∷ parts

-- `name.split(c)`
unfoldable pub split : ℕ → Bytes → List Bytes
split c [] = [] ∷ []
split c (b ∷ s) = let rest = split c s in if b == c then [] ∷ rest else cons_first b rest

-- `s.split_once(c)`: around the first byte `c`
unfoldable pub split_once : ℕ → Bytes → Option (Bytes × Bytes)
split_once c [] = none
split_once c (b ∷ s) =
    let rest = split_once c s in
    if b == c
    then some ([], s)
    else elim rest [ some pair ↦ some (b ∷ pair.0, pair.1) | none ↦ none ]

-- `s.strip_prefix(prefix)`, the prefix first
unfoldable pub strip_prefix : Bytes → Bytes → Option Bytes
strip_prefix prefix s = if is_prefix prefix s then some (drop (length prefix) s) else none

-- Whether a byte, or the UTF-8 code of two or three bytes, is a character of Unicode's `White_Space`.
abbrev pub is_space : ℕ → Bool
is_space b = (leb 9 b && leb b 13) || b == 32

abbrev pub is_space_2 : ℕ → ℕ → Bool
is_space_2 a b = a == 0xc2 && (b == 0x85 || b == 0xa0)

abbrev pub is_space_3 : ℕ → ℕ → ℕ → Bool
is_space_3 a b c =
    (a == 0xe1 && b == 0x9a && c == 0x80)
    || (a == 0xe2
        && b == 0x80
        && ((leb 0x80 c && leb c 0x8a) || c == 0xa8 || c == 0xa9 || c == 0xaf))
    || (a == 0xe2 && b == 0x81 && c == 0x9f)
    || (a == 0xe3 && b == 0x80 && c == 0x80)

-- Whether a text is one character of white space.
abbrev pub is_white_space : Bytes → Bool
is_white_space [] = false
is_white_space (a ∷ []) = is_space a
is_white_space (a ∷ b ∷ []) = is_space_2 a b
is_white_space (a ∷ b ∷ c ∷ []) = is_space_3 a b c
is_white_space (a ∷ b ∷ c ∷ d ∷ s) = false

-- `s.trim()`
unfoldable pub trim_start : Bytes → Bytes
trim_start [] = []
trim_start (a ∷ []) = if is_space a then [] else a ∷ []
trim_start (a ∷ b ∷ []) = elim (is_space a) [
  | true ↦ trim_start (b ∷ [])
  | false ↦ if is_space_2 a b then [] else a ∷ b ∷ []
]
trim_start (a ∷ b ∷ c ∷ s) = elim (is_space a) [
  | true ↦ trim_start (b ∷ c ∷ s)
  | false ↦ elim (is_space_2 a b) [
    | true ↦ trim_start (c ∷ s)
    | false ↦ elim (is_space_3 a b c) [ true ↦ trim_start s | false ↦ a ∷ b ∷ c ∷ s ]
  ]
]

unfoldable pub trim_end : Bytes → Bytes
trim_end [] = []
trim_end (b ∷ s) = let rest = trim_end s in if is_white_space (b ∷ rest) then [] else b ∷ rest

unfoldable pub trim : Bytes → Bytes
trim s = trim_end (trim_start s)

-- `to_ascii_lowercase`
abbrev pub lower_byte : ℕ → ℕ
lower_byte b = if leb 0x41 b && leb b 0x5a then b + 32 else b

unfoldable pub to_ascii_lowercase : Bytes → Bytes
to_ascii_lowercase [] = []
to_ascii_lowercase (b ∷ s) = lower_byte b ∷ to_ascii_lowercase s

-- `s.eq_ignore_ascii_case(t)`
unfoldable pub eq_ignore_ascii_case : Bytes → Bytes → Bool
unfolding to_ascii_lowercase
eq_ignore_ascii_case s t = same bytes_order (to_ascii_lowercase s) (to_ascii_lowercase t)

-- `s.parse()` of an unsigned integer below the bound: digits, after an optional plus sign
unfoldable pub parse_digits : ℕ → ℕ → Bytes → Option ℕ
parse_digits bound acc [] = some acc
parse_digits bound acc (b ∷ s) =
    let next = acc * 10 + (b - 0x30) in
    let rest = parse_digits bound next s in
    if leb 0x30 b && leb b 0x39 && ltb next bound then rest else none

abbrev pub some_digits : ℕ → Bytes → Option ℕ
some_digits bound [] = none
some_digits bound (b ∷ s) = parse_digits bound 0 (b ∷ s)

unfoldable pub parse_unsigned : ℕ → Bytes → Option ℕ
parse_unsigned bound [] = none
parse_unsigned bound (b ∷ s) = if b == 0x2b then some_digits bound s else some_digits bound (b ∷ s)

abbrev pub parse_u32 : Bytes → Option ℕ
parse_u32 s = parse_unsigned (2 ^ 32) s

abbrev pub parse_u64 : Bytes → Option ℕ
parse_u64 s = parse_unsigned (2 ^ 64) s

-- The digits of a number, for a count of digits that is enough.
unfoldable pub digits : ℕ → ℕ → Bytes
digits zero n = []
digits (suc fuel) n =
    let rest = digits fuel (n / 10) in
    if ltb n 10 then (0x30 + n) ∷ [] else rest ++ (0x30 + n % 10) ∷ []

-- `n.to_string()` of a `u64`, which has at most 20 digits
unfoldable pub decimal : ℕ → Bytes
unfolding digits
decimal n = digits 20 n
