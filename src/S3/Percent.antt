-- ===== src/S3/Percent.antt =====
-- Percent coding: `url_percent_decode`, `url_percent_encode` and `parse_query` of src/s3/listing.rs, and
-- the copies of `percent_decode` in src/s3/dispatch.rs, src/s3/copy.rs and src/s3/tagging.rs.
-- `String::from_utf8_lossy` is a parameter; it leaves valid UTF-8 as it is.
pub mod RoundTrip
use s3lite.Common.{
  ℕ, ◌+◌, ◌*◌, ◌-◌, ◌/◌, ◌%◌, leb, ltb, ◌==◌, ◌&&◌, ◌||◌, Bool, true, false, Option, none, some,
  List, [], ◌∷◌, ◌++◌, if◌then◌else◌,
}
use s3lite.Common.Order.{Bytes, bytes_order}
use s3lite.Common.OrdMap.{upsert}
use s3lite.S3.Text.{split, split_once, is_blank}

unfoldable pub hex_nibble : ℕ → Option ℕ
hex_nibble b =
    if leb 0x30 b && leb b 0x39
    then some (b - 0x30)
    else if leb 0x61 b && leb b 0x66
    then some (b - 0x61 + 10)
    else if leb 0x41 b && leb b 0x46
    then some (b - 0x41 + 10)
    else none

-- `(h << 4) | l` of two nibbles, if both are there
abbrev pub join_nibbles : Option ℕ → Option ℕ → Option ℕ
join_nibbles (some h) (some l) = some (h * 16 + l)
join_nibbles (some h) none = none
join_nibbles none l = none

-- A byte that starts no escape: `+` is a space where the function says so.
abbrev pub plain : Bool → ℕ → ℕ
plain true b = if b == 0x2b then 0x20 else b
plain false b = b

-- The loop over the bytes. The flag says whether a plus sign is a space.
unfoldable pub decode_bytes : Bool → Bytes → Bytes
decode_bytes plus [] = []
decode_bytes plus (b ∷ []) = plain plus b ∷ []
decode_bytes plus (b ∷ c ∷ []) = plain plus b ∷ decode_bytes plus (c ∷ [])
decode_bytes plus (b ∷ c ∷ d ∷ s) =
    let behind = decode_bytes plus s in
    let next = decode_bytes plus (c ∷ d ∷ s) in
    if b == 0x25
    then (elim (join_nibbles (hex_nibble c) (hex_nibble d)) [
      | some n ↦ n ∷ behind
      | none ↦ b ∷ next
    ])
    else plain plus b ∷ next

-- `url_percent_decode` of listing.rs, and `percent_decode` of tagging.rs
unfoldable pub url_percent_decode : (Bytes → Bytes) → Bytes → Bytes
url_percent_decode from_utf8_lossy s = from_utf8_lossy (decode_bytes true s)

-- `percent_decode` of dispatch.rs and copy.rs
unfoldable pub percent_decode : (Bytes → Bytes) → Bytes → Bytes
percent_decode from_utf8_lossy s = from_utf8_lossy (decode_bytes false s)

abbrev pub is_unreserved : ℕ → Bool
is_unreserved b =
    (leb 0x30 b && leb b 0x39)
    || (leb 0x41 b && leb b 0x5a)
    || (leb 0x61 b && leb b 0x7a)
    || (b == 0x2d || b == 0x5f || b == 0x2e || b == 0x7e)

-- A digit of `{b:02X}`
abbrev pub hex_digit : ℕ → ℕ
hex_digit n = if ltb n 10 then 0x30 + n else 0x37 + n

unfoldable pub url_percent_encode : Bytes → Bytes
url_percent_encode [] = []
url_percent_encode (b ∷ s) =
    let rest = url_percent_encode s in
    if is_unreserved b then b ∷ rest else 0x25 ∷ hex_digit (b / 16) ∷ hex_digit (b % 16) ∷ rest

-- `pair.split_once('=')`, with the empty value where there is no `=`
abbrev pub key_value : Bytes → Bytes × Bytes
key_value pair = elim (split_once 0x3d pair) [ some kv ↦ kv | none ↦ (pair, []) ]

-- The map of `parse_query`, as a list in key order: a `HashMap` of which only lookups are used.
unfoldable pub insert_pairs :
    (Bytes → Bytes) → List (Bytes × Bytes) → List Bytes → List (Bytes × Bytes)
insert_pairs lossy params [] = params
insert_pairs lossy params (pair ∷ pairs) =
    insert_pairs lossy
      (upsert bytes_order (url_percent_decode lossy (key_value pair).0)
        (url_percent_decode lossy (key_value pair).1) params)
      pairs

unfoldable pub parse_query : (Bytes → Bytes) → Bytes → List (Bytes × Bytes)
parse_query lossy query = if is_blank query then [] else insert_pairs lossy [] (split 0x26 query)
