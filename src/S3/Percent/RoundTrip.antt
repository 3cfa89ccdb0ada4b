-- ===== src/S3/Percent/RoundTrip.antt =====
-- src/s3/listing.rs: `url_percent_decode` gives back what `url_percent_encode` was given.
use s3lite.Common.{
  ℕ, ◌/◌, ◌%◌, ◌<◌, ◌==◌, ◌≡◌, refl, ap, inl, inr, true, false, some, [], ◌∷◌, arith, Bool-cases,
}
use s3lite.Common.Order.{Bytes}
use s3lite.S3.Percent.{
  hex_nibble, decode_bytes, url_percent_decode, is_unreserved, hex_digit, url_percent_encode,
}

-- Every element is a byte.
abbrev pub IsBytes : Bytes → Type 0
IsBytes [] = Unit
IsBytes (b ∷ s) = (b < 256) × IsBytes s

hex_nibble-hex_digit : (n : ℕ) → n < 16 → hex_nibble (hex_digit n) ≡ some n
unfolding hex_nibble
hex_nibble-hex_digit n h = ground arith

-- A byte that starts no escape and is no plus sign stays, whatever follows it.
decode-plain :
    (b : ℕ) (s : Bytes)
    → (b == 0x25) ≡ false
    → (b == 0x2b) ≡ false
    → decode_bytes true (b ∷ s) ≡ b ∷ decode_bytes true s
unfolding decode_bytes
decode-plain b [] p q = rw q refl
decode-plain b (c ∷ []) p q = rw q refl
decode-plain b (c ∷ d ∷ s) p q = rw (p, q) refl

decode-escape :
    (b : ℕ) (s : Bytes)
    → b < 256
    → decode_bytes true (0x25 ∷ hex_digit (b / 16) ∷ hex_digit (b % 16) ∷ s)
      ≡ b ∷ decode_bytes true s
unfolding decode_bytes
decode-escape b s h =
    rw (hex_nibble-hex_digit (b / 16) (omega arith), hex_nibble-hex_digit (b % 16) (omega arith))
      (ap (λ n. n ∷ decode_bytes true s) (omega arith))

decode-encode : (s : Bytes) → IsBytes s → decode_bytes true (url_percent_encode s) ≡ s
unfolding url_percent_encode decode_bytes
decode-encode [] h = refl
decode-encode (b ∷ s) h = elim (Bool-cases (is_unreserved b)) [
  | inl kept ↦
      rw
        (
          kept,
          decode-plain b (url_percent_encode s) (ground arith) (ground arith),
          decode-encode s h.1,
        )
        refl
  | inr escaped ↦ rw (escaped, decode-escape b (url_percent_encode s) h.0, decode-encode s h.1) refl
]

-- Decoding undoes encoding, for every text that `from_utf8_lossy` leaves as it is.
pub url_percent_decode-encode :
    (lossy : Bytes → Bytes) (s : Bytes)
    → IsBytes s
    → lossy s ≡ s
    → url_percent_decode lossy (url_percent_encode s) ≡ s
unfolding url_percent_decode
url_percent_decode-encode lossy s h valid = rw (decode-encode s h) valid
