-- ===== src/S3/Object/Safe.antt =====
-- src/s3/object.rs: on an intact server, reading an object neither panics nor fails for want of a
-- part.
use s3lite.Common.{
  ℕ, ◌+◌, ◌-◌, ◌==◌, ◌||◌, leb, ltb, ◌&&◌, ◌>>=◌, ok_or, Bool-cases, ◌<◌, ◌≡◌, refl, inl, inr, true,
  false, Bool, Option, none, some, Result, ok, err, arith, Option-cases,
}
use s3lite.Common.Order.{Bytes}
use s3lite.Common.Text.{bytes, length}
use s3lite.Storage.Manifest.{Manifest}
use s3lite.Storage.PartStore.{Files}
use s3lite.S3.Error.{S3Error, new_error, invalid_argument, status}
use s3lite.S3.Text.{is_blank, has_byte, split_once, strip_prefix, parse_u64}
use s3lite.S3.World.{Headers, header, External, Fault, Response, faulting, or_panic}
use s3lite.S3.Request.{bounds, parse_range, parse_range_header}
use s3lite.S3.Request.Ranges.{parse_range_header-bounds}
use s3lite.S3.Object.Get.{read_body, slice_range, send_object, or_send}
use s3lite.S3.Object.Intact.{IsWhole}

-- A result that is an answer or a client's error: no panic, and no status of 500 or more.
abbrev pub IsServed {ℓ} : {T : Type ℓ} → Result Fault T → Type 0
IsServed (ok r) = Unit
IsServed (err (Fault.s3_error y)) = status y.code < 500
IsServed (err Fault.panicked) = ⊥

abbrev pub IsRefusal {ℓ} : {T : Type ℓ} → Result S3Error T → Type 0
IsRefusal (ok r) = Unit
IsRefusal (err y) = status y.code < 500

bind-IsRefusal {ℓ κ} :
    {T : Type ℓ} {U : Type κ} (r : Result S3Error T) (go_on : T → Result S3Error U)
    → IsRefusal r
    → ((t : T) → IsRefusal (go_on t))
    → IsRefusal (r >>= go_on)
bind-IsRefusal (err y) go_on h k = h
bind-IsRefusal (ok t) go_on h k = k t

pub bind-IsServed {ℓ κ} :
    {T : Type ℓ} {U : Type κ} (r : Result Fault T) (go_on : T → Result Fault U)
    → IsServed r
    → ((t : T) → r ≡ ok t → IsServed (go_on t))
    → IsServed (r >>= go_on)
bind-IsServed (err (Fault.s3_error y)) go_on h k = h
bind-IsServed (err Fault.panicked) go_on h k = absurd h
bind-IsServed (ok t) go_on h k = k t refl

pub faulting-IsServed {ℓ} :
    {T : Type ℓ} (r : Result S3Error T) → IsRefusal r → IsServed (faulting r)
faulting-IsServed (ok t) h = h
faulting-IsServed (err y) h = h

pub faulting-ok {ℓ} : {T : Type ℓ} (r : Result S3Error T) (t : T) → faulting r ≡ ok t → r ≡ ok t
faulting-ok (ok u) t h = ground arith
faulting-ok (err y) t h = absurd (ground arith)

-- An argument error where a value is missing.
argument-IsRefusal {ℓ} :
    {T : Type ℓ} (o : Option T) (message : Bytes)
    → IsRefusal (ok_or o (new_error invalid_argument message))
unfolding status
argument-IsRefusal none message = omega arith
argument-IsRefusal (some t) message = tt

bounds-IsRefusal : (size last : ℕ) (a b : Bytes) → IsRefusal (bounds size last a b)
unfolding status
bounds-IsRefusal size last a b = elim (Bool-cases (is_blank a)) [
  | inl from_end ↦ elim (Bool-cases (is_blank b)) [
    | inl neither ↦ rw (from_end, neither) (omega arith)
    | inr suffix ↦
        rw (from_end, suffix)
          (bind-IsRefusal _ _ (argument-IsRefusal (parse_u64 b) _) (λ n.
            elim (Bool-cases (n == 0 || size == 0)) [
              | inl empty ↦ rw empty tt
              | inr some_bytes ↦ rw some_bytes tt
            ]))
  ]
  | inr from_start ↦ elim (Bool-cases (is_blank b)) [
    | inl open_end ↦
        rw (from_start, open_end)
          (bind-IsRefusal _ _ (argument-IsRefusal (parse_u64 a) _) (λ n. tt))
    | inr both ↦
        rw (from_start, both)
          (bind-IsRefusal _ _ (argument-IsRefusal (parse_u64 a) _)
            (λ n. bind-IsRefusal _ _ (argument-IsRefusal (parse_u64 b) _) (λ k. tt)))
  ]
]

parse_range-IsRefusal : (size : ℕ) (v : Bytes) → IsRefusal (parse_range size v)
unfolding status
parse_range-IsRefusal size v =
    bind-IsRefusal _ _ (argument-IsRefusal (strip_prefix (bytes "bytes=") v) _) (λ spec.
      elim (Bool-cases (has_byte 0x2c spec)) [
        | inl several ↦ rw several (omega arith)
        | inr one ↦ rw one (
            bind-IsRefusal _ _ (argument-IsRefusal (split_once 0x2d spec) _) (λ pair.
              bind-IsRefusal _ _ (bounds-IsRefusal size (size - 1) pair.0 pair.1) (λ range. tt)))
      ])

module _ (x : External) where
  parse_range_header-IsRefusal :
      (headers : Headers) (size : ℕ) → IsRefusal (parse_range_header x headers size)
  unfolding parse_range_header
  parse_range_header-IsRefusal headers size = elim (Option-cases (header (bytes "range") headers)) [
    | inl gone ↦ rw gone tt
    | inr (v, there) ↦
        rw there (
          bind-IsRefusal _ _ (argument-IsRefusal (x.to_str v) _)
            (λ s. parse_range-IsRefusal size s))
  ]

  -- A slice that `parse_range_header` lets through is in the content.
  slice_range-IsServed :
      (headers : Headers) (content : Bytes) (size : ℕ) (range : Option (ℕ × ℕ))
      → length content ≡ size
      → parse_range_header x headers size ≡ ok range
      → IsServed (or_panic (slice_range content range))
  slice_range-IsServed headers content size none sized h = tt
  slice_range-IsServed headers content size (some (start, end)) sized h =
      let (order, last) = parse_range_header-bounds x headers size start end h in
      let inside : (leb start (end + 1) && ltb end (length content)) ≡ true = ground arith in
      rw inside tt

  read_body-IsServed :
      (files : Files) (m : Manifest) (headers : Headers) (range : Option (ℕ × ℕ)) (head : Bool)
      → IsWhole x files m
      → parse_range_header x headers m.size ≡ ok range
      → IsServed (read_body x files m range head)
  unfolding read_body
  read_body-IsServed files m headers range true whole parsed = tt
  read_body-IsServed files m headers range false whole parsed =
      rw whole.read (slice_range-IsServed headers whole.content m.size range whole.sized parsed)

  pub send_object-IsServed :
      (files : Files) (m : Manifest) (etag : Bytes) (headers : Headers) (head : Bool)
      → IsWhole x files m
      → IsServed (send_object x files m etag headers head)
  unfolding send_object
  send_object-IsServed files m etag headers head whole =
      bind-IsServed _ _ (faulting-IsServed _ (parse_range_header-IsRefusal headers m.size))
        (λ range parsed.
          bind-IsServed _ _
            (read_body-IsServed files m headers range head whole
              (faulting-ok (parse_range_header x headers m.size) range parsed))
            (λ body sent. tt))

  pub or_send-IsServed :
      (short_circuit : Option Response) (send : Result Fault Response)
      → IsServed send
      → IsServed (or_send x short_circuit send)
  or_send-IsServed none send h = h
  or_send-IsServed (some r) send h = tt
