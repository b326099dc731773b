-- ===== src/Protocol/Tests/BigEndian.antt =====
-- Big-endian integers, as the `bytes` crate documents them: an instance of the laws that
-- crates/protocol/src/packet.rs relies on.
use mathlib.Core.List.{append_assoc}
use teamview.Prelude.{
  ℕ, ◌+◌, ◌-◌, ◌*◌, ◌/◌, ◌%◌, ◌≤◌, ◌<◌, ◌≡◌, refl, ap, List, [], ◌∷◌, ◌++◌, Option, some, none, ltb,
  length, length-append, drop, drop-drop, length-drop, if◌then◌else◌, arith,
}
use teamview.Prelude.Int.{ℤ, pos, negsuc, IsI64}
use teamview.Protocol.Wire.{IntCodec, IntLaws, Wire, WireLaws, IsUnsigned}

unfoldable put_byte : ℕ → List ℕ
put_byte n = n ∷ []

unfoldable get_byte : List ℕ → Option (ℕ × List ℕ)
get_byte [] = none
get_byte (b ∷ bs) = some (b % 256, bs)

abbrev byte : IntCodec ℕ
byte = record { put = put_byte; get = get_byte }

byte_laws : IntLaws 1 (IsUnsigned 8) byte
unfolding put_byte get_byte
byte_laws = record {
  length-put = λ a h. refl;
  get-put = λ a rest h. ap (λ b. some (b, rest)) (omega arith);
  get_enough = enough;
}
  where
    enough :
        (bs : List ℕ) → 1 ≤ length bs → (a : ℕ) × (get_byte bs ≡ some (a, drop 1 bs)) × (a < 256)
    enough [] h = absurd (omega arith)
    enough (b ∷ bs) h = (b % 256, refl, omega arith)

-- Two integers, the more significant first, make one of twice the width.
module _ (b : ℕ) (c : IntCodec ℕ) where
  unfoldable get_pair : List ℕ → Option (ℕ × List ℕ)
  get_pair bs = elim (c.get bs) [
    | none ↦ none
    | some (high, rest) ↦ elim (c.get rest) [
      | none ↦ none
      | some (low, rest') ↦ some (high * b + low, rest')
    ]
  ]

  abbrev double : IntCodec ℕ
  double = record { put = λ n. c.put (n / b) ++ c.put (n % b); get = get_pair }

  double_laws :
      (k : ℕ) (top : ℕ)
      → IntLaws k (λ n. n < b) c
      → ((n : ℕ) → n < top → (n / b < b) × (n % b < b) × (n / b * b + n % b ≡ n))
      → ((h l : ℕ) → h < b → l < b → h * b + l < top)
      → IntLaws (k + k) (λ n. n < top) double
  unfolding get_pair
  double_laws k top laws split join = record {
    length-put = λ n h.
        let (x, y, _) = split n h in
        omega (
          arith,
          length-append (c.put (n / b)) (c.put (n % b)),
          laws.length-put (n / b) x,
          laws.length-put (n % b) y,
        );
    get-put = λ n rest h.
        let (x, y, e) = split n h in
        rw
          (
            append_assoc (c.put (n / b)) (c.put (n % b)) rest,
            get_pair,
            laws.get-put (n / b) (c.put (n % b) ++ rest) x,
            laws.get-put (n % b) rest y,
          )
          (ap (λ m. some (m, rest)) e);
    get_enough = λ bs h.
        let (x, e, x_fits) = laws.get_enough bs (omega arith) in
        let (y, f, y_fits) = laws.get_enough (drop k bs) (omega (arith, length-drop k bs)) in
        (
          x * b + y,
          rw (get_pair, e, f) (ap (λ r. some (x * b + y, r)) (drop-drop k k (k + k) bs refl)),
          join x y x_fits y_fits,
        );
  }

abbrev u16 : IntCodec ℕ
u16 = double 256 byte

abbrev u32 : IntCodec ℕ
u32 = double 65536 u16

abbrev u64 : IntCodec ℕ
u64 = double 4294967296 u32

u16_laws : IntLaws 2 (IsUnsigned 16) u16
u16_laws =
    double_laws 256 byte 1 65536 byte_laws (λ n h. (omega arith, omega arith, omega arith))
      (λ h l x y. omega arith)

u32_laws : IntLaws 4 (IsUnsigned 32) u32
u32_laws =
    double_laws 65536 u16 2 4294967296 u16_laws (λ n h. (omega arith, omega arith, omega arith))
      (λ h l x y. omega arith)

u64_laws : IntLaws 8 (IsUnsigned 64) u64
u64_laws =
    double_laws 4294967296 u32 4 18446744073709551616 u32_laws
      (λ n h. (omega arith, omega arith, omega arith)) (λ h l x y. omega arith)

-- Two's complement.
unfoldable to_i64 : ℕ → ℤ
to_i64 n = if ltb n 9223372036854775808 then pos n else negsuc (18446744073709551615 - n)

unfoldable of_i64 : ℤ → ℕ
of_i64 (pos n) = n
of_i64 (negsuc n) = 18446744073709551615 - n

of_i64-fits : (z : ℤ) → IsI64 z → (of_i64 z < 18446744073709551616) × (to_i64 (of_i64 z) ≡ z)
unfolding of_i64 to_i64
of_i64-fits (pos n) h = (omega arith, ground arith)
of_i64-fits (negsuc n) h = (omega arith, ground arith)

to_i64-fits : (n : ℕ) → n < 18446744073709551616 → IsI64 (to_i64 n)
unfolding to_i64
to_i64-fits n h = ground arith

module _ (c : IntCodec ℕ) where
  unfoldable get_signed : List ℕ → Option (ℤ × List ℕ)
  get_signed bs = elim (c.get bs) [ none ↦ none | some (n, rest) ↦ some (to_i64 n, rest) ]

  abbrev signed : IntCodec ℤ
  signed = record { put = λ z. c.put (of_i64 z); get = get_signed }

  signed_laws : IntLaws 8 (IsUnsigned 64) c → IntLaws 8 IsI64 signed
  unfolding get_signed
  signed_laws laws = record {
    length-put = λ z h. laws.length-put (of_i64 z) (of_i64-fits z h).0;
    get-put = λ z rest h.
        let (x, e) = of_i64-fits z h in
        rw (get_signed, laws.get-put (of_i64 z) rest x) (ap (λ y. some (y, rest)) e);
    get_enough = λ bs h.
        let (n, e, fits) = laws.get_enough bs h in
        (to_i64 n, rw (get_signed, e) refl, to_i64-fits n fits);
  }

pub big_endian : Wire
big_endian = record { u8 = byte; u16 = u16; u32 = u32; u64 = u64; i64 = signed u64 }

pub big_endian_laws : WireLaws big_endian
unfolding big_endian
big_endian_laws = record {
  u8_laws = byte_laws;
  u16_laws = u16_laws;
  u32_laws = u32_laws;
  u64_laws = u64_laws;
  i64_laws = signed_laws u64 u64_laws;
}
