-- ===== src/Protocol/Wire.antt =====
-- The `bytes` crate as the protocol uses it: `BufMut::put_*` and `Buf::get_*` for each integer type,
-- with their documented behaviour as laws. The crate is not part of the repository, so the
-- definitions take it as an argument.
use teamview.Prelude.{ℕ, ◌≤◌, ◌<◌, ◌^◌, ◌≡◌, List, ◌++◌, Option, some, length, drop}
use teamview.Prelude.Int.{ℤ, IsI64}

-- `put` is what one call appends to the buffer. `get` reads one value from the front and advances;
-- `none` is the panic of a read past the end.
pub record IntCodec (A : Type 0) : Type 0 where
  pub put : A → List ℕ
  pub get : List ℕ → Option (A × List ℕ)

pub record Wire : Type 0 where
  pub u8 : IntCodec ℕ
  pub u16 : IntCodec ℕ
  pub u32 : IntCodec ℕ
  pub u64 : IntCodec ℕ
  pub i64 : IntCodec ℤ

-- A value of `width` bytes is written in `width` bytes and read back, a read takes `width` bytes and
-- does not panic if they are there, and what it reads is in range.
pub record IntLaws {A : Type 0} (width : ℕ) (Fits : A → Type 0) (c : IntCodec A) : Type 0 where
  pub length-put : (a : A) → Fits a → length (c.put a) ≡ width
  pub get-put : (a : A) (rest : List ℕ) → Fits a → c.get (c.put a ++ rest) ≡ some (a, rest)
  pub get_enough :
      (bs : List ℕ) → width ≤ length bs → (a : A) × (c.get bs ≡ some (a, drop width bs)) × Fits a

abbrev pub IsUnsigned : ℕ → ℕ → Type 0
IsUnsigned bits n = n < 2 ^ bits

pub record WireLaws (w : Wire) : Type 0 where
  pub u8_laws : IntLaws 1 (IsUnsigned 8) w.u8
  pub u16_laws : IntLaws 2 (IsUnsigned 16) w.u16
  pub u32_laws : IntLaws 4 (IsUnsigned 32) w.u32
  pub u64_laws : IntLaws 8 (IsUnsigned 64) w.u64
  pub i64_laws : IntLaws 8 IsI64 w.i64
