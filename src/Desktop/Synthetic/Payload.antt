-- ===== src/Desktop/Synthetic/Payload.antt =====
-- The payloads of the synthetic stream of crates/desktop-client are read as they were written.
use teamview.Prelude.{
  ℕ, zero, suc, ◌+◌, ◌*◌, ◌-◌, ◌≤◌, ◌<◌, ◌≡◌, refl, sym, ap, ◌∙◌, true, false, some, List, [], ◌∷◌,
  ◌++◌, ◌==◌, ◌||◌, leb, length, length-append, take, drop, drop-append, arith,
}
use teamview.Prelude.Text.{text, eq_text}
use teamview.Prelude.Words.{cast, max_of}
use teamview.Desktop.Capture.{checked_mul}
use teamview.Desktop.Synthetic.{
  get_range, u32_to_le_bytes, u32_from_le_bytes, number_at, preview_bytes, synthetic_preview_magic,
  parse_synthetic_preview,
}

-- The bytes of a number of 32 bits give the number.
pub u32_from_le_bytes-u32_to_le_bytes :
    (n : ℕ) → n < 4294967296 → u32_from_le_bytes (u32_to_le_bytes n) ≡ some n
unfolding u32_from_le_bytes u32_to_le_bytes
u32_from_le_bytes-u32_to_le_bytes n small = ap some (omega arith)

take-append : (n : ℕ) (xs ys : List ℕ) → n ≡ length xs → take n (xs ++ ys) ≡ xs
take-append zero [] ys h = refl
take-append zero (x ∷ xs) ys h = absurd (omega arith)
take-append (suc n) [] ys h = absurd (omega arith)
take-append (suc n) (x ∷ xs) ys h = ap (λ zs. x ∷ zs) (take-append n xs ys (omega arith))

get_range-middle :
    (lo hi : ℕ) (before middle after : List ℕ)
    → length before ≡ lo
    → lo + length middle ≡ hi
    → get_range lo hi (before ++ (middle ++ after)) ≡ some middle
unfolding get_range
get_range-middle lo hi before middle after starts stops =
    let long : leb hi (length (before ++ (middle ++ after))) ≡ true =
      ground (
        arith,
        length-append before (middle ++ after),
        length-append middle after,
        starts,
        stops,
      ) in
    let ordered : leb lo hi ≡ true = ground (arith, stops) in
    let passed : drop lo (before ++ (middle ++ after)) ≡ middle ++ after =
      drop-append lo before (middle ++ after) (sym starts) in
    let kept : take (hi - lo) (middle ++ after) ≡ middle =
      take-append (hi - lo) middle after (omega (arith, stops)) in
    rw (get_range, ordered, long, passed, kept)

-- A magic and three numbers.
abbrev pub header_of : List ℕ → ℕ → ℕ → ℕ → List ℕ
header_of magic a b c = magic ++ (u32_to_le_bytes a ++ (u32_to_le_bytes b ++ u32_to_le_bytes c))

module _ (p q r s a b c : ℕ) (small_a : a < 4294967296) (small_b : b < 4294967296)
    (small_c : c < 4294967296) where
  pub number_at-header_of :
      (number_at 4 (header_of (p ∷ q ∷ r ∷ s ∷ []) a b c) ≡ some a)
      × (number_at 8 (header_of (p ∷ q ∷ r ∷ s ∷ []) a b c) ≡ some b)
      × (number_at 12 (header_of (p ∷ q ∷ r ∷ s ∷ []) a b c) ≡ some c)
  unfolding number_at u32_to_le_bytes
  number_at-header_of = (
    u32_from_le_bytes-u32_to_le_bytes a small_a,
    u32_from_le_bytes-u32_to_le_bytes b small_b,
    u32_from_le_bytes-u32_to_le_bytes c small_c,
  )

pub header_length : (p q r s a b c : ℕ) → length (header_of (p ∷ q ∷ r ∷ s ∷ []) a b c) ≡ 16
unfolding u32_to_le_bytes
header_length p q r s a b c = refl

pub get_range-header_of :
    (p q r s a b c : ℕ) (rest : List ℕ)
    → get_range 0 16 (header_of (p ∷ q ∷ r ∷ s ∷ []) a b c ++ rest)
      ≡ some (header_of (p ∷ q ∷ r ∷ s ∷ []) a b c)
unfolding u32_to_le_bytes
get_range-header_of p q r s a b c rest =
    get_range-middle 0 16 [] (header_of (p ∷ q ∷ r ∷ s ∷ []) a b c) rest refl refl

preview_bytes_parts :
    (width height : ℕ) (pixels rest : List ℕ)
    → preview_bytes width height pixels ++ rest
      ≡ header_of synthetic_preview_magic width height (cast 32 (length pixels)) ++ (pixels ++ rest)
unfolding preview_bytes u32_to_le_bytes text
preview_bytes_parts width height pixels rest = refl

pub magic_kept :
    (p q r s a b c : ℕ)
    → eq_text (take 4 (header_of (p ∷ q ∷ r ∷ s ∷ []) a b c)) (p ∷ q ∷ r ∷ s ∷ []) ≡ true
unfolding eq_text
magic_kept p q r s a b c = ground arith

checked_mul-fits : (a b : ℕ) → a * b < 4294967296 → checked_mul a b ≡ some (a * b)
checked_mul-fits a b small =
    let fits : leb (a * b) (max_of 64) ≡ true = ground (arith, small) in rw fits

-- A preview with four bytes for each of its pixels is read back, whatever follows it.
pub parse_synthetic_preview-preview_bytes :
    (width height : ℕ) (pixels rest : List ℕ)
    → 1 ≤ width
    → 1 ≤ height
    → width < 4294967296
    → height < 4294967296
    → length pixels ≡ width * height * 4
    → width * height * 4 < 4294967296
    → parse_synthetic_preview (preview_bytes width height pixels ++ rest)
      ≡ some (record { width = width; height = height; pixels = pixels })
unfolding parse_synthetic_preview text
parse_synthetic_preview-preview_bytes width height pixels rest wide high small_w small_h filled
      small =
    let size : cast 32 (length pixels) ≡ width * height * 4 = ground (arith, filled, small) in
    let header = header_of synthetic_preview_magic width height (width * height * 4) in
    let numbers =
      number_at-header_of 84 86 66 49 width height (width * height * 4) small_w small_h small in
    let first : get_range 0 16 (header ++ (pixels ++ rest)) ≡ some header =
      get_range-header_of 84 86 66 49 width height (width * height * 4) (pixels ++ rest) in
    let second : get_range 16 (16 + width * height * 4) (header ++ (pixels ++ rest)) ≡ some pixels =
      get_range-middle 16 (16 + width * height * 4) header pixels rest
        (header_length 84 86 66 49 width height (width * height * 4)) (ap (λ n. 16 + n) filled) in
    let no_zero : (width == 0 || height == 0) ≡ false = ground arith in
    let area = checked_mul-fits width height (omega (arith, small)) in
    let bytes = checked_mul-fits (width * height) 4 small in
    let same : (width * height * 4 == width * height * 4) ≡ true = ground arith in
    let read : parse_synthetic_preview (header ++ (pixels ++ rest))
        ≡ some (record { width = width; height = height; pixels = pixels }) =
      rw (
        parse_synthetic_preview,
        first,
        magic_kept 84 86 66 49 width height (width * height * 4),
        numbers.0,
        numbers.1,
        numbers.2,
        no_zero,
        area,
        bytes,
        same,
        second,
      ) in
    ap parse_synthetic_preview (
      preview_bytes_parts width height pixels rest
      ∙ ap (λ n. header_of synthetic_preview_magic width height n ++ (pixels ++ rest)) size)
    ∙ read
