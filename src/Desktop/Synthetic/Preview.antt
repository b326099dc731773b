-- ===== src/Desktop/Synthetic/Preview.antt =====
-- A captured frame in the synthetic stream of crates/desktop-client: what the decoder reads of it.
use native.Mathlib.Nat.{div-lt_iff_lt-mul}
use teamview.Prelude.{
  ℕ, zero, suc, ◌+◌, ◌*◌, ◌-◌, ◌≤◌, ◌<◌, ◌≡◌, refl, ◌∙◌, Option, none, some, List, ◌++◌, leb,
  length, length-append, length-take, length-drop, drop, arith, Bool-cases, ltb, max, ◌/◌, inl, inr,
}
use teamview.Desktop.Capture.{CaptureFrame, CaptureFrameStorage}
use teamview.Desktop.Synthetic.{
  and_then, get_range, downsample_row, downsample_rows, downsample_bgra_nearest, preview_dimensions,
  preview_bytes, preview_of_pixels, synthetic_preview_payload,
}

length-get_range :
    (lo hi : ℕ) (bytes part : List ℕ) → get_range lo hi bytes ≡ some part → length part ≡ hi - lo
unfolding get_range
length-get_range lo hi bytes part e =
    ground (arith, e, length-take (hi - lo) (drop lo bytes), length-drop lo bytes)

-- The width for the full height is within the bound where the height for the full width is not.
width_by_height-bound :
    (width height : ℕ) → 91 ≤ height * 160 / max width 1 → width * 90 / max height 1 < 161
width_by_height-bound width height high =
    let wide : 91 * max width 1 ≤ height * 160 =
      elim (Bool-cases (ltb (height * 160) (91 * max width 1))) [
        | inl less ↦ absurd (
            omega (
              arith,
              high,
              (div-lt_iff_lt-mul {k = max width 1} {x = height * 160} {y = 91} (omega arith)).1
                  (ground (arith, less)),
            ))
        | inr no_less ↦ ground (arith, no_less)
      ] in
    (div-lt_iff_lt-mul {k = max height 1} {x = width * 90} {y = 161} (omega arith)).1
      (omega (arith, wide))

pub preview_dimensions-bounds :
    (width height : ℕ)
    → (1 ≤ (preview_dimensions width height).0)
      × ((preview_dimensions width height).0 ≤ 160)
      × (1 ≤ (preview_dimensions width height).1)
      × ((preview_dimensions width height).1 ≤ 90)
unfolding preview_dimensions
preview_dimensions-bounds width height = elim (Bool-cases (leb 91 (height * 160 / max width 1))) [
  | inl high ↦ ground (arith, width_by_height-bound width height (ground (arith, high)))
  | inr low ↦ ground (arith, low)
]

-- Where all the steps have a value, the first does.
and_then-some :
    {A B : Type 0} (o : Option A) (f : A → Option B) (b : B)
    → and_then o f ≡ some b
    → (a : A) × (o ≡ some a) × (f a ≡ some b)
and_then-some none f b e = ground (arith, e)
and_then-some (some a) f b e = (a, refl, e)

joined_length :
    (first : Option (List ℕ)) (rest : Option (List ℕ)) (whole : List ℕ) (m n : ℕ)
    → and_then first (λ xs. and_then rest (λ ys. some (xs ++ ys))) ≡ some whole
    → ((xs : List ℕ) → first ≡ some xs → length xs ≡ m)
    → ((ys : List ℕ) → rest ≡ some ys → length ys ≡ n)
    → length whole ≡ m + n
joined_length first rest whole m n e hm hn =
    let (xs, is_xs, then_ys) = and_then-some first _ whole e in
    let (ys, is_ys, done) = and_then-some rest _ whole then_ys in
    ground (arith, hm xs is_xs, hn ys is_ys, done, length-append xs ys)

module _ (source : List ℕ) (sw sh pw ph : ℕ) where
  length-downsample_row :
      (y n x : ℕ) (row : List ℕ)
      → downsample_row source sw sh pw ph y n x ≡ some row
      → length row ≡ n * 4
  unfolding downsample_row
  length-downsample_row y zero x row e = ground (arith, e)
  length-downsample_row y (suc n) x row e = omega (
    arith,
    joined_length _ (downsample_row source sw sh pw ph y n (x + 1)) row 4 (n * 4) e
        (λ xs got. length-get_range _ _ source xs got ∙ omega arith)
        (length-downsample_row y n (x + 1)),
  )

  length-downsample_rows :
      (n y : ℕ) (rows : List ℕ)
      → downsample_rows source sw sh pw ph n y ≡ some rows
      → length rows ≡ n * (pw * 4)
  unfolding downsample_rows
  length-downsample_rows zero y rows e = ground (arith, e)
  length-downsample_rows (suc n) y rows e =
      joined_length (downsample_row source sw sh pw ph y pw 0)
        (downsample_rows source sw sh pw ph n (y + 1)) rows (pw * 4) (n * (pw * 4)) e
        (length-downsample_row y pw 0) (length-downsample_rows n (y + 1))
      ∙ omega arith

downsample_bgra_nearest-length :
    (source : List ℕ) (sw sh pw ph : ℕ) (pixels : List ℕ)
    → downsample_bgra_nearest source sw sh pw ph ≡ some pixels
    → length pixels ≡ pw * ph * 4
unfolding downsample_bgra_nearest
downsample_bgra_nearest-length source sw sh pw ph pixels e =
    let rows : downsample_rows source sw sh pw ph ph 0 ≡ some pixels = ground (arith, e) in
    length-downsample_rows source sw sh pw ph ph 0 pixels rows ∙ grind arith

module _ (frame : CaptureFrame) where
  abbrev pub wide : ℕ
  wide = (preview_dimensions frame.width frame.height).0

  abbrev pub high : ℕ
  high = (preview_dimensions frame.width frame.height).1

  abbrev pub IsWritten : List ℕ → Type 0
  IsWritten bytes =
      (pixels : List ℕ) × (length pixels ≡ wide * high * 4)
      × (bytes ≡ preview_bytes wide high pixels)

  preview_of_pixels-IsWritten :
      (source bytes : List ℕ) → preview_of_pixels frame source ≡ some bytes → IsWritten bytes
  unfolding preview_of_pixels
  preview_of_pixels-IsWritten source bytes e =
      let reached : and_then (downsample_bgra_nearest source frame.width frame.height wide high)
            (λ pixels. some (preview_bytes wide high pixels))
          ≡ some bytes =
        ground (arith, e) in
      let (pixels, sampled, written) = and_then-some _ _ bytes reached in
      (
        pixels,
        downsample_bgra_nearest-length source frame.width frame.height wide high pixels sampled,
        ground (arith, written),
      )

  pub synthetic_preview_payload-IsWritten :
      (storage : CaptureFrameStorage) (bytes : List ℕ)
      → frame.storage ≡ storage
      → synthetic_preview_payload frame ≡ some bytes
      → IsWritten bytes
  unfolding synthetic_preview_payload
  synthetic_preview_payload-IsWritten CaptureFrameStorage.metadata_only bytes e written =
      ground (arith, e, written)
  synthetic_preview_payload-IsWritten (CaptureFrameStorage.native_handle handle) bytes e written =
      ground (arith, e, written)
  synthetic_preview_payload-IsWritten (CaptureFrameStorage.cpu_bytes source) bytes e written =
      preview_of_pixels-IsWritten source bytes (ground (arith, e, written))
