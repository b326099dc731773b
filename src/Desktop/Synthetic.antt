-- ===== src/Desktop/Synthetic.antt =====
-- The synthetic stream of crates/desktop-client: the payloads and the frames that src/encode/h264.rs
-- writes, and src/decode/h264.rs reads.
pub mod Payload
pub mod Preview
pub mod Frames
pub mod Codec
use teamview.Prelude.{
  ℕ, zero, suc, ◌+◌, ◌*◌, ◌-◌, ◌/◌, ◌%◌, ◌^◌, max, Bool, true, false, not, ◌&&◌, ◌||◌, Option, none,
  some, List, [], ◌∷◌, ◌++◌, ◌==◌, leb, ltb, if◌then◌else◌, length, take, drop,
}
use teamview.Prelude.Int.{pos}
use teamview.Prelude.Text.{Text, text, eq_text}
use teamview.Prelude.Words.{cast, saturating_mul}
use teamview.Prelude.Result.{Result, ok, err, panic}
use teamview.Protocol.Codec.{CodecId}
use teamview.Protocol.Frame.{EncodedFrame}
use teamview.Desktop.AnnexB.{append_nal, annex_b_unescape_payload, annex_b_nals, collect_nals}
use teamview.Desktop.Capture.{
  CaptureFrame, CaptureFrameStorage, bgra_byte_len, checked_mul, is_bgra8,
}

-- `?` on an `Option`
abbrev pub and_then : {A B : Type 0} → Option A → (A → Option B) → Option B
and_then none f = none
and_then (some a) f = f a

-- `get(lo..hi)`
unfoldable pub get_range : ℕ → ℕ → List ℕ → Option (List ℕ)
get_range lo hi bytes =
    if leb lo hi && leb hi (length bytes) then some (take (hi - lo) (drop lo bytes)) else none

-- `to_le_bytes` of a `u32` and a `u16`.
unfoldable pub u32_to_le_bytes : ℕ → List ℕ
u32_to_le_bytes n = n % 256 ∷ n / 256 % 256 ∷ n / 65536 % 256 ∷ n / 16777216 % 256 ∷ []

unfoldable pub u16_to_le_bytes : ℕ → List ℕ
u16_to_le_bytes n = n % 256 ∷ n / 256 % 256 ∷ []

-- `u32::from_le_bytes(bytes.try_into().ok()?)`
unfoldable pub u32_from_le_bytes : List ℕ → Option ℕ
u32_from_le_bytes (a ∷ b ∷ c ∷ d ∷ []) = some (a + 256 * b + 65536 * c + 16777216 * d)
u32_from_le_bytes _ = none

abbrev pub synthetic_sps_magic : List ℕ
synthetic_sps_magic = text "TVS1"

abbrev pub synthetic_pps_magic : List ℕ
synthetic_pps_magic = text "TVP1"

abbrev pub synthetic_frame_magic : List ℕ
synthetic_frame_magic = text "TVF1"

abbrev pub synthetic_preview_magic : List ℕ
synthetic_preview_magic = text "TVB1"

unfoldable pub synthetic_sps_payload : ℕ → ℕ → ℕ → List ℕ
unfolding u32_to_le_bytes u16_to_le_bytes
synthetic_sps_payload width height frames_per_second =
    synthetic_sps_magic
    ++ (u32_to_le_bytes width ++ (u32_to_le_bytes height ++ u16_to_le_bytes frames_per_second))

unfoldable pub preview_dimensions : ℕ → ℕ → ℕ × ℕ
preview_dimensions width height =
    let height_by_width = cast 32 (height * 160 / max width 1) in
    let width_by_height = cast 32 (width * 90 / max height 1) in
    if leb width 160 && leb height 90
    then (max width 1, max height 1)
    else (if leb height_by_width 90
        then (160, max height_by_width 1)
        else (max width_by_height 1, 90))

module _ (source_pixels : List ℕ)
    (source_width source_height preview_width preview_height : ℕ) where
  -- A row of the preview from column `x` on, `n` pixels long.
  unfoldable pub downsample_row : ℕ → ℕ → ℕ → Option (List ℕ)
  unfolding get_range
  downsample_row y zero x = some []
  downsample_row y (suc n) x =
      let rest = downsample_row y n (x + 1) in
      let source_y = y * source_height / preview_height in
      let source_x = x * source_width / preview_width in
      let offset = (source_y * source_width + source_x) * 4 in
      and_then (get_range offset (offset + 4) source_pixels)
        λ pixel. and_then rest λ pixels. some (pixel ++ pixels)

  -- The rows from `y` on, `n` of them.
  unfoldable pub downsample_rows : ℕ → ℕ → Option (List ℕ)
  unfolding downsample_row
  downsample_rows zero y = some []
  downsample_rows (suc n) y =
      let rest = downsample_rows n (y + 1) in
      and_then (downsample_row y preview_width 0) λ row. and_then rest λ rows. some (row ++ rows)

  unfoldable pub downsample_bgra_nearest : Option (List ℕ)
  unfolding downsample_rows
  downsample_bgra_nearest = elim (bgra_byte_len preview_width preview_height) [
    | ok preview_len ↦ downsample_rows preview_height 0
    | err e ↦ none
    | panic ↦ none
  ]

-- The preview as it is written.
unfoldable pub preview_bytes : ℕ → ℕ → List ℕ → List ℕ
unfolding u32_to_le_bytes
preview_bytes width height pixels =
    synthetic_preview_magic
    ++ (u32_to_le_bytes width
        ++ (u32_to_le_bytes height ++ (u32_to_le_bytes (cast 32 (length pixels)) ++ pixels)))

-- The preview of pixels in memory.
unfoldable pub preview_of_pixels : CaptureFrame → List ℕ → Option (List ℕ)
unfolding preview_dimensions downsample_bgra_nearest preview_bytes
preview_of_pixels frame source_pixels =
    let (preview_width, preview_height) = preview_dimensions frame.width frame.height in
    if not (is_bgra8 frame.format) then none else elim (bgra_byte_len frame.width frame.height) [
      | err e ↦ none
      | panic ↦ none
      | ok expected_len ↦
          if not (length source_pixels == expected_len)
          then none
          else and_then
              (downsample_bgra_nearest source_pixels frame.width frame.height preview_width
                preview_height)
              λ pixels. some (preview_bytes preview_width preview_height pixels)
    ]

unfoldable pub synthetic_preview_payload : CaptureFrame → Option (List ℕ)
unfolding preview_of_pixels
synthetic_preview_payload frame = elim frame.storage [
  | CaptureFrameStorage.metadata_only ↦ none
  | CaptureFrameStorage.cpu_bytes source_pixels ↦ preview_of_pixels frame source_pixels
  | CaptureFrameStorage.native_handle handle ↦ none
]

unfoldable pub synthetic_frame_payload : CaptureFrame → List ℕ
unfolding u32_to_le_bytes synthetic_preview_payload
synthetic_frame_payload frame =
    synthetic_frame_magic
    ++ (u32_to_le_bytes (cast 32 frame.frame_id)
        ++ (u32_to_le_bytes frame.width
            ++ (u32_to_le_bytes frame.height
                ++ elim (synthetic_preview_payload frame) [ some preview ↦ preview | none ↦ [] ])))

pub record SyntheticStreamConfig : Type 0 where
  pub width : ℕ
  pub height : ℕ

pub record SyntheticPreview : Type 0 where
  pub width : ℕ
  pub height : ℕ
  pub pixels : List ℕ

pub record SyntheticFrameInfo : Type 0 where
  pub frame_id : ℕ
  pub width : ℕ
  pub height : ℕ
  pub preview : Option SyntheticPreview

-- The number in four bytes from `at` on.
unfoldable pub number_at : ℕ → List ℕ → Option ℕ
unfolding u32_from_le_bytes
number_at at bytes = u32_from_le_bytes (take 4 (drop at bytes))

unfoldable pub parse_synthetic_sps : List ℕ → Option SyntheticStreamConfig
unfolding number_at get_range
parse_synthetic_sps payload = and_then (get_range 0 14 payload) λ bytes.
    if not (eq_text (take 4 bytes) synthetic_sps_magic)
    then none
    else and_then (number_at 4 bytes) λ width. and_then (number_at 8 bytes) λ height.
      if width == 0 || height == 0 then none else some (record { width = width; height = height })

unfoldable pub parse_synthetic_preview : List ℕ → Option SyntheticPreview
unfolding number_at get_range
parse_synthetic_preview payload = and_then (get_range 0 16 payload) λ header.
    if not (eq_text (take 4 header) synthetic_preview_magic)
    then none
    else and_then (number_at 4 header) λ width. and_then (number_at 8 header) λ height.
      and_then (number_at 12 header) λ byte_len.
        if width == 0 || height == 0
        then none
        else and_then (checked_mul width height) λ pixel_count.
          and_then (checked_mul pixel_count 4) λ expected_len.
            if not (byte_len == expected_len)
            then none
            else and_then (get_range 16 (16 + byte_len) payload)
                λ pixels. some (record { width = width; height = height; pixels = pixels })

unfoldable pub parse_synthetic_frame : List ℕ → Option SyntheticFrameInfo
unfolding number_at get_range parse_synthetic_preview
parse_synthetic_frame payload = and_then (get_range 0 16 payload) λ bytes.
    if not (eq_text (take 4 bytes) synthetic_frame_magic)
    then none
    else and_then (number_at 4 bytes) λ frame_id. and_then (number_at 8 bytes) λ width.
      and_then (number_at 12 bytes) λ height.
        if width == 0 || height == 0
        then none
        else some (record {
          frame_id = frame_id;
          width = width;
          height = height;
          preview = parse_synthetic_preview (drop 16 payload);
        })
