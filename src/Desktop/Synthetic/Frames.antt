-- ===== src/Desktop/Synthetic/Frames.antt =====
-- A captured frame in the synthetic stream of crates/desktop-client is read as it was written.
use mathlib.Core.List.{append-nil}
use teamview.Prelude.{
  ℕ, ◌*◌, ◌≤◌, ◌<◌, ◌≡◌, refl, ap, sym, ◌∙◌, false, Option, none, some, List, [], ◌++◌, ◌==◌, ◌||◌,
  length, drop, drop-append, arith, Option-cases, inl, inr,
}
use teamview.Prelude.Text.{text}
use teamview.Prelude.Words.{cast}
use teamview.Desktop.Capture.{CaptureFrame}
use teamview.Desktop.Synthetic.{
  u32_to_le_bytes, get_range, preview_bytes, synthetic_frame_payload, synthetic_preview_payload,
  synthetic_frame_magic, parse_synthetic_frame, parse_synthetic_preview, SyntheticPreview,
}
use teamview.Desktop.Synthetic.Payload.{
  header_of, header_length, number_at-header_of, get_range-header_of, magic_kept,
  parse_synthetic_preview-preview_bytes,
}
use teamview.Desktop.Synthetic.Preview.{
  wide, high, IsWritten, preview_dimensions-bounds, synthetic_preview_payload-IsWritten,
}

-- The preview that a decoder should read for the preview that was written, or not.
pub data IsPreview (width height : ℕ) : Option (List ℕ) → Option SyntheticPreview → Type 0 where
  absent : IsPreview width height none none
  present :
      (pixels : List ℕ)
      → length pixels ≡ width * height * 4
      → IsPreview width height
          (some (preview_bytes width height pixels))
          (some (record { width = width; height = height; pixels = pixels }))

-- What stands behind the header of a frame.
abbrev tail_of : Option (List ℕ) → List ℕ
tail_of (some preview) = preview
tail_of none = []

parse_synthetic_preview-nothing : parse_synthetic_preview [] ≡ none
unfolding parse_synthetic_preview get_range
parse_synthetic_preview-nothing = refl

parse_synthetic_preview-IsPreview :
    (frame : CaptureFrame) (bytes : List ℕ)
    → IsWritten frame bytes
    → IsPreview (wide frame) (high frame) (some bytes) (parse_synthetic_preview bytes)
parse_synthetic_preview-IsPreview frame bytes (pixels, size, written) =
    let (w1, w2, h1, h2) = preview_dimensions-bounds frame.width frame.height in
    let area : wide frame * high frame ≤ 14400 = grind arith in
    let read : parse_synthetic_preview bytes
        ≡ some (record { width = wide frame; height = high frame; pixels = pixels }) =
      ap parse_synthetic_preview (written ∙ sym (append-nil _))
      ∙ parse_synthetic_preview-preview_bytes (wide frame) (high frame) pixels [] w1 h1
          (omega arith) (omega arith) size (omega arith) in
    rw (read, written) (present pixels size)

synthetic_preview_payload-IsPreview :
    (frame : CaptureFrame)
    → IsPreview
        (wide frame)
        (high frame)
        (synthetic_preview_payload frame)
        (parse_synthetic_preview (tail_of (synthetic_preview_payload frame)))
synthetic_preview_payload-IsPreview frame = elim (Option-cases (synthetic_preview_payload frame)) [
  | inl e ↦ rw (e, parse_synthetic_preview-nothing) absent
  | inr (bytes, e) ↦ rw e (
      parse_synthetic_preview-IsPreview frame bytes
        (synthetic_preview_payload-IsWritten frame _ bytes refl e))
]

frame_payload_parts :
    (frame : CaptureFrame)
    → synthetic_frame_payload frame
      ≡ header_of synthetic_frame_magic (cast 32 frame.frame_id) frame.width frame.height
        ++ tail_of (synthetic_preview_payload frame)
unfolding synthetic_frame_payload u32_to_le_bytes text
frame_payload_parts frame = elim (Option-cases (synthetic_preview_payload frame)) [
  | inl e ↦ rw (synthetic_frame_payload, e)
  | inr (bytes, e) ↦ rw (synthetic_frame_payload, e)
]

-- For a captured frame whose sides are not 0 and below 2^32, the decoder reads from the encoder's
-- payload the frame's number modulo 2^32, its two sides, and a preview exactly where the encoder
-- wrote one, with the pixels that were written, four bytes for each.
pub parse_synthetic_frame-synthetic_frame_payload :
    (frame : CaptureFrame)
    → 1 ≤ frame.width
    → 1 ≤ frame.height
    → frame.width < 4294967296
    → frame.height < 4294967296
    → (preview : Option SyntheticPreview) × (IsPreview
        (wide frame)
        (high frame)
        (synthetic_preview_payload frame)
        preview)
      × (parse_synthetic_frame (synthetic_frame_payload frame)
          ≡ some (record {
            frame_id = cast 32 frame.frame_id;
            width = frame.width;
            height = frame.height;
            preview = preview;
          }))
unfolding parse_synthetic_frame text
parse_synthetic_frame-synthetic_frame_payload frame w h small_w small_h =
    let preview = tail_of (synthetic_preview_payload frame) in
    let id = cast 32 frame.frame_id in
    let header = header_of synthetic_frame_magic id frame.width frame.height in
    let numbers =
      number_at-header_of 84 86 70 49 id frame.width frame.height (omega arith) small_w small_h in
    let first : get_range 0 16 (header ++ preview) ≡ some header =
      get_range-header_of 84 86 70 49 id frame.width frame.height preview in
    let behind : drop 16 (header ++ preview) ≡ preview =
      drop-append 16 header preview (sym (header_length 84 86 70 49 id frame.width frame.height)) in
    let no_zero : (frame.width == 0 || frame.height == 0) ≡ false = ground arith in
    let read : parse_synthetic_frame (header ++ preview)
        ≡ some (record {
          frame_id = id;
          width = frame.width;
          height = frame.height;
          preview = parse_synthetic_preview preview;
        }) =
      rw (
        parse_synthetic_frame,
        first,
        magic_kept 84 86 70 49 id frame.width frame.height,
        numbers.0,
        numbers.1,
        numbers.2,
        no_zero,
        behind,
      ) in
    (
      parse_synthetic_preview preview,
      synthetic_preview_payload-IsPreview frame,
      ap parse_synthetic_frame (frame_payload_parts frame) ∙ read,
    )
