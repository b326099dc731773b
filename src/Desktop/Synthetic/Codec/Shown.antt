-- ===== src/Desktop/Synthetic/Codec/Shown.antt =====
-- What the synthetic decoder of crates/desktop-client makes of a keyframe, with a preview and without.
use teamview.Prelude.{
  ℕ, ◌*◌, ◌-◌, ◌^◌, ◌≤◌, ◌<◌, ◌≡◌, max, Bool, true, false, Option, none, some, List, length, ltb,
  ltb→lt, Bool-cases, inl, inr, arith,
}
use teamview.Prelude.Text.{Text, text}
use teamview.Prelude.Words.{cast, max_of, saturating_mul}
use teamview.Prelude.Result.{Result, ok, err, panic}
use teamview.Desktop.Capture.{CaptureFrame}
use teamview.Desktop.Synthetic.{SyntheticFrameInfo, SyntheticPreview, preview_bytes}
use teamview.Desktop.Synthetic.Preview.{wide, high, preview_dimensions-bounds}
use teamview.Desktop.Synthetic.Frames.{IsPreview, absent, present}
use teamview.Desktop.Synthetic.Codec.{DecodedFrame, sized_picture, picture, synthetic_bgra_pixels}

-- What the decoder makes of a keyframe, by the preview that the encoder wrote, or not.
pub data IsShown (frame : CaptureFrame)
    : Option (List ℕ) → Result Text (Option DecodedFrame) → Type 0 where
  previewed :
      (pixels : List ℕ)
      → length pixels ≡ wide frame * high frame * 4
      → IsShown frame (some (preview_bytes (wide frame) (high frame) pixels)) (
          ok (
            some (record {
              frame_id = cast 32 frame.frame_id;
              width = wide frame;
              height = high frame;
              pixels = pixels;
            })))
  patterned :
      frame.width * frame.height ≤ 8294400
      → IsShown frame none (
          ok (
            some (record {
              frame_id = cast 32 frame.frame_id;
              width = frame.width;
              height = frame.height;
              pixels = synthetic_bgra_pixels frame.width frame.height (cast 32 frame.frame_id) true;
            })))
  too_large :
      8294400 < frame.width * frame.height
      → frame.width * frame.height * 4 ≤ max_of 63
      → IsShown frame none (err (text "synthetic decoded frame exceeds maximum preview size"))
  out_of_memory : max_of 63 < frame.width * frame.height * 4 → IsShown frame none panic

-- The reservation for the test pattern, with and without the saturation.
abbrev reserve : ℕ → ℕ → Bool
reserve width height = ltb (2 ^ 63 - 1) (saturating_mul 64 (saturating_mul 64 width height) 4)

reserve-vast :
    (width height : ℕ) → ltb (max_of 63) (width * height * 4) ≡ true → reserve width height ≡ true
reserve-vast width height vast = ground (arith, vast)

reserve-fits :
    (width height : ℕ) → ltb (max_of 63) (width * height * 4) ≡ false → reserve width height ≡ false
reserve-fits width height fits = ground (arith, fits)

abbrev pub shown_info : CaptureFrame → Option SyntheticPreview → SyntheticFrameInfo
shown_info frame preview = record {
  frame_id = cast 32 frame.frame_id;
  width = frame.width;
  height = frame.height;
  preview = preview;
}

picture-pattern :
    (frame : CaptureFrame)
    → 1 ≤ frame.width
    → 1 ≤ frame.height
    → IsShown frame none (picture true (shown_info frame none))
unfolding picture sized_picture
picture-pattern frame w h =
    let across : max frame.width 1 ≡ frame.width = omega arith in
    let down : max frame.height 1 ≡ frame.height = omega arith in
    elim (Bool-cases (ltb (max_of 63) (frame.width * frame.height * 4))) [
      | inl vast ↦
          rw (picture, across, down, reserve-vast frame.width frame.height vast)
            (out_of_memory (ltb→lt _ _ vast))
      | inr fits ↦ elim (Bool-cases (ltb 8294400 (frame.width * frame.height))) [
        | inl large ↦
            rw (picture, across, down, reserve-fits frame.width frame.height fits, large)
              (too_large (ltb→lt _ _ large) (ground (arith, fits)))
        | inr small ↦
            rw (picture, across, down, reserve-fits frame.width frame.height fits, small)
              (patterned (ground (arith, small)))
      ]
    ]

pub picture-IsShown :
    (frame : CaptureFrame) (written : Option (List ℕ)) (preview : Option SyntheticPreview)
    → 1 ≤ frame.width
    → 1 ≤ frame.height
    → IsPreview (wide frame) (high frame) written preview
    → IsShown frame written (picture true (shown_info frame preview))
unfolding picture sized_picture
picture-IsShown frame written preview w h absent = picture-pattern frame w h
picture-IsShown frame written preview w h (present pixels size) =
    let (w1, w2, h1, h2) = preview_dimensions-bounds frame.width frame.height in
    let area : wide frame * high frame ≤ 14400 = grind arith in
    let small : ltb 8294400 (wide frame * high frame) ≡ false = ground (arith, area) in
    rw (picture, small) (previewed pixels size)
