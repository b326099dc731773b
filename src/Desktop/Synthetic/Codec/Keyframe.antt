-- ===== src/Desktop/Synthetic/Codec/Keyframe.antt =====
-- A keyframe of the synthetic stream of crates/desktop-client, from the encoder to the decoder.
use mathlib.Core.List.{append-nil}
use teamview.Prelude.{
  ℕ, ◌-◌, ◌%◌, ◌≤◌, ◌<◌, ◌≡◌, refl, ap, sym, ◌∙◌, true, false, Option, none, some, List, [], ◌∷◌,
  ◌++◌, ◌==◌, ◌||◌, length, take, map, arith,
}
use teamview.Prelude.Text.{text, eq_text}
use teamview.Desktop.Capture.{CaptureFrame}
use teamview.Desktop.AnnexB.{annex_b_nals, annex_b_unescape_payload, collect_nals, append_nal}
use teamview.Desktop.AnnexB.Framing.{NalUnit, stream_of, unit_of, collect_nals-append_nal}
use teamview.Desktop.Synthetic.{
  SyntheticStreamConfig, SyntheticFrameInfo, synthetic_sps_payload, synthetic_pps_magic,
  synthetic_sps_magic, synthetic_frame_payload, synthetic_preview_payload, parse_synthetic_sps,
  parse_synthetic_frame, get_range, number_at, u32_to_le_bytes, u16_to_le_bytes,
}
use teamview.Desktop.Synthetic.Payload.{u32_from_le_bytes-u32_to_le_bytes}
use teamview.Desktop.Synthetic.Frames.{parse_synthetic_frame-synthetic_frame_payload}
use teamview.Desktop.Synthetic.Codec.Shown.{IsShown, shown_info, picture-IsShown}
use teamview.Desktop.Synthetic.Codec.{
  H264Encoder, frame_units, padding, encode, decode, Seen, see_unit, see_nals, finish, picture,
  is_configured,
}

-- The decoder's loop over units that are given unescaped.
abbrev see_units : Seen → List NalUnit → Seen
see_units seen [] = seen
see_units seen (u ∷ us) = see_units (see_unit seen (u.header % 32) u.payload) us

abbrev first_or : {A : Type 0} → A → List (Option A) → A
first_or a (some b ∷ bs) = b
first_or a bs = a

abbrev rest_of : {A : Type 0} → List A → List A
rest_of [] = []
rest_of (a ∷ others) = others

see_nals-see_units :
    (seen : Seen) (nals : List (List ℕ)) (us : List NalUnit)
    → map unit_of nals ≡ map some us
    → see_nals seen nals ≡ see_units seen us
unfolding see_nals
see_nals-see_units seen [] [] e = refl
see_nals-see_units seen [] (u ∷ us) e = ground (arith, e)
see_nals-see_units seen (nal ∷ nals) [] e = ground (arith, e)
see_nals-see_units seen ([] ∷ nals) (u ∷ us) e = ground (arith, e)
see_nals-see_units seen ((h ∷ p) ∷ nals) (u ∷ us) e =
    let same = ap (first_or u) e in
    see_nals-see_units (see_unit seen (h % 32) (annex_b_unescape_payload p)) nals us (ap rest_of e)
    ∙ ap (λ v. see_units (see_unit seen (v.header % 32) v.payload) us) same

sps_fields :
    (width height rate : ℕ)
    → width < 4294967296
    → height < 4294967296
    → let payload = synthetic_sps_payload width height rate in
      (get_range 0 14 payload ≡ some payload)
      × (eq_text (take 4 payload) synthetic_sps_magic ≡ true)
      × (number_at 4 payload ≡ some width)
      × (number_at 8 payload ≡ some height)
unfolding synthetic_sps_payload get_range number_at u32_to_le_bytes u16_to_le_bytes text eq_text
sps_fields width height rate small_w small_h = (
  refl,
  refl,
  u32_from_le_bytes-u32_to_le_bytes width small_w,
  u32_from_le_bytes-u32_to_le_bytes height small_h,
)

parse_synthetic_sps-synthetic_sps_payload :
    (width height rate : ℕ)
    → 1 ≤ width
    → 1 ≤ height
    → width < 4294967296
    → height < 4294967296
    → parse_synthetic_sps (synthetic_sps_payload width height rate)
      ≡ some (record { width = width; height = height })
unfolding parse_synthetic_sps
parse_synthetic_sps-synthetic_sps_payload width height rate w h small_w small_h =
    let (first, magic, a, b) = sps_fields width height rate small_w small_h in
    let no_zero : (width == 0 || height == 0) ≡ false = ground arith in
    rw (parse_synthetic_sps, first, magic, a, b, no_zero)

-- The units of a keyframe.
abbrev keyframe_units : H264Encoder → CaptureFrame → List NalUnit
keyframe_units encoder frame =
    record {
      header = 103;
      payload = synthetic_sps_payload frame.width frame.height encoder.config.frames_per_second;
    }
    ∷ record { header = 104; payload = synthetic_pps_magic }
    ∷ record { header = 101; payload = synthetic_frame_payload frame }
    ∷ []

frame_units_parts :
    (encoder : H264Encoder) (frame : CaptureFrame)
    → frame_units encoder.config frame true ≡ stream_of (keyframe_units encoder frame)
unfolding frame_units
frame_units_parts encoder frame =
    ap
      (λ slice.
        append_nal 103
          (synthetic_sps_payload frame.width frame.height encoder.config.frames_per_second)
        ++ (append_nal 104 synthetic_pps_magic ++ slice))
      (sym (append-nil (append_nal 101 (synthetic_frame_payload frame))))

encoded_units :
    (encoder : H264Encoder) (frame : CaptureFrame) (stream_id : ℕ)
    → encoder.keyframe_requested ≡ true
    → encoder.config.synthetic_payload_bytes ≤ length (frame_units encoder.config frame true)
    → (encode encoder frame stream_id).1.bytes ≡ stream_of (keyframe_units encoder frame)
unfolding encode padding
encoded_units encoder frame stream_id asked filled =
    let none_left : encoder.config.synthetic_payload_bytes
          - length (frame_units encoder.config frame true)
        ≡ 0 =
      omega (arith, filled) in
    rw (encode, asked, none_left)
      (append-nil (frame_units encoder.config frame true) ∙ frame_units_parts encoder frame)

seen_units :
    (encoder : H264Encoder) (frame : CaptureFrame) (config : Option SyntheticStreamConfig)
    (info : SyntheticFrameInfo)
    → parse_synthetic_sps
        (synthetic_sps_payload frame.width frame.height encoder.config.frames_per_second)
      ≡ some (record { width = frame.width; height = frame.height })
    → parse_synthetic_frame (synthetic_frame_payload frame) ≡ some info
    → finish (
        see_units
          (record {
            sps = false;
            pps = false;
            idr = false;
            slice = false;
            frame_info = none;
            config = config;
          })
          (keyframe_units encoder frame))
      ≡ picture true info
unfolding finish see_unit is_configured
seen_units encoder frame config info sps shown = rw (finish, sps, shown)

three_fit :
    (encoder : H264Encoder) (frame : CaptureFrame)
    → 3 ≤ length (stream_of (keyframe_units encoder frame))
unfolding append_nal
three_fit encoder frame = omega arith

abbrev unseen : Option SyntheticStreamConfig → Seen
unseen config = record {
  sps = false;
  pps = false;
  idr = false;
  slice = false;
  frame_info = none;
  config = config;
}

decode-finish :
    (config : Option SyntheticStreamConfig) (bytes : List ℕ)
    → 3 ≤ length bytes
    → (decode config bytes).1
      ≡ finish (see_nals (unseen config) (collect_nals (length bytes) (annex_b_nals bytes)))
unfolding decode
decode-finish config [] long = absurd (omega (arith, long))
decode-finish config (byte ∷ bytes) long = refl

-- A frame that the synthetic encoder encodes as a requested keyframe without padding, with sides
-- that are not 0 and below 2^32, is decoded, whatever the decoder has seen before, as follows.
-- Where the encoder wrote a preview, the decoder gives a frame with the frame's number modulo 2^32,
-- the preview's sides, and the pixels that were written, four bytes for each. Where it wrote none,
-- the decoder gives a frame with that number and of the frame's own sides, filled with the test
-- pattern, if these make at most 8294400 pixels; it gives an error, if they make more, but no more
-- than 2^63 - 1 bytes of four for each pixel; and it panics above that.
pub decode-encode_keyframe :
    (encoder : H264Encoder) (frame : CaptureFrame) (stream_id : ℕ)
    (config : Option SyntheticStreamConfig)
    → encoder.keyframe_requested ≡ true
    → encoder.config.synthetic_payload_bytes ≤ length (frame_units encoder.config frame true)
    → 1 ≤ frame.width
    → 1 ≤ frame.height
    → frame.width < 4294967296
    → frame.height < 4294967296
    → IsShown frame
        (synthetic_preview_payload frame)
        (decode config (encode encoder frame stream_id).1.bytes).1
decode-encode_keyframe encoder frame stream_id config asked filled w h small_w small_h =
    let us = keyframe_units encoder frame in
    let (preview, is_preview, shown) =
      parse_synthetic_frame-synthetic_frame_payload frame w h small_w small_h in
    let sps =
      parse_synthetic_sps-synthetic_sps_payload frame.width frame.height
        encoder.config.frames_per_second w h small_w small_h in
    let read : map unit_of (collect_nals (length (stream_of us)) (annex_b_nals (stream_of us)))
        ≡ map some us =
      collect_nals-append_nal us (length (stream_of us))
        (omega arith, (omega arith, (omega arith, tt))) (three_fit encoder frame) in
    let decoded : (decode config (encode encoder frame stream_id).1.bytes).1
        ≡ picture true (shown_info frame preview) =
      ap (λ bytes. (decode config bytes).1) (encoded_units encoder frame stream_id asked filled)
      ∙ decode-finish config (stream_of us) (three_fit encoder frame)
      ∙ ap finish (see_nals-see_units (unseen config) _ us read)
      ∙ seen_units encoder frame config _ sps shown in
    rw decoded (picture-IsShown frame _ preview w h is_preview)
