-- ===== src/Desktop/Synthetic/Codec.antt =====
-- The encoder and the decoder of the synthetic stream: `H264Encoder::encode` of src/encode/h264.rs and
-- `H264Decoder::decode` of src/decode/h264.rs in crates/desktop-client.
pub mod Shown
pub mod Keyframe
use teamview.Prelude.{
  ℕ, zero, suc, ◌+◌, ◌*◌, ◌-◌, ◌/◌, ◌%◌, ◌^◌, max, Bool, true, false, not, ◌&&◌, ◌||◌, Option, none,
  some, List, [], ◌∷◌, ◌++◌, ◌==◌, ltb, if◌then◌else◌, length,
}
use teamview.Prelude.Int.{pos}
use teamview.Prelude.Text.{Text, text}
use teamview.Prelude.Words.{cast, saturating_mul}
use teamview.Prelude.Result.{Result, ok, err, panic}
use teamview.Protocol.Codec.{CodecId}
use teamview.Protocol.Frame.{EncodedFrame}
use teamview.Desktop.AnnexB.{append_nal, annex_b_unescape_payload, annex_b_nals, collect_nals}
use teamview.Desktop.Capture.{CaptureFrame}
use teamview.Desktop.Synthetic.{
  SyntheticStreamConfig, SyntheticFrameInfo, synthetic_sps_payload, synthetic_pps_magic,
  synthetic_frame_payload, parse_synthetic_sps, parse_synthetic_frame,
}

pub record H264EncoderConfig : Type 0 where
  pub width : ℕ
  pub height : ℕ
  pub frames_per_second : ℕ
  pub bitrate_bps : ℕ
  pub synthetic_payload_bytes : ℕ

pub record H264Encoder : Type 0 where
  pub config : H264EncoderConfig
  pub keyframe_requested : Bool

-- The units of one frame.
unfoldable pub frame_units : H264EncoderConfig → CaptureFrame → Bool → List ℕ
frame_units config frame is_keyframe =
    if is_keyframe
    then append_nal 103 (synthetic_sps_payload frame.width frame.height config.frames_per_second)
      ++ (append_nal 104 synthetic_pps_magic ++ append_nal 101 (synthetic_frame_payload frame))
    else append_nal 65 (synthetic_frame_payload frame)

-- `n` bytes of padding behind `len` bytes.
unfoldable pub padding : ℕ → ℕ → ℕ → List ℕ
padding frame_id zero len = []
padding frame_id (suc n) len = cast 64 (frame_id + len) % 256 ∷ padding frame_id n (len + 1)

unfoldable pub encode : H264Encoder → CaptureFrame → ℕ → H264Encoder × EncodedFrame
encode encoder frame stream_id =
    let is_keyframe = encoder.keyframe_requested || frame.frame_id == 1 in
    let units = frame_units encoder.config frame is_keyframe in
    (
      record encoder { keyframe_requested = false },
      record {
        room_stream_id = stream_id;
        frame_id = cast 32 frame.frame_id;
        media_timestamp = saturating_mul 64 frame.frame_id 3000;
        sender_capture_time_micros = frame.capture_time_micros;
        sender_clock_offset_micros = pos 0;
        sender_encode_done_time_micros = 0;
        sender_send_time_micros = 0;
        server_receive_time_micros = 0;
        server_send_time_micros = 0;
        codec = CodecId.h264;
        is_keyframe = is_keyframe;
        bytes =
            units
            ++ padding frame.frame_id (encoder.config.synthetic_payload_bytes - length units)
                (length units);
      },
    )

unfoldable pub request_keyframe : H264Encoder → H264Encoder
request_keyframe encoder = record encoder { keyframe_requested = true }

-- `^` on numbers of so many bits.
unfoldable pub bit_xor : ℕ → ℕ → ℕ → ℕ
bit_xor zero a b = 0
bit_xor (suc bits) a b = (a % 2 + b % 2) % 2 + 2 * bit_xor bits (a / 2) (b / 2)

unfoldable pub pattern_pixel : ℕ → Bool → ℕ → ℕ → List ℕ
pattern_pixel frame_id is_keyframe x y =
    let shade = cast 8 (bit_xor 32 (bit_xor 32 (x / 32) (y / 32)) frame_id) in
    cast 8 (shade * 3)
    ∷ cast 8 (shade * 5 + (if is_keyframe then 64 else 16))
    ∷ cast 8 (shade * 7 + frame_id)
    ∷ 255
    ∷ []

unfoldable pub pattern_row : ℕ → Bool → ℕ → ℕ → ℕ → List ℕ
pattern_row frame_id is_keyframe y zero x = []
pattern_row frame_id is_keyframe y (suc n) x =
    pattern_pixel frame_id is_keyframe x y ++ pattern_row frame_id is_keyframe y n (x + 1)

unfoldable pub pattern_rows : ℕ → ℕ → Bool → ℕ → ℕ → List ℕ
pattern_rows width frame_id is_keyframe zero y = []
pattern_rows width frame_id is_keyframe (suc n) y =
    pattern_row frame_id is_keyframe y width 0 ++ pattern_rows width frame_id is_keyframe n (y + 1)

unfoldable pub synthetic_bgra_pixels : ℕ → ℕ → ℕ → Bool → List ℕ
synthetic_bgra_pixels width height frame_id is_keyframe =
    pattern_rows width frame_id is_keyframe height 0

-- Its one pixel format is BGRA.
pub record DecodedFrame : Type 0 where
  pub frame_id : ℕ
  pub width : ℕ
  pub height : ℕ
  pub pixels : List ℕ

-- What the loop over the units has seen, and the decoder's configuration.
pub record Seen : Type 0 where
  pub sps : Bool
  pub pps : Bool
  pub idr : Bool
  pub slice : Bool
  pub frame_info : Option SyntheticFrameInfo
  pub config : Option SyntheticStreamConfig

-- `a.or(b)`
abbrev pub or_else : {A : Type 0} → Option A → Option A → Option A
or_else none b = b
or_else (some a) b = some a

-- One unit, with its type and its payload unescaped.
unfoldable pub see_unit : Seen → ℕ → List ℕ → Seen
see_unit seen kind payload =
    if kind == 7
    then record seen { sps = true; config = or_else (parse_synthetic_sps payload) seen.config }
    else (if kind == 8
        then record seen { pps = true }
        else (if kind == 5
            then record seen {
              idr = true;
              slice = true;
              frame_info = or_else (parse_synthetic_frame payload) seen.frame_info;
            }
            else (if kind == 1
                then record seen {
                  slice = true;
                  frame_info = or_else (parse_synthetic_frame payload) seen.frame_info;
                }
                else seen)))

unfoldable pub see_nals : Seen → List (List ℕ) → Seen
see_nals seen [] = seen
see_nals seen ([] ∷ nals) = see_nals seen nals
see_nals seen ((header ∷ payload) ∷ nals) =
    see_nals (see_unit seen (header % 32) (annex_b_unescape_payload payload)) nals

unfoldable pub sized_picture : ℕ → ℕ → ℕ → List ℕ → Result Text (Option DecodedFrame)
sized_picture frame_id width height pixels =
    if ltb 8294400 (width * height)
    then err (text "synthetic decoded frame exceeds maximum preview size")
    else ok (some (record { frame_id = frame_id; width = width; height = height; pixels = pixels }))

-- The frame of what was read of its unit. `Vec::with_capacity` panics above `isize::MAX`.
unfoldable pub picture : Bool → SyntheticFrameInfo → Result Text (Option DecodedFrame)
picture is_keyframe info = elim info.preview [
  | some preview ↦ sized_picture info.frame_id preview.width preview.height preview.pixels
  | none ↦
      let width = max info.width 1 in
      let height = max info.height 1 in
      if ltb (2 ^ 63 - 1) (saturating_mul 64 (saturating_mul 64 width height) 4)
      then panic
      else sized_picture info.frame_id width height
          (synthetic_bgra_pixels width height info.frame_id is_keyframe)
]

unfoldable pub is_configured : Option SyntheticStreamConfig → Bool
is_configured none = false
is_configured (some config) = true

-- What follows the loop.
unfoldable pub finish : Seen → Result Text (Option DecodedFrame)
finish seen =
    if not seen.slice
      || (seen.idr && (not seen.sps || not seen.pps || not (is_configured seen.config)))
    then ok none
    else elim seen.config [
      | none ↦ ok none
      | some config ↦ elim seen.frame_info [
        | some info ↦ picture seen.idr info
        | none ↦
            picture seen.idr (record {
              frame_id = 0;
              width = config.width;
              height = config.height;
              preview = none;
            })
      ]
    ]

-- The decoder's configuration afterwards, and what it gives. A unit takes up three bytes or more.
unfoldable pub decode :
    Option SyntheticStreamConfig
    → List ℕ
    → Option SyntheticStreamConfig × Result Text (Option DecodedFrame)
decode config [] = (config, ok none)
decode config (byte ∷ bytes) =
    let fresh : Seen = record {
      sps = false;
      pps = false;
      idr = false;
      slice = false;
      frame_info = none;
      config = config;
    } in
    let seen =
      see_nals fresh (collect_nals (length (byte ∷ bytes)) (annex_b_nals (byte ∷ bytes))) in
    (seen.config, finish seen)
