-- ===== src/Desktop/Capture.antt =====
-- crates/desktop-client/src/capture/mod.rs: captured frames, their scaling, and the queue that keeps
-- the latest ones.
pub mod Latest
pub mod Pixels
pub mod Rows
pub mod Resize
use teamview.Prelude.{
  ℕ, zero, suc, ◌+◌, ◌-◌, ◌*◌, ◌/◌, ◌≤◌, max, Bool, true, false, not, ◌&&◌, ◌||◌, Option, none,
  some, List, [], ◌∷◌, ◌++◌, ◌==◌, ltb, leb, if◌then◌else◌, length, take, drop,
}
use teamview.Prelude.Result.{Result, ok, err, panic, ◌>>=◌, ◌>>◌, guard}
use teamview.Prelude.Words.{saturating_add, max_of}

pub data CapturePixelFormat : Type 0 where
  bgra8 nv12 unknown : CapturePixelFormat

pub data CaptureFrameStorage : Type 0 where
  metadata_only : CaptureFrameStorage
  cpu_bytes : List ℕ → CaptureFrameStorage
  native_handle : ℕ → CaptureFrameStorage

pub record CaptureFrame : Type 0 where
  pub frame_id : ℕ
  pub width : ℕ
  pub height : ℕ
  pub capture_time_micros : ℕ
  pub format : CapturePixelFormat
  pub storage : CaptureFrameStorage

-- The three messages with which the functions of this file fail.
pub data CaptureError : Type 0 where
  dimensions_too_large zero_dimensions short_buffer : CaptureError
  length_mismatch : (actual width height expected : ℕ) → CaptureError

unfoldable pub metadata_only_frame : ℕ → ℕ → ℕ → ℕ → CaptureFrame
metadata_only_frame frame_id width height capture_time_micros = record {
  frame_id = frame_id;
  width = width;
  height = height;
  capture_time_micros = capture_time_micros;
  format = CapturePixelFormat.bgra8;
  storage = CaptureFrameStorage.metadata_only;
}

-- `checked_mul` of a 64-bit `usize`.
abbrev pub checked_mul : ℕ → ℕ → Option ℕ
checked_mul a b = if leb (a * b) (max_of 64) then some (a * b) else none

unfoldable pub bgra_byte_len : ℕ → ℕ → Result CaptureError ℕ
bgra_byte_len width height = elim (checked_mul width height) [
  | none ↦ err CaptureError.dimensions_too_large
  | some pixels ↦ elim (checked_mul pixels 4) [
    | none ↦ err CaptureError.dimensions_too_large
    | some bytes ↦ ok bytes
  ]
]

unfoldable pub cpu_bgra : ℕ → ℕ → ℕ → ℕ → List ℕ → Result CaptureError CaptureFrame
cpu_bgra frame_id width height capture_time_micros bytes = do
  expected_len ← bgra_byte_len width height
  guard (length bytes == expected_len)
      (CaptureError.length_mismatch (length bytes) width height expected_len)
  ok (record {
    frame_id = frame_id;
    width = width;
    height = height;
    capture_time_micros = capture_time_micros;
    format = CapturePixelFormat.bgra8;
    storage = CaptureFrameStorage.cpu_bytes bytes;
  })

-- `source_pixels.get(offset..offset + 4)`
unfoldable pub pixel_at : List ℕ → ℕ → Option (List ℕ)
pixel_at pixels offset =
    if leb (offset + 4) (length pixels) then some (take 4 (drop offset pixels)) else none

-- One row from column `x` on.
unfoldable pub resize_row :
    List ℕ → (source_width source_y width columns x : ℕ) → Result CaptureError (List ℕ)
unfolding pixel_at
resize_row pixels source_width source_y width zero x = ok []
resize_row pixels source_width source_y width (suc columns) x =
    let rest = resize_row pixels source_width source_y width columns (x + 1) in
    let source_x = x * source_width / width in
    elim (pixel_at pixels ((source_y * source_width + source_x) * 4)) [
      | none ↦ err CaptureError.short_buffer
      | some pixel ↦ rest >>= λ bytes. ok (pixel ++ bytes)
    ]

-- The rows from `y` on.
unfoldable pub resize_rows :
    List ℕ → (source_width source_height width height rows y : ℕ) → Result CaptureError (List ℕ)
unfolding resize_row
resize_rows pixels source_width source_height width height zero y = ok []
resize_rows pixels source_width source_height width height (suc rows) y = do
  row ← resize_row pixels source_width (y * source_height / height) width width 0
  rest ← resize_rows pixels source_width source_height width height rows (y + 1)
  ok (row ++ rest)

-- What goes on after `Vec::with_capacity`, which panics above `isize::MAX`.
unfoldable pub reserved : {A : Type 0} → ℕ → Result CaptureError A → Result CaptureError A
reserved byte_len rest = if ltb (max_of 63) byte_len then panic else rest

-- The function of the module; the method of the same name is `resize_frame`.
unfoldable pub resize_bgra_nearest : List ℕ → ℕ → ℕ → ℕ → ℕ → Result CaptureError (List ℕ)
unfolding reserved
resize_bgra_nearest pixels source_width source_height width height = do
  byte_len ← bgra_byte_len width height
  reserved byte_len (resize_rows pixels source_width source_height width height height 0)

abbrev pub is_bgra8 : CapturePixelFormat → Bool
is_bgra8 CapturePixelFormat.bgra8 = true
is_bgra8 CapturePixelFormat.nv12 = false
is_bgra8 CapturePixelFormat.unknown = false

-- The frame's pixels, scaled.
unfoldable pub resize_pixels : CaptureFrame → List ℕ → ℕ → ℕ → Result CaptureError CaptureFrame
resize_pixels f pixels width height = do
  expected_len ← bgra_byte_len f.width f.height
  guard (length pixels == expected_len)
      (CaptureError.length_mismatch (length pixels) f.width f.height expected_len)
  bytes ← resize_bgra_nearest pixels f.width f.height width height
  cpu_bgra f.frame_id width height f.capture_time_micros bytes

unfoldable pub resize_storage :
    CaptureFrame → CaptureFrameStorage → ℕ → ℕ → Result CaptureError CaptureFrame
resize_storage f CaptureFrameStorage.metadata_only width height =
    ok (metadata_only_frame f.frame_id width height f.capture_time_micros)
resize_storage f (CaptureFrameStorage.native_handle handle) width height =
    ok (metadata_only_frame f.frame_id width height f.capture_time_micros)
resize_storage f (CaptureFrameStorage.cpu_bytes pixels) width height =
    if not (is_bgra8 f.format)
    then ok (metadata_only_frame f.frame_id width height f.capture_time_micros)
    else resize_pixels f pixels width height

unfoldable pub resize_frame : CaptureFrame → ℕ → ℕ → Result CaptureError CaptureFrame
resize_frame f width height = do
  guard (not (width == 0 || height == 0)) CaptureError.zero_dimensions
  if f.width == width && f.height == height then ok f else resize_storage f f.storage width height

pub record LatestFrameQueue : Type 0 where
  pub frames : List CaptureFrame
  pub capacity : ℕ
  pub dropped_frames : ℕ

unfoldable pub new_frame_queue : ℕ → LatestFrameQueue
new_frame_queue capacity = record { frames = []; capacity = max capacity 1; dropped_frames = 0 }

-- The loop of `push`: the frames that stay, and the count.
unfoldable pub drop_oldest : ℕ → List CaptureFrame → ℕ → List CaptureFrame × ℕ
drop_oldest capacity [] dropped = ([], dropped)
drop_oldest capacity (f ∷ fs) dropped =
    if leb capacity (length (f ∷ fs))
    then drop_oldest capacity fs (saturating_add 64 dropped 1)
    else (f ∷ fs, dropped)

unfoldable pub push_frame : LatestFrameQueue → CaptureFrame → LatestFrameQueue
unfolding drop_oldest
push_frame q frame =
    let (frames, dropped) = drop_oldest q.capacity q.frames q.dropped_frames in
    record q { frames = frames ++ (frame ∷ []); dropped_frames = dropped }

-- `pop_back`
unfoldable pub last_frame : List CaptureFrame → Option CaptureFrame
last_frame [] = none
last_frame (f ∷ []) = some f
last_frame (f ∷ g ∷ fs) = last_frame (g ∷ fs)

unfoldable pub pop_latest : LatestFrameQueue → LatestFrameQueue × Option CaptureFrame
unfolding last_frame
pop_latest q = elim (last_frame q.frames) [
  | none ↦ (q, none)
  | some latest ↦ (record q { frames = [] }, some latest)
]

unfoldable pub queue_len : LatestFrameQueue → ℕ
queue_len q = length q.frames
