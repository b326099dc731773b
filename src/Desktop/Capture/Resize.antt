-- ===== src/Desktop/Capture/Resize.antt =====
-- Scaling of a captured frame in crates/desktop-client/src/capture/mod.rs.
use teamview.Prelude.{
  ℕ, ◌+◌, ◌*◌, ◌/◌, ◌≤◌, ◌<◌, ◌≡◌, refl, ap, sym, ◌∙◌, false, List, length, subst, leb, ltb→lt,
  ◌==◌, ltb, le→leb, eq→==, ne→==, Bool-cases, ◌&&◌, inl, inr, arith,
}
use teamview.Prelude.Result.{Result, ok, err, panic}
use teamview.Prelude.Words.{max_of}
use native.Mathlib.Nat.{mul-div_cancel}
use teamview.Desktop.Capture.Pixels.{pixel_of}
use teamview.Desktop.Capture.Rows.{resize_rows-ok}
use teamview.Desktop.Capture.{
  CaptureFrame, CaptureError, CapturePixelFormat, CaptureFrameStorage, bgra_byte_len, cpu_bgra,
  resize_rows, resize_bgra_nearest, resize_pixels, resize_storage, resize_frame,
}

bgra_byte_len-ok :
    (width height : ℕ)
    → width * height * 4 ≤ max_of 64
    → bgra_byte_len width height ≡ ok (width * height * 4)
unfolding bgra_byte_len
bgra_byte_len-ok width height h = rw (
  bgra_byte_len,
  le→leb (width * height) (max_of 64) (omega (arith, h)),
  le→leb (width * height * 4) (max_of 64) h,
)

abbrev scaled_frame : CaptureFrame → ℕ → ℕ → List ℕ → CaptureFrame
scaled_frame f width height bytes = record {
  frame_id = f.frame_id;
  width = width;
  height = height;
  capture_time_micros = f.capture_time_micros;
  format = CapturePixelFormat.bgra8;
  storage = CaptureFrameStorage.cpu_bytes bytes;
}

resize_pixels-ok :
    (f : CaptureFrame) (pixels : List ℕ) (width height : ℕ) (bytes : List ℕ)
    → length pixels ≡ f.width * f.height * 4
    → f.width * f.height * 4 ≤ max_of 64
    → width * height * 4 ≤ max_of 63
    → resize_rows pixels f.width f.height width height height 0 ≡ ok bytes
    → length bytes ≡ width * height * 4
    → resize_pixels f pixels width height ≡ ok (scaled_frame f width height bytes)
unfolding resize_pixels resize_bgra_nearest cpu_bgra
resize_pixels-ok f pixels width height bytes enough fits small done total =
    let room : ltb (max_of 63) (width * height * 4) ≡ false = ground (arith, small) in
    rw (
      bgra_byte_len-ok f.width f.height fits,
      eq→== (length pixels) (f.width * f.height * 4) enough,
      bgra_byte_len-ok width height (omega (arith, small)),
      room,
      done,
      eq→== (length bytes) (width * height * 4) total,
    )

resize_storage-pixels :
    (f : CaptureFrame) (s : CaptureFrameStorage) (pixels : List ℕ) (width height : ℕ)
    → s ≡ CaptureFrameStorage.cpu_bytes pixels
    → f.format ≡ CapturePixelFormat.bgra8
    → resize_storage f s width height ≡ resize_pixels f pixels width height
unfolding resize_storage
resize_storage-pixels f s pixels width height stored format = rw (resize_storage, stored, format)

bgra_byte_len-too_large :
    (width height : ℕ)
    → max_of 64 < width * height * 4
    → bgra_byte_len width height ≡ err CaptureError.dimensions_too_large
unfolding bgra_byte_len
bgra_byte_len-too_large width height h = elim (Bool-cases (leb (width * height) (max_of 64))) [
  | inl e ↦
      let no_bytes : leb (width * height * 4) (max_of 64) ≡ false = ground (arith, h) in
      rw (bgra_byte_len, e, no_bytes)
  | inr e ↦ rw (bgra_byte_len, e)
]

-- What becomes of a frame with these pixels that is scaled to a size.
pub data IsResized (f : CaptureFrame) (pixels : List ℕ) (width height : ℕ)
    : Result CaptureError CaptureFrame → Type 0 where
  scaled :
      (g : CaptureFrame) (bytes : List ℕ)
      → g.frame_id ≡ f.frame_id
      → g.width ≡ width
      → g.height ≡ height
      → g.format ≡ CapturePixelFormat.bgra8
      → g.storage ≡ CaptureFrameStorage.cpu_bytes bytes
      → length bytes ≡ width * height * 4
      → ((x y : ℕ)
          → x < width
          → y < height
          → pixel_of bytes (y * width + x)
            ≡ pixel_of pixels (y * f.height / height * f.width + x * f.width / width))
      → IsResized f pixels width height (ok g)
  unreservable :
      max_of 63 < width * height * 4
      → width * height * 4 ≤ max_of 64
      → IsResized f pixels width height panic
  uncountable :
      max_of 64 < width * height * 4
      → IsResized f pixels width height (err CaptureError.dimensions_too_large)

module _ (f : CaptureFrame) (pixels : List ℕ) (enough : length pixels ≡ f.width * f.height * 4)
    (fits : f.width * f.height * 4 ≤ max_of 63) (pos_sw : 0 < f.width) (pos_sh : 0 < f.height) where
  -- The frame is its own scaling to its size.
  same-IsResized :
      f.storage ≡ CaptureFrameStorage.cpu_bytes pixels
      → f.format ≡ CapturePixelFormat.bgra8
      → IsResized f pixels f.width f.height (ok f)
  same-IsResized stored format = scaled f pixels refl refl refl format stored enough λ x y h k.
      ap (pixel_of pixels) (
        sym (
          ap (λ (c : ℕ). c * f.width + x * f.width / f.width) (mul-div_cancel y pos_sh)
          ∙ ap (λ (c : ℕ). y * f.width + c) (mul-div_cancel x pos_sw)))

  resize_pixels-IsResized :
      (width height : ℕ) → IsResized f pixels width height (resize_pixels f pixels width height)
  unfolding resize_pixels resize_bgra_nearest
  resize_pixels-IsResized width height =
      let source = bgra_byte_len-ok f.width f.height (omega (arith, fits)) in
      let given = eq→== (length pixels) (f.width * f.height * 4) enough in
      elim (Bool-cases (ltb (max_of 64) (width * height * 4))) [
        | inl e ↦
            let long = ltb→lt (max_of 64) (width * height * 4) e in
            rw (resize_pixels, source, given, bgra_byte_len-too_large width height long)
              (uncountable long)
        | inr e ↦
            let counted : width * height * 4 ≤ max_of 64 = ground (arith, e) in
            elim (Bool-cases (ltb (max_of 63) (width * height * 4))) [
              | inl z ↦
                  rw (resize_pixels, source, given, bgra_byte_len-ok width height counted, z)
                    (unreservable (ltb→lt _ _ z) counted)
              | inr z ↦
                  let small : width * height * 4 ≤ max_of 63 = ground (arith, z) in
                  let (bytes, done, r) =
                    resize_rows-ok pixels f.width f.height width height enough pos_sw pos_sh height
                      0 (omega arith) in
                  let total : length bytes ≡ width * height * 4 = grind (arith, r.all_size) in
                  rw
                    (resize_pixels-ok f pixels width height bytes enough (omega (arith, fits)) small
                      done total)
                    (scaled (scaled_frame f width height bytes) bytes refl refl refl refl refl total
                      λ x y h k.
                        r.all_nearest y x k h
                        ∙ ap
                            (λ (c : ℕ).
                              pixel_of pixels
                                (c * f.height / height * f.width + x * f.width / width))
                            (omega arith))
            ]
      ]

-- A BGRA frame whose sides are not 0, and whose bytes are four for each pixel and at most 2^63 - 1,
-- is scaled to a size that is not 0 as follows. If the size needs at most 2^63 - 1 bytes, no read
-- is outside the frame, and the result is a BGRA frame of that size with the same number and four
-- bytes for each pixel, where the pixel in column x and row y is the one that the frame has in
-- column x * frame width / width and row y * frame height / height. If it needs more, but no more
-- than 2^64 - 1 bytes, the code panics; above that, it gives the error for dimensions that are too
-- large.
pub resize_frame-IsResized :
    (f : CaptureFrame) (pixels : List ℕ) (width height : ℕ)
    → f.storage ≡ CaptureFrameStorage.cpu_bytes pixels
    → f.format ≡ CapturePixelFormat.bgra8
    → length pixels ≡ f.width * f.height * 4
    → f.width * f.height * 4 ≤ max_of 63
    → 0 < f.width
    → 0 < f.height
    → 0 < width
    → 0 < height
    → IsResized f pixels width height (resize_frame f width height)
unfolding resize_frame
resize_frame-IsResized f pixels width height stored format enough fits pos_sw pos_sh pos_w pos_h =
    let some_w : (width == 0) ≡ false = ne→== width 0 (omega arith) in
    let some_h : (height == 0) ≡ false = ne→== height 0 (omega arith) in
    elim (Bool-cases (f.width == width && f.height == height)) [
      | inl same ↦
          let w : f.width ≡ width = ground (arith, same) in
          let h : f.height ≡ height = ground (arith, same) in
          rw (resize_frame, some_w, some_h, same)
            (subst (λ v. IsResized f pixels v height (ok f)) w
              (subst (λ v. IsResized f pixels f.width v (ok f)) h
                (same-IsResized f pixels enough fits pos_sw pos_sh stored format)))
      | inr other ↦
          rw
            (
              resize_frame,
              some_w,
              some_h,
              other,
              resize_storage-pixels f f.storage pixels width height stored format,
            )
            (resize_pixels-IsResized f pixels enough fits pos_sw pos_sh width height)
    ]
