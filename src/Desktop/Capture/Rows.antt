-- ===== src/Desktop/Capture/Rows.antt =====
-- The loops of `resize_bgra_nearest` in crates/desktop-client/src/capture/mod.rs.
use native.Mathlib.Nat.{div-lt_iff_lt-mul}
use teamview.Prelude.{
  ℕ, zero, suc, ◌+◌, ◌*◌, ◌/◌, ◌≤◌, ◌<◌, ◌≡◌, refl, ap, ◌∙◌, take_of_length-le, some, List, [],
  ◌++◌, length, length-append, length-take, length-drop, drop, le→leb, arith,
}
use teamview.Prelude.Result.{ok}
use teamview.Desktop.Capture.Pixels.{pixel_of, pixel_of-front, pixel_of-behind}
use teamview.Desktop.Capture.{pixel_at, resize_row, resize_rows}

mul_mono : (a b m : ℕ) → a ≤ b → a * m ≤ b * m
mul_mono a b m h = grind arith

-- The nearest source coordinate is inside the source.
scaled_lt : (x source size : ℕ) → x < size → 0 < source → x * source / size < source
scaled_lt x source size h s =
    let rows = mul_mono (suc x) size source h in
    (div-lt_iff_lt-mul {k = size} {x = x * source} {y = source} (omega arith)).1 (grind arith)

-- A pixel of the source lies inside its bytes.
offset_bound : (sx sy sw sh : ℕ) → sx < sw → sy < sh → (sy * sw + sx) * 4 + 4 ≤ sw * sh * 4
offset_bound sx sy sw sh hx hy = let rows = mul_mono (suc sy) sh sw hy in grind arith

pixel_at-ok :
    (pixels : List ℕ) (n : ℕ)
    → n * 4 + 4 ≤ length pixels
    → (pixel_at pixels (n * 4) ≡ some (pixel_of pixels n)) × (length (pixel_of pixels n) ≡ 4)
unfolding pixel_at
pixel_at-ok pixels n h = (
  rw (le→leb (n * 4 + 4) (length pixels) h),
  omega (arith, length-take 4 (drop (n * 4) pixels), length-drop (n * 4) pixels),
)

-- A row of `columns` pixels, each of which is the one that `source` says.
pub record IsRow (pixels : List ℕ) (source : ℕ → ℕ) (columns : ℕ) (row : List ℕ) : Type 0 where
  pub size : length row ≡ columns * 4
  pub nearest : (i : ℕ) → i < columns → pixel_of row i ≡ pixel_of pixels (source i)

-- The rows from one on, by the row and the column in it.
pub record AreRows (pixels : List ℕ) (source : ℕ → ℕ → ℕ) (width rows : ℕ) (bytes : List ℕ)
    : Type 0 where
  pub all_size : length bytes ≡ rows * width * 4
  pub all_nearest :
      (i j : ℕ)
      → i < rows
      → j < width
      → pixel_of bytes (i * width + j) ≡ pixel_of pixels (source i j)

cons-IsRow :
    (pixels : List ℕ) (source : ℕ → ℕ) (columns : ℕ) (pixel row : List ℕ)
    → length pixel ≡ 4
    → pixel ≡ pixel_of pixels (source 0)
    → IsRow pixels (λ i. source (suc i)) columns row
    → IsRow pixels source (suc columns) (pixel ++ row)
cons-IsRow pixels source columns pixel row four first r = record {
  size = omega (arith, length-append pixel row, four, r.size);
  nearest = λ i h. at i h;
}
  where
    at : (i : ℕ) → i < suc columns → pixel_of (pixel ++ row) i ≡ pixel_of pixels (source i)
    at zero h =
        pixel_of-front pixel row 1 four 0 (omega arith)
        ∙ take_of_length-le 4 pixel (omega (arith, four))
        ∙ first
    at (suc i) h =
        ap (pixel_of (pixel ++ row)) (omega arith)
        ∙ pixel_of-behind pixel row 1 four i
        ∙ r.nearest i (omega arith)

cons-AreRows :
    (pixels : List ℕ) (source : ℕ → ℕ → ℕ) (width rows : ℕ) (row bytes : List ℕ)
    → IsRow pixels (source 0) width row
    → AreRows pixels (λ i. source (suc i)) width rows bytes
    → AreRows pixels source width (suc rows) (row ++ bytes)
cons-AreRows pixels source width rows row bytes r rs = record {
  all_size = grind (arith, length-append row bytes, r.size, rs.all_size);
  all_nearest = λ i j h k. at i j h k;
}
  where
    at :
        (i j : ℕ)
        → i < suc rows
        → j < width
        → pixel_of (row ++ bytes) (i * width + j) ≡ pixel_of pixels (source i j)
    at zero j h k =
        ap (pixel_of (row ++ bytes)) (omega arith)
        ∙ pixel_of-front row bytes width r.size j k
        ∙ r.nearest j k
    at (suc i) j h k =
        ap (pixel_of (row ++ bytes)) (grind arith)
        ∙ pixel_of-behind row bytes width r.size (i * width + j)
        ∙ rs.all_nearest i j (omega arith) k

module _ (pixels : List ℕ) (sw sh width height : ℕ) (enough : length pixels ≡ sw * sh * 4)
    (pos_w : 0 < sw) (pos_h : 0 < sh) where
  resize_row-ok :
      (sy columns x : ℕ)
      → sy < sh
      → x + columns ≡ width
      → (row : List ℕ) × (resize_row pixels sw sy width columns x ≡ ok row)
        × (IsRow pixels (λ i. sy * sw + (x + i) * sw / width) columns row)
  unfolding resize_row
  resize_row-ok sy zero x inside e =
      ([], refl, record { size = omega arith; nearest = λ i h. absurd (omega arith) })
  resize_row-ok sy (suc columns) x inside e =
      let (rest, done, r) = resize_row-ok sy columns (x + 1) inside (omega arith) in
      let column = scaled_lt x sw width (omega arith) pos_w in
      let bound = offset_bound (x * sw / width) sy sw sh column inside in
      let n = sy * sw + x * sw / width in
      let (read, four) = pixel_at-ok pixels n (omega (arith, bound, enough)) in
      let next : (i : ℕ) → sy * sw + (x + 1 + i) * sw / width ≡ sy * sw + (x + suc i) * sw / width =
        λ i. ap (λ (c : ℕ). sy * sw + c * sw / width) (omega arith) in
      (
        pixel_of pixels n ++ rest,
        rw (resize_row, read, done),
        cons-IsRow pixels (λ i. sy * sw + (x + i) * sw / width) columns (pixel_of pixels n) rest
            four (ap (λ (c : ℕ). pixel_of pixels (sy * sw + c * sw / width)) (omega arith))
            (record {
              size = r.size;
              nearest = λ i h. r.nearest i h ∙ ap (pixel_of pixels) (next i);
            }),
      )

  pub resize_rows-ok :
      (rows y : ℕ)
      → y + rows ≡ height
      → (bytes : List ℕ) × (resize_rows pixels sw sh width height rows y ≡ ok bytes)
        × (AreRows pixels (λ i j. (y + i) * sh / height * sw + j * sw / width) width rows bytes)
  unfolding resize_rows
  resize_rows-ok zero y e =
      ([], refl, record { all_size = omega arith; all_nearest = λ i j h k. absurd (omega arith) })
  resize_rows-ok (suc rows) y e =
      let inside = scaled_lt y sh height (omega arith) pos_h in
      let (row, read, r) = resize_row-ok (y * sh / height) width 0 inside (omega arith) in
      let (rest, done, rs) = resize_rows-ok rows (y + 1) (omega arith) in
      (
        row ++ rest,
        rw (read, done),
        cons-AreRows pixels (λ i j. (y + i) * sh / height * sw + j * sw / width) width rows row rest
            (record {
              size = r.size;
              nearest = λ j h.
                  r.nearest j h
                  ∙ ap (pixel_of pixels) (
                      ap (λ (c : ℕ). y * sh / height * sw + c * sw / width) (omega arith)
                      ∙ ap (λ (c : ℕ). c * sh / height * sw + j * sw / width) (omega arith));
            })
            (record {
              all_size = rs.all_size;
              all_nearest = λ i j h k.
                  rs.all_nearest i j h k
                  ∙ ap (λ (c : ℕ). pixel_of pixels (c * sh / height * sw + j * sw / width))
                      (omega arith);
            }),
      )
