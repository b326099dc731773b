-- ===== src/Desktop/Capture/Pixels.antt =====
-- The pixels in a buffer of four bytes for each, as crates/desktop-client/src/capture/mod.rs lays them
-- out.
use teamview.Prelude.{
  ℕ, zero, suc, ◌+◌, ◌*◌, ◌≤◌, ◌<◌, ◌≡◌, refl, ap, sym, ◌∙◌, List, [], ◌∷◌, ◌++◌, length,
  length-drop, take, drop, drop-append, drop-drop, arith,
}

abbrev pub pixel_of : List ℕ → ℕ → List ℕ
pixel_of bytes n = take 4 (drop (n * 4) bytes)

take_front : (n : ℕ) (xs ys : List ℕ) → n ≤ length xs → take n (xs ++ ys) ≡ take n xs
take_front zero xs ys h = refl
take_front (suc n) [] ys h = absurd (omega arith)
take_front (suc n) (x ∷ xs) ys h = ap (◌∷◌ x) (take_front n xs ys (omega arith))

drop_front : (n : ℕ) (xs ys : List ℕ) → n ≤ length xs → drop n (xs ++ ys) ≡ drop n xs ++ ys
drop_front zero xs ys h = refl
drop_front (suc n) [] ys h = absurd (omega arith)
drop_front (suc n) (x ∷ xs) ys h = drop_front n xs ys (omega arith)

module _ (front rest : List ℕ) (n : ℕ) (full : length front ≡ n * 4) where
  -- A pixel of the front, and one behind it.
  pub pixel_of-front : (i : ℕ) → i < n → pixel_of (front ++ rest) i ≡ pixel_of front i
  pixel_of-front i h =
      ap (take 4) (drop_front (i * 4) front rest (omega arith))
      ∙ take_front 4 (drop (i * 4) front) rest (omega (arith, length-drop (i * 4) front))

  pub pixel_of-behind : (i : ℕ) → pixel_of (front ++ rest) (n + i) ≡ pixel_of rest i
  pixel_of-behind i = ap (take 4) (
      sym (drop-drop (i * 4) (n * 4) ((n + i) * 4) (front ++ rest) (omega arith))
      ∙ ap (drop (i * 4)) (drop-append (n * 4) front rest (sym full)))
