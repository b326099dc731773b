-- ===== src/Desktop/Capture/Latest.antt =====
-- The queue of captured frames in crates/desktop-client/src/capture/mod.rs against what it promises:
-- the latest frames, in order.
use mathlib.Core.List.{append_assoc, append-nil}
use teamview.Prelude.{
  ℕ, zero, suc, ◌+◌, ◌-◌, ◌≤◌, ◌<◌, drop-drop, drop_of_length-le, subst, Bool-cases, inl, inr, ◌≡◌,
  refl, ◌∙◌, sym, ap, max, min, none, List, [], ◌∷◌, ◌++◌, length, length-append, length-drop, drop,
  leb, arith,
}
use teamview.Prelude.Words.{saturating_add, max_of}
use teamview.Desktop.Capture.{
  CaptureFrame, LatestFrameQueue, new_frame_queue, drop_oldest, push_frame, pop_latest, last_frame,
}

-- The last `n` of a list.
abbrev pub latest : ℕ → List CaptureFrame → List CaptureFrame
latest n fs = drop (length fs - n) fs

-- The frames are pushed one after the other.
abbrev pub push_frames : LatestFrameQueue → List CaptureFrame → LatestFrameQueue
push_frames q [] = q
push_frames q (f ∷ fs) = push_frames (push_frame q f) fs

drop_oldest-latest :
    (capacity : ℕ) (fs : List CaptureFrame) (dropped : ℕ)
    → 1 ≤ capacity
    → dropped ≤ max_of 64
    → ((drop_oldest capacity fs dropped).0 ≡ latest (capacity - 1) fs)
      × ((drop_oldest capacity fs dropped).1
          ≡ min (dropped + (length fs - (capacity - 1))) (max_of 64))
unfolding drop_oldest
drop_oldest-latest capacity [] dropped h d =
    let zero_left : 0 - (capacity - 1) ≡ 0 = omega arith in (rw zero_left, omega arith)
drop_oldest-latest capacity (f ∷ fs) dropped h d =
    let (kept, counted) =
      drop_oldest-latest capacity fs (saturating_add 64 dropped 1) h (omega arith) in
    elim (Bool-cases (leb capacity (length (f ∷ fs)))) [
      | inl full ↦
          let enough : capacity ≤ suc (length fs) = ground (arith, full) in
          let one : suc (length fs) - (capacity - 1) ≡ suc (length fs - (capacity - 1)) =
            omega arith in
          (rw (full, one) kept, rw full (omega (arith, counted)))
      | inr space ↦
          let enough : suc (length fs) < capacity = ground (arith, space) in
          let none_left : suc (length fs) - (capacity - 1) ≡ 0 = omega arith in
          (rw (space, none_left), rw space (omega arith))
    ]

last_frame_cons :
    (f g : CaptureFrame) (fs : List CaptureFrame) → last_frame (g ∷ fs) ≡ last_frame (f ∷ g ∷ fs)
unfolding last_frame
last_frame_cons f g fs = refl

pop_latest_newest : (q : LatestFrameQueue) → (pop_latest q).1 ≡ last_frame q.frames
unfolding pop_latest
pop_latest_newest q = ground arith

last_frame-none : (fs : List CaptureFrame) → last_frame fs ≡ none → fs ≡ []
unfolding last_frame
last_frame-none [] h = refl
last_frame-none (f ∷ []) h = ground arith
last_frame-none (f ∷ g ∷ fs) h = ground (arith, last_frame-none (g ∷ fs) h)

pop_latest_empties : (q : LatestFrameQueue) → (pop_latest q).0.frames ≡ []
unfolding pop_latest
pop_latest_empties q = ground (arith, last_frame-none q.frames)

drop-append-le :
    (n : ℕ) (xs ys : List CaptureFrame) → n ≤ length xs → drop n (xs ++ ys) ≡ drop n xs ++ ys
drop-append-le zero xs ys h = refl
drop-append-le (suc n) [] ys h = absurd (omega arith)
drop-append-le (suc n) (x ∷ xs) ys h = drop-append-le n xs ys (omega arith)

last_frame-drop :
    (n : ℕ) (fs : List CaptureFrame) → n < length fs → last_frame (drop n fs) ≡ last_frame fs
last_frame-drop zero fs h = refl
last_frame-drop (suc n) [] h = absurd (omega arith)
last_frame-drop (suc n) (f ∷ []) h = absurd (omega arith)
last_frame-drop (suc n) (f ∷ g ∷ fs) h =
    last_frame-drop n (g ∷ fs) (omega arith) ∙ last_frame_cons f g fs

-- The queue after these frames.
record Holds (capacity : ℕ) (fs : List CaptureFrame) (q : LatestFrameQueue) : Type 0 where
  same_capacity : q.capacity ≡ capacity
  kept : q.frames ≡ latest capacity fs
  counted : q.dropped_frames ≡ min (length fs - capacity) (max_of 64)

push_frame-Holds :
    (capacity : ℕ) (fs : List CaptureFrame) (q : LatestFrameQueue) (f : CaptureFrame)
    → 1 ≤ capacity
    → Holds capacity fs q
    → Holds capacity (fs ++ (f ∷ [])) (push_frame q f)
unfolding push_frame
push_frame-Holds capacity fs q f h holds =
    let (kept, counted) =
      drop_oldest-latest q.capacity q.frames q.dropped_frames (omega (arith, holds.same_capacity))
        (omega (arith, holds.counted)) in
    let grown = length-append fs (f ∷ []) in
    let size : length q.frames ≡ length fs - (length fs - capacity) =
      ap length holds.kept ∙ length-drop (length fs - capacity) fs in
    let twice : latest (q.capacity - 1) q.frames ≡ drop (length fs - (capacity - 1)) fs =
      rw (holds.kept, holds.same_capacity)
        (drop-drop _ (length fs - capacity) (length fs - (capacity - 1)) fs
          (omega (arith, length-drop (length fs - capacity) fs))) in
    let shift : length (fs ++ (f ∷ [])) - capacity ≡ length fs - (capacity - 1) =
      omega (arith, grown) in
    record {
      same_capacity = holds.same_capacity;
      kept =
          rw (kept, twice, shift)
            (sym (drop-append-le (length fs - (capacity - 1)) fs (f ∷ []) (omega arith)));
      counted = omega (arith, counted, holds.counted, holds.same_capacity, size, grown);
    }

push_frames-Holds :
    (capacity : ℕ) (fs gs : List CaptureFrame) (q : LatestFrameQueue)
    → 1 ≤ capacity
    → Holds capacity fs q
    → Holds capacity (fs ++ gs) (push_frames q gs)
push_frames-Holds capacity fs [] q h holds = rw (append-nil fs) holds
push_frames-Holds capacity fs (g ∷ gs) q h holds =
    subst (λ l. Holds capacity l (push_frames (push_frame q g) gs)) (append_assoc fs (g ∷ []) gs)
      (push_frames-Holds capacity (fs ++ (g ∷ [])) gs (push_frame q g) h
        (push_frame-Holds capacity fs q g h holds))

last_frame-latest :
    (n : ℕ) (fs : List CaptureFrame) → 1 ≤ n → last_frame (latest n fs) ≡ last_frame fs
last_frame-latest n [] h = ap (λ k. last_frame (drop k [])) zero_left
  where
    zero_left : 0 - n ≡ 0
    zero_left = omega arith
last_frame-latest n (f ∷ fs) h = last_frame-drop (length (f ∷ fs) - n) (f ∷ fs) (omega arith)

-- After any frames, the queue of captured frames holds the latest of them in order, as many as its
-- capacity and at least one, has counted the others as dropped, held at 2^64 - 1, and gives the
-- newest frame out and is empty.
pub push_frames-latest :
    (capacity : ℕ) (fs : List CaptureFrame)
    → let q = push_frames (new_frame_queue capacity) fs in
      (q.frames ≡ latest (max capacity 1) fs)
      × (q.dropped_frames ≡ min (length fs - max capacity 1) (max_of 64))
      × ((pop_latest q).1 ≡ last_frame fs)
      × ((pop_latest q).0.frames ≡ [])
unfolding new_frame_queue
push_frames-latest capacity fs =
    let q = push_frames (new_frame_queue capacity) fs in
    let holds =
      push_frames-Holds (max capacity 1) [] fs (new_frame_queue capacity) (omega arith) (record {
        same_capacity = refl;
        kept = sym (drop_of_length-le (0 - max capacity 1) [] (omega arith));
        counted = omega arith;
      }) in
    let newest : last_frame q.frames ≡ last_frame fs =
      rw holds.kept (last_frame-latest (max capacity 1) fs (omega arith)) in
    (holds.kept, holds.counted, pop_latest_newest q ∙ newest, pop_latest_empties q)
