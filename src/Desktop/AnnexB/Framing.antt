-- ===== src/Desktop/AnnexB/Framing.antt =====
-- The units of the synthetic H.264 stream of crates/desktop-client are read as they were written.
use mathlib.Core.List.{append_assoc}
use teamview.Prelude.{
  ℕ, zero, suc, ◌+◌, ◌-◌, ◌≤◌, ◌≡◌, ◌≢◌, refl, ◌∙◌, sym, ap, Option, none, some, List, [], ◌∷◌,
  ◌++◌, length, length-append, take, drop, drop-append, drop-drop, All, map, arith,
}
use teamview.Desktop.AnnexB.{
  start_code, annex_b_escape_payload, annex_b_unescape_payload, append_nal, starts_short,
  starts_long, find_from, find_start_code, start_code_len, annex_b_nals, nal_at, next_nal,
  collect_nals,
}
use teamview.Desktop.AnnexB.Escaping.{
  IsTail, ended, next_unit, find_from-escape_from, find_from_step, starts-not_null, unescape-escape,
}

-- A unit is a header that is not 0 and a payload.
pub record NalUnit : Type 0 where
  pub header : ℕ
  pub payload : List ℕ

abbrev pub HasHeader : NalUnit → Type 0
HasHeader u = u.header ≢ 0

-- The stream of the units, as `append_nal` builds it.
abbrev pub stream_of : List NalUnit → List ℕ
stream_of [] = []
stream_of (u ∷ us) = append_nal u.header u.payload ++ stream_of us

-- What the decoder makes of a unit's bytes.
abbrev pub unit_of : List ℕ → Option NalUnit
unit_of [] = none
unit_of (header ∷ payload) =
    some (record { header = header; payload = annex_b_unescape_payload payload })

-- The bytes of a unit behind its start code.
abbrev body : NalUnit → List ℕ
body u = u.header ∷ annex_b_escape_payload u.payload

stream_of-IsTail : (us : List NalUnit) → IsTail (stream_of us)
unfolding append_nal
stream_of-IsTail [] = ended
stream_of-IsTail (u ∷ us) = next_unit (body u ++ stream_of us)

stream_of_cons :
    (u : NalUnit) (us : List NalUnit) → stream_of (u ∷ us) ≡ start_code ++ (body u ++ stream_of us)
unfolding append_nal
stream_of_cons u us = refl

find_from-start_code : (rest : List ℕ) (i : ℕ) → find_from (start_code ++ rest) i ≡ some i
unfolding find_from starts_short starts_long
find_from-start_code rest i = refl

-- The search passes over a unit to what stands behind it.
find_from-body :
    (u : NalUnit) (us : List NalUnit) (i : ℕ)
    → HasHeader u
    → find_from (body u ++ stream_of us) i ≡ find_from (stream_of us) (i + length (body u))
unfolding annex_b_escape_payload
find_from-body u us i h =
    find_from_step u.header (annex_b_escape_payload u.payload ++ stream_of us) i
      (starts-not_null u.header (annex_b_escape_payload u.payload ++ stream_of us) h)
    ∙ find_from-escape_from 0 u.payload (stream_of us) (i + 1) (stream_of-IsTail us)
    ∙ ap (find_from (stream_of us)) (omega arith)

take-append : (xs ys : List ℕ) → take (length xs) (xs ++ ys) ≡ xs
take-append [] ys = refl
take-append (x ∷ xs) ys = ap (◌∷◌ x) (take-append xs ys)

-- Where the next unit starts, or where the bytes end.
found_or_end :
    (us : List NalUnit) (n total : ℕ)
    → n + length (stream_of us) ≡ total
    → elim (find_from (stream_of us) n) [ some index ↦ index | none ↦ total ] ≡ n
unfolding find_from
found_or_end [] n total e = omega arith
found_or_end (u ∷ us) n total e = rw (stream_of_cons u us)

module _ (pre : List ℕ) (u : NalUnit) (us : List NalUnit) (h : HasHeader u) where
  abbrev all_bytes : List ℕ
  all_bytes = pre ++ stream_of (u ∷ us)

  abbrev passed : ℕ
  passed = length pre + 4 + length (body u)

  drop_pre : drop (length pre) all_bytes ≡ stream_of (u ∷ us)
  drop_pre = drop-append (length pre) pre (stream_of (u ∷ us)) refl

  drop_code : drop (length pre + 4) all_bytes ≡ body u ++ stream_of us
  drop_code =
      sym (drop-drop 4 (length pre) (length pre + 4) all_bytes refl)
      ∙ ap (drop 4) (drop_pre ∙ stream_of_cons u us)

  length-all_bytes : passed + length (stream_of us) ≡ length all_bytes
  length-all_bytes = omega (
    arith,
    length-append pre (stream_of (u ∷ us)),
    ap length (stream_of_cons u us),
    length-append (body u) (stream_of us),
  )

  nal_at-body :
      nal_at all_bytes (length pre + 4) ≡ (body u, record { bytes = all_bytes; offset = passed })
  unfolding nal_at find_start_code
  nal_at-body =
      let stop = found_or_end us passed (length all_bytes) length-all_bytes in
      let size : passed - (length pre + 4) ≡ length (body u) = omega arith in
      rw (
        nal_at,
        find_start_code,
        drop_code,
        find_from-body u us (length pre + 4) h,
        stop,
        size,
        take-append (body u) (stream_of us),
      )

  next_nal-body :
      next_nal (record { bytes = all_bytes; offset = length pre })
      ≡ some (body u, record { bytes = all_bytes; offset = passed })
  unfolding next_nal find_start_code start_code_len starts_long
  next_nal-body =
      let start : find_start_code all_bytes (length pre) ≡ some (length pre) =
        ap (λ xs. find_from xs (length pre)) (drop_pre ∙ stream_of_cons u us)
        ∙ find_from-start_code (body u ++ stream_of us) (length pre) in
      let four : start_code_len (drop (length pre) all_bytes) ≡ some 4 =
        ap start_code_len (drop_pre ∙ stream_of_cons u us) in
      rw (next_nal, start, four, nal_at-body)

next_nal_end :
    (pre bytes : List ℕ) (offset : ℕ)
    → bytes ≡ pre ++ []
    → offset ≡ length pre
    → next_nal (record { bytes = bytes; offset = offset }) ≡ none
unfolding find_start_code find_from next_nal
next_nal_end pre bytes offset e o =
    let nothing : drop offset bytes ≡ [] = rw (e, o) (drop-append (length pre) pre [] refl) in
    rw (next_nal, find_start_code, nothing)

abbrev map_bodies : List NalUnit → List (List ℕ)
map_bodies [] = []
map_bodies (u ∷ us) = body u ∷ map_bodies us

collect_nals-stream_of :
    (fuel : ℕ) (pre : List ℕ) (us : List NalUnit) (bytes : List ℕ) (offset : ℕ)
    → All HasHeader us
    → length us ≤ fuel
    → bytes ≡ pre ++ stream_of us
    → offset ≡ length pre
    → collect_nals fuel (record { bytes = bytes; offset = offset }) ≡ map_bodies us
unfolding collect_nals
collect_nals-stream_of zero pre [] bytes offset hs enough e o = refl
collect_nals-stream_of zero pre (u ∷ us) bytes offset hs enough e o = absurd (omega arith)
collect_nals-stream_of (suc fuel) pre [] bytes offset hs enough e o =
    rw (collect_nals, next_nal_end pre bytes offset e o)
collect_nals-stream_of (suc fuel) pre (u ∷ us) bytes offset hs enough e o =
    let pre' = pre ++ (start_code ++ body u) in
    let rest =
      collect_nals-stream_of fuel pre' us (all_bytes pre u us hs.0) (passed pre u us hs.0) hs.1
        (omega arith)
        (ap (λ xs. pre ++ xs) (stream_of_cons u us)
          ∙ sym (append_assoc pre (start_code ++ body u) (stream_of us)))
        (omega (arith, length-append pre (start_code ++ body u))) in
    rw (collect_nals, e, o, next_nal-body pre u us hs.0, rest)

units_of-map_bodies : (us : List NalUnit) → map unit_of (map_bodies us) ≡ map some us
units_of-map_bodies [] = refl
units_of-map_bodies (u ∷ us) = rw (unescape-escape u.payload, units_of-map_bodies us)

-- For units whose headers are not zero, and with at least as much fuel as there are units, the
-- units that the decoder finds in the encoder's stream, unescaped, are the ones that were written,
-- in their order and with their headers, whatever bytes the payloads hold.
pub collect_nals-append_nal :
    (us : List NalUnit) (fuel : ℕ)
    → All HasHeader us
    → length us ≤ fuel
    → map unit_of (collect_nals fuel (annex_b_nals (stream_of us))) ≡ map some us
unfolding annex_b_nals
collect_nals-append_nal us fuel hs enough =
    ap (map unit_of) (collect_nals-stream_of fuel [] us (stream_of us) 0 hs enough refl refl)
    ∙ units_of-map_bodies us
