-- ===== src/Desktop/AnnexB.antt =====
-- The framing of the synthetic H.264 stream: what crates/desktop-client/src/encode/h264.rs writes and
-- src/decode/h264.rs reads.
pub mod Escaping
pub mod Framing
use teamview.Prelude.{
  ℕ, zero, suc, ◌+◌, ◌-◌, Bool, true, false, ◌&&◌, ◌||◌, Option, none, some, List, [], ◌∷◌, ◌++◌,
  ◌==◌, leb, if◌then◌else◌, length, take, drop,
}
use teamview.Prelude.Words.{saturating_add}

abbrev pub start_code : List ℕ
start_code = 0 ∷ 0 ∷ 0 ∷ 1 ∷ []

-- The counter of nulls after one more byte.
unfoldable pub zeros_after : ℕ → ℕ → ℕ
zeros_after nulls byte = if byte == 0 then saturating_add 8 nulls 1 else 0

-- The loop of `annex_b_escape_payload`.
unfoldable pub escape_from : ℕ → List ℕ → List ℕ
unfolding zeros_after
escape_from nulls [] = []
escape_from nulls (byte ∷ bytes) =
    let escaped = escape_from (zeros_after 0 byte) bytes in
    let plain = escape_from (zeros_after nulls byte) bytes in
    if leb 2 nulls && leb byte 3 then 3 ∷ byte ∷ escaped else byte ∷ plain

unfoldable pub annex_b_escape_payload : List ℕ → List ℕ
unfolding escape_from
annex_b_escape_payload payload = escape_from 0 payload

-- What `append_nal` appends.
unfoldable pub append_nal : ℕ → List ℕ → List ℕ
unfolding annex_b_escape_payload
append_nal nal_header payload = start_code ++ (nal_header ∷ annex_b_escape_payload payload)

-- The loop of `annex_b_unescape_payload`.
unfoldable pub unescape_from : ℕ → List ℕ → List ℕ
unfolding zeros_after
unescape_from nulls [] = []
unescape_from nulls (byte ∷ bytes) =
    let skipped = unescape_from 0 bytes in
    let plain = unescape_from (zeros_after nulls byte) bytes in
    if leb 2 nulls && byte == 3 then skipped else byte ∷ plain

unfoldable pub annex_b_unescape_payload : List ℕ → List ℕ
unfolding unescape_from
annex_b_unescape_payload payload = unescape_from 0 payload

-- `starts_with(&[0, 0, 1])`
unfoldable pub starts_short : List ℕ → Bool
starts_short (a ∷ b ∷ c ∷ bytes) = (a == 0) && (b == 0) && (c == 1)
starts_short _ = false

-- `starts_with(&[0, 0, 0, 1])`
unfoldable pub starts_long : List ℕ → Bool
starts_long (a ∷ b ∷ c ∷ d ∷ bytes) = (a == 0) && (b == 0) && (c == 0) && (d == 1)
starts_long _ = false

-- The search over the bytes from `index` on; fewer than three bytes start no code.
unfoldable pub find_from : List ℕ → ℕ → Option ℕ
unfolding starts_short starts_long
find_from [] index = none
find_from (byte ∷ bytes) index =
    let rest = find_from bytes (index + 1) in
    if starts_short (byte ∷ bytes) || starts_long (byte ∷ bytes) then some index else rest

unfoldable pub find_start_code : List ℕ → ℕ → Option ℕ
find_start_code bytes offset = find_from (drop offset bytes) offset

unfoldable pub start_code_len : List ℕ → Option ℕ
start_code_len bytes =
    if starts_long bytes then some 4 else (if starts_short bytes then some 3 else none)

pub record AnnexBNals : Type 0 where
  pub bytes : List ℕ
  pub offset : ℕ

unfoldable pub annex_b_nals : List ℕ → AnnexBNals
annex_b_nals encoded = record { bytes = encoded; offset = 0 }

-- The unit that starts at `nal_start`, and the iterator behind it.
unfoldable pub nal_at : List ℕ → ℕ → List ℕ × AnnexBNals
nal_at bytes nal_start =
    let next_start : ℕ = elim (find_start_code bytes nal_start) [
      | some index ↦ index
      | none ↦ length bytes
    ] in
    (
      take (next_start - nal_start) (drop nal_start bytes),
      record { bytes = bytes; offset = next_start },
    )

-- `Iterator::next`
unfoldable pub next_nal : AnnexBNals → Option (List ℕ × AnnexBNals)
next_nal it = elim (find_start_code it.bytes it.offset) [
  | none ↦ none
  | some start ↦ elim (start_code_len (drop start it.bytes)) [
    | none ↦ none
    | some len ↦ some (nal_at it.bytes (start + len))
  ]
]

-- The units that the iterator gives, at most as many as the fuel.
unfoldable pub collect_nals : ℕ → AnnexBNals → List (List ℕ)
collect_nals zero it = []
collect_nals (suc fuel) it = elim (next_nal it) [ none ↦ [] | some r ↦ r.0 ∷ collect_nals fuel r.1 ]
