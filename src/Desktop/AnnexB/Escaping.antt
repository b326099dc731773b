-- ===== src/Desktop/AnnexB/Escaping.antt =====
-- Escaped payloads of crates/desktop-client: they are read back and hold no start code.
use teamview.Prelude.{
  ℕ, ◌+◌, ◌≡◌, ◌≢◌, refl, ◌∙◌, ap, subst, true, false, ◌&&◌, ◌||◌, List, [], ◌∷◌, ◌++◌, ◌==◌, leb,
  if◌then◌else◌, length, Bool-cases, inl, inr, arith,
}
use teamview.Desktop.AnnexB.{
  start_code, zeros_after, escape_from, annex_b_escape_payload, unescape_from,
  annex_b_unescape_payload, starts_short, starts_long, find_from,
}

unescape_from-escape_from :
    (nulls : ℕ) (payload : List ℕ) → unescape_from nulls (escape_from nulls payload) ≡ payload
unfolding unescape_from escape_from zeros_after
unescape_from-escape_from nulls [] = refl
unescape_from-escape_from nulls (b ∷ bs) = ground (
  arith,
  unescape_from-escape_from (if b == 0 then 1 else 0) bs,
  unescape_from-escape_from (zeros_after nulls b) bs,
)

pub unescape-escape :
    (payload : List ℕ) → annex_b_unescape_payload (annex_b_escape_payload payload) ≡ payload
unfolding annex_b_unescape_payload annex_b_escape_payload
unescape-escape payload = unescape_from-escape_from 0 payload

-- What may stand behind a unit: nothing, or the next start code.
pub data IsTail : List ℕ → Type 0 where
  ended : IsTail []
  next_unit : (rest : List ℕ) → IsTail (start_code ++ rest)

-- No start code begins with the first byte of an escaped payload.
escaped-starts :
    (nulls : ℕ) (b : ℕ) (bs rest : List ℕ)
    → IsTail rest
    → (starts_short (escape_from nulls (b ∷ bs) ++ rest)
        || starts_long (escape_from nulls (b ∷ bs) ++ rest))
      ≡ false
unfolding escape_from zeros_after starts_short starts_long
escaped-starts nulls b [] rest ended = ground arith
escaped-starts nulls b [] rest (next_unit r) = ground arith
escaped-starts nulls b (c ∷ []) rest ended = ground arith
escaped-starts nulls b (c ∷ []) rest (next_unit r) = ground arith
escaped-starts nulls b (c ∷ d ∷ bs) rest tail = ground arith

pub find_from_step :
    (b : ℕ) (bs : List ℕ) (i : ℕ)
    → (starts_short (b ∷ bs) || starts_long (b ∷ bs)) ≡ false
    → find_from (b ∷ bs) i ≡ find_from bs (i + 1)
unfolding find_from
find_from_step b bs i h = rw h

pub starts-not_null :
    (b : ℕ) (bs : List ℕ) → b ≢ 0 → (starts_short (b ∷ bs) || starts_long (b ∷ bs)) ≡ false
unfolding starts_short starts_long
starts-not_null b [] h = refl
starts-not_null b (c ∷ []) h = refl
starts-not_null b (c ∷ d ∷ []) h = ground arith
starts-not_null b (c ∷ d ∷ e ∷ bs) h = ground arith

escape_plain :
    (nulls b : ℕ) (bs : List ℕ)
    → (leb 2 nulls && leb b 3) ≡ false
    → escape_from nulls (b ∷ bs) ≡ b ∷ escape_from (zeros_after nulls b) bs
unfolding escape_from
escape_plain nulls b bs h = rw h

escape_stuffed :
    (nulls b : ℕ) (bs : List ℕ)
    → (leb 2 nulls && leb b 3) ≡ true
    → escape_from nulls (b ∷ bs) ≡ 3 ∷ b ∷ escape_from (zeros_after 0 b) bs
unfolding escape_from
escape_stuffed nulls b bs h = rw h

escape_none :
    (nulls : ℕ) (rest : List ℕ) (i : ℕ)
    → find_from (escape_from nulls [] ++ rest) i
      ≡ find_from rest (i + length (escape_from nulls []))
unfolding escape_from
escape_none nulls rest i = ap (find_from rest) (omega arith)

-- The search passes over an escaped payload.
pub find_from-escape_from :
    (nulls : ℕ) (payload rest : List ℕ) (i : ℕ)
    → IsTail rest
    → find_from (escape_from nulls payload ++ rest) i
      ≡ find_from rest (i + length (escape_from nulls payload))
find_from-escape_from nulls [] rest i tail = escape_none nulls rest i
find_from-escape_from nulls (b ∷ bs) rest i tail = elim (Bool-cases (leb 2 nulls && leb b 3)) [
  | inl stuffed ↦
      let e = escape_stuffed nulls b bs stuffed in
      let rest_bytes = escape_from (zeros_after 0 b) bs ++ rest in
      let unstuffed = escape_plain 0 b bs (ground arith) in
      let quiet : (starts_short (b ∷ rest_bytes) || starts_long (b ∷ rest_bytes)) ≡ false =
        subst (λ xs. (starts_short (xs ++ rest) || starts_long (xs ++ rest)) ≡ false) unstuffed
          (escaped-starts 0 b bs rest tail) in
      rw e (
        find_from_step 3 (b ∷ rest_bytes) i (starts-not_null 3 (b ∷ rest_bytes) (omega arith))
        ∙ find_from_step b rest_bytes (i + 1) quiet
        ∙ find_from-escape_from (zeros_after 0 b) bs rest (i + 1 + 1) tail
        ∙ ap (find_from rest) (omega arith))
  | inr plain ↦
      let e = escape_plain nulls b bs plain in
      let rest_bytes = escape_from (zeros_after nulls b) bs ++ rest in
      let quiet : (starts_short (b ∷ rest_bytes) || starts_long (b ∷ rest_bytes)) ≡ false =
        subst (λ xs. (starts_short (xs ++ rest) || starts_long (xs ++ rest)) ≡ false) e
          (escaped-starts nulls b bs rest tail) in
      rw e (
        find_from_step b rest_bytes i quiet
        ∙ find_from-escape_from (zeros_after nulls b) bs rest (i + 1) tail
        ∙ ap (find_from rest) (omega arith))
]
