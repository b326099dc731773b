-- ===== src/Relay/Control/Names/Clean.antt =====
-- What a cleaned name of crates/relay-server/src/control.rs is like.
use teamview.Prelude.{
  ℕ, zero, suc, ◌+◌, ◌-◌, ◌/◌, ◌%◌, ◌≤◌, ◌<◌, ◌≡◌, refl, Bool, true, false, [], ◌∷◌, ◌++◌, ◌==◌,
  ltb, length, All, length-append, arith, Bool-cases, ltb→lt, inl, inr,
}
use teamview.Prelude.Text.{Text, text, decimal, decimal_loop}
use teamview.Relay.Control.Names.{
  is_control, trim_start, trim_end, trim, is_nil, next_char, sanitize_loop, sanitize_human_name,
  sanitize_display_name, sanitize_room_name,
}

abbrev pub IsPrintable : Text → Type 0
IsPrintable = All (λ c. is_control c ≡ false)

-- A name that other users can be shown: not empty, of at most `n` characters, none of them a control
-- character.
pub record IsClean (n : ℕ) (name : Text) : Type 0 where
  pub not_empty : is_nil name ≡ false
  pub short : length name ≤ n
  pub printable : IsPrintable name

trim_start-kept :
    (cs : Text)
    → IsPrintable cs
    → IsPrintable (trim_start cs) × (length (trim_start cs) ≤ length cs)
unfolding trim_start
trim_start-kept [] p = (tt, omega arith)
trim_start-kept (c ∷ cs) p = ground (arith, trim_start-kept cs p.1)

trim_end-kept :
    (cs : Text) → IsPrintable cs → IsPrintable (trim_end cs) × (length (trim_end cs) ≤ length cs)
unfolding trim_end
trim_end-kept [] p = (tt, omega arith)
trim_end-kept (c ∷ cs) p = ground (arith, trim_end-kept cs p.1)

sanitize_loop-IsPrintable :
    (n count : ℕ) (space : Bool) (cs : Text) → IsPrintable (sanitize_loop n count space cs)
unfolding sanitize_loop next_char is_control
sanitize_loop-IsPrintable n count space [] = tt
sanitize_loop-IsPrintable n count space (c ∷ cs) =
    let a = sanitize_loop-IsPrintable n count space cs in
    let b = sanitize_loop-IsPrintable n (count + 1) true cs in
    let d = sanitize_loop-IsPrintable n (count + 1) (c == 32) cs in ground (arith, a, b, d)

sanitize_loop-length :
    (n count : ℕ) (space : Bool) (cs : Text) → length (sanitize_loop n count space cs) ≤ n - count
unfolding sanitize_loop next_char
sanitize_loop-length n count space [] = omega arith
sanitize_loop-length n count space (c ∷ cs) =
    let a = sanitize_loop-length n count space cs in
    let b = sanitize_loop-length n (count + 1) true cs in
    let d = sanitize_loop-length n (count + 1) (c == 32) cs in ground (arith, a, b, d)

sanitize_human_name-IsClean :
    (raw : Text) (n : ℕ) (fallback : Text)
    → IsClean n fallback
    → IsClean n (sanitize_human_name raw n fallback)
unfolding sanitize_human_name trim
sanitize_human_name-IsClean raw n fallback f =
    let loop = sanitize_loop n 0 false (trim raw) in
    let a = trim_start-kept loop (sanitize_loop-IsPrintable n 0 false (trim raw)) in
    let b = trim_end-kept (trim_start loop) a.0 in
    let l = sanitize_loop-length n 0 false (trim raw) in
    record {
      not_empty = ground (arith, f.not_empty);
      short = ground (arith, f.short, a.1, b.1, l);
      printable = ground (arith, f.printable, b.0);
    }

digit-printable : (n : ℕ) → n < 10 → is_control (48 + n) ≡ false
unfolding is_control
digit-printable n h = ground arith

append-IsPrintable : (s t : Text) → IsPrintable s → IsPrintable t → IsPrintable (s ++ t)
append-IsPrintable [] t p q = q
append-IsPrintable (c ∷ s) t p q = (p.0, append-IsPrintable s t p.1 q)

decimal_loop-kept : (f n : ℕ) → IsPrintable (decimal_loop f n) × (length (decimal_loop f n) ≤ f)
unfolding decimal_loop
decimal_loop-kept zero n = (tt, omega arith)
decimal_loop-kept (suc f) n =
    let ih = decimal_loop-kept f (n / 10) in
    let last = digit-printable (n % 10) (omega arith) in
    let p = append-IsPrintable (decimal_loop f (n / 10)) ((48 + n % 10) ∷ []) ih.0 (last, tt) in
    let l = length-append (decimal_loop f (n / 10)) ((48 + n % 10) ∷ []) in
    elim (Bool-cases (ltb n 10)) [
      | inl e ↦ rw e ((digit-printable n (ltb→lt n 10 e), tt), omega arith)
      | inr e ↦ rw e (p, omega (arith, l, ih.1))
    ]

-- The display name and the room name are not empty, have at most 64 characters and no control
-- character, whatever the client sent.
pub sanitized-IsClean :
    (raw : Text) (id : ℕ)
    → IsClean 64 (sanitize_display_name raw id) × IsClean 64 (sanitize_room_name raw id)
unfolding sanitize_display_name sanitize_room_name decimal text is_nil is_control
sanitized-IsClean raw id =
    let d = decimal_loop-kept 20 id in
    let user : IsClean 64 (text "user-" ++ decimal id) = record {
      not_empty = refl;
      short = omega (arith, length-append (text "user-") (decimal id), d.1);
      printable =
          append-IsPrintable (text "user-") (decimal id) (refl, (refl, (refl, (refl, (refl, tt)))))
            d.0;
    } in
    let room : IsClean 64 (text "room-" ++ decimal id) = record {
      not_empty = refl;
      short = omega (arith, length-append (text "room-") (decimal id), d.1);
      printable =
          append-IsPrintable (text "room-") (decimal id) (refl, (refl, (refl, (refl, (refl, tt)))))
            d.0;
    } in
    (sanitize_human_name-IsClean raw 64 _ user, sanitize_human_name-IsClean raw 64 _ room)
