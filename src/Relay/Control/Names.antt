-- ===== src/Relay/Control/Names.antt =====
-- crates/relay-server/src/control.rs: how display names, room names and remote text are cleaned.
pub mod Clean
use teamview.Prelude.{
  ℕ, zero, suc, ◌+◌, Bool, true, false, not, ◌&&◌, ◌||◌, Option, none, some, List, [], ◌∷◌, ◌++◌,
  ◌==◌, ltb, leb, take, if◌then◌else◌,
}
use teamview.Prelude.Text.{Text, text, decimal}
use teamview.Protocol.Control.Media.{RemoteInputKind}

abbrev pub max_display_name_chars : ℕ
max_display_name_chars = 64

abbrev pub max_room_name_chars : ℕ
max_room_name_chars = 64

abbrev pub max_remote_input_text_chars : ℕ
max_remote_input_text_chars = 256

-- `char::is_whitespace`: the code points with the property White_Space.
unfoldable pub is_whitespace : ℕ → Bool
is_whitespace c =
    (leb 9 c && leb c 13)
    || (c == 32
        || (c == 0x85
            || (c == 0xa0
                || (c == 0x1680
                    || ((leb 0x2000 c && leb c 0x200a)
                        || (c == 0x2028
                            || (c == 0x2029 || (c == 0x202f || (c == 0x205f || c == 0x3000)))))))))

-- `char::is_control`: the code points of the category Cc.
unfoldable pub is_control : ℕ → Bool
is_control c = ltb c 32 || (leb 0x7f c && leb c 0x9f)

-- `str::trim_start` and `str::trim_end`
unfoldable pub trim_start : Text → Text
trim_start [] = []
trim_start (c ∷ cs) = let rest = trim_start cs in if is_whitespace c then rest else c ∷ cs

unfoldable pub is_nil : Text → Bool
is_nil [] = true
is_nil (c ∷ cs) = false

unfoldable pub trim_end : Text → Text
unfolding is_nil
trim_end [] = []
trim_end (c ∷ cs) =
    let rest = trim_end cs in if is_nil rest && is_whitespace c then [] else c ∷ rest

unfoldable pub trim : Text → Text
trim cs = trim_end (trim_start cs)

-- The character that one round of the loop pushes, if it pushes one.
unfoldable pub next_char : Bool → ℕ → Option ℕ
next_char previous_was_space ch =
    if is_whitespace ch
    then (if previous_was_space then none else some 32)
    else (if is_control ch then none else some ch)

-- The loop of `sanitize_human_name`: what it pushes from here on.
unfoldable pub sanitize_loop : ℕ → ℕ → Bool → Text → Text
sanitize_loop max_chars char_count previous_was_space [] = []
sanitize_loop max_chars char_count previous_was_space (ch ∷ cs) = elim (leb max_chars char_count) [
  | true ↦ []
  | false ↦ elim (next_char previous_was_space ch) [
    | none ↦ sanitize_loop max_chars char_count previous_was_space cs
    | some next ↦ next ∷ sanitize_loop max_chars (char_count + 1) (next == 32) cs
  ]
]

unfoldable pub sanitize_human_name : Text → ℕ → Text → Text
unfolding is_nil
sanitize_human_name raw_name max_chars fallback =
    let name = trim (sanitize_loop max_chars 0 false (trim raw_name)) in
    if is_nil name then fallback else name

unfoldable pub sanitize_display_name : Text → ℕ → Text
sanitize_display_name raw_name user_id =
    sanitize_human_name raw_name max_display_name_chars (text "user-" ++ decimal user_id)

unfoldable pub sanitize_room_name : Text → ℕ → Text
sanitize_room_name raw_name room_id =
    sanitize_human_name raw_name max_room_name_chars (text "room-" ++ decimal room_id)

-- A character of remote text is kept if it is printable or one of `\n`, `\r`, `\t`.
unfoldable pub is_input_char : ℕ → Bool
is_input_char ch = not (is_control ch) || (ch == 10 || (ch == 13 || ch == 9))

unfoldable pub input_chars : Text → Text
input_chars [] = []
input_chars (ch ∷ cs) = let rest = input_chars cs in if is_input_char ch then ch ∷ rest else rest

-- `Ok` of the cleaned input, or `none` where the source refuses an empty text.
unfoldable pub sanitize_remote_input_kind : RemoteInputKind → Option RemoteInputKind
unfolding is_nil
sanitize_remote_input_kind (RemoteInputKind.text t) =
    let sanitized = input_chars (take max_remote_input_text_chars t) in
    if is_nil sanitized then none else some (RemoteInputKind.text sanitized)
sanitize_remote_input_kind (RemoteInputKind.pointer_move x y) =
    some (RemoteInputKind.pointer_move x y)
sanitize_remote_input_kind (RemoteInputKind.pointer_button b p x y) =
    some (RemoteInputKind.pointer_button b p x y)
sanitize_remote_input_kind (RemoteInputKind.pointer_wheel dx dy x y) =
    some (RemoteInputKind.pointer_wheel dx dy x y)
sanitize_remote_input_kind (RemoteInputKind.key k p) = some (RemoteInputKind.key k p)
