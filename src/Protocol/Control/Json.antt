-- ===== src/Protocol/Control/Json.antt =====
-- crates/protocol/src/control.rs: the JSON lines of the control messages. serde_json is not part of
-- the repository, so the definitions take it as an argument.
use teamview.Prelude.{
  ℕ, ◌≡◌, refl, ap, sym, ◌∙◌, Bool, ◌||◌, List, [], ◌∷◌, ◌++◌, ◌==◌, Bool-cases, inl, inr,
  if◌then◌else◌, arith,
}
use teamview.Prelude.Text.{Text, text, decimal}
use teamview.Prelude.Result.{Result, ok, err, panic, ◌>>=◌, ◌>>◌, guard, map_err}
use teamview.Protocol.Codec.{protocol_version}
use teamview.Protocol.Control.Envelope.{ControlEnvelope, ClientEnvelope, ServerEnvelope}

-- `serde_json::to_vec` and `from_slice` for one type; an error is its display text.
pub record Json (T : Type 0) : Type 0 where
  pub to_vec : T → Result Text (List ℕ)
  pub from_slice : List ℕ → Result Text T

-- What is written is one object and is read back.
pub record JsonLaws {T : Type 0} (json : Json T) : Type 0 where
  pub from_slice-to_vec :
      (t : T) (bytes : List ℕ) → json.to_vec t ≡ ok bytes → json.from_slice bytes ≡ ok t
  pub object :
      (t : T) (bytes : List ℕ)
      → json.to_vec t ≡ ok bytes
      → (inner : List ℕ) × (bytes ≡ b'{' ∷ (inner ++ (b'}' ∷ [])))

pub data ControlCodecError : Type 0 where
  json_error : Text → ControlCodecError
  unsupported_version : ℕ → ControlCodecError

-- The `Display` of the errors.
unfoldable pub codec_error_text : ControlCodecError → Text
codec_error_text (ControlCodecError.json_error e) = text "control message json error: " ++ e
codec_error_text (ControlCodecError.unsupported_version v) =
    text "unsupported control protocol version " ++ decimal v

-- `u8::is_ascii_whitespace`: space, tab, line feed, form feed, carriage return.
unfoldable pub is_ascii_whitespace : ℕ → Bool
is_ascii_whitespace b = b == 32 || b == 9 || b == 10 || b == 12 || b == 13

unfoldable pub trim_ascii_start : List ℕ → List ℕ
trim_ascii_start [] = []
trim_ascii_start (b ∷ bs) =
    let rest = trim_ascii_start bs in if is_ascii_whitespace b then rest else b ∷ bs

-- The byte goes if it is white and nothing is left behind it.
abbrev trimmed_cons : ℕ → List ℕ → List ℕ
trimmed_cons b [] = if is_ascii_whitespace b then [] else b ∷ []
trimmed_cons b (c ∷ cs) = b ∷ c ∷ cs

unfoldable pub trim_ascii_end : List ℕ → List ℕ
trim_ascii_end [] = []
trim_ascii_end (b ∷ bs) = trimmed_cons b (trim_ascii_end bs)

unfoldable pub trim_ascii : List ℕ → List ℕ
trim_ascii bytes = trim_ascii_end (trim_ascii_start bytes)

module _ {T : Type 0} (json : Json (ControlEnvelope T)) where
  unfoldable pub encode_envelope : ControlEnvelope T → Result ControlCodecError (List ℕ)
  encode_envelope envelope = do
    bytes ← map_err ControlCodecError.json_error (json.to_vec envelope)
    ok (bytes ++ (b'\n' ∷ []))

  unfoldable pub decode_envelope : List ℕ → Result ControlCodecError (ControlEnvelope T)
  decode_envelope bytes = do
    envelope ← map_err ControlCodecError.json_error (json.from_slice (trim_ascii bytes))
    guard (envelope.protocol_version == protocol_version)
        (ControlCodecError.unsupported_version envelope.protocol_version)
    ok envelope

unfoldable pub decode_client_envelope :
    Json ClientEnvelope → List ℕ → Result ControlCodecError ClientEnvelope
unfolding decode_envelope
decode_client_envelope json bytes = decode_envelope json bytes

unfoldable pub encode_server_envelope :
    Json ServerEnvelope → ServerEnvelope → Result ControlCodecError (List ℕ)
unfolding encode_envelope
encode_server_envelope json envelope = encode_envelope json envelope

unfoldable pub encode_client_envelope :
    Json ClientEnvelope → ClientEnvelope → Result ControlCodecError (List ℕ)
unfolding encode_envelope
encode_client_envelope json envelope = encode_envelope json envelope

unfoldable pub decode_server_envelope :
    Json ServerEnvelope → List ℕ → Result ControlCodecError ServerEnvelope
unfolding decode_envelope
decode_server_envelope json bytes = decode_envelope json bytes

trimmed_cons_kept :
    (x : ℕ) (xs : List ℕ) → trimmed_cons x (xs ++ (b'}' ∷ [])) ≡ x ∷ (xs ++ (b'}' ∷ []))
trimmed_cons_kept x [] = refl
trimmed_cons_kept x (y ∷ ys) = refl

trim_ascii_end-object :
    (xs : List ℕ) → trim_ascii_end ((xs ++ (b'}' ∷ [])) ++ (b'\n' ∷ [])) ≡ xs ++ (b'}' ∷ [])
unfolding trim_ascii_end is_ascii_whitespace
trim_ascii_end-object [] = refl
trim_ascii_end-object (x ∷ xs) = rw (trim_ascii_end-object xs) (trimmed_cons_kept x xs)

-- The line break behind an object is taken off, and the object stays.
trim_ascii-object :
    (inner : List ℕ)
    → trim_ascii ((b'{' ∷ (inner ++ (b'}' ∷ []))) ++ (b'\n' ∷ [])) ≡ b'{' ∷ (inner ++ (b'}' ∷ []))
unfolding trim_ascii trim_ascii_start is_ascii_whitespace
trim_ascii-object inner = trim_ascii_end-object (b'{' ∷ inner)

-- What is encoded is the JSON text and a line break.
encoded_parts :
    {T : Type 0} (json : Json (ControlEnvelope T)) (envelope : ControlEnvelope T) (bytes : List ℕ)
    (r : Result Text (List ℕ))
    → json.to_vec envelope ≡ r
    → encode_envelope json envelope ≡ ok bytes
    → (line : List ℕ) × (json.to_vec envelope ≡ ok line) × (bytes ≡ line ++ (b'\n' ∷ []))
unfolding encode_envelope
encoded_parts json envelope bytes (ok line) e done = (line, e, ground (arith, e, done))
encoded_parts json envelope bytes (err x) e done = ground (arith, e, done)
encoded_parts json envelope bytes panic e done = ground (arith, e, done)

module _ {T : Type 0} {json : Json (ControlEnvelope T)} (laws : JsonLaws json) where
  -- Where the JSON library reads back the objects that it writes, an encoded envelope is decoded to
  -- itself if its protocol version is this one, and to the error for its version otherwise.
  pub decode_envelope-encode_envelope :
      (envelope : ControlEnvelope T) (bytes : List ℕ)
      → encode_envelope json envelope ≡ ok bytes
      → decode_envelope json bytes ≡ (
          if envelope.protocol_version == protocol_version
          then ok envelope
          else err (ControlCodecError.unsupported_version envelope.protocol_version))
  unfolding decode_envelope
  decode_envelope-encode_envelope envelope bytes e =
      let (line, written, same) = encoded_parts json envelope bytes _ refl e in
      let (inner, shape) = laws.object envelope line written in
      let read : json.from_slice (trim_ascii bytes) ≡ ok envelope =
        ap json.from_slice (rw (same, shape) (trim_ascii-object inner) ∙ sym shape)
        ∙ laws.from_slice-to_vec envelope line written in
      rw (decode_envelope, read)
        (elim (Bool-cases (envelope.protocol_version == protocol_version)) [
          | inl current ↦ rw current
          | inr other ↦ rw other
        ])
