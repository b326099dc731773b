-- ===== src/Protocol/Tests/Json.antt =====
-- An instance of the theorem about the JSON lines of the control messages.
use teamview.Prelude.{ℕ, ◌≡◌, refl, ap, sym, ◌==◌, if◌then◌else◌, List, [], ◌∷◌, ◌++◌}
use teamview.Prelude.Text.{Text}
use teamview.Prelude.Result.{Result, ok, err}
use teamview.Protocol.Codec.{protocol_version}
use teamview.Protocol.Control.Envelope.{ControlEnvelope}
use teamview.Protocol.Control.Json.{
  Json, JsonLaws, ControlCodecError, encode_envelope, decode_envelope,
  decode_envelope-encode_envelope,
}

-- Envelopes whose message is a number, as an object of three bytes.
abbrev line_of : ControlEnvelope ℕ → List ℕ
line_of envelope =
    b'{' ∷ envelope.protocol_version ∷ envelope.request_id ∷ envelope.message ∷ b'}' ∷ []

read_line : List ℕ → Result Text (ControlEnvelope ℕ)
read_line (o ∷ version ∷ request ∷ message ∷ bytes) =
    ok (record { protocol_version = version; request_id = request; message = message })
read_line _ = err []

abbrev lines : Json (ControlEnvelope ℕ)
lines = record { to_vec = λ envelope. ok (line_of envelope); from_slice = read_line }

abbrev bytes_of : Result Text (List ℕ) → List ℕ
bytes_of (ok bytes) = bytes
bytes_of _ = []

lines_laws : JsonLaws lines
unfolding read_line
lines_laws = record {
  from_slice-to_vec = λ envelope bytes e. ap read_line (sym (ap bytes_of e));
  object = λ envelope bytes e. (
    envelope.protocol_version ∷ envelope.request_id ∷ envelope.message ∷ [],
    sym (ap bytes_of e),
  );
}

abbrev envelope : ControlEnvelope ℕ
envelope = record { protocol_version = 2; request_id = 12; message = 10 }

encoded : encode_envelope lines envelope ≡ ok (line_of envelope ++ (b'\n' ∷ []))
unfolding encode_envelope
encoded = refl

decode_envelope-encode_envelope_example :
    decode_envelope lines (line_of envelope ++ (b'\n' ∷ [])) ≡ (
      if envelope.protocol_version == protocol_version
      then ok envelope
      else err (ControlCodecError.unsupported_version 2))
decode_envelope-encode_envelope_example =
    decode_envelope-encode_envelope lines_laws envelope (line_of envelope ++ (b'\n' ∷ [])) encoded
