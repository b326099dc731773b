-- ===== src/Protocol/Codec.antt =====
-- crates/protocol/src/codec.rs and lib.rs: the codec identifiers and the protocol version.
use teamview.Prelude.{ℕ, Bool, true, ◌==◌, if◌then◌else◌, ◌≡◌, ◌↔◌, arith}
use teamview.Prelude.Result.{Result, ok, err}

abbrev pub protocol_version : ℕ
protocol_version = 1

pub data CodecId : Type 0 where
  h264 av1 hevc opus : CodecId

pub record UnknownCodec : Type 0 where
  pub value : ℕ

-- `impl TryFrom<u8> for CodecId`
unfoldable pub codec_of_u8 : ℕ → Result UnknownCodec CodecId
codec_of_u8 value =
    if value == 1
    then ok CodecId.h264
    else (if value == 2
        then ok CodecId.av1
        else (if value == 3
            then ok CodecId.hevc
            else (if value == 16 then ok CodecId.opus else err (record { value = value }))))

-- `impl From<CodecId> for u8`
unfoldable pub u8_of_codec : CodecId → ℕ
u8_of_codec CodecId.h264 = 1
u8_of_codec CodecId.av1 = 2
u8_of_codec CodecId.hevc = 3
u8_of_codec CodecId.opus = 16

-- The derived `PartialEq`.
unfoldable pub eq_codec : CodecId → CodecId → Bool
unfolding u8_of_codec
eq_codec a b = u8_of_codec a == u8_of_codec b

pub codec_of_u8-u8_of_codec : (c : CodecId) → codec_of_u8 (u8_of_codec c) ≡ ok c
unfolding codec_of_u8 u8_of_codec
codec_of_u8-u8_of_codec c = ground arith

pub eq_codec_iff : (a b : CodecId) → (eq_codec a b ≡ true) ↔ (a ≡ b)
unfolding eq_codec
eq_codec_iff a b = ground arith
