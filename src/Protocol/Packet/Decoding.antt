-- ===== src/Protocol/Packet/Decoding.antt =====
-- What `MediaPacket::decode` of crates/protocol/src/packet.rs does with arbitrary bytes.
use teamview.Prelude.{
  ℕ, ◌+◌, ◌-◌, ◌≤◌, ◌<◌, ◌^◌, ◌≡◌, refl, ◌∙◌, ap, sym, subst, take_of_length-le, List, ◌++◌, length,
  length-drop, take, drop, Bool, true, false, leb, leb→le, ◌==◌, ==_iff, arith,
}
use teamview.Prelude.Result.{Result, ok, err, panic, ◌>>=◌, ◌>>◌, guard, need, map_err}
use teamview.Protocol.Codec.{CodecId, UnknownCodec, codec_of_u8, protocol_version}
use teamview.Protocol.Wire.{Wire, WireLaws, IntCodec, IntLaws}
use teamview.Protocol.Packet.{
  MediaPacketHeader, MediaPacket, PacketType, PacketDecodeError, DecodedMediaPacketHeader,
  packet_type_of_u8, encode_header, validate, decode_fields, decode_header, encode, decode,
}
use teamview.Protocol.Packet.RoundTrip.{Fits, encode-ok_iff, decode-encode}

-- No panic, and what a success gives satisfies `P`.
abbrev pub Yields : {E A : Type 0} → (A → Type 0) → Result E A → Type 0
Yields P (ok a) = P a
Yields P (err e) = Unit {0}
Yields P panic = ⊥

read_step :
    {E A B : Type 0} {width : ℕ} {FitsA : A → Type 0} {c : IntCodec A} (P : B → Type 0)
    (laws : IntLaws width FitsA c) (bs : List ℕ) (k : A × List ℕ → Result E B)
    → width ≤ length bs
    → ((a : A) (rest : List ℕ) → FitsA a → width + length rest ≡ length bs → Yields P (k (a, rest)))
    → Yields P (need (c.get bs) >>= k)
read_step {width} P laws bs k h next =
    let (a, e, fits) = laws.get_enough bs h in
    rw (e, ◌>>=◌) (next a (drop width bs) fits (omega (arith, length-drop width bs)))

Yields->>= :
    {E A B : Type 0} (Q : A → Type 0) (P : B → Type 0) (m : Result E A) (k : A → Result E B)
    → Yields Q m
    → ((a : A) → m ≡ ok a → Q a → Yields P (k a))
    → Yields P (m >>= k)
Yields->>= Q P (ok a) k h next = next a refl h
Yields->>= Q P (err e) k h next = tt
Yields->>= Q P panic k h next = absurd h

Yields-guard :
    {E B : Type 0} (P : B → Type 0) (b : Bool) (e : E) (k : Result E B)
    → (b ≡ true → Yields P k)
    → Yields P (guard b e >> k)
Yields-guard P true e k next = next refl
Yields-guard P false e k next = tt

abbrev as_decode_error : Result UnknownCodec CodecId → Result PacketDecodeError CodecId
as_decode_error = map_err (λ e. PacketDecodeError.unknown_codec e.value)

abbrev IsHeader : List ℕ → DecodedMediaPacketHeader → Type 0
IsHeader src d =
    Fits d.header
    × (d.header.version ≡ protocol_version)
    × (validate d.header ≡ ok tt)
    × (81 ≤ d.payload_offset)
    × (d.payload_offset ≤ length src)

-- A packet that the bytes of a datagram can hold.
abbrev pub IsPacketOf : List ℕ → MediaPacket → Type 0
IsPacketOf src p =
    Fits p.header
    × (p.header.version ≡ protocol_version)
    × (validate p.header ≡ ok tt)
    × (p.header.payload_length ≡ length p.payload)
    × (81 + length p.payload ≤ length src)
    × (p.payload ≡ drop (length src - length p.payload) src)

codec_step : (code : ℕ) → Yields (λ _. Unit {0}) (as_decode_error (codec_of_u8 code))
unfolding codec_of_u8
codec_step code = ground arith

packet_type_step : (id : ℕ) → Yields (λ _. Unit {0}) (packet_type_of_u8 id)
unfolding packet_type_of_u8
packet_type_step id = ground arith

validate_step : (h : MediaPacketHeader) → Yields (λ _. Unit {0}) (validate h)
unfolding validate
validate_step h = ground arith

module _ {w : Wire} (laws : WireLaws w) where
  open laws use {u8_laws, u16_laws, u32_laws, u64_laws, i64_laws}

  decode_fields-Fits :
      (version : ℕ) (t : PacketType) (flags : ℕ) (buf : List ℕ)
      → version < 2 ^ 8
      → flags < 2 ^ 8
      → 76 ≤ length buf
      → Yields (λ h. Fits h × (h.version ≡ version)) (decode_fields w version t flags buf)
  unfolding decode_fields
  decode_fields-Fits version t flags buf hv hf enough =
      read_step _ u32_laws buf _ (omega arith) λ room b1 f1 l1.
        read_step _ u32_laws b1 _ (omega arith) λ seq b2 f2 l2.
          read_step _ u32_laws b2 _ (omega arith) λ frame b3 f3 l3.
            read_step _ u16_laws b3 _ (omega arith) λ index b4 f4 l4.
              read_step _ u16_laws b4 _ (omega arith) λ count b5 f5 l5.
                read_step _ u64_laws b5 _ (omega arith) λ media b6 f6 l6.
                  read_step _ u64_laws b6 _ (omega arith) λ capture b7 f7 l7.
                    read_step _ i64_laws b7 _ (omega arith) λ offset b8 f8 l8.
                      read_step _ u64_laws b8 _ (omega arith) λ done b9 f9 l9.
                        read_step _ u64_laws b9 _ (omega arith) λ send b10 f10 l10.
                          read_step _ u64_laws b10 _ (omega arith) λ receive b11 f11 l11.
                            read_step _ u64_laws b11 _ (omega arith) λ sent b12 f12 l12.
                              read_step _ u8_laws b12 _ (omega arith) λ code b13 f13 l13.
                                Yields->>= (λ _. Unit {0}) (λ h. Fits h × (h.version ≡ version))
                                  (as_decode_error (codec_of_u8 code)) _ (codec_step code)
                                  λ codec _ _.
                                    read_step _ u8_laws b13 _ (omega arith) λ layer b14 f14 l14.
                                      read_step _ u16_laws b14 _ (omega arith)
                                        λ size b15 f15 l15. (assumption, refl)

  decode_header-Yields : (src : List ℕ) → Yields (IsHeader src) (decode_header w src)
  unfolding decode_header
  decode_header-Yields src = Yields-guard (IsHeader src) (leb 81 (length src)) _ _ λ enough.
      let room = leb→le 81 (length src) enough in
      read_step (IsHeader src) u8_laws src _ (omega arith) λ version b1 f1 l1.
        Yields-guard (IsHeader src) (version == protocol_version) _ _ λ current.
          read_step (IsHeader src) u8_laws b1 _ (omega arith) λ type_id b2 f2 l2.
            Yields->>= (λ _. Unit {0}) (IsHeader src) (packet_type_of_u8 type_id) _
              (packet_type_step type_id)
              λ t _ _. read_step (IsHeader src) u8_laws b2 _ (omega arith) λ flags b3 f3 l3.
                read_step (IsHeader src) u16_laws b3 _ (omega arith) λ len b4 f4 l4.
                  Yields-guard (IsHeader src) (leb 81 len) _ _ λ long.
                    Yields-guard (IsHeader src) (leb len (length src)) _ _ λ there.
                      Yields->>= (λ h. Fits h × (h.version ≡ version)) (IsHeader src)
                        (decode_fields w version t flags b4) _
                        (decode_fields-Fits version t flags b4 f1 f3 (omega arith))
                        λ h _ hh.
                          Yields->>= (λ _. Unit {0}) (IsHeader src) (validate h) _ (validate_step h)
                            λ _ valid _. (
                              hh.0,
                              hh.1 ∙ (==_iff version protocol_version).0 current,
                              valid,
                              leb→le 81 len long,
                              leb→le len (length src) there,
                            )

  -- Given the laws of the integer encodings, `decode` does not panic on any bytes; and a packet
  -- that it returns has fields in range, this version, a valid header whose length field is the
  -- payload's length, and a payload that is the end of the bytes.
  pub decode-Yields : (src : List ℕ) → Yields (IsPacketOf src) (decode w src)
  unfolding decode
  decode-Yields src =
      Yields->>= (IsHeader src) (IsPacketOf src) (decode_header w src) _ (decode_header-Yields src)
        λ d _ (fits, current, valid, low, there).
          let offset = d.payload_offset in
          let size = d.header.payload_length in
          Yields-guard _ _ _ _ λ up. Yields-guard _ _ _ _ λ down.
            let le₁ = leb→le (offset + size) (length src) up in
            let le₂ = leb→le (length src) (offset + size) down in
            let body = drop offset src in
            let size_eq : offset + size - offset ≡ length body =
              omega (arith, length-drop offset src) in
            let whole = take_of_length-le (offset + size - offset) body (omega arith) in
            let n : length (take (offset + size - offset) body) ≡ size =
              ap length whole ∙ omega (arith, length-drop offset src) in
            (fits, current, valid, sym n, omega arith, whole ∙ ap (λ k. drop k src) (omega arith))

  -- Given the laws of the integer encodings, `encode` accepts every packet that `decode` returned,
  -- and `decode` gives the packet again from its output.
  pub encode-decode :
      (src : List ℕ) (p : MediaPacket)
      → decode w src ≡ ok p
      → (encode w p ≡ ok (encode_header w p.header ++ p.payload))
        × (decode w (encode_header w p.header ++ p.payload) ≡ ok p)
  encode-decode src p e =
      let (fits, current, valid, says, _, _) =
        subst (Yields (IsPacketOf src)) e (decode-Yields src) in
      let bytes = encode_header w p.header ++ p.payload in
      let done = (encode-ok_iff w p bytes).1 (omega arith, says, valid, refl) in
      (done, decode-encode laws p fits bytes current done)
