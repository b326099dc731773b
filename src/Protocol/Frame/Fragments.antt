-- ===== src/Protocol/Frame/Fragments.antt =====
-- The packets that crates/protocol/src/frame.rs cuts a frame into.
use native.Mathlib.Nat.{le_trans, div-add-mod, mod-lt}
use teamview.Prelude.{
  ℕ, zero, suc, ◌+◌, ◌-◌, ◌*◌, ◌/◌, ◌%◌, ◌≤◌, ◌<◌, ◌≡◌, refl, ap, ◌∙◌, sym, min, max, false, not,
  ◌&&◌, List, [], ◌∷◌, ◌++◌, length, take, drop, length-take, length-drop, take_eq, drop-drop,
  drop_of_length-le, take-append-drop, ◌==◌, le→leb, ne→==, some, arith, Bool-cases, inl, inr,
  ==_iff,
}
use teamview.Prelude.Result.{ok}
use teamview.Protocol.Codec.{CodecId, eq_codec}
use teamview.Protocol.Wire.{Wire}
use teamview.Protocol.Packet.{
  PacketType, MediaPacket, eq_packet_type, validate, encode, encode_header,
}
use teamview.Protocol.Packet.RoundTrip.{encode-ok_iff}
use teamview.Protocol.Frame.{
  EncodedFrame, fragment_count_of, fragment_payload, fragment_packet, packetize_loop,
  packetize_frame_with_type,
}

-- The bytes of one fragment.
abbrev pub chunk : EncodedFrame → ℕ → ℕ → List ℕ
chunk frame m index = take m (drop (index * m) frame.bytes)

-- The packets of the fragments from `index` on.
unfoldable pub fragments : EncodedFrame → PacketType → ℕ → ℕ → ℕ → ℕ → ℕ → List MediaPacket
fragments frame t first m count zero index = []
fragments frame t first m count (suc rounds) index =
    fragment_packet frame t first count index (chunk frame m index)
    ∷ fragments frame t first m count rounds (index + 1)

abbrev pub payloads : List MediaPacket → List ℕ
payloads [] = []
payloads (p ∷ ps) = p.payload ++ payloads ps

-- A probe carries H264 only.
abbrev pub CanCarry : PacketType → CodecId → Type 0
CanCarry t c = (eq_packet_type t PacketType.probe && not (eq_codec c CodecId.h264)) ≡ false

mul_mono : (a b m : ℕ) → a ≤ b → a * m ≤ b * m
mul_mono a b m h = grind arith

ceil_bounds :
    (q len m r : ℕ)
    → 0 < m
    → m * q + r ≡ len + m - 1
    → r < m
    → ((max q 1 - 1) * m ≤ len) × (len ≤ max q 1 * m)
ceil_bounds zero len m r h e lt = (omega arith, omega arith)
ceil_bounds (suc q) len m r h e lt = (grind arith, grind arith)

-- As many fragments as are needed, and no more.
pub fragment_count_bounds :
    (frame : EncodedFrame) (m : ℕ)
    → 0 < m
    → let count = fragment_count_of frame m in
      (1 ≤ count) × ((count - 1) * m ≤ length frame.bytes) × (length frame.bytes ≤ count * m)
unfolding fragment_count_of
fragment_count_bounds frame m h =
    let len = length frame.bytes in
    let q = (len + m - 1) / m in
    let parts = div-add-mod (len + m - 1) m in
    let small = mod-lt (len + m - 1) h in
    let (lo, hi) = ceil_bounds q len m ((len + m - 1) % m) h parts small in (omega arith, lo, hi)

module _ (frame : EncodedFrame) (m : ℕ) (pos_m : 0 < m) where
  fragment_payload-chunk :
      (index : ℕ)
      → index * m ≤ length frame.bytes
      → fragment_payload frame m index ≡ some (chunk frame m index)
  unfolding fragment_payload
  fragment_payload-chunk index h =
      let body = drop (index * m) frame.bytes in
      let size = length-drop (index * m) frame.bytes in
      let stop = min ((index + 1) * m) (length frame.bytes) in
      elim (Bool-cases (index * m == stop)) [
        | inl e ↦ rw e (ap some (take_eq 0 m body (omega (arith, (==_iff (index * m) stop).0 e))))
        | inr e ↦
            rw
              (
                e,
                le→leb (index * m) stop (omega arith),
                le→leb stop (length frame.bytes) (omega arith),
              )
              (ap some (take_eq (stop - index * m) m body (omega arith)))
      ]

  length-chunk-le : (index : ℕ) → length (chunk frame m index) ≤ m
  length-chunk-le index = omega (arith, length-take m (drop (index * m) frame.bytes))

  -- The payloads put one behind the other are the frame's bytes.
  payloads-fragments :
      (t : PacketType) (first count rounds index : ℕ)
      → length frame.bytes ≤ (index + rounds) * m
      → payloads (fragments frame t first m count rounds index) ≡ drop (index * m) frame.bytes
  unfolding fragments fragment_packet
  payloads-fragments t first count zero index h =
      sym (drop_of_length-le (index * m) frame.bytes (omega arith))
  payloads-fragments t first count (suc rounds) index h =
      rw
        (
          payloads-fragments t first count rounds (index + 1) (omega arith),
          ← drop-drop m (index * m) ((index + 1) * m) frame.bytes (omega arith),
        )
        (take-append-drop m (drop (index * m) frame.bytes))

  module _ (w : Wire) (t : PacketType) (first count : ℕ) (small_m : m ≤ 65535)
      (small : count ≤ 65535) (carries : CanCarry t frame.codec) where
    pub validate-fragment_packet :
        (index : ℕ) (payload : List ℕ)
        → index < count
        → validate (fragment_packet frame t first count index payload).header ≡ ok tt
    unfolding validate fragment_packet
    validate-fragment_packet index payload h = ground arith

    encode-fragment_packet :
        (index : ℕ)
        → index < count
        → let p = fragment_packet frame t first count index (chunk frame m index) in
          encode w p ≡ ok (encode_header w p.header ++ p.payload)
    unfolding fragment_packet
    encode-fragment_packet index h =
        let fits = length-chunk-le index in
        (encode-ok_iff w (fragment_packet frame t first count index (chunk frame m index)) _).1
          (omega arith, omega arith, validate-fragment_packet index (chunk frame m index) h, refl)

    packetize_loop-fragments :
        (rounds index : ℕ)
        → index + rounds ≡ count
        → (count - 1) * m ≤ length frame.bytes
        → packetize_loop w frame t first m count rounds index
          ≡ ok (fragments frame t first m count rounds index)
    unfolding packetize_loop fragments
    packetize_loop-fragments zero index e h = refl
    packetize_loop-fragments (suc rounds) index e h = rw (
      fragment_payload-chunk index (le_trans (mul_mono index (count - 1) m (omega arith)) h),
      encode-fragment_packet index (omega arith),
      packetize_loop-fragments rounds (index + 1) (omega arith) h,
    )

-- Where the limits allow it, packetizing gives these packets, and their payloads are the frame.
pub packetize-fragments :
    (w : Wire) (frame : EncodedFrame) (t : PacketType) (first m : ℕ)
    → 0 < m
    → m ≤ 65535
    → fragment_count_of frame m ≤ 65535
    → CanCarry t frame.codec
    → let count = fragment_count_of frame m in
      let ps = fragments frame t first m count count 0 in
      (packetize_frame_with_type w frame t first m ≡ ok ps) × (payloads ps ≡ frame.bytes)
unfolding packetize_frame_with_type
packetize-fragments w frame t first m h small fit carries =
    let count = fragment_count_of frame m in
    let (one, lo, hi) = fragment_count_bounds frame m h in
    let start : 0 * m ≡ 0 = omega arith in
    (
      rw (ne→== m 0 (omega arith), le→leb m 65535 small, le→leb count 65535 fit)
          (packetize_loop-fragments frame m h w t first count small fit carries count 0
            (omega arith) lo),
      payloads-fragments frame m h t first count count 0 (omega arith)
          ∙ ap (λ (k : ℕ). drop k frame.bytes) start,
    )
